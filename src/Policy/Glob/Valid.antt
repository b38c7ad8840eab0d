-- ===== src/Policy/Glob/Valid.antt =====
-- What a compiled glob is: the bounds on its pattern that `Match` relies on.
use kordn.Base.{
  suc, ◌≤◌, ◌<◌, [], ◌∷◌, Bool, ◌≡◌, refl, ap, Bytes, length, arith, if◌then◌else◌, ok,
}
use kordn.Policy.Glob.{Glob, max_glob_length, validate_glob_pattern, compile_glob, ascii_lower}

pub length-ascii_lower : (s : Bytes) → length (ascii_lower s) ≡ length s
unfolding ascii_lower
length-ascii_lower [] = refl
length-ascii_lower (c ∷ s) = ap suc (length-ascii_lower s)

-- A pattern that passes validation is not empty and has at most 512 bytes.
pub validate-bounds :
    (pattern : Bytes) (action : Bool)
    → validate_glob_pattern pattern action ≡ ok tt
    → (0 < length pattern) × (length pattern ≤ max_glob_length)
unfolding validate_glob_pattern
validate-bounds pattern action h = ground arith

-- `validateGlobPattern` answers with an error or with none.
pub validate-cases :
    (pattern : Bytes) (action : Bool) {g : Glob}
    → compile_glob pattern action ≡ ok g
    → (validate_glob_pattern pattern action ≡ ok tt)
      × (g ≡ record { pattern = if action then ascii_lower pattern else pattern; action = action })
unfolding compile_glob
validate-cases pattern action h = ground arith

pub compile_glob-ok :
    (pattern : Bytes) (action : Bool)
    → validate_glob_pattern pattern action ≡ ok tt
    → compile_glob pattern action
      ≡ ok (record { pattern = if action then ascii_lower pattern else pattern; action = action })
unfolding compile_glob
compile_glob-ok pattern action h = rw h

-- A compiled pattern has between 1 and 512 bytes.
pub compile_glob-bounds :
    (pattern : Bytes) (action : Bool) {g : Glob}
    → compile_glob pattern action ≡ ok g
    → (0 < length g.pattern) × (length g.pattern ≤ max_glob_length)
compile_glob-bounds pattern action h =
    let (v, e) = validate-cases pattern action h in
    ground (arith, validate-bounds pattern action v, length-ascii_lower pattern)
