-- ===== src/Policy/Glob/Match.antt =====
-- `Match` against the meaning of a glob.
use kordn.Base.{
  ◌≤◌, ◌<◌, Bool, true, false, ◌≡◌, ◌↔◌, refl, sym, ◌∙◌, Bytes, length, arith, if◌then◌else◌,
  valid_string, any_rune, all_runes, is_control, Result, ok, err,
}
use kordn.Policy.Glob.{
  Glob, GlobError, max_glob_length, validate_glob_pattern, compile_glob, ascii_lower, match,
  run_table, match_glob, match_action_glob, is_action_rune,
}
use kordn.Policy.Glob.Relation.{Matches, matches→Matches, Matches→matches, Matches-rev_onto}
use kordn.Policy.Glob.Table.{run_table-matches}
use kordn.Policy.Glob.Valid.{validate-cases, compile_glob-ok, validate-bounds, length-ascii_lower}

-- The table decides the relation.
pub run_table_iff :
    (pattern value : Bytes)
    → length pattern ≤ max_glob_length
    → length value ≤ max_glob_length
    → (run_table pattern value ≡ true) ↔ Matches pattern value
run_table_iff pattern value hp hv =
    let e = run_table-matches pattern value hp hv in
    let turned = Matches-rev_onto pattern value in
    (λ h. turned.0 (matches→Matches _ _ (sym e ∙ h)), λ d. e ∙ Matches→matches (turned.1 d))

-- The texts that `Match` looks at: at most 512 bytes of UTF-8 with no control character.
pub record IsText (value : Bytes) : Type 0 where
  pub bounded : length value ≤ max_glob_length
  pub encoded : valid_string value ≡ true
  pub printable : any_rune is_control value ≡ false

-- The guards of `Match`, passed and not passed.
match-guards :
    (g : Glob) (value : Bytes)
    → match g value ≡ true
    → IsText value
      × (g.action ≡ true → all_runes is_action_rune value ≡ true)
      × (run_table g.pattern (if g.action then ascii_lower value else value) ≡ true)
unfolding match
match-guards g value h = ground arith

guards-match :
    (g : Glob) (value : Bytes)
    → 0 < length g.pattern
    → IsText value
    → (g.action ≡ true → all_runes is_action_rune value ≡ true)
    → run_table g.pattern (if g.action then ascii_lower value else value) ≡ true
    → match g value ≡ true
unfolding match
guards-match g value h t a r = ground (arith, a)

-- `x` as `Match` folds it.
abbrev pub folded : Bool → Bytes → Bytes
folded action x = if action then ascii_lower x else x

length-folded : (action : Bool) (s : Bytes) → length (folded action s) ≡ length s
length-folded true s = length-ascii_lower s
length-folded false s = refl

-- `Match` of a compiled glob.
pub match-compile_iff :
    (pattern value : Bytes) (action : Bool) {g : Glob}
    → compile_glob pattern action ≡ ok g
    → (match g value ≡ true) ↔ (
        IsText value
        × (action ≡ true → all_runes is_action_rune value ≡ true)
        × Matches (folded action pattern) (folded action value))
match-compile_iff pattern value action {g} h =
    let (v, e) = validate-cases pattern action h in
    let (low, high) = validate-bounds pattern action v in
    let lp = length-folded action pattern in
    let lv = length-folded action value in
    let meaning = λ (t : IsText value).
      run_table_iff (folded action pattern) (folded action value) (omega arith)
        (omega (arith, t.bounded)) in
    rw e (
      λ m. let (t, a, r) = match-guards _ value m in (t, a, (meaning t).0 r),
      λ (t, a, d). guards-match _ value (omega arith) t a ((meaning t).1 d),
    )

-- `MatchGlob` answers true exactly when the pattern is valid, the value is a text and the whole
-- of the value matches the pattern.
pub match_glob_iff :
    (pattern value : Bytes)
    → (match_glob pattern value ≡ true)
      ↔ ((validate_glob_pattern pattern false ≡ ok tt) × IsText value × Matches pattern value)
unfolding match_glob
match_glob_iff pattern value = (
  λ m.
      let (g, c, r) = compiled (compile_glob pattern false) m in
      let (t, _, d) = (match-compile_iff pattern value false c).0 r in
      ((validate-cases pattern false c).0, t, d),
  λ (v, t, d).
      let c = compile_glob-ok pattern false v in
      rw (c, match_glob)
        ((match-compile_iff pattern value false c).1 (t, λ f. absurd (ground arith), d)),
)
  where
    compiled :
        (r : Result GlobError Glob)
        → elim r as (λ _. Bool) [ ok g ↦ match g value | err e ↦ false ] ≡ true
        → (g : Glob) × (r ≡ ok g) × (match g value ≡ true)
    compiled (ok g) m = (g, refl, m)
    compiled (err e) m = absurd (ground arith)

-- `MatchActionGlob` answers true exactly when the action pattern is valid, the value is a text of
-- action characters and the two match with their ASCII letters in lower case.
pub match_action_glob_iff :
    (pattern value : Bytes)
    → (match_action_glob pattern value ≡ true) ↔ (
        (validate_glob_pattern pattern true ≡ ok tt)
        × IsText value
        × (all_runes is_action_rune value ≡ true)
        × Matches (ascii_lower pattern) (ascii_lower value))
unfolding match_action_glob
match_action_glob_iff pattern value = (
  λ m.
      let (g, c, r) = compiled (compile_glob pattern true) m in
      let (t, a, d) = (match-compile_iff pattern value true c).0 r in
      ((validate-cases pattern true c).0, t, a refl, d),
  λ (v, t, a, d).
      let c = compile_glob-ok pattern true v in
      rw (c, match_action_glob) ((match-compile_iff pattern value true c).1 (t, λ f. a, d)),
)
  where
    compiled :
        (r : Result GlobError Glob)
        → elim r as (λ _. Bool) [ ok g ↦ match g value | err e ↦ false ] ≡ true
        → (g : Glob) × (r ≡ ok g) × (match g value ≡ true)
    compiled (ok g) m = (g, refl, m)
    compiled (err e) m = absurd (ground arith)
