-- ===== src/Policy/Glob/Table.antt =====
-- The table of `Match`: each row holds the answers of the reference for the pattern's prefixes, and
-- the step limit is never met.
use kordn.Base.{
  ℕ, suc, ◌+◌, ◌-◌, ◌*◌, ◌≤◌, ◌<◌, [], ◌∷◌, Bool, true, false, ◌&&◌, Option, some, ◌≡◌, refl, ap,
  ◌∙◌, Bytes, length, get_or, set, rev_onto, length-rev_onto, length-set, length-replicate,
  get_or-set_self, get_or-set_ne, arith, le→ltb, ◌==◌,
}
use kordn.Policy.Glob.{
  Row, Progress, empty_row, max_glob_length, max_glob_steps, first_row, cell, fill_row, fill_rows,
  run_table,
}
use kordn.Policy.Glob.Relation.{matches}

-- The row has an entry for every index up to 512.
abbrev IsFull : Row → Type 0
IsFull row = length row ≡ max_glob_length + 1

-- `row` answers, at each index up to the length of `p`, whether the prefix matches `v`. Both texts
-- stand with their last byte first.
abbrev Answers : Bytes → Bytes → Row → Type 0
Answers [] v row = get_or row 0 false ≡ matches [] v
Answers (x ∷ p) v row = (get_or row (suc (length p)) false ≡ matches (x ∷ p) v) × Answers p v row

Answers-head :
    (p v : Bytes) (row : Row) → Answers p v row → get_or row (length p) false ≡ matches p v
Answers-head [] v row a = a
Answers-head (x ∷ p) v row a = a.0

-- A write beyond the prefix leaves its answers alone.
Answers-set :
    (p v : Bytes) (row : Row) (i : ℕ) (b : Bool)
    → length p < i
    → Answers p v row
    → Answers p v (set row i b)
Answers-set [] v row i b h a = get_or-set_ne row i 0 b false (omega arith) ∙ a
Answers-set (x ∷ p) v row i b h (a, rest) = (
  get_or-set_ne row i (suc (length p)) b false (omega arith) ∙ a,
  Answers-set p v row i b (omega arith) rest,
)

-- The answers for a longer pattern hold those for its prefixes.
Answers-prefix : (rest p v : Bytes) (row : Row) → Answers (rev_onto rest p) v row → Answers p v row
Answers-prefix [] p v row a = a
Answers-prefix (x ∷ rest) p v row a = (Answers-prefix rest (x ∷ p) v row a).1

-- The result of a loop over the pattern: it ran to its end, with the row complete.
record Filled (p v : Bytes) (steps : ℕ) (r : Option Progress) : Type 0 where
  final : Progress
  ended : r ≡ some final
  counted : final.steps ≡ steps
  full : IsFull final.row
  answers : Answers p v final.row

Filled-cast :
    {p v : Bytes} {m n : ℕ} {r : Option Progress} → m ≡ n → Filled p v m r → Filled p v n r
Filled-cast e f = record {
  final = f.final;
  ended = f.ended;
  counted = f.counted ∙ e;
  full = f.full;
  answers = f.answers;
}

-- The value that the first loop writes.
first_row_step :
    (x : ℕ) (p : Bytes) (index : ℕ) (row : Row)
    → index ≡ suc (length p)
    → index < length row
    → Answers p [] row
    → get_or (set row index (get_or row (index - 1) false && x == b'*')) (suc (length p)) false
      ≡ matches (x ∷ p) []
unfolding matches
first_row_step x p index row e h a =
    let i : index - 1 ≡ length p = omega arith in
    rw (i, e, Answers-head p [] row a) (get_or-set_self row (suc (length p)) _ false (omega arith))

first_row-Filled :
    (rest p : Bytes) (index : ℕ) (st : Progress)
    → index ≡ suc (length p)
    → length rest + length p ≤ max_glob_length
    → st.steps + length rest ≤ max_glob_steps
    → IsFull st.row
    → Answers p [] st.row
    → Filled (rev_onto rest p) [] (st.steps + length rest) (first_row rest index st)
unfolding first_row
first_row-Filled [] p index st e hp hs full a = record {
  final = st;
  ended = refl;
  counted = omega arith;
  full = full;
  answers = a;
}
first_row-Filled (x ∷ rest) p index st e hp hs full a =
    let b = get_or st.row (index - 1) false && x == b'*' in
    let next : Progress = record { steps = st.steps + 1; row = set st.row index b } in
    let r =
      first_row-Filled rest (x ∷ p) (index + 1) next (omega arith) (omega arith) (omega arith)
        (length-set st.row index b ∙ full)
        (
          first_row_step x p index st.row e (omega arith) a,
          Answers-set p [] st.row index b (omega arith) a,
        ) in
    rw (le→ltb max_glob_steps (st.steps + 1) (omega arith)) (Filled-cast (omega arith) r)

-- The value that the inner loop writes.
cell-matches :
    (x c : ℕ) (p v : Bytes) (previous current : Row)
    → get_or previous (suc (length p)) false ≡ matches (x ∷ p) v
    → Answers p v previous
    → Answers p (c ∷ v) current
    → cell x c previous current (suc (length p)) ≡ matches (x ∷ p) (c ∷ v)
unfolding cell matches
cell-matches x c p v previous current above a b =
    let i : suc (length p) - 1 ≡ length p = omega arith in
    rw (i, above, Answers-head p v previous a, Answers-head p (c ∷ v) current b)

first_entry :
    (c : ℕ) (v : Bytes) (row : Row)
    → IsFull row
    → get_or (set row 0 false) 0 false ≡ matches [] (c ∷ v)
unfolding matches
first_entry c v row full = get_or-set_self row 0 false false (omega arith)

fill_row-Filled :
    (rest p : Bytes) (index c : ℕ) (v : Bytes) (previous : Row) (st : Progress)
    → index ≡ suc (length p)
    → length rest + length p ≤ max_glob_length
    → st.steps + length rest ≤ max_glob_steps
    → IsFull st.row
    → Answers (rev_onto rest p) v previous
    → Answers p (c ∷ v) st.row
    → Filled (rev_onto rest p) (c ∷ v) (st.steps + length rest) (fill_row rest index c previous st)
unfolding fill_row
fill_row-Filled [] p index c v previous st e hp hs full prev a = record {
  final = st;
  ended = refl;
  counted = omega arith;
  full = full;
  answers = a;
}
fill_row-Filled (x ∷ rest) p index c v previous st e hp hs full prev a =
    let b = cell x c previous st.row index in
    let next : Progress = record { steps = st.steps + 1; row = set st.row index b } in
    let (above, before) = Answers-prefix rest (x ∷ p) v previous prev in
    let written : get_or (set st.row index b) (suc (length p)) false ≡ matches (x ∷ p) (c ∷ v) =
      rw e (
        get_or-set_self st.row (suc (length p)) _ false (omega arith)
        ∙ cell-matches x c p v previous st.row above before a) in
    let r =
      fill_row-Filled rest (x ∷ p) (index + 1) c v previous next (omega arith) (omega arith)
        (omega arith) (length-set st.row index b ∙ full) prev
        (written, Answers-set p (c ∷ v) st.row index b (omega arith) a) in
    rw (le→ltb max_glob_steps (st.steps + 1) (omega arith)) (Filled-cast (omega arith) r)

-- The second loop runs to its end, and its last row answers for the whole value.
fill_rows_total :
    (pattern value v : Bytes) (previous current : Row) (steps : ℕ)
    → length pattern ≤ max_glob_length
    → steps + length value * length pattern ≤ max_glob_steps
    → IsFull previous
    → IsFull current
    → Answers (rev_onto pattern []) v previous
    → (row : Row) × (fill_rows pattern value previous current steps ≡ some row)
      × Answers (rev_onto pattern []) (rev_onto value v) row
unfolding fill_rows
fill_rows_total pattern [] v previous current steps hp hs full full' a = (previous, refl, a)
fill_rows_total pattern (c ∷ value) v previous current steps hp hs full full' a =
    let start : Progress = record { steps = steps; row = set current 0 false } in
    let f =
      fill_row-Filled pattern [] 1 c v previous start refl (omega arith) (omega arith)
        (length-set current 0 false ∙ full') a (first_entry c v current full') in
    let next =
      fill_rows_total pattern value (c ∷ v) f.final.row previous f.final.steps hp
        (omega (arith, f.counted)) f.full full f.answers in
    rw (f.ended, fill_rows) next

steps_bound :
    (p v s : ℕ) → p ≤ max_glob_length → v ≤ max_glob_length → s ≡ 0 + p → s + v * p ≤ max_glob_steps
steps_bound p v s hp hv e = grind arith

-- The table computes the reference on the reversed texts: for texts of at most 512 bytes no loop
-- leaves by its step limit.
pub run_table-matches :
    (pattern value : Bytes)
    → length pattern ≤ max_glob_length
    → length value ≤ max_glob_length
    → run_table pattern value ≡ matches (rev_onto pattern []) (rev_onto value [])
unfolding run_table matches
run_table-matches pattern value hp hv =
    let full : IsFull empty_row = length-replicate (max_glob_length + 1) false in
    let start : Progress = record { steps = 0; row = set empty_row 0 true } in
    let f = first_row-Filled pattern [] 1 start refl (omega arith) (omega arith) full refl in
    let (row, ran, answers) =
      fill_rows_total pattern value [] f.final.row empty_row f.final.steps hp
        (steps_bound (length pattern) (length value) f.final.steps hp hv f.counted) f.full full
        f.answers in
    let n : length pattern ≡ length (rev_onto pattern []) =
      omega (arith, length-rev_onto pattern []) in
    rw (f.ended, ran, run_table)
      (ap (λ k. get_or row k false) n
        ∙ Answers-head (rev_onto pattern []) (rev_onto value []) row answers)
