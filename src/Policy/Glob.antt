-- ===== src/Policy/Glob.antt =====
-- internal/policy/glob.go: validated globs, and the table that matches them.
use kordn.Base.{
  ℕ, ◌+◌, ◌-◌, ◌*◌, List, [], ◌∷◌, map, Bool, true, false, not, ◌&&◌, ◌||◌, Option, none, some,
  Bytes, codes, length, get_or, set, replicate, ◌==◌, ltb, leb, if◌then◌else◌, bytes_eq, has_byte,
  count_byte, index_byte, any_rune, all_runes, valid_string, is_space, is_control, is_alnum, Result,
  ok, err, ◌>>=◌, ◌>>◌, fail_if,
}
pub mod Relation
pub mod Table
pub mod Match
pub mod Valid

abbrev pub max_glob_length : ℕ
max_glob_length = 512

abbrev pub max_glob_steps : ℕ
max_glob_steps = (max_glob_length + 1) * (max_glob_length + 1)

pub record Glob : Type 0 where
  pub pattern : Bytes
  pub action : Bool

-- The errors of `validateGlobPattern`, one for each message.
pub data GlobError : Type 0 where
  bad_text unsupported_syntax not_service_operation unsupported_characters : GlobError

-- The characters of "[](){}|+^$\\".
unfoldable pub is_syntax : ℕ → Bool
is_syntax r = has_byte (codes "[](){}|+^$\\") r

-- The negation of the test that `validateGlobPattern` and `Match` make of each rune of an action.
unfoldable pub is_action_rune : ℕ → Bool
is_action_rune r = leb r 0x7F && (r == b':' || r == b'*' || r == b'?' || is_alnum r || r == b'-')

unfoldable pub lower_byte : ℕ → ℕ
lower_byte c = if leb b'A' c && leb c b'Z' then c + 32 else c

unfoldable pub ascii_lower : Bytes → Bytes
ascii_lower = map lower_byte

-- `pattern != "*" && (colon <= 0 || colon == len(pattern)-1 || strings.Count(pattern, ":") != 1)`
-- where `colon` is the index of the first colon.
unfoldable pub colon_misplaced : Bytes → Bool
colon_misplaced pattern = elim (index_byte pattern b':') [
  | none ↦ true
  | some colon ↦ leb colon 0 || colon == length pattern - 1 || not (count_byte pattern b':' == 1)
]

unfoldable pub validate_glob_pattern : Bytes → Bool → Result GlobError (Unit {0})
validate_glob_pattern pattern action = do
  fail_if
      (length pattern == 0 || ltb max_glob_length (length pattern) || not (valid_string pattern))
      bad_text
  fail_if (any_rune (λ r. is_space r || is_control r || is_syntax r) pattern) unsupported_syntax
  fail_if (action && not (bytes_eq pattern (codes "*")) && colon_misplaced pattern)
      not_service_operation
  fail_if (action && not (all_runes is_action_rune pattern)) unsupported_characters
  ok tt

unfoldable pub compile_glob : Bytes → Bool → Result GlobError Glob
compile_glob pattern action = do
  validate_glob_pattern pattern action
  ok (record { pattern = if action then ascii_lower pattern else pattern; action = action })

-- `[MaxGlobLength + 1]bool`, and a row with the count of steps so far.
abbrev pub Row : Type 0
Row = List Bool

abbrev pub empty_row : Row
empty_row = replicate (max_glob_length + 1) false

pub record Progress : Type 0 where
  pub steps : ℕ
  pub row : Row

-- The first loop: `rest` is the pattern from byte `index - 1` on. `none` is the early `return false`.
unfoldable pub first_row : Bytes → ℕ → Progress → Option Progress
first_row [] index st = some st
first_row (x ∷ rest) index st =
    let next = first_row rest (index + 1) (record {
      steps = st.steps + 1;
      row = set st.row index (get_or st.row (index - 1) false && x == b'*');
    }) in
    if ltb max_glob_steps (st.steps + 1) then none else next

-- The `switch` on the pattern byte `x`, for the value byte `c`.
unfoldable pub cell : ℕ → ℕ → Row → Row → ℕ → Bool
cell x c previous current index =
    if x == b'*'
    then get_or previous index false || get_or current (index - 1) false
    else if x == b'?'
    then get_or previous (index - 1) false
    else get_or previous (index - 1) false && x == c

-- The inner loop of the second loop, filling `current`.
unfoldable pub fill_row : Bytes → ℕ → ℕ → Row → Progress → Option Progress
fill_row [] index c previous st = some st
fill_row (x ∷ rest) index c previous st =
    let next =
      fill_row rest (index + 1) c previous (record {
        steps = st.steps + 1;
        row = set st.row index (cell x c previous st.row index);
      }) in
    if ltb max_glob_steps (st.steps + 1) then none else next

-- The second loop: the two rows change places after each byte of the value.
unfoldable pub fill_rows : Bytes → Bytes → Row → Row → ℕ → Option Row
fill_rows pattern [] previous current steps = some previous
fill_rows pattern (c ∷ value) previous current steps =
    elim (fill_row pattern 1 c previous (record { steps = steps; row = set current 0 false })) [
      | none ↦ none
      | some st ↦ fill_rows pattern value st.row previous st.steps
    ]

-- The table: whether the whole of `value` matches, as far as the step limit lets it run.
unfoldable pub run_table : Bytes → Bytes → Bool
run_table pattern value =
    elim (first_row pattern 1 (record { steps = 0; row = set empty_row 0 true })) [
      | none ↦ false
      | some st ↦ elim (fill_rows pattern value st.row empty_row st.steps) [
        | none ↦ false
        | some previous ↦ get_or previous (length pattern) false
      ]
    ]

unfoldable pub match : Glob → Bytes → Bool
match g value =
    if length g.pattern == 0 || ltb max_glob_length (length value) || not (valid_string value)
    then false
    else if any_rune is_control value
    then false
    else if g.action
    then (if all_runes is_action_rune value then run_table g.pattern (ascii_lower value) else false)
    else run_table g.pattern value

unfoldable pub match_glob : Bytes → Bytes → Bool
match_glob pattern value = elim (compile_glob pattern false) [
  | ok g ↦ match g value
  | err e ↦ false
]

unfoldable pub match_action_glob : Bytes → Bytes → Bool
match_action_glob pattern value = elim (compile_glob pattern true) [
  | ok g ↦ match g value
  | err e ↦ false
]
