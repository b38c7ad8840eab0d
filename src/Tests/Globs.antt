-- ===== src/Tests/Globs.antt =====
-- Globs: tests, and the theorems at concrete patterns.
use kordn.Base.{true, false, codes, ◌≡◌, ◌↔◌, refl, ok, err}
use kordn.Policy.Glob.{
  match_glob, match_action_glob, validate_glob_pattern, not_service_operation, is_action_rune,
  ascii_lower,
}
use kordn.Policy.Glob.Relation.{Matches}
use kordn.Policy.Glob.Match.{IsText, match_glob_iff, match_action_glob_iff}
use kordn.Base.{all_runes}
use kordn.Tests.Program.{globs}

star_in_the_middle : match_glob (codes "arn:aws:s3:::b*/x") (codes "arn:aws:s3:::bucket/y/x") ≡ true
unfolding globs
star_in_the_middle = refl

no_match : match_glob (codes "a?c*d") (codes "abdd") ≡ false
unfolding globs
no_match = refl

folded_action : match_action_glob (codes "S3:Get*") (codes "s3:getObject") ≡ true
unfolding globs
folded_action = refl

two_colons : validate_glob_pattern (codes "s3:Get:x") true ≡ err not_service_operation
unfolding globs
two_colons = refl

match_glob_iff_example : (match_glob (codes "a*") (codes "ab") ≡ true) ↔ (
    (validate_glob_pattern (codes "a*") false ≡ ok tt)
    × IsText (codes "ab")
    × Matches (codes "a*") (codes "ab"))
match_glob_iff_example = match_glob_iff (codes "a*") (codes "ab")

match_action_glob_iff_example : (match_action_glob (codes "S3:*") (codes "s3:Get") ≡ true) ↔ (
    (validate_glob_pattern (codes "S3:*") true ≡ ok tt)
    × IsText (codes "s3:Get")
    × (all_runes is_action_rune (codes "s3:Get") ≡ true)
    × Matches (ascii_lower (codes "S3:*")) (ascii_lower (codes "s3:Get")))
match_action_glob_iff_example = match_action_glob_iff (codes "S3:*") (codes "s3:Get")
