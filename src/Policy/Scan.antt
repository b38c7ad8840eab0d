-- ===== src/Policy/Scan.antt =====
-- internal/policy/engine.go: the three nested loops of `Evaluate`.
use kordn.Base.{
  ℕ, ◌+◌, ◌%◌, List, [], ◌∷◌, Bool, true, false, ◌&&◌, Option, none, some, Bytes, ◌==◌,
  if◌then◌else◌, contains,
}
use kordn.AwsRequest.Mapping.{IamRequirement}
use kordn.Policy.Rule.{
  CompiledRule, RequestContext, is_deny, is_known_global, rule_matches, rule_has_literal_star,
}
pub mod Loops
pub mod Ends

-- A context: whether its `Err` reports an error at the call of each number.
abbrev pub Context : Type 0
Context = ℕ → Bool

infixl 5 ◌>>=◌
abbrev pub ◌>>=◌ {ℓ κ} : {A : Type ℓ} {B : Type κ} → Option A → (A → Option B) → Option B
none >>= f = none
some a >>= f = f a

-- The variables that live across the loops, with the count of calls of `ctx.Err` so far.
pub record Scan : Type 0 where
  pub matched : List Bytes
  pub wildcard_missing : Bool
  pub uncovered : Bool
  pub explicit_deny : Bool
  pub polls : ℕ

-- The variables of one resource.
pub record Cover : Type 0 where
  pub covered : Bool
  pub saw_unacknowledged : Bool

-- `if err := ctx.Err(); err != nil { return internalDecision() }`: `none` is that return.
unfoldable pub poll : Context → Scan → Option Scan
poll ctx s = if ctx s.polls then none else some (record s { polls = s.polls + 1 })

-- `matched[rule.id] = struct{}{}`.
unfoldable pub add_id : Bytes → List Bytes → List Bytes
add_id id ids = if contains ids id then ids else id ∷ ids

unfoldable pub acknowledges : CompiledRule → Bool
acknowledges rule = rule.allow_aws_required_wildcard && rule_has_literal_star rule.resources

-- The body of the loop over the rules, for a rule that matches.
unfoldable pub apply_rule : CompiledRule → IamRequirement → Scan × Cover → Scan × Cover
apply_rule rule requirement (s, c) =
    let s' = record s { matched = add_id rule.id s.matched } in
    if is_deny rule.effect
    then (record s' { explicit_deny = true }, c)
    else if is_known_global requirement.scope_kind
    then (if acknowledges rule
        then (s', record c { covered = true })
        else (s', record c { saw_unacknowledged = true }))
    else (s', record c { covered = true })

-- One round of the loop over the rules; `index & 63 == 0` is `index % 64 == 0`.
unfoldable pub rule_round :
    Context
    → RequestContext
    → IamRequirement
    → Bytes
    → CompiledRule
    → ℕ
    → Scan × Cover
    → Option (Scan × Cover)
rule_round ctx request requirement resource rule index (s, c) = do
  s' ← if index % 64 == 0 then poll ctx s else some s
  if rule_matches rule requirement.action resource requirement.scope_kind request
      then some (apply_rule rule requirement (s', c))
      else some (s', c)

unfoldable pub scan_rules :
    Context
    → RequestContext
    → IamRequirement
    → Bytes
    → List CompiledRule
    → ℕ
    → Scan × Cover
    → Option (Scan × Cover)
scan_rules ctx request requirement resource [] index sc = some sc
scan_rules ctx request requirement resource (rule ∷ rules) index sc = do
  sc' ← rule_round ctx request requirement resource rule index sc
  scan_rules ctx request requirement resource rules (index + 1) sc'

-- `if !covered { … }`.
unfoldable pub close_resource : Scan × Cover → Scan
close_resource (s, c) =
    if c.covered
    then s
    else if c.saw_unacknowledged
    then record s { wildcard_missing = true }
    else record s { uncovered = true }

unfoldable pub scan_resource :
    Context → RequestContext → List CompiledRule → IamRequirement → Bytes → Scan → Option Scan
scan_resource ctx request rules requirement resource s = do
  s' ← poll ctx s
  sc ←
      scan_rules ctx request requirement resource rules 0
        (s', record { covered = false; saw_unacknowledged = false })
  some (close_resource sc)

unfoldable pub scan_resources :
    Context → RequestContext → List CompiledRule → IamRequirement → List Bytes → Scan → Option Scan
scan_resources ctx request rules requirement [] s = some s
scan_resources ctx request rules requirement (resource ∷ resources) s = do
  s' ← scan_resource ctx request rules requirement resource s
  scan_resources ctx request rules requirement resources s'

unfoldable pub scan_requirements :
    Context → RequestContext → List CompiledRule → List IamRequirement → Scan → Option Scan
scan_requirements ctx request rules [] s = some s
scan_requirements ctx request rules (requirement ∷ requirements) s = do
  s' ← scan_resources ctx request rules requirement requirement.resources s
  scan_requirements ctx request rules requirements s'
