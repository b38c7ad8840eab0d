-- ===== src/Policy/Scan/Loops.antt =====
-- What each loop of `Evaluate` adds to its variables, and that it ends unless it is cancelled.
use kordn.Base.{
  ℕ, ◌+◌, List, [], ◌∷◌, Bool, false, not, ◌&&◌, ◌||◌, Option, none, some, Bytes, any, ◌≡◌, refl,
  ◌∙◌, arith,
}
use kordn.AwsRequest.Mapping.{IamRequirement}
use kordn.Policy.Rule.{CompiledRule, RequestContext}
use kordn.Policy.Scan.{
  Context, Scan, Cover, poll, apply_rule, rule_round, scan_rules, close_resource, scan_resource,
  scan_resources, scan_requirements, ◌>>=◌,
}
use kordn.Policy.Verdict.{
  denies, covers, lacks_acknowledgement, resource_denied, resource_unacknowledged,
  resource_uncovered, some_resource,
}

-- The flags grew by the three answers.
pub record Grows (s s' : Scan) (d w u : Bool) : Type 0 where
  pub denied : s'.explicit_deny ≡ (s.explicit_deny || d)
  pub missing : s'.wildcard_missing ≡ (s.wildcard_missing || w)
  pub open_ended : s'.uncovered ≡ (s.uncovered || u)

-- The same for the loop over the rules, which leaves two flags alone.
record RuleGrows (s : Scan) (c : Cover) (s' : Scan) (c' : Cover) (d k a : Bool) : Type 0 where
  denied : s'.explicit_deny ≡ (s.explicit_deny || d)
  missing : s'.wildcard_missing ≡ s.wildcard_missing
  open_ended : s'.uncovered ≡ s.uncovered
  covered : c'.covered ≡ (c.covered || k)
  unacknowledged : c'.saw_unacknowledged ≡ (c.saw_unacknowledged || a)

bind-some {ℓ κ} :
    {A : Type ℓ} {B : Type κ} (m : Option A) (f : A → Option B) {b : B}
    → (m >>= f) ≡ some b
    → (a : A) × (m ≡ some a) × (f a ≡ some b)
bind-some none f h = absurd (ground arith)
bind-some (some a) f h = (a, refl, h)

some-eq : {a b : Scan} → some a ≡ some b → a ≡ b
some-eq e = ground arith

or_chain : (x d e : Bool) {y z : Bool} → y ≡ (x || d) → z ≡ (y || e) → z ≡ (x || (d || e))
or_chain x d e p q = ground arith

Grows-none : (s : Scan) {s' : Scan} → s ≡ s' → Grows s s' false false false
Grows-none s e = record { denied = ground arith; missing = ground arith; open_ended = ground arith }

Grows-chain :
    {s t u : Scan} {d w o d' w' o' : Bool}
    → Grows s t d w o
    → Grows t u d' w' o'
    → Grows s u (d || d') (w || w') (o || o')
Grows-chain g h = record {
  denied = or_chain _ _ _ g.denied h.denied;
  missing = or_chain _ _ _ g.missing h.missing;
  open_ended = or_chain _ _ _ g.open_ended h.open_ended;
}

module _ (ctx : Context) (request : RequestContext) where
  rule_round-RuleGrows :
      (q : IamRequirement) (resource : Bytes) (rule : CompiledRule) (index : ℕ) (s : Scan)
      (c : Cover) {s' : Scan} {c' : Cover}
      → rule_round ctx request q resource rule index (s, c) ≡ some (s', c')
      → RuleGrows s c s' c'
          (denies request q resource rule)
          (covers request q resource rule)
          (lacks_acknowledgement request q resource rule)
  unfolding rule_round poll apply_rule
  rule_round-RuleGrows q resource rule index s c h = ground arith

  scan_rules-RuleGrows :
      (q : IamRequirement) (resource : Bytes) (rules : List CompiledRule) (index : ℕ) (s : Scan)
      (c : Cover) {s' : Scan} {c' : Cover}
      → scan_rules ctx request q resource rules index (s, c) ≡ some (s', c')
      → RuleGrows s c s' c'
          (any (denies request q resource) rules)
          (any (covers request q resource) rules)
          (any (lacks_acknowledgement request q resource) rules)
  unfolding scan_rules
  scan_rules-RuleGrows q resource [] index s c h = ground arith
  scan_rules-RuleGrows q resource (rule ∷ rules) index s c h =
      let ((s₁, c₁), first, rest) =
        bind-some (rule_round ctx request q resource rule index (s, c)) _ h in
      let one = rule_round-RuleGrows q resource rule index s c first in
      let more = scan_rules-RuleGrows q resource rules (index + 1) s₁ c₁ rest in
      record {
        denied = or_chain _ _ _ one.denied more.denied;
        missing = more.missing ∙ one.missing;
        open_ended = more.open_ended ∙ one.open_ended;
        covered = or_chain _ _ _ one.covered more.covered;
        unacknowledged = or_chain _ _ _ one.unacknowledged more.unacknowledged;
      }

  close_resource-Grows :
      {s₀ s : Scan} {c : Cover} {d k a : Bool}
      → RuleGrows s₀ (record { covered = false; saw_unacknowledged = false }) s c d k a
      → Grows s₀ (close_resource (s, c)) d (not k && a) (not k && not a)
  unfolding close_resource
  close_resource-Grows g = record {
    denied = ground arith;
    missing = ground arith;
    open_ended = ground arith;
  }

  poll-same : (s : Scan) {s' : Scan} → poll ctx s ≡ some s' → Grows s s' false false false
  unfolding poll
  poll-same s h = ground arith

  module _ (rules : List CompiledRule) where
    scan_resource-Grows :
        (q : IamRequirement) (resource : Bytes) (s : Scan) {s' : Scan}
        → scan_resource ctx request rules q resource s ≡ some s'
        → Grows s s'
            (resource_denied request rules q resource)
            (resource_unacknowledged request rules q resource)
            (resource_uncovered request rules q resource)
    unfolding scan_resource
    scan_resource-Grows q resource s h =
        let (s₁, polled, rest) = bind-some (poll ctx s) _ h in
        let ((s₂, c), scanned, closed) =
          bind-some (scan_rules ctx request q resource rules 0 _) _ rest in
        let g = scan_rules-RuleGrows q resource rules 0 s₁ _ scanned in
        Grows-chain (poll-same s polled) (rw (some-eq closed) at (close_resource-Grows g))

    scan_resources-Grows :
        (q : IamRequirement) (resources : List Bytes) (s : Scan) {s' : Scan}
        → scan_resources ctx request rules q resources s ≡ some s'
        → Grows s s'
            (any (resource_denied request rules q) resources)
            (any (resource_unacknowledged request rules q) resources)
            (any (resource_uncovered request rules q) resources)
    unfolding scan_resources
    scan_resources-Grows q [] s h = Grows-none s (some-eq h)
    scan_resources-Grows q (resource ∷ resources) s h =
        let (s₁, first, rest) = bind-some (scan_resource ctx request rules q resource s) _ h in
        Grows-chain (scan_resource-Grows q resource s first)
          (scan_resources-Grows q resources s₁ rest)

    -- Over all requirements: each flag is set exactly if some resource gives cause.
    pub scan_requirements-Grows :
        (requirements : List IamRequirement) (s : Scan) {s' : Scan}
        → scan_requirements ctx request rules requirements s ≡ some s'
        → Grows s s'
            (some_resource (resource_denied request rules) requirements)
            (some_resource (resource_unacknowledged request rules) requirements)
            (some_resource (resource_uncovered request rules) requirements)
    unfolding scan_requirements
    scan_requirements-Grows [] s h = Grows-none s (some-eq h)
    scan_requirements-Grows (q ∷ requirements) s h =
        let (s₁, first, rest) = bind-some (scan_resources ctx request rules q q.resources s) _ h in
        Grows-chain (scan_resources-Grows q q.resources s first)
          (scan_requirements-Grows requirements s₁ rest)
