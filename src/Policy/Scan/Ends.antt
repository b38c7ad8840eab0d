-- ===== src/Policy/Scan/Ends.antt =====
-- The loops of `Evaluate` run to their end under a context that is never cancelled.
use kordn.Base.{
  ℕ, ◌+◌, List, [], ◌∷◌, false, none, some, Bytes, ◌≡◌, ◌≢◌, refl, arith, Option-cases, inl, inr,
}
use kordn.AwsRequest.Mapping.{IamRequirement}
use kordn.Policy.Rule.{CompiledRule, RequestContext}
use kordn.Policy.Scan.{
  Context, Scan, Cover, poll, rule_round, scan_rules, close_resource, scan_resource, scan_resources,
  scan_requirements, ◌>>=◌,
}

-- No call of `Err` reports an error.
abbrev pub IsLive : Context → Type 0
IsLive ctx = (k : ℕ) → ctx k ≡ false

module _ (ctx : Context) (request : RequestContext) (live : IsLive ctx) where
  poll-ends : (s : Scan) → (s' : Scan) × (poll ctx s ≡ some s')
  unfolding poll
  poll-ends s = (record s { polls = s.polls + 1 }, rw (live s.polls))

  rule_round-ne-none :
      (q : IamRequirement) (resource : Bytes) (rule : CompiledRule) (index : ℕ) (s : Scan)
      (c : Cover)
      → rule_round ctx request q resource rule index (s, c) ≢ none
  unfolding rule_round poll
  rule_round-ne-none q resource rule index s c = ground (arith, live s.polls)

  rule_round-ends :
      (q : IamRequirement) (resource : Bytes) (rule : CompiledRule) (index : ℕ) (s : Scan)
      (c : Cover)
      → (sc : Scan × Cover) × (rule_round ctx request q resource rule index (s, c) ≡ some sc)
  rule_round-ends q resource rule index s c =
      elim (Option-cases (rule_round ctx request q resource rule index (s, c))) [
        | inl stopped ↦ absurd (rule_round-ne-none q resource rule index s c stopped)
        | inr found ↦ found
      ]

  scan_rules-ends :
      (q : IamRequirement) (resource : Bytes) (rules : List CompiledRule) (index : ℕ)
      (sc : Scan × Cover)
      → (sc' : Scan × Cover) × (scan_rules ctx request q resource rules index sc ≡ some sc')
  unfolding scan_rules
  scan_rules-ends q resource [] index sc = (sc, refl)
  scan_rules-ends q resource (rule ∷ rules) index (s, c) =
      let (sc₁, first) = rule_round-ends q resource rule index s c in
      let (sc₂, rest) = scan_rules-ends q resource rules (index + 1) sc₁ in
      (sc₂, rw (first, ◌>>=◌) rest)

  module _ (rules : List CompiledRule) where
    scan_resource-ends :
        (q : IamRequirement) (resource : Bytes) (s : Scan)
        → (s' : Scan) × (scan_resource ctx request rules q resource s ≡ some s')
    unfolding scan_resource
    scan_resource-ends q resource s =
        let (s₁, polled) = poll-ends s in
        let (sc, scanned) =
          scan_rules-ends q resource rules 0
            (s₁, record { covered = false; saw_unacknowledged = false }) in
        (close_resource sc, rw (polled, ◌>>=◌) (rw (scanned, ◌>>=◌)))

    scan_resources-ends :
        (q : IamRequirement) (resources : List Bytes) (s : Scan)
        → (s' : Scan) × (scan_resources ctx request rules q resources s ≡ some s')
    unfolding scan_resources
    scan_resources-ends q [] s = (s, refl)
    scan_resources-ends q (resource ∷ resources) s =
        let (s₁, first) = scan_resource-ends q resource s in
        let (s₂, rest) = scan_resources-ends q resources s₁ in (s₂, rw (first, ◌>>=◌) rest)

    pub scan_requirements-ends :
        (requirements : List IamRequirement) (s : Scan)
        → (s' : Scan) × (scan_requirements ctx request rules requirements s ≡ some s')
    unfolding scan_requirements
    scan_requirements-ends [] s = (s, refl)
    scan_requirements-ends (q ∷ requirements) s =
        let (s₁, first) = scan_resources-ends q q.resources s in
        let (s₂, rest) = scan_requirements-ends requirements s₁ in (s₂, rw (first, ◌>>=◌) rest)
