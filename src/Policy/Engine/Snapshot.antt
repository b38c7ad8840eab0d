-- ===== src/Policy/Engine/Snapshot.antt =====
-- The sorted snapshot of the requirements changes no verdict.
use kordn.Base.{
  List, [], ◌∷◌, map, Bool, false, ◌||◌, none, some, Bytes, any, ◌≡◌, refl, ap, ◌∙◌, arith,
  any-sort_by, bytes_lt,
}
use mathlib.Core.Path.{fun_ext}
use kordn.AwsRequest.Mapping.{IamRequirement}
use kordn.Policy.Rule.{CompiledRule, RequestContext}
use kordn.Policy.Decision.{Decision, deny}
use kordn.Policy.Verdict.{
  resource_denied, resource_unacknowledged, resource_uncovered, some_resource, verdict,
}
use kordn.Policy.Engine.{snapshot_requirements, sort_resources, first_unresolved, is_unresolved}

any-map :
    {A B : Type 0} (p : B → Bool) (f : A → B) (xs : List A)
    → any p (map f xs) ≡ any (λ x. p (f x)) xs
any-map p f [] = refl
any-map p f (x ∷ xs) = ap (λ b. p (f x) || b) (any-map p f xs)

any-snapshot :
    (p : IamRequirement → Bool) (requirements : List IamRequirement)
    → any p (snapshot_requirements requirements) ≡ any (λ q. p (sort_resources q)) requirements
unfolding snapshot_requirements
any-snapshot p requirements = any-sort_by _ p _ ∙ any-map p sort_resources requirements

-- A test that looks at the requirement but not at its list of resources.
some_resource-snapshot :
    (p : IamRequirement → Bytes → Bool)
    → ((q : IamRequirement) (resource : Bytes) → p (sort_resources q) resource ≡ p q resource)
    → (requirements : List IamRequirement)
    → some_resource p (snapshot_requirements requirements) ≡ some_resource p requirements
unfolding sort_resources
some_resource-snapshot p same requirements =
    any-snapshot (λ q. any (p q) q.resources) requirements
    ∙ ap (λ t. any t requirements)
        (fun_ext λ q.
          any-sort_by bytes_lt (p (sort_resources q)) q.resources
          ∙ ap (λ t. any t q.resources) (fun_ext (same q)))

pub verdict-snapshot :
    (request : RequestContext) (rules : List CompiledRule) (requirements : List IamRequirement)
    → verdict request rules (snapshot_requirements requirements)
      ≡ verdict request rules requirements
unfolding verdict sort_resources
verdict-snapshot request rules requirements = simp (
  some_resource-snapshot (resource_denied request rules) (λ q r. refl) requirements,
  some_resource-snapshot (resource_unacknowledged request rules) (λ q r. refl) requirements,
  some_resource-snapshot (resource_uncovered request rules) (λ q r. refl) requirements,
)

-- Some requirement has a scope that the mapper could not resolve.
abbrev pub has_unresolved : List IamRequirement → Bool
has_unresolved = any (λ q. is_unresolved q.scope_kind)

pub has_unresolved-snapshot :
    (requirements : List IamRequirement)
    → has_unresolved (snapshot_requirements requirements) ≡ has_unresolved requirements
unfolding sort_resources
has_unresolved-snapshot requirements = any-snapshot _ requirements

pub first_unresolved-none :
    (requirements : List IamRequirement)
    → has_unresolved requirements ≡ false
    → first_unresolved requirements ≡ none
unfolding first_unresolved
first_unresolved-none [] h = refl
first_unresolved-none (q ∷ requirements) h = ground (arith, first_unresolved-none requirements)

pub none-first_unresolved :
    (requirements : List IamRequirement)
    → first_unresolved requirements ≡ none
    → has_unresolved requirements ≡ false
unfolding first_unresolved
none-first_unresolved [] h = refl
none-first_unresolved (q ∷ requirements) h = ground (arith, none-first_unresolved requirements)

pub first_unresolved-deny :
    (requirements : List IamRequirement) (d : Decision)
    → first_unresolved requirements ≡ some d
    → d.result ≡ deny
unfolding first_unresolved
first_unresolved-deny [] d h = absurd (ground arith)
first_unresolved-deny (q ∷ requirements) d h = ground (arith, first_unresolved-deny requirements d)
