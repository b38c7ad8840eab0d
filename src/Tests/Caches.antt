-- ===== src/Tests/Caches.antt =====
-- The cache under a sequence of calls, and its keys.
use native.Mathlib.Decide.{ℕ_discrete}
use kordn.Base.{
  ℕ, [], ◌∷◌, List, true, false, none, some, codes, ◌≡◌, refl, ◌≤◌, length, ltb, not, ◌&&◌, take,
  Bytes, ◌+◌, ◌++◌,
}
use kordn.Cache.Assoc.{find, delete}
use kordn.Cache.Lru.{Lru, empty_cache, new_lru, size_locked, add_locked}
use kordn.Cache.Lru.Valid.{IsValid}
use kordn.Cache.Lru.Methods.{view, is_some}
use kordn.Cache.Lru.Updates.{new_lru-IsValid, add_locked-take}
use kordn.Cache.Lru.History.{Call, Reply, run, list_run, run-list_run, new_lru-run}
use kordn.Cache.Keys.{canonical_key, EndpointKey, DecisionKey}
use kordn.Cache.Keys.Netstring.{canonical_key-injective}
use kordn.Tests.Program.{caches}

abbrev start : Lru ℕ ℕ
start = empty_cache 2

start_new : new_lru 2 ≡ some start
unfolding caches
start_new = refl

start-IsValid : IsValid ℕ_discrete start
start-IsValid = (new_lru-IsValid ℕ_discrete 2 start start_new).0

abbrev calls : List (Call ℕ ℕ)
calls =
    Call.add 1 10
    ∷ Call.add 2 20
    ∷ Call.get 1
    ∷ Call.add 3 30
    ∷ Call.get 2
    ∷ Call.remove 1
    ∷ Call.remove 1
    ∷ []

calls_replies :
    (run ℕ_discrete calls start).1
    ≡ Reply.added false false
      ∷ Reply.added false false
      ∷ Reply.got (some 10)
      ∷ Reply.added false true
      ∷ Reply.got none
      ∷ Reply.removed true
      ∷ Reply.removed false
      ∷ []
unfolding caches
calls_replies = refl

calls_counts :
    ((run ℕ_discrete calls start).0.hits ≡ 1)
    × ((run ℕ_discrete calls start).0.misses ≡ 1)
    × ((run ℕ_discrete calls start).0.evictions ≡ 1)
unfolding caches
calls_counts = (refl, refl, refl)

run-list_run_example :
    IsValid ℕ_discrete (run ℕ_discrete calls start).0
    × (view (run ℕ_discrete calls start).0 ≡ (list_run ℕ_discrete 2 calls (view start)).0)
    × ((run ℕ_discrete calls start).1 ≡ (list_run ℕ_discrete 2 calls (view start)).1)
run-list_run_example = run-list_run ℕ_discrete calls start start-IsValid

new_lru-run_example :
    ((run ℕ_discrete calls start).1 ≡ (list_run ℕ_discrete 2 calls []).1)
    × (size_locked (run ℕ_discrete calls start).0 ≤ 2)
new_lru-run_example = new_lru-run ℕ_discrete 2 start calls start_new

abbrev full : Lru ℕ ℕ
full = (run ℕ_discrete (Call.add 1 10 ∷ Call.add 2 20 ∷ []) start).0

full-IsValid : IsValid ℕ_discrete full
full-IsValid = (run-list_run ℕ_discrete (Call.add 1 10 ∷ Call.add 2 20 ∷ []) start start-IsValid).0

add_locked-take_example :
    IsValid ℕ_discrete (add_locked ℕ_discrete full 3 30).0
    × (view (add_locked ℕ_discrete full 3 30).0
        ≡ take full.capacity ((3, 30) ∷ delete ℕ_discrete 3 (view full)))
    × ((add_locked ℕ_discrete full 3 30).1 ≡ is_some (find ℕ_discrete 3 (view full)))
    × ((add_locked ℕ_discrete full 3 30).2 ≡ (
        not (is_some (find ℕ_discrete 3 (view full)))
        && ltb full.capacity (length (view full) + 1)))
add_locked-take_example = add_locked-take ℕ_discrete full 3 30 full-IsValid

abbrev run_parts : List Bytes
run_parts = codes "leaf" ∷ [] ∷ codes "3:abc" ∷ []

run_parts_key :
    canonical_key run_parts
    ≡ codes "4:leaf" ++ (0 ∷ codes "0:") ++ (0 ∷ codes "5:3:abc") ++ (0 ∷ [])
unfolding caches
run_parts_key = refl

canonical_key-injective_example : run_parts ≡ run_parts
canonical_key-injective_example = canonical_key-injective run_parts run_parts refl

abbrev endpoint_key : EndpointKey
endpoint_key = record {
  run_id = codes "r";
  host = codes "sts.amazonaws.com";
  partition = codes "aws";
  region = [];
  service = codes "sts";
  account = [];
  operation = codes "GetCallerIdentity";
}

abbrev decision_key : DecisionKey
decision_key = record {
  run_id = codes "r";
  endpoint = endpoint_key;
  policy_hash = codes "h";
  mapper_version = codes "1";
  requirements = codes "q";
}
