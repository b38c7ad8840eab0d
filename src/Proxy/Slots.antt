-- ===== src/Proxy/Slots.antt =====
-- internal/proxy/server.go and internal/observe/metrics.go: the slots of the client connections.
use kordn.Base.{ℕ, ◌+◌, ◌-◌, ◌≡◌, List, [], ◌∷◌, Bool, true, false, ◌==◌, ltb, if◌then◌else◌}
pub mod Counted

-- A connection is a number. `active` holds those that were admitted, `taken` counts the values in the
-- channel of slots, which NewServer makes, and `wrappers` are the promoted connections that are still
-- open. Two counters stand for goroutines in the middle of untrackConn: those that have left `active`
-- and not yet given back their slot, and those that have not yet told the metrics.
pub record Slots : Type 0 where
  pub closed : Bool
  pub capacity : ℕ
  pub taken : ℕ
  pub active : List ℕ
  pub wrappers : List ℕ
  pub releasing : ℕ
  pub finishing : ℕ
  pub active_connections : ℕ
  pub peak_connections : ℕ

abbrev pub new_slots : ℕ → Slots
new_slots capacity = record {
  closed = false;
  capacity = capacity;
  taken = 0;
  active = [];
  wrappers = [];
  releasing = 0;
  finishing = 0;
  active_connections = 0;
  peak_connections = 0;
}

-- A key of a map, and the deletion of one.
unfoldable pub holds : List ℕ → ℕ → Bool
holds [] conn = false
holds (c ∷ cs) conn = if c == conn then true else holds cs conn

unfoldable pub without : ℕ → List ℕ → List ℕ
without conn [] = []
without conn (c ∷ cs) = let rest = without conn cs in if c == conn then rest else c ∷ rest

-- `ConnectionStarted` and `ConnectionFinished`.
unfoldable pub connection_started : Slots → Slots
connection_started s =
    let active = s.active_connections + 1 in
    if ltb s.peak_connections active
    then record s { active_connections = active; peak_connections = active }
    else record s { active_connections = active }

unfoldable pub connection_finished : Slots → Slots
connection_finished s =
    if ltb 0 s.active_connections
    then record s { active_connections = s.active_connections - 1 }
    else s

-- `trackConn`, under the mutex: whether the connection is admitted.
unfoldable pub track_conn : ℕ → Slots → Bool × Slots
track_conn conn s =
    if s.closed
    then (false, s)
    else if holds s.active conn
    then (true, s)
    else if ltb s.taken s.capacity
    then (true, record (connection_started s) { taken = s.taken + 1; active = conn ∷ s.active })
    else (false, s)

-- `promoteHijackedConn`, under the mutex, with the wrapper that it has allocated.
unfoldable pub promote_hijacked_conn : ℕ → ℕ → Slots → ℕ × Slots
promote_hijacked_conn conn wrapped s =
    if holds s.active conn
    then (
      wrapped,
      record s { active = wrapped ∷ without conn s.active; wrappers = wrapped ∷ s.wrappers },
    )
    else (conn, s)

-- `untrackConn` up to the end of its critical section, and the two steps that follow it.
unfoldable pub untrack_conn : ℕ → Slots → Slots
untrack_conn conn s =
    if holds s.wrappers conn
    then s
    else if holds s.active conn
    then record s { active = without conn s.active; releasing = s.releasing + 1 }
    else s

unfoldable pub release_slot : Slots → Slots
release_slot s =
    if ltb 0 s.taken
    then record s { taken = s.taken - 1; releasing = s.releasing - 1; finishing = s.finishing + 1 }
    else record s { releasing = s.releasing - 1 }

unfoldable pub finish_release : Slots → Slots
finish_release s = record (connection_finished s) { finishing = s.finishing - 1 }

-- `Close` of a promoted connection, the swap of its flag and the call of untrackConn.
unfoldable pub close_wrapper : ℕ → Slots → Slots
close_wrapper wrapped s =
    if holds s.wrappers wrapped
    then untrack_conn wrapped (record s { wrappers = without wrapped s.wrappers })
    else s

abbrev pub close_server : Slots → Slots
close_server s = record s { closed = true }

-- The steps of the goroutines, in any order. A wrapper is a new pointer, in no map.
pub data Step : Slots → Slots → Type 0 where
  tracks : (conn : ℕ) (s : Slots) → Step s (track_conn conn s).1
  promotes :
      (conn wrapped : ℕ) (s : Slots)
      → holds s.active wrapped ≡ false
      → Step s (promote_hijacked_conn conn wrapped s).1
  untracks : (conn : ℕ) (s : Slots) → Step s (untrack_conn conn s)
  releases : (s : Slots) → ltb 0 s.releasing ≡ true → Step s (release_slot s)
  finishes : (s : Slots) → ltb 0 s.finishing ≡ true → Step s (finish_release s)
  closes : (wrapped : ℕ) (s : Slots) → Step s (close_wrapper wrapped s)
  shuts : (s : Slots) → Step s (close_server s)

pub data Reaches (start : Slots) : Slots → Type 0 where
  starts : Reaches start start
  steps : {s s' : Slots} → Reaches start s → Step s s' → Reaches start s'
