-- ===== src/Proxy/Slots/Counted.antt =====
-- internal/proxy/server.go: whatever the goroutines do, no slot is lost and none too many is taken.
use mathlib.Core.Path.{subst}
use kordn.Base.{
  ap, ℕ, suc, ◌+◌, ◌≡◌, ◌≤◌, refl, List, [], ◌∷◌, Bool, true, false, not, ◌&&◌, ◌==◌, ltb, length,
  arith, Bool-cases, inl, inr,
}
use kordn.Proxy.Slots.{
  Slots, new_slots, holds, without, connection_started, connection_finished, track_conn,
  promote_hijacked_conn, untrack_conn, release_slot, finish_release, close_wrapper, Step, tracks,
  promotes, untracks, releases, finishes, closes, shuts, Reaches, starts, steps,
}

unfoldable pub apart : List ℕ → Bool
apart [] = true
apart (c ∷ cs) = not (holds cs c) && apart cs

-- Each admitted connection, and each that is giving back its slot, has one slot; the metric counts
-- those and the ones that have not told it yet.
pub record IsCounted (s : Slots) : Type 0 where
  pub once : apart s.active ≡ true
  pub slots : s.taken ≡ length s.active + s.releasing
  pub bounded : s.taken ≤ s.capacity
  pub gauge : s.active_connections ≡ s.taken + s.finishing
  pub peak : s.active_connections ≤ s.peak_connections

holds-without : (conn c : ℕ) (cs : List ℕ) → holds cs c ≡ false → holds (without conn cs) c ≡ false
unfolding holds without
holds-without conn c [] h = refl
holds-without conn c (d ∷ cs) h = ground (arith, holds-without conn c cs (ground arith))

apart-without : (conn : ℕ) (cs : List ℕ) → apart cs ≡ true → apart (without conn cs) ≡ true
unfolding apart without
apart-without conn [] h = refl
apart-without conn (c ∷ cs) h =
    ground (arith, apart-without conn cs (ground arith), holds-without conn c cs (ground arith))

length-without-absent :
    (conn : ℕ) (cs : List ℕ) → holds cs conn ≡ false → length (without conn cs) ≡ length cs
unfolding holds without
length-without-absent conn [] h = refl
length-without-absent conn (c ∷ cs) h = ground (arith, length-without-absent conn cs (ground arith))

eq_of_test : (c conn : ℕ) → (c == conn) ≡ true → c ≡ conn
eq_of_test c conn h = ground arith

length-without :
    (conn : ℕ) (cs : List ℕ)
    → apart cs ≡ true
    → holds cs conn ≡ true
    → suc (length (without conn cs)) ≡ length cs
unfolding holds without apart
length-without conn [] ok here = absurd (ground arith)
length-without conn (c ∷ cs) ok here = elim (Bool-cases (c == conn)) [
  | inl same ↦
      (let absent : holds cs c ≡ false = ground arith in
        let absent' : holds cs conn ≡ false =
          subst (λ x. holds cs x ≡ false) (eq_of_test c conn same) absent in
        rw same (ap suc (length-without-absent conn cs absent')))
  | inr other ↦ rw other (ap suc (length-without conn cs (ground arith) (ground (arith, other))))
]

close-IsCounted : (b : Bool) (s : Slots) → IsCounted s → IsCounted (record s { closed = b })
close-IsCounted b s v = record {
  once = v.once;
  slots = v.slots;
  bounded = v.bounded;
  gauge = v.gauge;
  peak = v.peak;
}

track_conn-IsCounted : (conn : ℕ) (s : Slots) → IsCounted s → IsCounted (track_conn conn s).1
unfolding track_conn apart connection_started
track_conn-IsCounted conn s v = elim (Bool-cases s.closed) [
  | inl shut ↦ rw (shut, track_conn) (close-IsCounted true s v)
  | inr open_still ↦ elim (Bool-cases (holds s.active conn)) [
    | inl there ↦ rw (open_still, there, track_conn) (close-IsCounted false s v)
    | inr new ↦ elim (Bool-cases (ltb s.taken s.capacity)) [
      | inr full ↦ rw (open_still, new, full, track_conn) (close-IsCounted false s v)
      | inl room ↦ elim (Bool-cases (ltb s.peak_connections (s.active_connections + 1))) [
        | inl higher ↦
            rw (open_still, new, room, higher, track_conn, connection_started)
              (record {
                once = ground (arith, v.once, new);
                slots = omega (arith, v.slots);
                bounded = ground (arith, room);
                gauge = omega (arith, v.gauge);
                peak = omega arith;
              })
        | inr lower ↦
            rw (open_still, new, room, lower, track_conn, connection_started)
              (record {
                once = ground (arith, v.once, new);
                slots = omega (arith, v.slots);
                bounded = ground (arith, room);
                gauge = omega (arith, v.gauge);
                peak = ground (arith, lower);
              })
      ]
    ]
  ]
]

untrack_conn-IsCounted : (conn : ℕ) (s : Slots) → IsCounted s → IsCounted (untrack_conn conn s)
unfolding untrack_conn
untrack_conn-IsCounted conn s v = elim (Bool-cases (holds s.wrappers conn)) [
  | inl open_still ↦ rw (open_still, untrack_conn) v
  | inr gone ↦ elim (Bool-cases (holds s.active conn)) [
    | inr absent ↦ rw (gone, absent, untrack_conn) v
    | inl here ↦
        (let one_less = length-without conn s.active v.once here in
          rw (gone, here, untrack_conn)
            (record {
              once = apart-without conn s.active v.once;
              slots = omega (arith, v.slots, one_less);
              bounded = v.bounded;
              gauge = v.gauge;
              peak = v.peak;
            }))
  ]
]

close_wrapper-IsCounted : (w : ℕ) (s : Slots) → IsCounted s → IsCounted (close_wrapper w s)
unfolding close_wrapper
close_wrapper-IsCounted w s v = elim (Bool-cases (holds s.wrappers w)) [
  | inr gone ↦ rw (gone, close_wrapper) v
  | inl open_still ↦
      rw (open_still, close_wrapper)
        (untrack_conn-IsCounted w (record s { wrappers = without w s.wrappers })
          (record {
            once = v.once;
            slots = v.slots;
            bounded = v.bounded;
            gauge = v.gauge;
            peak = v.peak;
          }))
]

promote-IsCounted :
    (conn wrapped : ℕ) (s : Slots)
    → holds s.active wrapped ≡ false
    → IsCounted s
    → IsCounted (promote_hijacked_conn conn wrapped s).1
unfolding promote_hijacked_conn apart
promote-IsCounted conn wrapped s fresh v = elim (Bool-cases (holds s.active conn)) [
  | inr absent ↦ rw (absent, promote_hijacked_conn) v
  | inl here ↦
      (let one_less = length-without conn s.active v.once here in
        let still_fresh = holds-without conn wrapped s.active fresh in
        let still_apart = apart-without conn s.active v.once in
        rw (here, promote_hijacked_conn)
          (record {
            once = ground (arith, still_fresh, still_apart);
            slots = omega (arith, v.slots, one_less);
            bounded = v.bounded;
            gauge = v.gauge;
            peak = v.peak;
          }))
]

release_slot-IsCounted :
    (s : Slots) → ltb 0 s.releasing ≡ true → IsCounted s → IsCounted (release_slot s)
unfolding release_slot
release_slot-IsCounted s some_release v = elim (Bool-cases (ltb 0 s.taken)) [
  | inl holds_slot ↦
      rw (holds_slot, release_slot)
        (record {
          once = v.once;
          slots = ground (arith, v.slots, some_release, holds_slot);
          bounded = ground (arith, v.bounded);
          gauge = ground (arith, v.gauge, holds_slot);
          peak = v.peak;
        })
  | inr empty ↦ absurd (ground (arith, v.slots, some_release, empty))
]

finish_release-IsCounted :
    (s : Slots) → ltb 0 s.finishing ≡ true → IsCounted s → IsCounted (finish_release s)
unfolding finish_release connection_finished
finish_release-IsCounted s some_finish v = elim (Bool-cases (ltb 0 s.active_connections)) [
  | inl counted ↦
      rw (counted, finish_release, connection_finished)
        (record {
          once = v.once;
          slots = v.slots;
          bounded = v.bounded;
          gauge = ground (arith, v.gauge, some_finish, counted);
          peak = ground (arith, v.peak);
        })
  | inr empty ↦ absurd (ground (arith, v.gauge, some_finish, empty))
]

Step-IsCounted : {s s' : Slots} → Step s s' → IsCounted s → IsCounted s'
Step-IsCounted (tracks conn s) v = track_conn-IsCounted conn s v
Step-IsCounted (promotes conn wrapped s fresh) v = promote-IsCounted conn wrapped s fresh v
Step-IsCounted (untracks conn s) v = untrack_conn-IsCounted conn s v
Step-IsCounted (releases s some_release) v = release_slot-IsCounted s some_release v
Step-IsCounted (finishes s some_finish) v = finish_release-IsCounted s some_finish v
Step-IsCounted (closes wrapped s) v = close_wrapper-IsCounted wrapped s v
Step-IsCounted (shuts s) v = close-IsCounted true s v

new_slots-IsCounted : (capacity : ℕ) → IsCounted (new_slots capacity)
unfolding apart
new_slots-IsCounted capacity = record {
  once = refl;
  slots = refl;
  bounded = omega arith;
  gauge = refl;
  peak = omega arith;
}

-- In every state that the goroutines of a new server reach, in whatever order they step, each
-- admitted connection is in the map once and has one slot, as has each that is giving its back, there
-- are no more slots taken than the limit, and the metric of active connections counts the slots taken
-- and the releases that it has not been told.
pub Reaches-IsCounted : (capacity : ℕ) (s : Slots) → Reaches (new_slots capacity) s → IsCounted s
Reaches-IsCounted capacity s starts = new_slots-IsCounted capacity
Reaches-IsCounted capacity s (steps before step) =
    Step-IsCounted step (Reaches-IsCounted capacity _ before)
