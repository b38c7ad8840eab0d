-- ===== src/Tests/Slots.antt =====
-- Two connections on one slot.
use kordn.Base.{◌≡◌, refl, [], ◌∷◌, false}
use kordn.Proxy.Slots.{
  Slots, new_slots, holds, without, connection_started, track_conn, untrack_conn, release_slot,
  Reaches, starts, steps, tracks, untracks, releases,
}
use kordn.Proxy.Slots.Counted.{IsCounted, Reaches-IsCounted}

-- The first leaves; the second is admitted before the metric has heard of it.
abbrev admitted : Slots
admitted = (track_conn 1 (new_slots 1)).1

abbrev left : Slots
left = untrack_conn 1 admitted

abbrev given_back : Slots
given_back = release_slot left

abbrev second : Slots
second = (track_conn 2 given_back).1

full : (track_conn 2 left).0 ≡ false
unfolding track_conn holds connection_started untrack_conn without
full = refl

-- For a moment the metric counts two, and keeps this as its peak.
second_counted : second ≡ record {
  closed = false;
  capacity = 1;
  taken = 1;
  active = 2 ∷ [];
  wrappers = [];
  releasing = 0;
  finishing = 1;
  active_connections = 2;
  peak_connections = 2;
}
unfolding track_conn holds connection_started untrack_conn without release_slot
second_counted = refl

second_reached : Reaches (new_slots 1) second
unfolding track_conn holds connection_started untrack_conn without release_slot
second_reached =
    steps
      (steps (steps (steps starts (tracks 1 (new_slots 1))) (untracks 1 admitted))
        (releases left refl))
      (tracks 2 given_back)

Reaches-IsCounted_example : IsCounted second
Reaches-IsCounted_example = Reaches-IsCounted 1 second second_reached
