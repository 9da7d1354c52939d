-- ===== src/Guard/Tests.antt =====
-- Two callers of a guard: the first has the turn, the second waits.
use hydraide.Base.{◌≡◌, ◌≤◌, refl, true, false, [], ◌∷◌, ◌++◌, none, length, arith}
use hydraide.Guard.{
  Guard, new_guard, start_treasure_guard, release_treasure_guard, may_return, can_execute,
}
use hydraide.Guard.Turns.{
  System, initial, arrives, returns, Reachable, starts, continues, turns_lem, stale_id_lem,
}

abbrev one_waits : System
one_waits = record {
  guard = (start_treasure_guard true none initial.guard).0;
  waiting = (start_treasure_guard true none initial.guard).1 ∷ [];
  holders = [];
}

abbrev one_has : System
one_has = record { guard = one_waits.guard; waiting = []; holders = 1 ∷ [] }

abbrev both : System
both = record {
  guard = (start_treasure_guard true none one_has.guard).0;
  waiting = (start_treasure_guard true none one_has.guard).1 ∷ [];
  holders = 1 ∷ [];
}

both-Reachable : Reachable both
unfolding new_guard start_treasure_guard may_return
both-Reachable =
    continues one_has both
      (continues one_waits one_has
        (continues initial one_waits starts (arrives initial none (omega arith)))
        (returns one_waits 1 refl refl))
      (arrives one_has none (omega arith))

turns_lem_example :
    (length both.holders ≤ 1) × (both.guard.wait_for_unlock ≡ both.holders ++ both.waiting)
turns_lem_example = turns_lem both both-Reachable

abbrev used : Guard
used = record { wait_for_unlock = 3 ∷ []; largest_guard_id = 3; body_auth_id = [] }

stale_id_lem_example :
    (let (g', new) = start_treasure_guard true none (release_treasure_guard 3 used) in
      (new ≡ 1)
      × (can_execute 1 false g' ≡ none)
      × ((release_treasure_guard 1 g').wait_for_unlock ≡ []))
stale_id_lem_example = stale_id_lem used 3 none refl
