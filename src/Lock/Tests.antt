-- ===== src/Lock/Tests.antt =====
-- A lock that two callers want.
use hydraide.Base.{
  erase, has, ℕ, ◌≡◌, refl, Bool, true, false, List, [], ◌∷◌, ◌++◌, Option, none, some,
}
use hydraide.Base.Bytes.{Bytes}
use hydraide.Base.Outcome.{ok}
use hydraide.Lock.{Queue, Queues, unlock}
use hydraide.Lock.Fifo.{IsQueue}
use hydraide.Lock.Events.{
  Event, request, cancel, release, IsLock, queue_ids, line, lines, answer, run, run-IsLock,
  unlock-IsLock,
}

abbrev two : Queue
two = record {
  callers =
      record { id = 4; ready = true; done = false }
      ∷ record { id = 7; ready = false; done = false }
      ∷ [];
  left = [];
}

two-IsQueue : IsQueue two
two-IsQueue = record {
  head_only = (refl, (refl, tt));
  not_done = (refl, (refl, tt));
  left_done = tt;
}

abbrev key : Bytes
key = b'k' ∷ []

abbrev events : List Event
events = request key 4 ∷ request key 7 ∷ cancel key 7 ∷ request key 9 ∷ release key 4 ∷ []

run-IsLock_example :
    (queues : Queues) × (run events [] ≡ ok queues)
    × IsLock queues
    × ((k : Bytes) → queue_ids k queues ≡ lines k events [])
run-IsLock_example = run-IsLock events

the_third_holds : lines key events [] ≡ 9 ∷ []
unfolding hydraide.Base.Assoc.bytes_eq
the_third_holds = refl

abbrev busy : Queues
busy = run-IsLock_example.0

unlock-IsLock_example :
    (queues' : Queues) × (unlock key 9 busy ≡ ok (queues', answer (has 9 (queue_ids key busy))))
    × IsLock queues'
    × ((k : Bytes) → queue_ids k queues' ≡ line k (release key 9) (queue_ids k busy))
unlock-IsLock_example = unlock-IsLock key 9 busy run-IsLock_example.2
