-- ===== src/Lock.antt =====
-- app/core/hydra/lock/lock.go: per key a queue of callers, of which the first holds the lock. A
-- channel that is only ever closed is a Bool; to close it again is a panic.
pub mod Fifo
pub mod Events
pub mod Tests
use hydraide.Base.{
  ℕ, Bool, true, false, List, [], ◌∷◌, ◌++◌, Option, none, some, ◌==◌, if◌then◌else◌, is_nil,
}
use hydraide.Base.Bytes.{Bytes}
use hydraide.Base.Outcome.{Outcome, ok, err, ◌>>=◌}
use hydraide.Base.Assoc.{lookup, insert}

pub data Panic : Type 0 where
  close_of_closed_channel : Panic

-- An id stands for the string of a UUID.
pub record Caller : Type 0 where
  pub id : ℕ
  pub ready : Bool
  pub done : Bool

-- `left` are the callers that `remove` took out: their goroutines still hold them.
pub record Queue : Type 0 where
  pub callers : List Caller
  pub left : List Caller

unfoldable pub new_queue : Queue
new_queue = record { callers = []; left = [] }

unfoldable pub new_caller : ℕ → Caller
new_caller id = record { id = id; ready = false; done = false }

unfoldable pub close_ready : Caller → Outcome Panic Caller
close_ready c = if c.ready then err close_of_closed_channel else ok (record c { ready = true })

unfoldable pub close_done : Caller → Outcome Panic Caller
close_done c = if c.done then err close_of_closed_channel else ok (record c { done = true })

unfoldable pub enqueue : Caller → Queue → Outcome Panic Queue
unfolding close_ready
enqueue c q =
    if is_nil q.callers
    then (do woken ← close_ready c; ok (record q { callers = woken ∷ [] }))
    else ok (record q { callers = q.callers ++ (c ∷ []) })

-- The first caller with the id, and the callers without it.
unfoldable pub take_out : ℕ → List Caller → Option (Caller × List Caller)
take_out id [] = none
take_out id (c ∷ cs) =
    let rest = take_out id cs in
    if c.id == id
    then some (c, cs)
    else elim rest [ none ↦ none | some found ↦ some (found.0, c ∷ found.1) ]

unfoldable pub was_head : ℕ → List Caller → Bool
was_head id [] = false
was_head id (c ∷ cs) = c.id == id

unfoldable pub wake_head : List Caller → Outcome Panic (List Caller)
unfolding close_ready
wake_head [] = ok []
wake_head (c ∷ cs) = do woken ← close_ready c; ok (woken ∷ cs)

unfoldable pub removed : Bool → Queue → Option (Caller × List Caller) → Outcome Panic (Queue × Bool)
unfolding close_done wake_head
removed head q none = ok (q, false)
removed head q (some (c, rest)) = do
  gone ← close_done c
  callers ← (if head then wake_head rest else ok rest)
  ok (record { callers = callers; left = gone ∷ q.left }, true)

-- The Bool says whether the id was found.
unfoldable pub remove : ℕ → Queue → Outcome Panic (Queue × Bool)
unfolding removed was_head
remove id q = removed (was_head id q.callers) q (take_out id q.callers)

pub data LockError : Type 0 where
  caller_not_found lock_timeout : LockError

abbrev pub Queues : Type 0
Queues = List (Bytes × Queue)

or_new : Option Queue → Queue
or_new none = new_queue
or_new (some q) = q

-- A queue that the map does not have is made.
unfoldable pub get_queue : Bytes → Queues → Queue
unfolding or_new
get_queue key queues = or_new (lookup key queues)

-- `Lock` up to its wait.
unfoldable pub lock_request : Bytes → ℕ → Queues → Outcome Panic Queues
lock_request key id queues = do
  q ← enqueue (new_caller id) (get_queue key queues)
  ok (insert key q queues)

-- `Lock` after its context was done, and the watchdog after the ttl.
unfoldable pub lock_drop : Bytes → ℕ → Queues → Outcome Panic (Queues × Bool)
lock_drop key id queues = do
  (q, found) ← remove id (get_queue key queues)
  ok (insert key q queues, found)

dropped : Queues × Bool → Queues × Option LockError
dropped (queues, true) = (queues, none)
dropped (queues, false) = (queues, some caller_not_found)

unlock_in : Bytes → ℕ → Queues → Option Queue → Outcome Panic (Queues × Option LockError)
unfolding dropped
unlock_in key id queues none = ok (queues, some caller_not_found)
unlock_in key id queues (some q) = do r ← lock_drop key id queues; ok (dropped r)

unfoldable pub unlock : Bytes → ℕ → Queues → Outcome Panic (Queues × Option LockError)
unfolding unlock_in
unlock key id queues = unlock_in key id queues (lookup key queues)
