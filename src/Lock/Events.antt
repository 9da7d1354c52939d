-- ===== src/Lock/Events.antt =====
-- All that reaches the lock of lock.go, in any order, against one line of ids for each key.
use hydraide.Base.{
  erase, has, ℕ, ◌≡◌, refl, sym, ap, ◌∙◌, Bool, true, false, List, [], ◌∷◌, ◌++◌, Option, none,
  some, if◌then◌else◌, Bool-cases, inl, inr,
}
use mathlib.Core.Path.{subst}
use hydraide.Base.Bytes.{Bytes}
use hydraide.Base.Outcome.{Outcome, ok, ◌>>=◌}
use hydraide.Base.Assoc.{bytes_eq, bytes_eq→eq, lookup, insert, lookup-insert}
use hydraide.Lock.{
  Queue, Queues, Panic, LockError, caller_not_found, get_queue, or_new, new_queue, lock_request,
  lock_drop, dropped, unlock, unlock_in,
}
use hydraide.Lock.Fifo.{IsQueue, ids, enqueue-IsQueue, remove-IsQueue}

-- A call of `Lock`, the end of its context while it waits, the end of a ttl, and a call of `Unlock`.
pub data Event : Type 0 where
  request cancel expire release : Bytes → ℕ → Event

first_of {ℓ} : {B : Type ℓ} → Queues × B → Outcome Panic Queues
first_of (queues, b) = ok queues

pub apply : Event → Queues → Outcome Panic Queues
unfolding first_of
apply (request key id) queues = lock_request key id queues
apply (cancel key id) queues = lock_drop key id queues >>= first_of
apply (expire key id) queues = lock_drop key id queues >>= first_of
apply (release key id) queues = unlock key id queues >>= first_of

pub run : List Event → Queues → Outcome Panic Queues
run [] queues = ok queues
run (e ∷ es) queues = do next ← apply e queues; run es next

-- The line of a key: a request joins it at its end, and anything else takes an id out.
abbrev at_key : Bytes → Bytes → List ℕ → List ℕ → List ℕ
at_key k key changed line = if bytes_eq k key then changed else line

abbrev pub line : Bytes → Event → List ℕ → List ℕ
line key (request k id) xs = at_key k key (xs ++ (id ∷ [])) xs
line key (cancel k id) xs = at_key k key (erase id xs) xs
line key (expire k id) xs = at_key k key (erase id xs) xs
line key (release k id) xs = at_key k key (erase id xs) xs

abbrev pub lines : Bytes → List Event → List ℕ → List ℕ
lines key [] xs = xs
lines key (e ∷ es) xs = lines key es (line key e xs)

abbrev pub queue_ids : Bytes → Queues → List ℕ
queue_ids key queues = ids (get_queue key queues).callers

abbrev pub IsLock : Queues → Type 0
IsLock queues = (key : Bytes) → IsQueue (get_queue key queues)

new_queue-IsQueue : IsQueue new_queue
unfolding new_queue
new_queue-IsQueue = record { head_only = tt; not_done = tt; left_done = tt }

get_queue-insert :
    (k key : Bytes) (q : Queue) (queues : Queues)
    → get_queue key (insert k q queues) ≡ (if bytes_eq k key then q else get_queue key queues)
unfolding get_queue or_new
get_queue-insert k key q queues = elim (Bool-cases (bytes_eq k key)) [
  | inl same ↦ rw (lookup-insert k key q queues, same)
  | inr other ↦ rw (lookup-insert k key q queues, other)
]

-- A queue of the map was replaced.
replaced-IsLock :
    (k : Bytes) (q : Queue) (queues : Queues)
    → IsQueue q
    → IsLock queues
    → IsLock (insert k q queues)
replaced-IsLock k q queues h l key = elim (Bool-cases (bytes_eq k key)) [
  | inl same ↦ subst IsQueue (sym (get_queue-insert k key q queues ∙ rw same)) h
  | inr other ↦ subst IsQueue (sym (get_queue-insert k key q queues ∙ rw other)) (l key)
]

replaced-ids :
    (k key : Bytes) (q : Queue) (queues : Queues) (xs : List ℕ)
    → ids q.callers ≡ xs
    → queue_ids key (insert k q queues) ≡ at_key k key xs (queue_ids key queues)
replaced-ids k key q queues xs e = elim (Bool-cases (bytes_eq k key)) [
  | inl same ↦ rw (get_queue-insert k key q queues, same) e
  | inr other ↦ rw (get_queue-insert k key q queues, other)
]

own_line :
    (k key : Bytes) (queues : Queues) (f : List ℕ → List ℕ)
    → at_key k key (f (queue_ids k queues)) (queue_ids key queues)
      ≡ at_key k key (f (queue_ids key queues)) (queue_ids key queues)
own_line k key queues f = elim (Bool-cases (bytes_eq k key)) [
  | inl same ↦
      ap (λ j. at_key k key (f (queue_ids j queues)) (queue_ids key queues))
        (bytes_eq→eq k key same)
  | inr other ↦ rw other refl
]

-- A step leaves a lock whose lines have changed as `change` says.
abbrev Steps :
    {B : Type 0} → Queues → (Bytes → List ℕ → List ℕ) → Outcome Panic (Queues × B) → B → Type 0
Steps queues change r b =
    (queues' : Queues) × (r ≡ ok (queues', b))
    × IsLock queues'
    × ((key : Bytes) → queue_ids key queues' ≡ change key (queue_ids key queues))

lock_request-IsLock :
    (k : Bytes) (id : ℕ) (queues : Queues)
    → IsLock queues
    → (queues' : Queues) × (lock_request k id queues ≡ ok queues')
      × IsLock queues'
      × ((key : Bytes) → queue_ids key queues' ≡ line key (request k id) (queue_ids key queues))
unfolding lock_request
lock_request-IsLock k id queues l =
    let (q, done, h, e) = enqueue-IsQueue id (get_queue k queues) (l k) in
    (
      insert k q queues,
      rw done,
      replaced-IsLock k q queues h l,
      λ key. replaced-ids k key q queues _ e ∙ own_line k key queues (λ xs. xs ++ (id ∷ [])),
    )

lock_drop-IsLock :
    (k : Bytes) (id : ℕ) (queues : Queues)
    → IsLock queues
    → Steps queues
        (λ key xs. at_key k key (erase id xs) xs)
        (lock_drop k id queues)
        (has id (queue_ids k queues))
unfolding lock_drop
lock_drop-IsLock k id queues l =
    let (q, found, done, h, e, same) = remove-IsQueue id (get_queue k queues) (l k) in
    (
      insert k q queues,
      rw done (λ i. ok (insert k q queues, same i)),
      replaced-IsLock k q queues h l,
      λ key. replaced-ids k key q queues _ e ∙ own_line k key queues (erase id),
    )

abbrev pub answer : Bool → Option LockError
answer true = none
answer false = some caller_not_found

empty_queue : (k : Bytes) (queues : Queues) → lookup k queues ≡ none → queue_ids k queues ≡ []
unfolding get_queue or_new new_queue
empty_queue k queues e = rw e refl

dropped-answer : (queues : Queues) (b : Bool) → dropped (queues, b) ≡ (queues, answer b)
unfolding dropped
dropped-answer queues true = refl
dropped-answer queues false = refl

-- With no queue for the key there is nothing to take out.
no_queue :
    (k key : Bytes) (id : ℕ) (queues : Queues)
    → lookup k queues ≡ none
    → queue_ids key queues ≡ at_key k key (erase id (queue_ids key queues)) (queue_ids key queues)
no_queue k key id queues e = elim (Bool-cases (bytes_eq k key)) [
  | inl same ↦
      let empty : queue_ids key queues ≡ [] =
        ap (λ j. queue_ids j queues) (sym (bytes_eq→eq k key same)) ∙ empty_queue k queues e in
      rw (same, empty) refl
  | inr other ↦ rw other refl
]

unlock_in-IsLock :
    (k : Bytes) (id : ℕ) (queues : Queues) (found : Option Queue)
    → lookup k queues ≡ found
    → IsLock queues
    → Steps queues
        (λ key xs. at_key k key (erase id xs) xs)
        (unlock_in k id queues found)
        (answer (has id (queue_ids k queues)))
unfolding unlock_in dropped
unlock_in-IsLock k id queues none e l = (
  queues,
  λ i. ok (queues, answer (has id (sym (empty_queue k queues e) i))),
  l,
  λ key. no_queue k key id queues e,
)
unlock_in-IsLock k id queues (some q) e l =
    let (queues', done, l', same) = lock_drop-IsLock k id queues l in
    (queues', rw done (ap ok (dropped-answer queues' (has id (queue_ids k queues)))), l', same)

-- On a lock of such queues `Unlock` does not panic. It takes the id out of the key's line, touches
-- no other line, and answers with an error just when the id is not in that line; the queues stay
-- such queues.
pub unlock-IsLock :
    (k : Bytes) (id : ℕ) (queues : Queues)
    → IsLock queues
    → (queues' : Queues) × (unlock k id queues ≡ ok (queues', answer (has id (queue_ids k queues))))
      × IsLock queues'
      × ((key : Bytes) → queue_ids key queues' ≡ line key (release k id) (queue_ids key queues))
unfolding unlock
unlock-IsLock k id queues l = unlock_in-IsLock k id queues (lookup k queues) refl l

no_queues : IsLock []
unfolding lookup get_queue or_new
no_queues key = new_queue-IsQueue

-- What an event leaves.
abbrev Follows : Event → Queues → Outcome Panic Queues → Type 0
Follows e queues r =
    (queues' : Queues) × (r ≡ ok queues')
    × IsLock queues'
    × ((key : Bytes) → queue_ids key queues' ≡ line key e (queue_ids key queues))

apply-Follows : (e : Event) (queues : Queues) → IsLock queues → Follows e queues (apply e queues)
unfolding apply first_of
apply-Follows (request k id) queues l = lock_request-IsLock k id queues l
apply-Follows (cancel k id) queues l =
    let (queues', done, l', same) = lock_drop-IsLock k id queues l in (queues', rw done, l', same)
apply-Follows (expire k id) queues l =
    let (queues', done, l', same) = lock_drop-IsLock k id queues l in (queues', rw done, l', same)
apply-Follows (release k id) queues l =
    let (queues', done, l', same) = unlock-IsLock k id queues l in (queues', rw done, l', same)

run_from :
    (es : List Event) (queues : Queues)
    → IsLock queues
    → (queues' : Queues) × (run es queues ≡ ok queues')
      × IsLock queues'
      × ((key : Bytes) → queue_ids key queues' ≡ lines key es (queue_ids key queues))
unfolding run
run_from [] queues l = (queues, refl, l, λ key. refl)
run_from (e ∷ es) queues l =
    let (next, applied, l', step) = apply-Follows e queues l in
    let (last, ran, l'', steps) = run_from es next l' in
    (last, rw applied ran, l'', λ key. steps key ∙ ap (lines key es) (step key))

-- From an empty lock, any requests, cancellations, expiries and releases, in any order and with any
-- ids, end with no panic. Each key's queue then has the ids of a line that requests join at the end
-- and that the other events leave, and of each queue the first caller alone is ready.
pub run-IsLock :
    (es : List Event)
    → (queues : Queues) × (run es [] ≡ ok queues)
      × IsLock queues
      × ((key : Bytes) → queue_ids key queues ≡ lines key es [])
unfolding lookup
run-IsLock es =
    let (queues, ran, l, same) = run_from es [] no_queues in
    (queues, ran, l, λ key. same key ∙ ap (lines key es) (empty_queue key [] refl))
