-- ===== src/Guard.antt =====
-- app/core/hydra/swamp/treasure/guard/guard.go: callers take turns on a treasure, by a queue of ids.
-- An int64 is its two's complement, below 2^64.
pub mod Turns
pub mod Tests
use hydraide.Base.{
  ℕ, ◌+◌, ◌%◌, ◌^◌, Bool, true, false, List, [], ◌∷◌, ◌++◌, Option, none, some, ◌==◌, ◌&&◌, not,
  if◌then◌else◌, is_nil,
}
use hydraide.Base.Bytes.{Bytes}
use hydraide.Base.Assoc.{bytes_eq}

pub record Guard : Type 0 where
  pub wait_for_unlock : List ℕ
  pub largest_guard_id : ℕ
  pub body_auth_id : Bytes

unfoldable pub new_guard : Guard
new_guard = record { wait_for_unlock = []; largest_guard_id = 0; body_auth_id = [] }

-- "kby1CXR0wkj@qpa2ynq"
abbrev pub right_body_auth_id : Bytes
right_body_auth_id =
    b'k' ∷ b'b' ∷ b'y' ∷ b'1' ∷ b'C' ∷ b'X' ∷ b'R' ∷ b'0' ∷ b'w' ∷ b'k' ∷ b'j' ∷ b'@' ∷ b'q' ∷ b'p'
    ∷ b'a' ∷ b'2' ∷ b'y' ∷ b'n' ∷ b'q' ∷ []

-- A body id is taken when there is none yet.
first_body : Option Bytes → Guard → Guard
first_body none g = g
first_body (some id) g = if is_nil g.body_auth_id then record g { body_auth_id = id } else g

take_body : Option Bytes → Guard → Guard
take_body none g = g
take_body (some id) g = record g { body_auth_id = id }

-- A new id at the end of the queue.
queue_up : Option Bytes → Guard → Guard × ℕ
unfolding take_body
queue_up body g =
    let id = (g.largest_guard_id + 1) % 2 ^ 64 in
    (
      take_body body
          (record g { largest_guard_id = id; wait_for_unlock = g.wait_for_unlock ++ (id ∷ []) }),
      id,
    )

-- `StartTreasureGuard` up to its loop; a caller that waits goes on when `may_return` holds of its id.
unfoldable pub start_treasure_guard : Bool → Option Bytes → Guard → Guard × ℕ
unfolding first_body queue_up
start_treasure_guard waiting body g =
    let g' = first_body body g in
    if waiting
    then queue_up body g'
    else if is_nil g'.wait_for_unlock
    then queue_up body g'
    else (g', 0)

first_is : ℕ → List ℕ → Bool
first_is id [] = false
first_is id (x ∷ xs) = x == id

-- The condition that the loop waits for. A caller in the loop is in the queue, which is not empty.
unfoldable pub may_return : ℕ → Guard → Bool
unfolding first_is
may_return id g = first_is id g.wait_for_unlock

released : ℕ → Guard → List ℕ → Guard
released id g [] = g
released id g (x ∷ xs) =
    if x == id
    then record g {
      wait_for_unlock = xs;
      largest_guard_id = if is_nil xs then 0 else g.largest_guard_id;
    }
    else g

unfoldable pub release_treasure_guard : ℕ → Guard → Guard
unfolding released
release_treasure_guard id g = released id g g.wait_for_unlock

pub data Failure : Type 0 where
  wrong_body_auth not_first index_out_of_range : Failure

first_or_failure : ℕ → List ℕ → Option Failure
first_or_failure id [] = some index_out_of_range
first_or_failure id (x ∷ xs) = if x == id then none else some not_first

-- On an empty queue `g.waitForUnlock[0]` panics.
unfoldable pub can_execute : ℕ → Bool → Guard → Option Failure
unfolding first_or_failure
can_execute id is_body_function g =
    if is_body_function && not (bytes_eq g.body_auth_id right_body_auth_id)
    then some wrong_body_auth
    else first_or_failure id g.wait_for_unlock
