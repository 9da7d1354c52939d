-- ===== src/Guard/Turns.antt =====
-- Callers of guard.go as steps of a system.
use hydraide.Base.{
  ℕ, ◌+◌, ◌^◌, ◌<◌, ◌≤◌, ◌≡◌, ◌≢◌, refl, sym, ap, ◌∙◌, true, false, List, [], ◌∷◌, ◌++◌, Option,
  none, some, ◌==◌, All, length, has, erase, All-append, append_assoc, ==→eq, ==_refl, arith,
  if◌then◌else◌, is_nil,
}
use mathlib.Core.Path.{transport}
use hydraide.Base.Bytes.{Bytes}
use hydraide.Guard.{
  Guard, new_guard, start_treasure_guard, may_return, release_treasure_guard, can_execute,
  first_or_failure, first_is, released, queue_up, first_body, take_body, not_first,
}

-- The callers that wait in `StartTreasureGuard`, in the order of their arrival, and those that it has
-- returned to.
pub record System : Type 0 where
  pub guard : Guard
  pub waiting : List ℕ
  pub holders : List ℕ

abbrev pub initial : System
initial = record { guard = new_guard; waiting = []; holders = [] }

-- What may happen. The id that a call gets is a positive int64: it has not wrapped around.
pub data Step : System → System → Type 0 where
  arrives :
      (s : System) (body : Option Bytes)
      → s.guard.largest_guard_id + 1 < 2 ^ 63
      → Step s (record s {
        guard = (start_treasure_guard true body s.guard).0;
        waiting = s.waiting ++ ((start_treasure_guard true body s.guard).1 ∷ []);
      })
  returns :
      (s : System) (id : ℕ)
      → has id s.waiting ≡ true
      → may_return id s.guard ≡ true
      → Step s (record s { waiting = erase id s.waiting; holders = id ∷ s.holders })
  tries :
      (s : System) (body : Option Bytes)
      → s.guard.largest_guard_id + 1 < 2 ^ 63
      → (start_treasure_guard false body s.guard).1 ≢ 0
      → Step s (record s {
        guard = (start_treasure_guard false body s.guard).0;
        holders = (start_treasure_guard false body s.guard).1 ∷ s.holders;
      })
  fails :
      (s : System) (body : Option Bytes)
      → s.guard.largest_guard_id + 1 < 2 ^ 63
      → (start_treasure_guard false body s.guard).1 ≡ 0
      → Step s (record s { guard = (start_treasure_guard false body s.guard).0 })
  releases :
      (s : System) (id : ℕ)
      → has id s.holders ≡ true
      → Step s
          (record s { guard = release_treasure_guard id s.guard; holders = erase id s.holders })

pub data Reachable : System → Type 0 where
  starts : Reachable initial
  continues : (s t : System) → Reachable s → Step s t → Reachable t

abbrev Increasing : List ℕ → Type 0
Increasing [] = Unit
Increasing (x ∷ xs) = All (λ y. x < y) xs × Increasing xs

-- At most one caller has the turn; the queue is that caller and those that wait, with ids that grow
-- up to the largest.
record Turn (queue : List ℕ) (largest : ℕ) (holders waiting : List ℕ) : Type 0 where
  one : length holders ≤ 1
  queued : queue ≡ holders ++ waiting
  increasing : Increasing queue
  bounded : All (λ x. x ≤ largest) queue

abbrev InOrder : System → Type 0
InOrder s = Turn s.guard.wait_for_unlock s.guard.largest_guard_id s.holders s.waiting

snoc-Increasing :
    (xs : List ℕ) (m n : ℕ)
    → Increasing xs
    → All (λ x. x ≤ m) xs
    → m < n
    → Increasing (xs ++ (n ∷ [])) × All (λ x. x ≤ n) (xs ++ (n ∷ []))
snoc-Increasing [] m n i l h = ((tt, tt), (omega arith, tt))
snoc-Increasing (x ∷ xs) m n (i, is) (l, ls) h =
    let (rest, all) = snoc-Increasing xs m n is ls h in
    let below : x < n = omega arith in
    ((All-append (λ y. x < y) xs (n ∷ []) i (below, tt), rest), (omega arith, all))

-- A new id joins those that wait.
joins-Turn :
    (queue : List ℕ) (largest : ℕ) (holders waiting : List ℕ)
    → Turn queue largest holders waiting
    → Turn (queue ++ ((largest + 1) ∷ [])) (largest + 1) holders (waiting ++ ((largest + 1) ∷ []))
joins-Turn queue largest holders waiting t =
    let (increasing, bounded) =
      snoc-Increasing queue largest (largest + 1) t.increasing t.bounded (omega arith) in
    record {
      one = t.one;
      queued = rw t.queued (append_assoc holders waiting _);
      increasing = increasing;
      bounded = bounded;
    }

not_above : (id x : ℕ) (xs : List ℕ) → All (λ y. x < y) xs → has id xs ≡ true → x < id
not_above id x [] a h = cc
not_above id x (y ∷ ys) (a, rest) h = ground (arith, not_above id x ys)

-- The first id of the queue, of a caller that waits, gets the turn: nobody has it.
gets-Turn :
    (id largest : ℕ) (holders waiting : List ℕ)
    → Turn (holders ++ waiting) largest holders waiting
    → has id waiting ≡ true
    → first_is id (holders ++ waiting) ≡ true
    → Turn (holders ++ waiting) largest (id ∷ holders) (erase id waiting)
unfolding first_is
gets-Turn id largest [] [] t h f = cc
gets-Turn id largest [] (w ∷ ws) t h f =
    let same : w ≡ id = ==→eq w id f in
    record {
      one = omega arith;
      queued = rw f (λ i. same i ∷ ws);
      increasing = t.increasing;
      bounded = t.bounded;
    }
gets-Turn id largest (x ∷ []) waiting t h f =
    let bad : ⊥ = omega (arith, not_above id x waiting t.increasing.0 h, ==→eq x id f) in absurd bad
gets-Turn id largest (x ∷ (y ∷ xs)) waiting t h f = let bad : ⊥ = omega (arith, t.one) in absurd bad

release_first :
    (id x : ℕ) (g : Guard) (xs : List ℕ)
    → g.wait_for_unlock ≡ x ∷ xs
    → (x == id) ≡ true
    → release_treasure_guard id g ≡ record g {
      wait_for_unlock = xs;
      largest_guard_id = if is_nil xs then 0 else g.largest_guard_id;
    }
unfolding release_treasure_guard
release_first id x g xs e h = rw (e, released) (rw h)

kept_bound :
    (largest : ℕ) (xs : List ℕ)
    → All (λ x. x ≤ largest) xs
    → All (λ x. x ≤ (if is_nil xs then 0 else largest)) xs
kept_bound largest [] b = tt
kept_bound largest (x ∷ xs) b = b

-- The holder leaves; the ids start again when nobody is left.
leaves-Turn :
    (id : ℕ) (g : Guard) (holders waiting : List ℕ)
    → Turn (holders ++ waiting) g.largest_guard_id holders waiting
    → g.wait_for_unlock ≡ holders ++ waiting
    → has id holders ≡ true
    → (let g' = release_treasure_guard id g in
        Turn g'.wait_for_unlock g'.largest_guard_id (erase id holders) waiting)
leaves-Turn id g [] waiting t e h = cc
leaves-Turn id g (x ∷ []) waiting t e h =
    let first : (x == id) ≡ true = ground arith in
    let after : Turn waiting (if is_nil waiting then 0 else g.largest_guard_id) (erase id (x ∷ []))
        waiting =
      record {
        one = rw first (omega arith);
        queued = rw first refl;
        increasing = t.increasing.1;
        bounded = kept_bound g.largest_guard_id waiting t.bounded.1;
      } in
    rw (release_first id x g waiting e first) after
leaves-Turn id g (x ∷ (y ∷ xs)) waiting t e h = let bad : ⊥ = omega (arith, t.one) in absurd bad

start_lem :
    (body : Option Bytes) (g : Guard)
    → g.largest_guard_id + 1 < 2 ^ 63
    → (let (g', id) = start_treasure_guard true body g in
        (g'.wait_for_unlock ≡ g.wait_for_unlock ++ ((g.largest_guard_id + 1) ∷ []))
        × (g'.largest_guard_id ≡ g.largest_guard_id + 1)
        × (id ≡ g.largest_guard_id + 1))
unfolding start_treasure_guard queue_up first_body take_body
start_lem body g h = ground arith

try_lem :
    (body : Option Bytes) (g : Guard)
    → g.largest_guard_id + 1 < 2 ^ 63
    → (let (g', id) = start_treasure_guard false body g in
        id ≢ 0
        → (g.wait_for_unlock ≡ [])
          × (g'.wait_for_unlock ≡ (g.largest_guard_id + 1) ∷ [])
          × (g'.largest_guard_id ≡ g.largest_guard_id + 1)
          × (id ≡ g.largest_guard_id + 1))
unfolding start_treasure_guard queue_up first_body take_body
try_lem body g h = ground arith

fail_lem :
    (body : Option Bytes) (g : Guard)
    → g.largest_guard_id + 1 < 2 ^ 63
    → (let (g', id) = start_treasure_guard false body g in
        id ≡ 0
        → (g'.wait_for_unlock ≡ g.wait_for_unlock) × (g'.largest_guard_id ≡ g.largest_guard_id))
unfolding start_treasure_guard queue_up first_body take_body
fail_lem body g h = ground arith

nobody : (xs ys : List ℕ) → [] ≡ xs ++ ys → (xs ≡ []) × (ys ≡ [])
nobody [] ys e = (refl, sym e)
nobody (x ∷ xs) ys e = cc

Step-InOrder : (s t : System) → Step s t → InOrder s → InOrder t
Step-InOrder s t (arrives _ body h) o =
    let (q, l, id) = start_lem body s.guard h in
    transport (λ i. Turn (sym q i) (sym l i) s.holders (s.waiting ++ (sym id i ∷ [])))
      (joins-Turn s.guard.wait_for_unlock s.guard.largest_guard_id s.holders s.waiting o)
Step-InOrder s t (returns _ id w m) o =
    let queue : List ℕ = s.holders ++ s.waiting in
    let largest : ℕ = s.guard.largest_guard_id in
    let same : Turn queue largest s.holders s.waiting =
      transport (λ i. Turn (o.queued i) largest s.holders s.waiting) o in
    let first : first_is id queue ≡ true =
      ap (first_is id) (sym o.queued) ∙ unfold may_return in m in
    transport (λ i. Turn (sym o.queued i) largest (id ∷ s.holders) (erase id s.waiting))
      (gets-Turn id largest s.holders s.waiting same w first)
Step-InOrder s t (tries _ body h n) o =
    let (free, q, l, id) = try_lem body s.guard h n in
    let (no_holder, no_waiter) = nobody s.holders s.waiting (sym free ∙ o.queued) in
    let new : ℕ = s.guard.largest_guard_id + 1 in
    let alone : Turn (new ∷ []) new (new ∷ []) [] = record {
      one = omega arith;
      queued = refl;
      increasing = (tt, tt);
      bounded = (omega arith, tt);
    } in
    transport (λ i. Turn (sym q i) (sym l i) (sym id i ∷ sym no_holder i) (sym no_waiter i)) alone
Step-InOrder s t (fails _ body h n) o =
    let (q, l) = fail_lem body s.guard h n in
    transport (λ i. Turn (sym q i) (sym l i) s.holders s.waiting) o
Step-InOrder s t (releases _ id h) o =
    leaves-Turn id s.guard s.holders s.waiting
      (transport (λ i. Turn (o.queued i) s.guard.largest_guard_id s.holders s.waiting) o) o.queued h

Reachable-InOrder : (s : System) → Reachable s → InOrder s
unfolding new_guard
Reachable-InOrder _ starts = record {
  one = omega arith;
  queued = refl;
  increasing = tt;
  bounded = tt;
}
Reachable-InOrder _ (continues s t r step) = Step-InOrder s t step (Reachable-InOrder s r)

-- In every state that callers can reach, in any order of their steps and with ids below 2^63, at
-- most one of them has the turn, and the queue is that one followed by those that wait, in the
-- order of their arrival.
pub turns_lem :
    (s : System)
    → Reachable s
    → (length s.holders ≤ 1) × (s.guard.wait_for_unlock ≡ s.holders ++ s.waiting)
turns_lem s r = let o = Reachable-InOrder s r in (o.one, o.queued)

can_execute_first :
    (x : ℕ) (g : Guard) (xs : List ℕ) → g.wait_for_unlock ≡ x ∷ xs → can_execute x false g ≡ none
unfolding can_execute first_or_failure
can_execute_first x g xs e = rw e (rw (==_refl x))

can_execute_other :
    (x y : ℕ) (g : Guard) (xs : List ℕ)
    → g.wait_for_unlock ≡ x ∷ xs
    → x < y
    → can_execute y false g ≡ some not_first
unfolding can_execute first_or_failure
can_execute_other x y g xs e less = rw e (ground arith)

executes :
    (x : ℕ) (g : Guard) (holders waiting : List ℕ)
    → g.wait_for_unlock ≡ holders ++ waiting
    → Turn (holders ++ waiting) g.largest_guard_id holders waiting
    → has x holders ≡ true
    → (can_execute x false g ≡ none)
      × ((y : ℕ) → has y waiting ≡ true → can_execute y false g ≡ some not_first)
executes x g [] waiting e t h = cc
executes x g (z ∷ []) waiting e t h =
    let first : (z == x) ≡ true = ground arith in
    let same : z ≡ x = ==→eq z x first in
    (
      can_execute_first x g waiting (e ∙ (λ i. same i ∷ waiting)),
      λ y w. can_execute_other z y g waiting e (not_above y z waiting t.increasing.0 w),
    )
executes x g (z ∷ (y ∷ xs)) waiting e t h = let bad : ⊥ = omega (arith, t.one) in absurd bad

-- In every state that callers can reach, while a caller has the turn, `CanExecute` gives it no error
-- for a function that is not a body function, and gives `not_first` to each caller that waits.
pub can_execute_lem :
    (s : System) (x : ℕ)
    → Reachable s
    → has x s.holders ≡ true
    → (can_execute x false s.guard ≡ none)
      × ((y : ℕ) → has y s.waiting ≡ true → can_execute y false s.guard ≡ some not_first)
can_execute_lem s x r h =
    let o = Reachable-InOrder s r in
    executes x s.guard s.holders s.waiting o.queued
      (transport (λ i. Turn (o.queued i) s.guard.largest_guard_id s.holders s.waiting) o) h

-- When the only caller in the queue releases the guard, the ids start again: the next caller gets
-- the id 1, so whoever had the id 1 before can execute in its turn, and can end it.
pub stale_id_lem :
    (g : Guard) (id : ℕ) (body : Option Bytes)
    → g.wait_for_unlock ≡ id ∷ []
    → (let (g', new) = start_treasure_guard true body (release_treasure_guard id g) in
        (new ≡ 1)
        × (can_execute 1 false g' ≡ none)
        × ((release_treasure_guard 1 g').wait_for_unlock ≡ []))
stale_id_lem g id body e =
    let fresh : Guard = record g { wait_for_unlock = []; largest_guard_id = 0 } in
    let (queue, largest, new) = start_lem body fresh (omega arith) in
    let g' : Guard = (start_treasure_guard true body fresh).0 in
    rw (release_first id id g [] e (==_refl id)) (
      new,
      can_execute_first 1 g' [] queue,
      ap (λ (h : Guard). h.wait_for_unlock) (release_first 1 1 g' [] queue refl),
    )
