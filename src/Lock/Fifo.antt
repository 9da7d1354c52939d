-- ===== src/Lock/Fifo.antt =====
-- One queue of lock.go: `enqueue` and `remove`.
use hydraide.Base.{
  erase, has, ℕ, ◌≡◌, refl, sym, ap, Bool, true, false, List, [], ◌∷◌, ◌++◌, Option, none, some,
  ◌==◌, All, Bool-cases, inl, inr,
}
use mathlib.Core.Path.{subst}
use hydraide.Base.Outcome.{Outcome, ok}
use hydraide.Lock.{
  Caller, Queue, Panic, new_caller, enqueue, take_out, remove, removed, was_head, wake_head,
  close_ready, close_done,
}

abbrev pub ids : List Caller → List ℕ
ids [] = []
ids (c ∷ cs) = c.id ∷ ids cs

-- The first caller holds the lock; the others wait.
abbrev pub HeadOnly : List Caller → Type 0
HeadOnly [] = Unit
HeadOnly (c ∷ cs) = (c.ready ≡ true) × All (λ (d : Caller). d.ready ≡ false) cs

pub record IsQueue (q : Queue) : Type 0 where
  pub head_only : HeadOnly q.callers
  pub not_done : All (λ (c : Caller). c.done ≡ false) q.callers
  pub left_done : All (λ (c : Caller). c.done ≡ true) q.left

ids-append : (cs : List Caller) (c : Caller) → ids (cs ++ (c ∷ [])) ≡ ids cs ++ (c.id ∷ [])
ids-append [] c = refl
ids-append (d ∷ cs) c = ap (λ xs. d.id ∷ xs) (ids-append cs c)

snoc_all :
    (P : Caller → Type 0) (cs : List Caller) (c : Caller) → All P cs → P c → All P (cs ++ (c ∷ []))
snoc_all P [] c h x = (x, tt)
snoc_all P (d ∷ cs) c (h, hs) x = (h, snoc_all P cs c hs x)

join :
    (id : ℕ) (cs left : List Caller)
    → IsQueue (record { callers = cs; left = left })
    → (q' : Queue) × (enqueue (new_caller id) (record { callers = cs; left = left }) ≡ ok q')
      × IsQueue q'
      × (ids q'.callers ≡ ids cs ++ (id ∷ []))
unfolding enqueue new_caller
join id [] left h = (
  record { callers = record { id = id; ready = true; done = false } ∷ []; left = left },
  unfold close_ready in refl,
  record { head_only = (refl, tt); not_done = (refl, tt); left_done = h.left_done },
  refl,
)
join id (c ∷ cs) left h =
    let new : Caller = new_caller id in
    (
      record { callers = c ∷ (cs ++ (new ∷ [])); left = left },
      refl,
      record {
        head_only =
            (h.head_only.0, snoc_all (λ (d : Caller). d.ready ≡ false) cs new h.head_only.1 refl);
        not_done =
            (h.not_done.0, snoc_all (λ (d : Caller). d.done ≡ false) cs new h.not_done.1 refl);
        left_done = h.left_done;
      },
      ap (λ xs. c.id ∷ xs) (ids-append cs new),
    )

-- A new caller joins such a queue, in which the first caller alone is ready, those in it are not
-- done and those that left are, at its end, with no panic, and leaves such a queue.
pub enqueue-IsQueue :
    (id : ℕ) (q : Queue)
    → IsQueue q
    → (q' : Queue) × (enqueue (new_caller id) q ≡ ok q')
      × IsQueue q'
      × (ids q'.callers ≡ ids q.callers ++ (id ∷ []))
enqueue-IsQueue id q h = join id q.callers q.left h

module _ (P : Caller → Type 0) (id : ℕ) where
  -- What `take_out` finds and leaves of the callers.
  abbrev Taken : List Caller → Option (Caller × List Caller) → Type 0
  Taken cs none = (ids cs ≡ erase id (ids cs)) × (has id (ids cs) ≡ false)
  Taken cs (some r) =
      (ids r.1 ≡ erase id (ids cs)) × (has id (ids cs) ≡ true) × (All P cs → P r.0 × All P r.1)

  take_out-behind :
      (c : Caller) (cs : List Caller) (r : Option (Caller × List Caller))
      → (c.id == id) ≡ false
      → Taken cs r
      → Taken (c ∷ cs) (elim r [ none ↦ none | some found ↦ some (found.0, c ∷ found.1) ])
  take_out-behind c cs none e (same, missing) = (rw e (ap (λ xs. c.id ∷ xs) same), rw e missing)
  take_out-behind c cs (some r) e (same, found, all) =
      (rw e (ap (λ xs. c.id ∷ xs) same), rw e found, λ h. ((all h.1).0, (h.0, (all h.1).1)))

  Taken-here : (c : Caller) (cs : List Caller) → (c.id == id) ≡ true → Taken (c ∷ cs) (some (c, cs))
  Taken-here c cs e = (rw e refl, rw e refl, λ h. h)

  take_out-Taken : (cs : List Caller) → Taken cs (take_out id cs)
  unfolding take_out
  take_out-Taken [] = (refl, refl)
  take_out-Taken (c ∷ cs) = elim (Bool-cases (c.id == id)) [
    | inl here ↦ rw here (Taken-here c cs here)
    | inr behind ↦ rw behind (take_out-behind c cs (take_out id cs) behind (take_out-Taken cs))
  ]

abbrev Waits : Caller → Type 0
Waits c = c.ready ≡ false

abbrev Unfinished : Caller → Type 0
Unfinished c = c.done ≡ false

-- The callers after the first of them was woken.
woken :
    (cs : List Caller)
    → All Waits cs
    → All Unfinished cs
    → (cs' : List Caller) × (wake_head cs ≡ ok cs')
      × HeadOnly cs'
      × All Unfinished cs'
      × (ids cs' ≡ ids cs)
unfolding wake_head close_ready
woken [] w u = ([], refl, tt, tt, refl)
woken (c ∷ cs) (w, ws) (u, us) =
    (record c { ready = true } ∷ cs, rw w refl, (refl, ws), (u, us), refl)

-- The result of a removal, with what it leaves.
abbrev Removes : ℕ → List Caller → Outcome Panic (Queue × Bool) → Type 0
Removes id cs r =
    (q' : Queue) × (found : Bool) × (r ≡ ok (q', found))
    × IsQueue q'
    × (ids q'.callers ≡ erase id (ids cs))
    × (found ≡ has id (ids cs))

module _ (id : ℕ) (c : Caller) (cs left : List Caller)
    (h : IsQueue (record { callers = c ∷ cs; left = left })) where
  abbrev queue : Queue
  queue = record { callers = c ∷ cs; left = left }

  remove_here : (c.id == id) ≡ true → Removes id (c ∷ cs) (removed true queue (some (c, cs)))
  unfolding removed close_done
  remove_here e =
      let (cs', woke, head_only, unfinished, same) = woken cs h.head_only.1 h.not_done.1 in
      (
        record { callers = cs'; left = record c { done = true } ∷ left },
        true,
        rw (h.not_done.0, woke),
        record { head_only = head_only; not_done = unfinished; left_done = (refl, h.left_done) },
        rw e same,
        rw e refl,
      )

  remove_behind :
      (r : Option (Caller × List Caller))
      → (c.id == id) ≡ false
      → Taken Waits id cs r
      → Taken Unfinished id cs r
      → Removes id
          (c ∷ cs)
          (removed false queue (elim r [ none ↦ none | some found ↦ some (found.0, c ∷ found.1) ]))
  unfolding removed close_done
  remove_behind none e (same, missing) u =
      (queue, false, refl, h, rw e (ap (λ xs. c.id ∷ xs) same), rw e (sym missing))
  remove_behind (some (d, rest)) e (same, found, waits) (_, _, unfinished) =
      let (d_undone, undone) = unfinished h.not_done.1 in
      (
        record { callers = c ∷ rest; left = record d { done = true } ∷ left },
        true,
        rw d_undone,
        record {
          head_only = (h.head_only.0, (waits h.head_only.1).1);
          not_done = (h.not_done.0, undone);
          left_done = (refl, h.left_done);
        },
        rw e (ap (λ xs. c.id ∷ xs) same),
        rw e (sym found),
      )

remove_first :
    (id : ℕ) (c : Caller) (cs left : List Caller)
    → (c.id == id) ≡ true
    → remove id (record { callers = c ∷ cs; left = left })
      ≡ removed true (record { callers = c ∷ cs; left = left }) (some (c, cs))
unfolding remove was_head take_out
remove_first id c cs left e = rw e

remove_later :
    (id : ℕ) (c : Caller) (cs left : List Caller)
    → (c.id == id) ≡ false
    → remove id (record { callers = c ∷ cs; left = left })
      ≡ removed false
          (record { callers = c ∷ cs; left = left })
          (elim (take_out id cs) [ none ↦ none | some found ↦ some (found.0, c ∷ found.1) ])
unfolding remove was_head take_out
remove_later id c cs left e = rw e

remove_from :
    (id : ℕ) (cs left : List Caller)
    → IsQueue (record { callers = cs; left = left })
    → Removes id cs (remove id (record { callers = cs; left = left }))
unfolding remove removed was_head take_out
remove_from id [] left h = (record { callers = []; left = left }, false, refl, h, refl, refl)
remove_from id (c ∷ cs) left h = elim (Bool-cases (c.id == id)) [
  | inl here ↦
      subst (Removes id (c ∷ cs)) (sym (remove_first id c cs left here))
        (remove_here id c cs left h here)
  | inr behind ↦ subst (Removes id (c ∷ cs)) (sym (remove_later id c cs left behind)) (
      remove_behind id c cs left h (take_out id cs) behind (take_out-Taken Waits id cs)
        (take_out-Taken Unfinished id cs))
]

-- On a queue in which the first caller alone is ready, those in it are not done and those that
-- left are, `remove` does not panic. It takes the first caller with the id out, tells whether
-- there was one, and leaves the others in their order, in such a queue again.
pub remove-IsQueue :
    (id : ℕ) (q : Queue)
    → IsQueue q
    → (q' : Queue) × (found : Bool) × (remove id q ≡ ok (q', found))
      × IsQueue q'
      × (ids q'.callers ≡ erase id (ids q.callers))
      × (found ≡ has id (ids q.callers))
remove-IsQueue id q h = remove_from id q.callers q.left h
