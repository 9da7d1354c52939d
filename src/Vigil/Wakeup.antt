-- ===== src/Vigil/Wakeup.antt =====
-- `WaitForActiveVigilsClosed` of vigil.go beside operations that begin and end. The test of the loop and the
-- entry of `Wait` into the list of waiters are two steps; so are the two lines of `CeaseVigil`, which
-- does not take the lock.
use hydraide.Base.{ℕ, suc, ◌+◌, ◌-◌, ◌^◌, ◌%◌, zero, ◌<◌, ◌≡◌, refl, true, false, arith}
use mathlib.Core.Path.{transport}
use hydraide.Vigil.{Vigil, begin_vigil, cease_vigil, has_active_vigils}

-- The waiter is at the test, has seen active vigils, is in the list of waiters, or has returned.
pub data Phase : Type 0 where
  testing seen_active asleep returned : Phase

-- `running` operations have not called `CeaseVigil` yet, `pending` ones are before its second line.
pub record System : Type 0 where
  pub vigil : Vigil
  pub running : ℕ
  pub pending : ℕ
  pub waiter : Phase

abbrev woken : Phase → Phase
woken testing = testing
woken seen_active = seen_active
woken asleep = testing
woken returned = returned

pub data Step : System → System → Type 0 where
  sees_active :
      (s : System)
      → s.waiter ≡ testing
      → has_active_vigils s.vigil ≡ true
      → Step s (record s { waiter = seen_active })
  sees_none :
      (s : System)
      → s.waiter ≡ testing
      → has_active_vigils s.vigil ≡ false
      → Step s (record s { waiter = returned })
  sleeps : (s : System) → s.waiter ≡ seen_active → Step s (record s { waiter = asleep })
  begins : (s : System) → Step s (record s { vigil = begin_vigil s.vigil; running = suc s.running })
  decrements :
      (s : System) (n : ℕ)
      → s.running ≡ suc n
      → Step s (record s { vigil = cease_vigil s.vigil; running = n; pending = suc s.pending })
  broadcasts :
      (s : System) (n : ℕ)
      → s.pending ≡ suc n
      → Step s (record s { pending = n; waiter = woken s.waiter })

pub data Steps : System → System → Type 0 where
  done : (s : System) → Steps s s
  and_then : (s t u : System) → Step s t → Steps t u → Steps s u

abbrev state : ℕ → ℕ → ℕ → Phase → System
state vigils running pending waiter = record {
  vigil = record { vigils = vigils };
  running = running;
  pending = pending;
  waiter = waiter;
}

joined : (s t u : System) → Steps s t → Steps t u → Steps s u
joined _ t u (done _) r = r
joined s t u (and_then _ v _ step rest) r = and_then s v u step (joined v t u rest r)

one_less :
    (n : ℕ) → suc n < 2 ^ 63 → cease_vigil (record { vigils = suc n }) ≡ record { vigils = n }
unfolding cease_vigil
one_less n h =
    let less : (suc n + (2 ^ 64 - 1)) % 2 ^ 64 ≡ n = omega arith in λ i. record { vigils = less i }

some_active : (n : ℕ) → 0 < n → n < 2 ^ 63 → has_active_vigils (record { vigils = n }) ≡ true
unfolding has_active_vigils
some_active n pos h = ground arith

none_active : has_active_vigils (record { vigils = 0 }) ≡ false
unfolding has_active_vigils
none_active = refl

-- With the waiter asleep, and no operation and no broadcast left, only an operation that begins can
-- happen.
only_begins :
    (s t : System)
    → Step s t
    → s.waiter ≡ asleep
    → s.running ≡ 0
    → s.pending ≡ 0
    → t ≡ record s { vigil = begin_vigil s.vigil; running = suc s.running }
only_begins s _ (sees_active _ w a) asleep_s r p = cc
only_begins s _ (sees_none _ w a) asleep_s r p = cc
only_begins s _ (sleeps _ w) asleep_s r p = cc
only_begins s _ (begins _) asleep_s r p = refl
only_begins s _ (decrements _ n e) asleep_s r p = absurd (omega arith)
only_begins s _ (broadcasts _ n e) asleep_s r p = absurd (omega arith)

-- The operations all end, each with its broadcast, while the waiter stands still.
all_end : (n : ℕ) → n < 2 ^ 63 → Steps (state n n 0 seen_active) (state 0 0 0 seen_active)
all_end zero h = done _
all_end (suc n) h =
    let ended : cease_vigil (record { vigils = suc n }) ≡ record { vigils = n } = one_less n h in
    and_then _ (state n n 1 seen_active) _
      (transport
        (λ i.
          Step (state (suc n) (suc n) 0 seen_active)
            (record { vigil = ended i; running = n; pending = 1; waiter = seen_active }))
        (decrements (state (suc n) (suc n) 0 seen_active) n refl))
      (and_then _ (state n n 0 seen_active) _ (broadcasts (state n n 1 seen_active) 0 refl)
        (all_end n (omega arith)))

-- With any number of operations running, from one to 2^63 - 1, the waiter may see them active, and
-- all of them end, with their broadcasts, before it is in the list of waiters. It then sleeps with
-- no active vigil, and the only step that is left is an operation that begins.
pub lost_wakeup_lem :
    (n : ℕ)
    → 0 < n
    → n < 2 ^ 63
    → (s : System) × Steps (state n n 0 testing) s
      × (has_active_vigils s.vigil ≡ false)
      × (s.waiter ≡ asleep)
      × ((t : System)
          → Step s t
          → t ≡ record s { vigil = begin_vigil s.vigil; running = suc s.running })
lost_wakeup_lem n pos h = (
  state 0 0 0 asleep,
  and_then _ (state n n 0 seen_active) _
      (sees_active (state n n 0 testing) refl (some_active n pos h))
      (joined _ (state 0 0 0 seen_active) _ (all_end n h)
        (and_then _ (state 0 0 0 asleep) _ (sleeps (state 0 0 0 seen_active) refl) (done _))),
  none_active,
  refl,
  λ t step. only_begins (state 0 0 0 asleep) t step refl refl refl,
)
