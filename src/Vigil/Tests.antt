-- ===== src/Vigil/Tests.antt =====
-- A few calls, and the last operation that ends at the wrong moment.
use hydraide.Base.{◌≡◌, false, List, [], ◌∷◌, ltb, suc, arith}
use hydraide.Vigil.{new_vigil, begin_vigil, has_active_vigils}
use hydraide.Vigil.Count.{
  Call, begins, ceases, after, count_begins, count_ceases, has_active_vigils_lem,
}
use hydraide.Vigil.Wakeup.{System, Steps, Step, testing, asleep, lost_wakeup_lem}

abbrev calls : List Call
calls = begins ∷ begins ∷ ceases ∷ []

has_active_vigils_lem_example :
    has_active_vigils (after calls new_vigil) ≡ ltb (count_ceases calls) (count_begins calls)
has_active_vigils_lem_example = has_active_vigils_lem calls (omega arith) (omega arith)

abbrev one_runs : System
one_runs = record { vigil = record { vigils = 1 }; running = 1; pending = 0; waiter = testing }

lost_wakeup_lem_example :
    (s : System) × Steps one_runs s
    × (has_active_vigils s.vigil ≡ false)
    × (s.waiter ≡ asleep)
    × ((t : System)
        → Step s t
        → t ≡ record s { vigil = begin_vigil s.vigil; running = suc s.running })
lost_wakeup_lem_example = lost_wakeup_lem 1 (omega arith) (omega arith)
