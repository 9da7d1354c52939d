-- ===== src/Vigil.antt =====
-- app/core/hydra/swamp/vigil/vigil.go: a count of the operations that run, and a wait for none. An
-- int64 is its two's complement, below 2^64.
pub mod Count
pub mod Wakeup
pub mod Tests
use hydraide.Base.{ℕ, ◌+◌, ◌-◌, ◌%◌, ◌^◌, Bool, ltb, ◌&&◌}

pub record Vigil : Type 0 where
  pub vigils : ℕ

unfoldable pub new_vigil : Vigil
new_vigil = record { vigils = 0 }

unfoldable pub begin_vigil : Vigil → Vigil
begin_vigil v = record { vigils = (v.vigils + 1) % 2 ^ 64 }

-- The atomic part of `CeaseVigil`; its broadcast comes after it.
unfoldable pub cease_vigil : Vigil → Vigil
cease_vigil v = record { vigils = (v.vigils + (2 ^ 64 - 1)) % 2 ^ 64 }

-- Positive, as an int64.
unfoldable pub has_active_vigils : Vigil → Bool
has_active_vigils v = ltb 0 v.vigils && ltb v.vigils (2 ^ 63)
