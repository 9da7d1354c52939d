-- ===== src/Patch/Errors.antt =====
-- The errors of msgpackpatch, without the text that wraps them.
use hydraide.Base.Outcome.{Outcome}

-- `out_of_fuel` is no Go value: the model of the parser ran out of its rounds.
pub data Error : Type 0 where
  invalid_op non_string_key invalid_msgpack path_invalid type_mismatch : Error
  condition_not_met out_of_fuel : Error

abbrev pub Result {ℓ} : Type ℓ → Type ℓ
Result A = Outcome Error A
