-- ===== src/Storage/Errors.antt =====
-- The errors of chronicler/v2/types.go.
use hydraide.Base.Outcome.{Outcome}

-- `buffer_too_small` and `empty_path` are the anonymous errors of the package, `compressor_error`
-- is whatever the compressor reports, `eof` and `unexpected_eof` are package io's and `not_exist` is
-- package os's. `out_of_fuel` is no Go value: the model of a loop ran out of its rounds.
pub data Error : Type 0 where
  invalid_magic unsupported_ver corrupted_block corrupted_entry empty_key : Error
  file_closed compaction_running buffer_too_small empty_path : Error
  compressor_error eof unexpected_eof not_exist out_of_fuel : Error

abbrev pub Result {ℓ} : Type ℓ → Type ℓ
Result A = Outcome Error A
