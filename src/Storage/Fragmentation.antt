-- ===== src/Storage/Fragmentation.antt =====
-- `CalculateFragmentation` of chronicler/v2/reader.go. A float64 ratio is an exact fraction: the
-- rounding of float64 is not modelled.
pub mod Bounds
use hydraide.Base.{
  ℕ, ◌+◌, ◌-◌, ◌*◌, Bool, true, false, if◌then◌else◌, List, [], ◌∷◌, length, ltb, ◌==◌, ◌||◌,
  Option, none, some,
}
use hydraide.Base.Assoc.{insert, remove}
use hydraide.Base.Bytes.{Bytes}
use hydraide.Compressor.{Packages}
use hydraide.Storage.Errors.{Error}
use hydraide.Storage.Entry.{Entry, op_insert, op_update, op_delete}
use hydraide.Storage.Reader.{FileReader, read_all_entries}

pub record Ratio : Type 0 where
  pub num : ℕ
  pub den : ℕ

-- `<` of ratios whose denominators are positive
abbrev pub ratio_ltb : Ratio → Ratio → Bool
ratio_ltb a b = ltb (a.num * b.den) (b.num * a.den)

abbrev pub ratio_zero : Ratio
ratio_zero = record { num = 0; den = 1 }

-- Each live key with the size of its latest data, and the two totals.
pub record Tally : Type 0 where
  pub live_keys : List (Bytes × ℕ)
  pub total_entries : ℕ
  pub total_bytes : ℕ

unfoldable pub count_entry : Entry → Tally → Tally
count_entry entry t =
    let live_keys : List (Bytes × ℕ) =
      if entry.operation == op_delete
      then remove entry.key t.live_keys
      else if entry.operation == op_insert || entry.operation == op_update
      then insert entry.key (length entry.payload) t.live_keys
      else t.live_keys in
    record {
      live_keys = live_keys;
      total_entries = t.total_entries + 1;
      total_bytes = t.total_bytes + length entry.payload;
    }

abbrev pub sum_sizes : List (Bytes × ℕ) → ℕ
sum_sizes [] = 0
sum_sizes ((key, size) ∷ live) = size + sum_sizes live

pub record Fragmentation : Type 0 where
  pub ratio : Ratio
  pub live_count : ℕ
  pub total_count : ℕ

unfoldable pub fragmentation_of : Tally → Fragmentation
fragmentation_of t =
    let live_count = length t.live_keys in
    if t.total_entries == 0
    then record { ratio = ratio_zero; live_count = 0; total_count = 0 }
    else (let entry_frag : Ratio = record {
      num = t.total_entries - live_count;
      den = t.total_entries;
    } in
        let byte_frag : Ratio =
          if ltb 0 t.total_bytes
          then record { num = t.total_bytes - sum_sizes t.live_keys; den = t.total_bytes }
          else ratio_zero in
        record {
          ratio = if ratio_ltb entry_frag byte_frag then byte_frag else entry_frag;
          live_count = live_count;
          total_count = t.total_entries;
        })

abbrev no_tally : Tally
no_tally = record { live_keys = []; total_entries = 0; total_bytes = 0 }

or_nothing : Tally × ℕ × Option Error → Fragmentation × Option Error
or_nothing (t, total, none) = (fragmentation_of t, none)
or_nothing (t, total, some e) =
    (record { ratio = ratio_zero; live_count = 0; total_count = 0 }, some e)

module _ (p : Packages) where
  unfoldable pub calculate_fragmentation : FileReader → Fragmentation × Option Error
  unfolding or_nothing
  calculate_fragmentation fr =
      or_nothing (read_all_entries p (λ entry t. (count_entry entry t, true)) fr no_tally)
