-- ===== src/Patch/Tests/Reading.antt =====
-- The theorems on the parsers and conditions of msgpackpatch at small inputs.
use hydraide.Base.{ℕ, ◌^◌, ◌-◌, ◌≡◌, ◌≢◌, ◌↔◌, refl, true, false, [], ◌∷◌, some, arith}
use hydraide.Base.Bytes.{Bytes}
use hydraide.Base.Outcome.{ok, err}
use hydraide.Patch.Codes.{is_map_code, is_array_code, is_float_code}
use hydraide.Patch.Errors.{out_of_fuel}
use hydraide.Patch.Numeric.{classify_numeric_code, read_numeric_leaf}
use hydraide.Patch.Parse.{parse, serialize, or_invalid}
use hydraide.Patch.Parse.Total.{parse_total}
use hydraide.Patch.Parse.RoundTrip.{Fits, OneValue}
use hydraide.Patch.Path.{negsuc, seg_field, seg_index, parse_path}
use hydraide.Patch.Path.Brackets.{index, minus}
use hydraide.Patch.Path.Grammar.{
  Part, IsPart, path_text, path_segments, bracket_segments, parse_path-text,
}
use hydraide.Patch.Skeleton.{
  field_count, item_count, Skeleton, map_node, array_node, no_fields, field, Items, no_items, item,
  item_count, Leaf, new_leaf, leaf_bytes,
}
use hydraide.Patch.Apply.Run.{apply}
use hydraide.Patch.Apply.Clone.{apply_none}
use hydraide.Patch.Condition.{
  Condition, cond_exists, cond_less_than, compare_with, evaluate_condition, apply_with_condition,
}
use hydraide.Patch.Condition.Order.{Denotes, int_value}
use hydraide.Patch.Condition.Meets.{Met, compare_with-Met}
use hydraide.Patch.Condition.Gate.{condition_gates}
use hydraide.Patch.Tests.Codec.{codec, codec-Documented}

abbrev name_a : Bytes
name_a = b'a' ∷ []

abbrev name_t : Bytes
name_t = b't' ∷ []

abbrev sevens : Items
sevens = item (new_leaf (7 ∷ [])) no_items

-- The blob ends within the map that it begins.
parse_total_example : parse codec (0xdf ∷ 1 ∷ 0 ∷ 0 ∷ 0 ∷ []) ≢ err out_of_fuel
parse_total_example = parse_total codec codec-Documented (0xdf ∷ 1 ∷ 0 ∷ 0 ∷ 0 ∷ [])

seven-OneValue : OneValue codec (7 ∷ [])
unfolding codec is_map_code is_array_code
seven-OneValue = record {
  begins = record { code = 7; tail = []; shape = refl; is_kind = refl };
  skipped = λ rest. refl;
}

tree-Fits : Fits codec [] (map_node (field name_t (array_node sevens) no_fields))
unfolding Fits leaf_bytes new_leaf field_count item_count
tree-Fits = (omega arith, (omega arith, (omega arith, (seven-OneValue, tt)), tt))

apply_none_example :
    apply codec (serialize codec [] (map_node (field name_t (array_node sevens) no_fields))) []
    ≡ ok (serialize codec [] (map_node (field name_t (array_node sevens) no_fields)))
apply_none_example =
    apply_none codec codec-Documented [] (map_node (field name_t (array_node sevens) no_fields))
      tree-Fits

ltb-Asymmetric : (a b : ℕ) → codec.float_ltb a b ≡ true → codec.float_ltb b a ≡ false
unfolding codec
ltb-Asymmetric a b h = ground arith

-- The leaf is -2, as an int8, and the threshold 5.
abbrev below_five : Condition
below_five = record { path = name_a; op = cond_less_than; threshold = 0xd0 ∷ 5 ∷ [] }

abbrev minus_two : Leaf
minus_two = record { raw = some (0xd0 ∷ 0xfe ∷ []); start = 0; end = 0; code = 0xd0 }

minus_two_reads : Denotes codec (leaf_bytes minus_two []) (int_value (2 ^ 64 - 2))
unfolding leaf_bytes new_leaf read_numeric_leaf classify_numeric_code is_float_code codec or_invalid
minus_two_reads = (refl, omega arith)

five_reads : Denotes codec below_five.threshold (int_value 5)
unfolding read_numeric_leaf classify_numeric_code is_float_code codec or_invalid
five_reads = (refl, omega arith)

compare_with-Met_example :
    (compare_with codec [] below_five (some minus_two) ≡ ok tt)
    ↔ Met codec cond_less_than (int_value (2 ^ 64 - 2)) (int_value 5)
compare_with-Met_example =
    compare_with-Met codec ltb-Asymmetric [] below_five minus_two (int_value (2 ^ 64 - 2))
      (int_value 5) minus_two_reads five_reads tt

abbrev blob : Bytes
blob = 0xdf ∷ 1 ∷ 0 ∷ 0 ∷ 0 ∷ 0xdb ∷ 1 ∷ 0 ∷ 0 ∷ 0 ∷ b'a' ∷ 7 ∷ []

abbrev a_exists : Condition
a_exists = record { path = name_a; op = cond_exists; threshold = [] }

condition_gates_example : (apply_with_condition codec blob [] (some a_exists) ≡ ok blob) ↔ (
    ((skel : Skeleton) × (parse codec blob ≡ ok skel)
      × (evaluate_condition codec blob a_exists skel ≡ ok tt))
    × (apply codec blob [] ≡ ok blob))
condition_gates_example = condition_gates codec blob blob [] a_exists

-- "a.t[-1]"
abbrev part_a : Part
part_a = (name_a, [])

abbrev part_t : Part
part_t = (name_t, index minus 1 [] ∷ [])

part_a-IsPart : IsPart part_a
part_a-IsPart = (refl, refl, (refl, tt), (refl, tt), (refl, tt), tt)

part_t-IsPart : IsPart part_t
part_t-IsPart =
    (refl, refl, (refl, tt), (refl, tt), (refl, tt), (((omega arith, tt), omega arith), tt))

parse_path-text_example :
    parse_path (path_text part_a (part_t ∷ [])) ≡ ok (path_segments part_a (part_t ∷ []))
parse_path-text_example = parse_path-text part_a (part_t ∷ []) part_a-IsPart (part_t-IsPart, tt)

parse_path_runs :
    path_segments part_a (part_t ∷ [])
    ≡ seg_field name_a ∷ seg_field name_t ∷ seg_index (negsuc 0) ∷ []
unfolding path_segments bracket_segments
parse_path_runs = refl
