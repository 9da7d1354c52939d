-- ===== src/Patch/Path.antt =====
-- `ParsePath` of msgpackpatch/path.go. An int is a number counted from the start or the end.
pub mod Brackets
pub mod Grammar
use hydraide.Base.{
  ℕ, zero, suc, ◌+◌, ◌-◌, ◌*◌, ◌^◌, Bool, true, false, List, [], ◌∷◌, ◌++◌, Option, none, some,
  if◌then◌else◌, ◌==◌, ◌&&◌, leb, ltb, is_nil,
}
use hydraide.Base.Bytes.{Bytes}
use hydraide.Base.Assoc.{bytes_eq}
use hydraide.Base.Split.{split, cut}
use hydraide.Base.Outcome.{Outcome, ok, err, ◌>>=◌}
use hydraide.Patch.Errors.{Error, Result, path_invalid}

pub data ℤ : Type 0 where
  pos negsuc : ℕ → ℤ

pub data Segment : Type 0 where
  seg_field : Bytes → Segment
  seg_index : ℤ → Segment
  seg_append : Segment

-- The digits of `strconv.Atoi`, after those that made `n`.
unfoldable pub digits_value : ℕ → Bytes → Option ℕ
digits_value n [] = some n
digits_value n (c ∷ cs) =
    let rest = digits_value (n * 10 + (c - b'0')) cs in
    if leb b'0' c && leb c b'9' then rest else none

some_digits : Bytes → Option ℕ
some_digits [] = none
some_digits (c ∷ cs) = digits_value 0 (c ∷ cs)

abbrev pub negated : ℕ → ℤ
negated zero = pos 0
negated (suc n) = negsuc n

-- A value that an int64 cannot hold is refused.
positive : Option ℕ → Result ℤ
positive none = err path_invalid
positive (some n) = if ltb n (2 ^ 63) then ok (pos n) else err path_invalid

negative : Option ℕ → Result ℤ
negative none = err path_invalid
negative (some n) = if leb n (2 ^ 63) then ok (negated n) else err path_invalid

unfoldable pub atoi : Bytes → Result ℤ
unfolding some_digits positive negative
atoi [] = err path_invalid
atoi (c ∷ cs) =
    if c == b'-'
    then negative (some_digits cs)
    else if c == b'+'
    then positive (some_digits cs)
    else positive (some_digits (c ∷ cs))

-- What stands between two brackets: nothing, "*", or an index.
unfoldable pub parse_inner : Bytes → Result Segment
parse_inner inner =
    if is_nil inner
    then ok seg_append
    else if bytes_eq inner (b'*' ∷ [])
    then err path_invalid
    else (do n ← atoi inner; ok (seg_index n))

parse_bracket : Bytes → Result Segment
parse_bracket [] = err path_invalid
parse_bracket (c ∷ inner) = if c == b'[' then parse_inner inner else err path_invalid

-- The bracket suffixes, cut at each "]", behind which nothing may be left.
unfoldable pub parse_brackets : Bytes → List Bytes → Result (List Segment)
unfolding parse_bracket
parse_brackets last [] = if is_nil last then ok [] else err path_invalid
parse_brackets bracket (next ∷ others) = do
  seg ← parse_bracket bracket
  segs ← parse_brackets next others
  ok (seg ∷ segs)

abbrev contains : ℕ → Bytes → Bool
contains c part = elim (cut c part) [ none ↦ false | some parts ↦ true ]

with_brackets : Bytes → Option (Bytes × Bytes) → Result (List Segment)
with_brackets part none = if contains b']' part then err path_invalid else ok (seg_field part ∷ [])
with_brackets part (some (name, inner)) =
    if is_nil name then err path_invalid else if contains b']' name then err path_invalid else (do
      let brackets = split b']' (b'[' ∷ inner)
      segs ← parse_brackets brackets.0 brackets.1
      ok (seg_field name ∷ segs))

-- `parseSegmentInto`
unfoldable pub parse_segment : Bytes → Result (List Segment)
unfolding with_brackets
parse_segment part = with_brackets part (cut b'[' part)

abbrev starts_with : ℕ → Bytes → Bool
starts_with c [] = false
starts_with c (b ∷ bs) = b == c

unfoldable pub parse_part : Bytes → Result (List Segment)
parse_part part =
    if is_nil part
    then err path_invalid
    else if starts_with b'#' part
    then err path_invalid
    else parse_segment part

unfoldable pub parse_parts : Bytes → List Bytes → Result (List Segment)
parse_parts part [] = parse_part part
parse_parts part (next ∷ others) = do
  segs ← parse_part part
  more ← parse_parts next others
  ok (segs ++ more)

unfoldable pub parse_path : Bytes → Result (List Segment)
parse_path s =
    if is_nil s then err path_invalid else (let parts = split b'.' s in parse_parts parts.0 parts.1)
