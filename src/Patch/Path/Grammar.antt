-- ===== src/Patch/Path/Grammar.antt =====
-- The texts that `ParsePath` of msgpackpatch/path.go takes, and what it makes of them.
use hydraide.Base.{
  ℕ, ◌≡◌, refl, ◌∙◌, false, List, [], ◌∷◌, ◌++◌, append-nil, is_nil, All, All-append, inl, inr,
  arith,
}
use hydraide.Base.Bytes.{Bytes}
use hydraide.Base.Outcome.{ok, ◌>>=◌}
use hydraide.Base.Split.{split, Without, split_before, split_last, cut_before, cut_none}
use hydraide.Patch.Errors.{Result}
use hydraide.Patch.Path.{
  Segment, seg_field, parse_bracket, parse_brackets, contains, with_brackets, parse_segment,
  starts_with, parse_part, parse_parts, parse_path,
}
use hydraide.Patch.Path.Brackets.{
  Bracket, IsBracket, inner_text, bracket_segment, inner-Without, parse_inner-text,
}

-- A field's name, with the brackets behind it.
abbrev pub Part : Type 0
Part = Bytes × List Bracket

unfoldable pub brackets_text : List Bracket → Bytes
brackets_text [] = []
brackets_text (b ∷ bs) = b'[' ∷ (inner_text b ++ (b']' ∷ brackets_text bs))

unfoldable pub part_text : Part → Bytes
part_text (name, bs) = name ++ brackets_text bs

-- The parts, with dots between them.
unfoldable pub path_text : Part → List Part → Bytes
path_text p [] = part_text p
path_text p (q ∷ ps) = part_text p ++ (b'.' ∷ path_text q ps)

unfoldable pub bracket_segments : List Bracket → List Segment
bracket_segments [] = []
bracket_segments (b ∷ bs) = bracket_segment b ∷ bracket_segments bs

unfoldable pub path_segments : Part → List Part → List Segment
path_segments (name, bs) [] = seg_field name ∷ bracket_segments bs
path_segments (name, bs) (q ∷ ps) = (seg_field name ∷ bracket_segments bs) ++ path_segments q ps

-- The name is not empty, does not begin with "#", and has no bracket and no dot in it.
abbrev pub IsPart : Part → Type 0
IsPart p =
    (is_nil p.0 ≡ false)
    × (starts_with b'#' p.0 ≡ false)
    × Without b'[' p.0
    × Without b']' p.0
    × Without b'.' p.0
    × All IsBracket p.1

then_ok : {A B : Type 0} (r : Result A) (f : A → Result B) {a : A} → r ≡ ok a → (r >>= f) ≡ f a
then_ok r f e = rw e refl

brackets_read :
    (bs : List Bracket)
    → All IsBracket bs
    → parse_brackets (split b']' (brackets_text bs)).0 (split b']' (brackets_text bs)).1
      ≡ ok (bracket_segments bs)
unfolding parse_brackets parse_bracket brackets_text bracket_segments
brackets_read [] h = rw (split_last b']' [] h) refl
brackets_read (b ∷ bs) (h, hs) =
    rw
      (split_before b']' (b'[' ∷ inner_text b) (brackets_text bs) refl
        (refl, inner-Without b']' b (inr (omega arith)) refl refl h))
      (then_ok _ _ (parse_inner-text b h) ∙ then_ok _ _ (brackets_read bs hs))

contains-Without : (c : ℕ) (xs : Bytes) → Without c xs → contains c xs ≡ false
contains-Without c xs h = rw (cut_none c xs h, contains) refl

segment_read :
    (name : Bytes) (bs : List Bracket)
    → IsPart (name, bs)
    → parse_segment (part_text (name, bs)) ≡ ok (seg_field name ∷ bracket_segments bs)
unfolding parse_segment with_brackets part_text brackets_text bracket_segments
segment_read name [] (some_name, no_hash, no_open, no_close, no_dot, hs) =
    rw (append-nil name, cut_none b'[' name no_open, contains-Without b']' name no_close) refl
segment_read name (b ∷ bs) (some_name, no_hash, no_open, no_close, no_dot, hs) =
    rw
      (
        cut_before b'[' name (inner_text b ++ (b']' ∷ brackets_text bs)) refl no_open,
        some_name,
        contains-Without b']' name no_close,
      )
      (then_ok _ _ (brackets_read (b ∷ bs) hs))

brackets_nil :
    (bs : List Bracket) (name : Bytes) → is_nil name ≡ false → is_nil (part_text (name, bs)) ≡ false
unfolding part_text
brackets_nil bs [] h = cc
brackets_nil bs (c ∷ cs) h = refl

starts-part :
    (c : ℕ) (bs : List Bracket) (name : Bytes)
    → is_nil name ≡ false
    → starts_with c (part_text (name, bs)) ≡ starts_with c name
unfolding part_text
starts-part c bs [] h = cc
starts-part c bs (b ∷ name) h = refl

part_read :
    (name : Bytes) (bs : List Bracket)
    → IsPart (name, bs)
    → parse_part (part_text (name, bs)) ≡ ok (seg_field name ∷ bracket_segments bs)
unfolding parse_part
part_read name bs h =
    rw (brackets_nil bs name h.0, starts-part b'#' bs name h.0, h.1) (segment_read name bs h)

brackets-Without : (bs : List Bracket) → All IsBracket bs → Without b'.' (brackets_text bs)
unfolding brackets_text
brackets-Without [] h = tt
brackets-Without (b ∷ bs) (h, hs) = (
  refl,
  All-append _ (inner_text b) (b']' ∷ brackets_text bs)
      (inner-Without b'.' b (inl (omega arith)) refl refl h) (refl, brackets-Without bs hs),
)

part-Without :
    (name : Bytes) (bs : List Bracket) → IsPart (name, bs) → Without b'.' (part_text (name, bs))
unfolding part_text
part-Without name bs (some_name, no_hash, no_open, no_close, no_dot, hs) =
    All-append _ name (brackets_text bs) no_dot (brackets-Without bs hs)

parts_read :
    (p : Part) (ps : List Part)
    → IsPart p
    → All IsPart ps
    → parse_parts (split b'.' (path_text p ps)).0 (split b'.' (path_text p ps)).1
      ≡ ok (path_segments p ps)
unfolding parse_parts path_text path_segments
parts_read (name, bs) [] h hs =
    rw (split_last b'.' (part_text (name, bs)) (part-Without name bs h)) (part_read name bs h)
parts_read (name, bs) (q ∷ ps) h hs =
    rw (split_before b'.' (part_text (name, bs)) (path_text q ps) refl (part-Without name bs h))
      (then_ok _ _ (part_read name bs h) ∙ then_ok _ _ (parts_read q ps hs.0 hs.1))

nil-append : (xs ys : Bytes) → is_nil xs ≡ false → is_nil (xs ++ ys) ≡ false
nil-append [] ys h = cc
nil-append (x ∷ xs) ys h = refl

path_nil : (p : Part) (ps : List Part) → IsPart p → is_nil (path_text p ps) ≡ false
unfolding path_text
path_nil (name, bs) [] h = brackets_nil bs name h.0
path_nil (name, bs) (q ∷ ps) h =
    nil-append (part_text (name, bs)) (b'.' ∷ path_text q ps) (brackets_nil bs name h.0)

-- The text of a path, of names that are not empty, do not begin with "#" and have no dot and no
-- bracket, with brackets behind them that hold nothing, or digits with a sign or none before them:
-- `ParsePath` gives the fields of the names, and for a bracket an append, or the index whose
-- decimal digits they are, if an int64 holds it.
pub parse_path-text :
    (p : Part) (ps : List Part)
    → IsPart p
    → All IsPart ps
    → parse_path (path_text p ps) ≡ ok (path_segments p ps)
unfolding parse_path
parse_path-text p ps h hs = rw (path_nil p ps h) (parts_read p ps h hs)
