-- ===== src/Storage/Entry/Parse.antt =====
-- What `deserialize` of an entry accepts.
use hydraide.Base.{
  ℕ, ◌+◌, ◌-◌, ◌≤◌, ◌<◌, ◌≡◌, refl, sym, ◌∙◌, [], ◌∷◌, ◌++◌, length, take, drop, slice, is_nil,
  arith, append_assoc, false, get_or_zero, All, All-take, All-drop, take_add, length-take,
  length-drop,
}
use mathlib.Core.Path.{subst}
use hydraide.Base.Bytes.{Bytes, IsByte, put_le, get_le, put_le-get_le}
use hydraide.Base.Outcome.{ok}
use hydraide.Storage.Entry.{Entry, serialize, deserialize, size}

abbrev key_len : Bytes → ℕ
key_len buf = get_le (slice buf 1 3)

abbrev data_at : Bytes → ℕ
data_at buf = 3 + key_len buf + 4

abbrev data_len : Bytes → ℕ
data_len buf = get_le (slice buf (3 + key_len buf) (data_at buf))

-- The parts of an accepted buffer.
record Accepted (buf : Bytes) (e : Entry) (n : ℕ) : Type 0 where
  operation : e.operation ≡ get_or_zero buf 0
  key : e.key ≡ slice buf 3 (3 + key_len buf)
  payload : e.payload ≡ slice buf (data_at buf) (data_at buf + data_len buf)
  nonempty : is_nil e.key ≡ false
  consumed : n ≡ data_at buf + data_len buf
  room : data_at buf + data_len buf ≤ length buf

accepted : (buf : Bytes) (e : Entry) (n : ℕ) → deserialize buf ≡ ok (e, n) → Accepted buf e n
unfolding deserialize
accepted buf e n h = ground arith

pos_of_nonempty : (xs : Bytes) → is_nil xs ≡ false → 0 < length xs
pos_of_nonempty [] h = cc
pos_of_nonempty (x ∷ xs) h = omega arith

length-slice : (xs : Bytes) (a n : ℕ) → a + n ≤ length xs → length (slice xs a (a + n)) ≡ n
length-slice xs a n h = omega (arith, length-take (a + n - a) (drop a xs), length-drop a xs)

Accepted-lengths :
    (buf : Bytes) (e : Entry) (n : ℕ)
    → Accepted buf e n
    → (length e.key ≡ key_len buf) × (length e.payload ≡ data_len buf)
Accepted-lengths buf e n a = (
  rw a.key (length-slice buf 3 (key_len buf) (omega (arith, a.room))),
  rw a.payload (length-slice buf (data_at buf) (data_len buf) a.room),
)

-- Where `deserialize` accepts an entry, the number of bytes that it says it took is at least 8, at
-- most the buffer's length, and the size of the entry.
pub deserialize_takes :
    (buf : Bytes) (e : Entry) (n : ℕ)
    → deserialize buf ≡ ok (e, n)
    → (8 ≤ n) × (n ≤ length buf) × (n ≡ size e)
deserialize_takes buf e n h =
    let a = accepted buf e n h in
    let (k, d) = Accepted-lengths buf e n a in
    let pos = pos_of_nonempty e.key a.nonempty in
    (omega (arith, a.consumed), omega (arith, a.consumed, a.room), omega (arith, a.consumed))

-- What a field of `w` bytes at position `a` was read from.
put_le-slice :
    (w : ℕ) (buf : Bytes) (a b : ℕ)
    → b ≡ a + w
    → All IsByte buf
    → b ≤ length buf
    → put_le w (get_le (slice buf a b)) ≡ slice buf a b
put_le-slice w buf a b e h room =
    let len : length (slice buf a b) ≡ w =
      omega (arith, length-take (b - a) (drop a buf), length-drop a buf) in
    subst (λ k. put_le k (get_le (slice buf a b)) ≡ slice buf a b) len
      (put_le-get_le (slice buf a b) (All-take IsByte (b - a) _ (All-drop IsByte a buf h)))

take-slice : (xs : Bytes) (a b : ℕ) → a ≤ b → take b xs ≡ take a xs ++ slice xs a b
take-slice xs a b h =
    let e : a + (b - a) ≡ b = omega arith in
    subst (λ n. take n xs ≡ take a xs ++ slice xs a b) e (take_add a (b - a) xs)

take_three : (buf : Bytes) → 7 ≤ length buf → take 3 buf ≡ get_or_zero buf 0 ∷ slice buf 1 3
take_three [] h = absurd (omega arith)
take_three (x ∷ xs) h = refl

take_slices :
    (xs : Bytes) (a b c d : ℕ)
    → a ≤ b
    → b ≤ c
    → c ≤ d
    → take d xs ≡ take a xs ++ (slice xs a b ++ (slice xs b c ++ slice xs c d))
take_slices xs a b c d ab bc cd =
    rw (take-slice xs c d cd, take-slice xs b c bc, take-slice xs a b ab)
      (rw append_assoc (append_assoc (take a xs) (slice xs a b) _))

-- Of a buffer of bytes, the part that `deserialize` takes for an entry is what `serialize` writes
-- for that entry.
pub serialize-deserialize :
    (buf : Bytes) (e : Entry) (n : ℕ)
    → All IsByte buf
    → deserialize buf ≡ ok (e, n)
    → serialize e ≡ take n buf
unfolding serialize
serialize-deserialize buf e n bytes h =
    let a = accepted buf e n h in
    let (k, d) = Accepted-lengths buf e n a in
    let kl : put_le 2 (length e.key) ≡ slice buf 1 3 =
      rw k (put_le-slice 2 buf 1 3 refl bytes (omega (arith, a.room))) in
    let dl : put_le 4 (length e.payload) ≡ slice buf (3 + key_len buf) (data_at buf) = rw d (
      put_le-slice 4 buf (3 + key_len buf) (data_at buf) (omega arith) bytes
        (omega (arith, a.room))) in
    let three = take_three buf (omega (arith, a.room)) in
    let fields : serialize e
        ≡ get_or_zero buf 0
          ∷ (slice buf 1 3
              ++ (slice buf 3 (3 + key_len buf)
                  ++ (slice buf (3 + key_len buf) (data_at buf)
                      ++ slice buf (data_at buf) (data_at buf + data_len buf)))) =
      λ i. a.operation i ∷ (kl i ++ (a.key i ++ (dl i ++ a.payload i))) in
    fields
    ∙ sym (
        rw a.consumed (
          rw
            (
              take_slices buf 3 (3 + key_len buf) (data_at buf) (data_at buf + data_len buf)
                  (omega arith) (omega arith) (omega arith),
              three,
            )
            refl))
