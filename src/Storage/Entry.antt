-- ===== src/Storage/Entry.antt =====
-- The entries of a block, of chronicler/v2/types.go. A key is the bytes of a Go string.
pub mod Parse
use hydraide.Base.{
  ℕ, ◌+◌, ◌≡◌, refl, if◌then◌else◌, [], ◌∷◌, ◌++◌, length, slice, is_nil, ltb, arith, ◌<◌,
  length-append, append_assoc, slice-append, false, get_or_zero,
}
use hydraide.Base.Bytes.{Bytes, put_le, get_le, bound, get_le-put_le, length-put_le}
use hydraide.Base.Outcome.{ok, err}
use hydraide.Storage.Errors.{Result, corrupted_entry, empty_key}

abbrev pub op_insert : ℕ
op_insert = 1

abbrev pub op_update : ℕ
op_update = 2

abbrev pub op_delete : ℕ
op_delete = 3

abbrev pub op_metadata : ℕ
op_metadata = 4

-- A nil and an empty slice of data are one value here: the code does not tell them apart.
pub record Entry : Type 0 where
  pub operation : ℕ
  pub key : Bytes
  pub payload : Bytes

abbrev pub size : Entry → ℕ
size e = 1 + 2 + length e.key + 4 + length e.payload

-- The lengths are cut to their fields, as `uint16(keyLen)` and `uint32(dataLen)` do.
unfoldable pub serialize : Entry → Bytes
serialize e =
    e.operation ∷ (put_le 2 (length e.key) ++ (e.key ++ (put_le 4 (length e.payload) ++ e.payload)))

-- The entry and the bytes that it took.
unfoldable pub deserialize : Bytes → Result (Entry × ℕ)
deserialize buf =
    if ltb (length buf) 7
    then err corrupted_entry
    else let key_len = get_le (slice buf 1 3) in
      let data_at = 3 + key_len + 4 in
      if ltb (length buf) data_at
      then err corrupted_entry
      else let key = slice buf 3 (3 + key_len) in
        if is_nil key
        then err empty_key
        else let data_len = get_le (slice buf (3 + key_len) data_at) in
          if ltb (length buf) (data_at + data_len)
          then err corrupted_entry
          else ok (
            record {
              operation = get_or_zero buf 0;
              key = key;
              payload = slice buf data_at (data_at + data_len);
            },
            data_at + data_len,
          )

-- What the format can hold: a key of 1 to 65535 bytes, and data of fewer than 2^32.
pub record Fits (e : Entry) : Type 0 where
  pub key_pos : 0 < length e.key
  pub key : length e.key < bound 2
  pub payload : length e.payload < bound 4

pub length-serialize : (e : Entry) → length (serialize e) ≡ size e
unfolding serialize
length-serialize e = rw (length-append (put_le 2 (length e.key)), length-append e.key) (omega arith)

module _ (e : Entry) (rest : Bytes) where
  open e use {operation, key, payload}

  serialize-append :
      serialize e ++ rest
      ≡ operation
        ∷ (put_le 2 (length key) ++ (key ++ (put_le 4 (length payload) ++ (payload ++ rest))))
  unfolding serialize
  serialize-append = simp append_assoc

  key_part : slice (serialize e ++ rest) 3 (3 + length key) ≡ key
  key_part = rw serialize-append (
      slice-append (operation ∷ put_le 2 (length key)) key
        (put_le 4 (length payload) ++ (payload ++ rest)) 3 (3 + length key) refl refl)

  key_len_part : slice (serialize e ++ rest) 1 3 ≡ put_le 2 (length key)
  unfolding serialize
  key_len_part = refl

  abbrev header_part : Bytes
  header_part = operation ∷ put_le 2 (length key)

  payload_len_part :
      slice (serialize e ++ rest) (3 + length key) (3 + length key + 4) ≡ put_le 4 (length payload)
  payload_len_part =
      rw (serialize-append, ← append_assoc header_part key _)
        (slice-append (header_part ++ key) (put_le 4 (length payload)) (payload ++ rest)
          (3 + length key) (3 + length key + 4) (rw length-append)
          (rw (length-append, length-put_le)))

  payload_part :
      slice (serialize e ++ rest) (3 + length key + 4) (3 + length key + 4 + length payload)
      ≡ payload
  payload_part =
      rw
        (
          serialize-append,
          ← append_assoc header_part key _,
          ← append_assoc (header_part ++ key) (put_le 4 (length payload)) _,
        )
        (slice-append ((header_part ++ key) ++ put_le 4 (length payload)) payload rest
          (3 + length key + 4) (3 + length key + 4 + length payload)
          (rw (length-append, length-append) (omega arith))
          (rw (length-append, length-append) (omega arith)))

  total_length : length (serialize e ++ rest) ≡ 7 + length key + length payload + length rest
  total_length = rw (length-append, length-serialize) (omega arith)

  operation_part : get_or_zero (serialize e ++ rest) 0 ≡ operation
  unfolding serialize
  operation_part = refl

is_nil-false : (xs : Bytes) → 0 < length xs → is_nil xs ≡ false
is_nil-false [] h = absurd (omega arith)
is_nil-false (x ∷ xs) h = refl

-- An entry whose key has 1 to 65535 bytes, and whose data has fewer than 2^32, reads back with the
-- number of bytes it takes, whatever follows it in the block.
pub entry_round_trip :
    (e : Entry) (rest : Bytes) → Fits e → deserialize (serialize e ++ rest) ≡ ok (e, size e)
unfolding deserialize
entry_round_trip e rest f = ground (
  arith,
  total_length e rest,
  key_len_part e rest,
  get_le-put_le 2 (length e.key) f.key,
  key_part e rest,
  is_nil-false e.key f.key_pos,
  payload_len_part e rest,
  get_le-put_le 4 (length e.payload) f.payload,
  payload_part e rest,
  operation_part e rest,
)
