-- ===== src/Patch/Parse.antt =====
-- `Parse` of msgpackpatch/skeleton.go and `Serialize` of serialize.go.
pub mod Total
pub mod RoundTrip
use hydraide.Base.{
  ℕ, zero, suc, ◌+◌, ◌-◌, Bool, true, false, List, [], ◌∷◌, ◌++◌, Option, none, some, if◌then◌else◌,
  not, length, is_nil,
}
use hydraide.Base.Bytes.{Bytes}
use hydraide.Base.Outcome.{Outcome, ok, err, ◌>>=◌}
use hydraide.Patch.Codes.{is_map_code, is_array_code, is_string_code}
use hydraide.Patch.Errors.{Error, Result, invalid_msgpack, non_string_key, out_of_fuel}
use hydraide.Patch.Msgpack.{Msgpack}
use hydraide.Patch.Skeleton.{
  Skeleton, leaf, map_node, array_node, Fields, no_fields, field, Items, no_items, item,
  field_count, item_count, leaf_bytes,
}

-- `wrapInvalid`
unfoldable pub or_invalid {ℓ} : {A : Type ℓ} → Option A → Result A
or_invalid none = err invalid_msgpack
or_invalid (some a) = ok a

-- `PeekCode`
unfoldable pub peek_code : Bytes → Result ℕ
peek_code [] = err invalid_msgpack
peek_code (c ∷ rest) = ok c

whole : Skeleton × Bytes → Result Skeleton
whole (skel, []) = ok skel
whole (skel, b ∷ bs) = err invalid_msgpack

module _ (m : Msgpack) where
  abbrev pub Parser : Type 0
  Parser = Bytes → Result (Skeleton × Bytes)

  -- A key, which must be a string.
  unfoldable pub parse_key : Bytes → Result (Bytes × Bytes)
  parse_key rest = do
    code ← peek_code rest
    if not (is_string_code code) then err non_string_key else or_invalid (m.decode_string rest)

  -- The loops over the entries, by the number of those that are left.
  unfoldable pub parse_fields : Parser → ℕ → Bytes → Result (Fields × Bytes)
  parse_fields parse zero rest = ok (no_fields, rest)
  parse_fields parse (suc n) rest = do
    (key, rest₁) ← parse_key rest
    (value, rest₂) ← parse rest₁
    (others, rest₃) ← parse_fields parse n rest₂
    ok (field key value others, rest₃)

  unfoldable pub parse_items : Parser → ℕ → Bytes → Result (Items × Bytes)
  parse_items parse zero rest = ok (no_items, rest)
  parse_items parse (suc n) rest = do
    (value, rest₁) ← parse rest
    (others, rest₂) ← parse_items parse n rest₁
    ok (item value others, rest₂)

  unfoldable pub parse_map : Parser → Bytes → Result (Skeleton × Bytes)
  parse_map parse rest = do
    (n, rest₁) ← or_invalid (m.decode_map_len rest)
    (fields, rest₂) ← parse_fields parse n rest₁
    ok (map_node fields, rest₂)

  unfoldable pub parse_array : Parser → Bytes → Result (Skeleton × Bytes)
  parse_array parse rest = do
    (n, rest₁) ← or_invalid (m.decode_array_len rest)
    (items, rest₂) ← parse_items parse n rest₁
    ok (array_node items, rest₂)

  unfoldable pub parse_leaf : ℕ → ℕ → Bytes → Result (Skeleton × Bytes)
  parse_leaf total code rest = do
    rest₁ ← or_invalid (m.skip rest)
    ok (
      leaf (record {
        start = total - length rest;
        end = total - length rest₁;
        code = code;
        raw = none;
      }),
      rest₁,
    )

  -- `total` is the length of the blob. The fuel bounds the depth.
  unfoldable pub parse_node : ℕ → ℕ → Parser
  parse_node total zero rest = err out_of_fuel
  parse_node total (suc fuel) rest = do
    code ← peek_code rest
    if is_map_code code
        then parse_map (parse_node total fuel) rest
        else if is_array_code code
        then parse_array (parse_node total fuel) rest
        else parse_leaf total code rest

  unfoldable pub parse : Bytes → Result Skeleton
  unfolding whole
  parse blob =
      if is_nil blob
      then err invalid_msgpack
      else parse_node (length blob) (suc (length blob)) blob >>= whole

  unfoldable mutual
    pub write_node : Bytes → Skeleton → Bytes
    write_node orig (leaf l) = leaf_bytes l orig
    write_node orig (map_node fs) = m.encode_map_len (field_count fs) ++ write_fields orig fs
    write_node orig (array_node xs) = m.encode_array_len (item_count xs) ++ write_items orig xs

    pub write_fields : Bytes → Fields → Bytes
    write_fields orig no_fields = []
    write_fields orig (field k v fs) =
        m.encode_string k ++ (write_node orig v ++ write_fields orig fs)

    pub write_items : Bytes → Items → Bytes
    write_items orig no_items = []
    write_items orig (item v xs) = write_node orig v ++ write_items orig xs

  abbrev pub serialize : Bytes → Skeleton → Bytes
  serialize orig skel = write_node orig skel
