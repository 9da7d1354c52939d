-- ===== src/Patch/Parse/RoundTrip.antt =====
-- `Serialize` of msgpackpatch/serialize.go and then `Parse` of skeleton.go.
use hydraide.Base.{
  ℕ, zero, suc, ◌+◌, ◌-◌, ◌^◌, ◌<◌, ◌≡◌, refl, sym, ap, ◌∙◌, Bool, true, false, [], ◌∷◌, ◌++◌, none,
  some, not, ◌&&◌, length, length-append, append_assoc, append-nil, slice-append, arith,
}
use hydraide.Base.Bytes.{Bytes}
use hydraide.Base.Outcome.{ok, ◌>>=◌}
use hydraide.Patch.Codes.{is_map_code, is_array_code}
use hydraide.Patch.Errors.{Result}
use hydraide.Patch.Msgpack.{Msgpack, Documented, Starts}
use hydraide.Patch.Parse.{
  or_invalid, peek_code, Parser, parse_key, parse_fields, parse_items, parse_map, parse_array,
  parse_leaf, parse_node, whole, parse, write_node, write_fields, write_items, serialize,
}
use hydraide.Patch.Skeleton.{
  Skeleton, leaf, map_node, array_node, Leaf, Fields, no_fields, field, Items, no_items, item,
  field_count, item_count, leaf_bytes,
}

then_ok : {A B : Type 0} (r : Result A) (f : A → Result B) {a : A} → r ≡ ok a → (r >>= f) ≡ f a
then_ok r f e = rw e refl

-- The first byte begins neither a map nor an array.
abbrev pub is_leaf_code : ℕ → Bool
is_leaf_code c = not (is_map_code c) && not (is_array_code c)

array-not-map : (c : ℕ) → is_array_code c ≡ true → is_map_code c ≡ false
unfolding is_array_code is_map_code
array-not-map c h = ground arith

module _ (m : Msgpack) where
  -- The bytes of one value that is no container: `Skip` passes over them, whatever comes next.
  pub record OneValue (b : Bytes) : Type 0 where
    pub begins : Starts (λ c. is_leaf_code c) b
    pub skipped : (rest : Bytes) → m.skip (b ++ rest) ≡ some rest

  -- A tree whose counts and keys fit the format, and whose leaves are such values.
  unfoldable mutual
    pub Fits : Bytes → Skeleton → Type 0
    Fits orig (leaf l) = OneValue (leaf_bytes l orig)
    Fits orig (map_node fs) = (field_count fs < 2 ^ 32) × FieldsFit orig fs
    Fits orig (array_node xs) = (item_count xs < 2 ^ 32) × ItemsFit orig xs

    pub FieldsFit : Bytes → Fields → Type 0
    FieldsFit orig no_fields = Unit {0}
    FieldsFit orig (field k v fs) = (length k < 2 ^ 32) × Fits orig v × FieldsFit orig fs

    pub ItemsFit : Bytes → Items → Type 0
    ItemsFit orig no_items = Unit {0}
    ItemsFit orig (item v xs) = Fits orig v × ItemsFit orig xs

  -- What the parser makes of the bytes of a node: it takes them all, and the result is written as the
  -- same bytes.
  record Again (parsed : Result (Skeleton × Bytes)) (blob rest written : Bytes) : Type 0 where
    skel : Skeleton
    reads : parsed ≡ ok (skel, rest)
    same : write_node m blob skel ≡ written

  record FieldsAgain (parsed : Result (Fields × Bytes)) (blob rest written : Bytes) (n : ℕ)
      : Type 0 where
    fields : Fields
    reads : parsed ≡ ok (fields, rest)
    same : write_fields m blob fields ≡ written
    counted : field_count fields ≡ n

  record ItemsAgain (parsed : Result (Items × Bytes)) (blob rest written : Bytes) (n : ℕ)
      : Type 0 where
    items : Items
    reads : parsed ≡ ok (items, rest)
    same : write_items m blob items ≡ written
    counted : item_count items ≡ n

  module _ (d : Documented m) where
    peek-Starts :
        {kind : ℕ → Bool} (xs ys : Bytes) (s : Starts kind xs) → peek_code (xs ++ ys) ≡ ok s.code
    unfolding peek_code
    peek-Starts xs ys s = rw s.shape refl

    parse_key-encode :
        (k rest : Bytes)
        → length k < 2 ^ 32
        → parse_key m (m.encode_string k ++ rest) ≡ ok (k, rest)
    unfolding parse_key or_invalid
    parse_key-encode k rest h =
        let s = d.string_code k in
        then_ok _ _ (peek-Starts (m.encode_string k) rest s)
        ∙ rw (s.is_kind, d.string k rest h) refl

    parse_leaf-bytes :
        (blob pre b rest : Bytes) (c : ℕ)
        → m.skip (b ++ rest) ≡ some rest
        → blob ≡ pre ++ (b ++ rest)
        → parse_leaf m (length blob) c (b ++ rest)
          ≡ ok (
            leaf (record { start = length pre; end = length pre + length b; code = c; raw = none }),
            rest,
          )
    unfolding parse_leaf or_invalid
    parse_leaf-bytes blob pre b rest c h e =
        let n : length blob ≡ length pre + (length b + length rest) =
          omega (arith, ap length e, length-append pre (b ++ rest), length-append b rest) in
        let from : length blob - length (b ++ rest) ≡ length pre =
          omega (arith, length-append b rest) in
        let to : length blob - length rest ≡ length pre + length b = omega arith in
        rw (h, from, to) refl

    leaf-Again :
        (blob pre orig rest : Bytes) (l : Leaf) (fuel : ℕ)
        → OneValue (leaf_bytes l orig)
        → blob ≡ pre ++ (leaf_bytes l orig ++ rest)
        → Again
            (parse_node m (length blob) (suc fuel) (leaf_bytes l orig ++ rest))
            blob
            rest
            (leaf_bytes l orig)
    leaf-Again blob pre orig rest l fuel one e =
        let b = leaf_bytes l orig in
        let c = one.begins.code in
        let not_map : is_map_code c ≡ false = ground (arith, one.begins.is_kind) in
        let not_array : is_array_code c ≡ false = ground (arith, one.begins.is_kind) in
        record {
          skel =
              leaf
                (record { start = length pre; end = length pre + length b; code = c; raw = none });
          reads =
              unfold parse_node in
              then_ok _ _ (peek-Starts b rest one.begins)
              ∙ rw (not_map, not_array) (parse_leaf-bytes blob pre b rest c (one.skipped rest) e);
          same = unfold write_node leaf_bytes in rw e (slice-append pre b rest _ _ refl refl);
        }

    Starts-pos : {kind : ℕ → Bool} (xs : Bytes) → Starts kind xs → 0 < length xs
    Starts-pos xs s = rw s.shape (omega arith)

    map-Again :
        (blob rest w : Bytes) (n fuel : ℕ)
        → n < 2 ^ 32
        → FieldsAgain (parse_fields m (parse_node m (length blob) fuel) n (w ++ rest)) blob rest w n
        → Again
            (parse_node m (length blob) (suc fuel) ((m.encode_map_len n ++ w) ++ rest))
            blob
            rest
            (m.encode_map_len n ++ w)
    map-Again blob rest w n fuel h fs =
        let s = d.map_code n in
        record {
          skel = map_node fs.fields;
          reads =
              unfold parse_node parse_map or_invalid in
              rw (append_assoc (m.encode_map_len n) w rest) (
                then_ok _ _ (peek-Starts (m.encode_map_len n) (w ++ rest) s)
                ∙ rw (s.is_kind, d.map_len n (w ++ rest) h) (then_ok _ _ fs.reads));
          same = unfold write_node in rw (fs.counted, fs.same) refl;
        }

    array-Again :
        (blob rest w : Bytes) (n fuel : ℕ)
        → n < 2 ^ 32
        → ItemsAgain (parse_items m (parse_node m (length blob) fuel) n (w ++ rest)) blob rest w n
        → Again
            (parse_node m (length blob) (suc fuel) ((m.encode_array_len n ++ w) ++ rest))
            blob
            rest
            (m.encode_array_len n ++ w)
    array-Again blob rest w n fuel h xs =
        let s = d.array_code n in
        record {
          skel = array_node xs.items;
          reads =
              unfold parse_node parse_array or_invalid in
              rw (append_assoc (m.encode_array_len n) w rest) (
                then_ok _ _ (peek-Starts (m.encode_array_len n) (w ++ rest) s)
                ∙ rw (array-not-map s.code s.is_kind, s.is_kind, d.array_len n (w ++ rest) h)
                    (then_ok _ _ xs.reads));
          same = unfold write_node in rw (xs.counted, xs.same) refl;
        }

    field-Again :
        (p : Parser m) (blob rest k v w : Bytes) (n : ℕ)
        → length k < 2 ^ 32
        → Again (p (v ++ (w ++ rest))) blob (w ++ rest) v
        → FieldsAgain (parse_fields m p n (w ++ rest)) blob rest w n
        → FieldsAgain
            (parse_fields m p (suc n) ((m.encode_string k ++ (v ++ w)) ++ rest))
            blob
            rest
            (m.encode_string k ++ (v ++ w))
            (suc n)
    field-Again p blob rest k v w n h value fs = record {
      fields = field k value.skel fs.fields;
      reads =
          unfold parse_fields in
          rw (append_assoc (m.encode_string k) (v ++ w) rest, append_assoc v w rest)
            (then_ok _ _ (parse_key-encode k (v ++ (w ++ rest)) h)
              ∙ (then_ok _ _ value.reads ∙ then_ok _ _ fs.reads));
      same = unfold write_node in rw (value.same, fs.same) refl;
      counted = unfold field_count in ap suc fs.counted;
    }

    item-Again :
        (p : Parser m) (blob rest v w : Bytes) (n : ℕ)
        → Again (p (v ++ (w ++ rest))) blob (w ++ rest) v
        → ItemsAgain (parse_items m p n (w ++ rest)) blob rest w n
        → ItemsAgain (parse_items m p (suc n) ((v ++ w) ++ rest)) blob rest (v ++ w) (suc n)
    item-Again p blob rest v w n value xs = record {
      items = item value.skel xs.items;
      reads =
          unfold parse_items in
          rw (append_assoc v w rest) (then_ok _ _ value.reads ∙ then_ok _ _ xs.reads);
      same = unfold write_node in rw (value.same, xs.same) refl;
      counted = unfold item_count in ap suc xs.counted;
    }

    no_fields-read : (p : Parser m) (rest : Bytes) → parse_fields m p 0 rest ≡ ok (no_fields, rest)
    unfolding parse_fields
    no_fields-read p rest = refl

    no_items-read : (p : Parser m) (rest : Bytes) → parse_items m p 0 rest ≡ ok (no_items, rest)
    unfolding parse_items
    no_items-read p rest = refl

    mutual
      unfolding write_node field_count item_count Fits

      node-Again :
          (blob pre orig rest : Bytes) (s : Skeleton) (fuel : ℕ)
          → Fits orig s
          → blob ≡ pre ++ (write_node m orig s ++ rest)
          → length (write_node m orig s) < fuel
          → Again
              (parse_node m (length blob) fuel (write_node m orig s ++ rest))
              blob
              rest
              (write_node m orig s)
      node-Again blob pre orig rest s zero fits e h = absurd (omega arith)
      node-Again blob pre orig rest (leaf l) (suc fuel) fits e h =
          leaf-Again blob pre orig rest l fuel fits e
      node-Again blob pre orig rest (map_node fs) (suc fuel) fits e h =
          let header = m.encode_map_len (field_count fs) in
          let body = write_fields m orig fs in
          map-Again blob rest body (field_count fs) fuel fits.0 (
            fields-Again blob (pre ++ header) orig rest fs fuel fits.1 (e ∙ simp append_assoc) (
              omega (
                arith,
                length-append header body,
                Starts-pos header (d.map_code (field_count fs)),
              )))
      node-Again blob pre orig rest (array_node xs) (suc fuel) fits e h =
          let header = m.encode_array_len (item_count xs) in
          let body = write_items m orig xs in
          array-Again blob rest body (item_count xs) fuel fits.0 (
            items-Again blob (pre ++ header) orig rest xs fuel fits.1 (e ∙ simp append_assoc) (
              omega (
                arith,
                length-append header body,
                Starts-pos header (d.array_code (item_count xs)),
              )))

      fields-Again :
          (blob pre orig rest : Bytes) (fs : Fields) (fuel : ℕ)
          → FieldsFit orig fs
          → blob ≡ pre ++ (write_fields m orig fs ++ rest)
          → length (write_fields m orig fs) < fuel
          → FieldsAgain
              (parse_fields m
                (parse_node m (length blob) fuel)
                (field_count fs)
                (write_fields m orig fs ++ rest))
              blob
              rest
              (write_fields m orig fs)
              (field_count fs)
      fields-Again blob pre orig rest no_fields fuel fits e h = record {
        fields = no_fields;
        reads = no_fields-read (parse_node m (length blob) fuel) rest;
        same = refl;
        counted = refl;
      }
      fields-Again blob pre orig rest (field k v fs) fuel (short, fit, fits) e h =
          let key = m.encode_string k in
          let value = write_node m orig v in
          let body = write_fields m orig fs in
          field-Again (parse_node m (length blob) fuel) blob rest k value body (field_count fs)
            short
            (node-Again blob (pre ++ key) orig (body ++ rest) v fuel fit (e ∙ simp append_assoc)
              (omega (arith, length-append key (value ++ body), length-append value body)))
            (fields-Again blob (pre ++ (key ++ value)) orig rest fs fuel fits
              (e ∙ simp append_assoc)
              (omega (arith, length-append key (value ++ body), length-append value body)))

      items-Again :
          (blob pre orig rest : Bytes) (xs : Items) (fuel : ℕ)
          → ItemsFit orig xs
          → blob ≡ pre ++ (write_items m orig xs ++ rest)
          → length (write_items m orig xs) < fuel
          → ItemsAgain
              (parse_items m
                (parse_node m (length blob) fuel)
                (item_count xs)
                (write_items m orig xs ++ rest))
              blob
              rest
              (write_items m orig xs)
              (item_count xs)
      items-Again blob pre orig rest no_items fuel fits e h = record {
        items = no_items;
        reads = no_items-read (parse_node m (length blob) fuel) rest;
        same = refl;
        counted = refl;
      }
      items-Again blob pre orig rest (item v xs) fuel (fit, fits) e h =
          let value = write_node m orig v in
          let body = write_items m orig xs in
          item-Again (parse_node m (length blob) fuel) blob rest value body (item_count xs)
            (node-Again blob pre orig (body ++ rest) v fuel fit (e ∙ simp append_assoc)
              (omega (arith, length-append value body)))
            (items-Again blob (pre ++ value) orig rest xs fuel fits (e ∙ simp append_assoc)
              (omega (arith, length-append value body)))

    parse-node :
        (w : Bytes) {s : Skeleton}
        → parse_node m (length w) (suc (length w)) w ≡ ok (s, [])
        → parse m w ≡ ok s
    unfolding parse whole parse_node peek_code
    parse-node [] e = cc
    parse-node (c ∷ cs) e = then_ok _ whole e

    -- What is written for a tree that fits the format is parsed, and written the same again.
    pub parse-serialize :
        (orig : Bytes) (s : Skeleton)
        → Fits orig s
        → (s' : Skeleton) × (parse m (serialize m orig s) ≡ ok s')
          × (serialize m (serialize m orig s) s' ≡ serialize m orig s)
    parse-serialize orig s fits =
        let w = serialize m orig s in
        let again =
          node-Again w [] orig [] s (suc (length w)) fits (sym (append-nil w)) (omega arith) in
        (again.skel, parse-node w (rw (append-nil w) at again.reads), again.same)
