-- ===== src/Storage/Metadata/RoundTrip.antt =====
-- Metadata read back.
use hydraide.Base.{
  ℕ, ◌<◌, ◌≡◌, refl, sym, ap, ◌∙◌, false, List, [], ◌∷◌, ◌++◌, length, take, drop, ltb, All, arith,
  append_assoc, append-nil, length-append, take-append, drop-append, ltb-false,
}
use mathlib.Core.Path.{subst}
use hydraide.Base.Bytes.{Bytes, bound, put_le, get_le, get_le-put_le}
use hydraide.Base.Assoc.{bytes_eq, bytes_eq_iff, insert, Absent, Distinct}
use hydraide.Base.Outcome.{Outcome, ok, ◌>>=◌}
use hydraide.Storage.Metadata.{
  SwampMetadata, MetadataError, key_length_too_small, key_too_small, value_length_too_small,
  value_too_small, name_too_small, created_at_too_small, count_too_small, need, parse_pair,
  parse_pairs, serialize_pairs, serialize_metadata, deserialize_metadata,
}

-- What the format can hold.
pub record IsMetadata (m : SwampMetadata) : Type 0 where
  pub name : length m.swamp_name < bound 2
  pub time : m.created_at < bound 8
  pub count : length m.pairs < bound 2
  pub sizes :
      All (λ (kv : Bytes × Bytes). (length kv.0 < bound 2) × (length kv.1 < bound 2)) m.pairs
  pub distinct : Distinct m.pairs

need_lem :
    (xs rest : Bytes) (n : ℕ) (e : MetadataError)
    → length xs ≡ n
    → need n e (xs ++ rest) ≡ ok (xs, rest)
unfolding need
need_lem xs rest n e same =
    let enough : ltb (length (xs ++ rest)) n ≡ false =
      ltb-false (length (xs ++ rest)) n (omega (arith, length-append xs rest, same)) in
    rw enough (λ i. ok (
      (ap (λ k. take k (xs ++ rest)) (sym same) ∙ take-append xs rest) i,
      (ap (λ k. drop k (xs ++ rest)) (sym same) ∙ drop-append xs rest) i,
    ))

then_ok {ℓ} :
    {A B : Type ℓ} {a : A} (m : Outcome MetadataError A) (f : A → Outcome MetadataError B)
    → m ≡ ok a
    → (m >>= f) ≡ f a
then_ok m f e = ap (λ r. r >>= f) e

parse_pair_lem :
    (k v rest : Bytes)
    → length k < bound 2
    → length v < bound 2
    → parse_pair (put_le 2 (length k) ++ (k ++ (put_le 2 (length v) ++ (v ++ rest))))
      ≡ ok (k, v, rest)
unfolding parse_pair
parse_pair_lem k v rest hk hv =
    let kl : Bytes = put_le 2 (length k) in
    let vl : Bytes = put_le 2 (length v) in
    let after_key : Bytes = vl ++ (v ++ rest) in
    then_ok (need 2 key_length_too_small (kl ++ (k ++ after_key))) _
      (need_lem kl (k ++ after_key) 2 _ refl)
    ∙ then_ok (need (get_le kl) key_too_small (k ++ after_key)) _
        (need_lem k after_key (get_le kl) _ (sym (get_le-put_le 2 (length k) hk)))
    ∙ then_ok (need 2 value_length_too_small after_key) _ (need_lem vl (v ++ rest) 2 _ refl)
    ∙ then_ok (need (get_le vl) value_too_small (v ++ rest)) _
        (need_lem v rest (get_le vl) _ (sym (get_le-put_le 2 (length v) hv)))

insert-Absent_lem :
    (k v : Bytes) (m : List (Bytes × Bytes)) → Absent k m → insert k v m ≡ m ++ ((k, v) ∷ [])
unfolding insert
insert-Absent_lem k v [] a = refl
insert-Absent_lem k v ((j, w) ∷ m) (e, a) = rw e (ap (λ r. (j, w) ∷ r) (insert-Absent_lem k v m a))

before :
    (j k v : Bytes) (xs ys : List (Bytes × Bytes))
    → Absent j (xs ++ ((k, v) ∷ ys))
    → bytes_eq j k ≡ false
before j k v [] ys (e, a) = ground (arith, bytes_eq_iff j k, bytes_eq_iff k j)
before j k v (x ∷ xs) ys (e, a) = before j k v xs ys a

-- A key of a list without repetition does not stand before itself.
earlier-Absent :
    (xs : List (Bytes × Bytes)) (k v : Bytes) (ys : List (Bytes × Bytes))
    → Distinct (xs ++ ((k, v) ∷ ys))
    → Absent k xs
earlier-Absent [] k v ys d = tt
earlier-Absent ((j, w) ∷ xs) k v ys (a, d) = (before j k v xs ys a, earlier-Absent xs k v ys d)

nested :
    (a b c d e rest : Bytes)
    → (a ++ (b ++ (c ++ (d ++ e)))) ++ rest ≡ a ++ (b ++ (c ++ (d ++ (e ++ rest))))
nested a b c d e rest =
    rw (append_assoc a _ rest, append_assoc b _ rest, append_assoc c _ rest, append_assoc d e rest)
      refl

parse_pairs_lem :
    (done ps : List (Bytes × Bytes)) (rest : Bytes)
    → All (λ (kv : Bytes × Bytes). (length kv.0 < bound 2) × (length kv.1 < bound 2)) ps
    → Distinct (done ++ ps)
    → parse_pairs (length ps) (serialize_pairs ps ++ rest) done ≡ ok (done ++ ps)
unfolding parse_pairs serialize_pairs
parse_pairs_lem done [] rest sizes d = ap ok (sym (append-nil done))
parse_pairs_lem done ((k, v) ∷ ps) rest ((hk, hv), sizes) d =
    let tail : Bytes = serialize_pairs ps ++ rest in
    let shape : serialize_pairs ((k, v) ∷ ps) ++ rest
        ≡ put_le 2 (length k) ++ (k ++ (put_le 2 (length v) ++ (v ++ tail))) =
      nested (put_le 2 (length k)) k (put_le 2 (length v)) v (serialize_pairs ps) rest in
    let added : insert k v done ≡ done ++ ((k, v) ∷ []) =
      insert-Absent_lem k v done (earlier-Absent done k v ps d) in
    let joined : (done ++ ((k, v) ∷ [])) ++ ps ≡ done ++ ((k, v) ∷ ps) =
      append_assoc done ((k, v) ∷ []) ps in
    then_ok (parse_pair (serialize_pairs ((k, v) ∷ ps) ++ rest)) _
      (ap parse_pair shape ∙ parse_pair_lem k v tail hk hv)
    ∙ ap (parse_pairs (length ps) tail) added
    ∙ parse_pairs_lem (done ++ ((k, v) ∷ [])) ps rest sizes (subst Distinct (sym joined) d)
    ∙ ap ok joined

abbrev image : SwampMetadata → Bytes → Bytes
image m rest =
    put_le 2 (length m.swamp_name)
    ++ (m.swamp_name
        ++ (put_le 8 m.created_at
            ++ (put_le 2 (length m.pairs) ++ (serialize_pairs m.pairs ++ rest))))

long_enough : (m : SwampMetadata) (rest : Bytes) → ltb (length (image m rest)) 12 ≡ false
long_enough m rest = ltb-false (length (image m rest)) 12 (
    omega (
      arith,
      length-append m.swamp_name (
          put_le 8 m.created_at
          ++ (put_le 2 (length m.pairs) ++ (serialize_pairs m.pairs ++ rest))),
    ))

fields :
    (m : SwampMetadata) (rest : Bytes) → IsMetadata m → deserialize_metadata (image m rest) ≡ ok m
unfolding deserialize_metadata
fields m rest h =
    let created : Bytes = put_le 8 m.created_at in
    let count : Bytes = put_le 2 (length m.pairs) in
    let pairs : Bytes = serialize_pairs m.pairs ++ rest in
    rw (long_enough m rest) (
      then_ok
        (need (get_le (put_le 2 (length m.swamp_name))) name_too_small
          (m.swamp_name ++ (created ++ (count ++ pairs))))
        _
        (need_lem m.swamp_name (created ++ (count ++ pairs)) _ _
          (sym (get_le-put_le 2 (length m.swamp_name) h.name)))
      ∙ then_ok (need 8 created_at_too_small (created ++ (count ++ pairs))) _
          (need_lem created (count ++ pairs) 8 _ refl)
      ∙ then_ok (need 2 count_too_small (count ++ pairs)) _ (need_lem count pairs 2 _ refl)
      ∙ then_ok (parse_pairs (get_le count) pairs []) _ (
          ap (λ n. parse_pairs n pairs []) (get_le-put_le 2 (length m.pairs) h.count)
          ∙ parse_pairs_lem [] m.pairs rest h.sizes h.distinct)
      ∙ (λ i. ok (record m { created_at = get_le-put_le 8 m.created_at h.time i })))

-- Metadata whose name, keys and values have fewer than 2^16 bytes, with fewer than 2^16 pairs of
-- distinct keys, reads back as it was written, whatever follows it.
pub metadata_round_trip :
    (m : SwampMetadata) (rest : Bytes)
    → IsMetadata m
    → deserialize_metadata (serialize_metadata m ++ rest) ≡ ok m
unfolding deserialize_metadata serialize_metadata
metadata_round_trip m rest h =
    let kl : Bytes = put_le 2 (length m.swamp_name) in
    let created : Bytes = put_le 8 m.created_at in
    let count : Bytes = put_le 2 (length m.pairs) in
    let pairs : Bytes = serialize_pairs m.pairs ++ rest in
    let buf : Bytes = kl ++ (m.swamp_name ++ (created ++ (count ++ pairs))) in
    let shape : serialize_metadata m ++ rest ≡ buf =
      nested kl m.swamp_name created count (serialize_pairs m.pairs) rest in
    ap deserialize_metadata shape ∙ fields m rest h
