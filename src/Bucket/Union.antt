-- ===== src/Bucket/Union.antt =====
-- LookupIn of bucket/bucket.go as the union of lookups.
use hydraide.Base.{
  ◌≡◌, refl, sym, ◌∙◌, ap, Bool, true, false, ◌&&◌, ◌||◌, not, List, [], ◌∷◌, Option, inl, inr,
  Bool-cases, arith,
}
use mathlib.Core.Path.{subst}
use hydraide.Base.Bytes.{Bytes}
use hydraide.Bucket.Canon.{Members, Value, Conversions, canonicalize}
use hydraide.Bucket.Slots.{Treasure, collect_matching_locked}
use hydraide.Bucket.State.{Bucket, contains, unseen, lookup_in_values, lookup_in, lookup_equal}
use hydraide.Bucket.Keys.{
  keys, Once, keys-append, contains-append, contains-same, append-Once, and_false, contains_first,
  contains_none, and_true, joined, apart,
}

module _ (unmarshal : Bytes → Option Members) (f : Conversions) where
  contains-unseen :
      (k : Bytes) (seen : List Bytes) (ts : List Treasure)
      → contains k (keys (unseen unmarshal f seen ts).0)
        ≡ (contains k (keys ts) && not (contains k seen))
  unfolding contains unseen
  contains-unseen k seen [] = refl
  contains-unseen k seen (t ∷ ts) = ground (
    arith,
    contains-unseen k seen ts,
    contains-unseen k (t.key ∷ seen) ts,
    contains-same t.key k seen,
  )

  contains-seen :
      (k : Bytes) (seen : List Bytes) (ts : List Treasure)
      → contains k (unseen unmarshal f seen ts).1 ≡ (contains k seen || contains k (keys ts))
  unfolding contains unseen
  contains-seen k seen [] = ground arith
  contains-seen k seen (t ∷ ts) = ground (
    arith,
    contains-seen k seen ts,
    contains-seen k (t.key ∷ seen) ts,
    contains-same t.key k seen,
  )

  -- A key that was seen is left out.
  seen-gone :
      (k : Bytes) (seen : List Bytes) (ts : List Treasure)
      → contains k seen ≡ true
      → contains k (keys (unseen unmarshal f seen ts).0) ≡ false
  seen-gone k seen ts h = contains-unseen k seen ts ∙ rw h (and_false (contains k (keys ts)))

  unseen-Once :
      (seen : List Bytes) (ts : List Treasure) → Once (keys (unseen unmarshal f seen ts).0)
  unfolding unseen
  unseen-Once seen [] = tt
  unseen-Once seen (t ∷ ts) = elim (Bool-cases (contains t.key seen)) [
    | inl e ↦ rw e (unseen-Once seen ts)
    | inr e ↦ rw e (
      seen-gone t.key (t.key ∷ seen) ts (ground (arith, contains_first t.key seen)),
      unseen-Once (t.key ∷ seen) ts,
    )
  ]

  -- The treasures that one value is looked up for.
  abbrev found : Value → Bucket → List Treasure
  found v b = collect_matching_locked f (canonicalize v) b.maps.by_value

  abbrev in_values : Bytes → List Value → Bucket → Bool
  in_values k [] b = false
  in_values k (v ∷ vs) b = contains k (keys (found v b)) || in_values k vs b

  contains-lookup_in_values :
      (k : Bytes) (seen : List Bytes) (vs : List Value) (b : Bucket)
      → contains k (keys (lookup_in_values unmarshal f seen vs b))
        ≡ (in_values k vs b && not (contains k seen))
  unfolding lookup_in_values
  contains-lookup_in_values k seen [] b = unfold contains in refl
  contains-lookup_in_values k seen (v ∷ vs) b =
      let now = unseen unmarshal f seen (found v b) in
      ap (λ ks. contains k ks) (keys-append now.0 (lookup_in_values unmarshal f now.1 vs b))
      ∙ contains-append k (keys now.0) (keys (lookup_in_values unmarshal f now.1 vs b))
      ∙ joined (contains k (keys (found v b))) (contains k seen) (in_values k vs b)
          (contains k (keys now.0)) (contains k now.1)
          (contains k (keys (lookup_in_values unmarshal f now.1 vs b)))
          (contains-unseen k seen (found v b)) (contains-seen k seen (found v b))
          (contains-lookup_in_values k now.1 vs b)

  lookup_in_values-Once :
      (seen : List Bytes) (vs : List Value) (b : Bucket)
      → Once (keys (lookup_in_values unmarshal f seen vs b))
  unfolding lookup_in_values
  lookup_in_values-Once seen [] b = tt
  lookup_in_values-Once seen (v ∷ vs) b =
      let now = unseen unmarshal f seen (found v b) in
      let later = lookup_in_values unmarshal f now.1 vs b in
      subst (λ ks. Once ks) (sym (keys-append now.0 later))
        (append-Once (keys now.0) (keys later) (unseen-Once seen (found v b))
          (lookup_in_values-Once now.1 vs b)
          (λ k h.
            contains-lookup_in_values k now.1 vs b
            ∙ apart (contains k (keys (found v b))) (contains k seen) (in_values k vs b)
                (contains k (keys now.0)) (contains k now.1) (contains-unseen k seen (found v b))
                (contains-seen k seen (found v b)) h))

  -- The keys of the lookups of the values, one by one.
  abbrev pub in_any : Bytes → List Value → Bucket → Bool
  in_any k [] b = false
  in_any k (v ∷ vs) b = contains k (keys (lookup_equal unmarshal f v b)) || in_any k vs b

  in_any-values :
      (k : Bytes) (vs : List Value) (b : Bucket)
      → in_any k vs b ≡ (b.equality_init && in_values k vs b)
  in_any-values k [] b = unfold lookup_equal contains in ground arith
  in_any-values k (v ∷ vs) b = elim (Bool-cases b.equality_init) [
    | inl e ↦ rw (in_any-values k vs b) (unfold lookup_equal contains in rw e refl)
    | inr e ↦ rw (in_any-values k vs b) (unfold lookup_equal contains in rw e refl)
  ]

  lookup_in-on :
      (values : List Value) (b : Bucket)
      → b.equality_init ≡ true
      → lookup_in unmarshal f values b ≡ lookup_in_values unmarshal f [] values b
  unfolding lookup_in
  lookup_in-on values b e = rw e refl

  lookup_in-off :
      (values : List Value) (b : Bucket)
      → b.equality_init ≡ false
      → lookup_in unmarshal f values b ≡ []
  unfolding lookup_in
  lookup_in-off values b e = rw e refl

  -- A lookup of several values gives no key twice, and a key exactly when the lookup of one of the
  -- values does.
  pub lookup_in-union :
      (values : List Value) (b : Bucket)
      → Once (keys (lookup_in unmarshal f values b))
        × ((k : Bytes) → contains k (keys (lookup_in unmarshal f values b)) ≡ in_any k values b)
  lookup_in-union values b = elim (Bool-cases b.equality_init) [
    | inl e ↦
        let given = lookup_in-on values b e in
        (
          subst (λ ts. Once (keys ts)) (sym given) (lookup_in_values-Once [] values b),
          λ k.
              ap (λ ts. contains k (keys ts)) given
              ∙ contains-lookup_in_values k [] values b
              ∙ and_true k (in_values k values b)
              ∙ sym (in_any-values k values b ∙ ap (λ c. c && in_values k values b) e),
        )
    | inr e ↦
        let given = lookup_in-off values b e in
        (
          subst (λ ts. Once (keys ts)) (sym given) tt,
          λ k.
              ap (λ ts. contains k (keys ts)) given
              ∙ contains_none k
              ∙ sym (in_any-values k values b ∙ ap (λ c. c && in_values k values b) e),
        )
  ]
