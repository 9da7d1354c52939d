-- ===== src/Bucket/Keys.antt =====
-- The keys of lists of treasures, and of what `LookupIn` of bucket/bucket.go has seen.
use hydraide.Base.{
  ◌≡◌, refl, ◌∙◌, ap, Bool, true, false, ◌&&◌, ◌||◌, not, List, [], ◌∷◌, ◌++◌, arith,
}
use hydraide.Base.Bytes.{Bytes}
use hydraide.Base.Assoc.{bytes_eq, bytes_eq→eq, bytes_eq_iff}
use hydraide.Bucket.Slots.{Treasure}
use hydraide.Bucket.State.{contains}

abbrev pub keys : List Treasure → List Bytes
keys [] = []
keys (t ∷ ts) = t.key ∷ keys ts

-- No key stands twice.
abbrev pub Once : List Bytes → Type 0
Once [] = Unit {0}
Once (k ∷ ks) = (contains k ks ≡ false) × Once ks

pub keys-append : (ts us : List Treasure) → keys (ts ++ us) ≡ keys ts ++ keys us
keys-append [] us = refl
keys-append (t ∷ ts) us = ap (λ ks. t.key ∷ ks) (keys-append ts us)

pub contains-append :
    (k : Bytes) (ks js : List Bytes) → contains k (ks ++ js) ≡ (contains k ks || contains k js)
unfolding contains
contains-append k [] js = refl
contains-append k (i ∷ ks) js = ground (arith, contains-append k ks js)

pub contains-same :
    (a k : Bytes) (ks : List Bytes) → bytes_eq a k ≡ true → contains k ks ≡ contains a ks
contains-same a k ks h = rw (bytes_eq→eq a k h) refl

pub append-Once :
    (ks js : List Bytes)
    → Once ks
    → Once js
    → ((k : Bytes) → contains k ks ≡ true → contains k js ≡ false)
    → Once (ks ++ js)
unfolding contains
append-Once [] js o p apart = p
append-Once (k ∷ ks) js (fresh, o) p apart = (
  contains-append k ks js ∙ ground (arith, fresh, apart k, (bytes_eq_iff k k).1 refl),
  append-Once ks js o p (λ i h. ground (arith, apart i, h)),
)

pub and_false : (b : Bool) → (b && not true) ≡ false
and_false b = ground arith

pub contains_first : (k : Bytes) (ks : List Bytes) → contains k (k ∷ ks) ≡ true
unfolding contains
contains_first k ks = rw ((bytes_eq_iff k k).1 refl) refl

pub contains_none : (k : Bytes) → contains k [] ≡ false
unfolding contains
contains_none k = refl

pub and_true : (k : Bytes) (b : Bool) → (b && not (contains k [])) ≡ b
and_true k b = rw (contains_none k) (ground arith)

-- What is found now, and then what is found of the rest.
pub joined :
    (here seen rest now seen' later : Bool)
    → now ≡ (here && not seen)
    → seen' ≡ (seen || here)
    → later ≡ (rest && not seen')
    → (now || later) ≡ ((here || rest) && not seen)
joined here seen rest now seen' later a b c = ground arith

pub apart :
    (here seen rest now seen' : Bool)
    → now ≡ (here && not seen)
    → seen' ≡ (seen || here)
    → now ≡ true
    → (rest && not seen') ≡ false
apart here seen rest now seen' a b h = ground arith
