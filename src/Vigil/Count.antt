-- ===== src/Vigil/Count.antt =====
-- The count of vigil.go over a history of its calls.
use hydraide.Base.{ℕ, ◌+◌, ◌-◌, ◌%◌, ◌^◌, ◌<◌, ◌≡◌, List, [], ◌∷◌, ltb, ◌&&◌, arith}
use hydraide.Vigil.{Vigil, new_vigil, begin_vigil, cease_vigil, has_active_vigils}

pub data Call : Type 0 where
  begins ceases : Call

abbrev pub after : List Call → Vigil → Vigil
after [] v = v
after (begins ∷ cs) v = after cs (begin_vigil v)
after (ceases ∷ cs) v = after cs (cease_vigil v)

abbrev pub count_begins : List Call → ℕ
count_begins [] = 0
count_begins (begins ∷ cs) = 1 + count_begins cs
count_begins (ceases ∷ cs) = count_begins cs

abbrev pub count_ceases : List Call → ℕ
count_ceases [] = 0
count_ceases (begins ∷ cs) = count_ceases cs
count_ceases (ceases ∷ cs) = 1 + count_ceases cs

begin_mod :
    (a c v b : ℕ)
    → (a + c) % 2 ^ 64 ≡ ((v + 1) % 2 ^ 64 + b) % 2 ^ 64
    → (a + c) % 2 ^ 64 ≡ (v + (1 + b)) % 2 ^ 64
begin_mod a c v b e = omega arith

cease_mod :
    (a c v b : ℕ)
    → (a + c) % 2 ^ 64 ≡ ((v + (2 ^ 64 - 1)) % 2 ^ 64 + b) % 2 ^ 64
    → (a + (1 + c)) % 2 ^ 64 ≡ (v + b) % 2 ^ 64
cease_mod a c v b e = omega arith

positive_mod :
    (w c b : ℕ)
    → w < 2 ^ 64
    → (w + c) % 2 ^ 64 ≡ (0 + b) % 2 ^ 64
    → b < 2 ^ 63
    → c < 2 ^ 63
    → (ltb 0 w && ltb w (2 ^ 63)) ≡ ltb c b
positive_mod w c b h e hb hc = grind arith

-- Up to multiples of 2^64 the count is the difference.
after_lem :
    (cs : List Call) (v : Vigil)
    → v.vigils < 2 ^ 64
    → ((after cs v).vigils < 2 ^ 64)
      × (((after cs v).vigils + count_ceases cs) % 2 ^ 64 ≡ (v.vigils + count_begins cs) % 2 ^ 64)
unfolding begin_vigil cease_vigil
after_lem [] v h = (h, omega arith)
after_lem (begins ∷ cs) v h =
    let (b, e) = after_lem cs (begin_vigil v) (omega arith) in
    (b, begin_mod _ _ v.vigils (count_begins cs) e)
after_lem (ceases ∷ cs) v h =
    let (b, e) = after_lem cs (cease_vigil v) (omega arith) in
    (b, cease_mod _ (count_ceases cs) v.vigils (count_begins cs) e)

-- After any calls in any order, with fewer than 2^63 of each kind, there are active vigils just
-- when more operations have begun than have ceased.
pub has_active_vigils_lem :
    (cs : List Call)
    → count_begins cs < 2 ^ 63
    → count_ceases cs < 2 ^ 63
    → has_active_vigils (after cs new_vigil) ≡ ltb (count_ceases cs) (count_begins cs)
has_active_vigils_lem cs b c =
    let (bound, e) = after_lem cs new_vigil (unfold new_vigil in (omega arith)) in
    unfold has_active_vigils in
    positive_mod (after cs new_vigil).vigils _ _ bound (unfold new_vigil in e) b c
