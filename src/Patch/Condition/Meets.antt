-- ===== src/Patch/Condition/Meets.antt =====
-- When a condition of msgpackpatch/condition.go that compares is met.
use hydraide.Base.{◌≡◌, ◌↔◌, ◌⊎◌, refl, some, inl, inr}
use Prim.Native.Nat.{Ordering}
use hydraide.Base.Bytes.{Bytes}
use hydraide.Base.Outcome.{ok, err, ◌>>=◌}
use hydraide.Patch.Errors.{Result, condition_not_met, invalid_op}
use hydraide.Patch.Msgpack.{Msgpack}
use hydraide.Patch.Skeleton.{Leaf, leaf_bytes}
use hydraide.Patch.Condition.{
  CondOp, cond_equal, cond_not_equal, cond_greater_than, cond_greater_than_or_equal, cond_less_than,
  cond_less_than_or_equal, cond_exists, cond_not_exists, cond_unknown, Condition, holds, must,
  compare_with,
}
use hydraide.Patch.Condition.Order.{
  Value, Less, SameKind, Denotes, Says, Asymmetric, leaves-Ordered,
}

not_met : ◌≡◌ {A = Result (Unit {0})} (err condition_not_met) (ok tt) → ⊥
not_met e = cc

no_op : ◌≡◌ {A = Result (Unit {0})} (err invalid_op) (ok tt) → ⊥
no_op e = cc

module _ (m : Msgpack) where
  -- When a comparison with a threshold is met.
  abbrev pub Met : CondOp → Value → Value → Type 0
  Met cond_equal v w = ¬ (Less m v w) × ¬ (Less m w v)
  Met cond_not_equal v w = Less m v w ⊎ Less m w v
  Met cond_greater_than v w = Less m w v
  Met cond_greater_than_or_equal v w = ¬ (Less m v w)
  Met cond_less_than v w = Less m v w
  Met cond_less_than_or_equal v w = ¬ (Less m w v)
  Met op v w = ⊥

  -- What `met` is, of the result of the comparison.
  abbrev decided : CondOp → Ordering → Result (Unit {0})
  decided op c = holds op c >>= λ met. must met

  decided-Met :
      (op : CondOp) (c : Ordering) (v w : Value)
      → Says m c (Less m v w) (Less m w v)
      → (decided op c ≡ ok tt) ↔ Met op v w
  unfolding holds
  decided-Met cond_equal Ordering.lt v w (h, g) = (λ e. absurd (not_met e), λ x. absurd (x.0 h))
  decided-Met cond_equal Ordering.eq v w (h, g) = (λ e. (h, g), λ x. refl)
  decided-Met cond_equal Ordering.gt v w (h, g) = (λ e. absurd (not_met e), λ x. absurd (x.1 g))
  decided-Met cond_not_equal Ordering.lt v w (h, g) = (λ e. inl h, λ x. refl)
  decided-Met cond_not_equal Ordering.eq v w (h, g) =
      (λ e. absurd (not_met e), λ x. absurd (elim x [ inl y ↦ h y | inr y ↦ g y ]))
  decided-Met cond_not_equal Ordering.gt v w (h, g) = (λ e. inr g, λ x. refl)
  decided-Met cond_greater_than Ordering.lt v w (h, g) =
      (λ e. absurd (not_met e), λ x. absurd (g x))
  decided-Met cond_greater_than Ordering.eq v w (h, g) =
      (λ e. absurd (not_met e), λ x. absurd (g x))
  decided-Met cond_greater_than Ordering.gt v w (h, g) = (λ e. g, λ x. refl)
  decided-Met cond_greater_than_or_equal Ordering.lt v w (h, g) =
      (λ e. absurd (not_met e), λ x. absurd (x h))
  decided-Met cond_greater_than_or_equal Ordering.eq v w (h, g) = (λ e. h, λ x. refl)
  decided-Met cond_greater_than_or_equal Ordering.gt v w (h, g) = (λ e. h, λ x. refl)
  decided-Met cond_less_than Ordering.lt v w (h, g) = (λ e. h, λ x. refl)
  decided-Met cond_less_than Ordering.eq v w (h, g) = (λ e. absurd (not_met e), λ x. absurd (h x))
  decided-Met cond_less_than Ordering.gt v w (h, g) = (λ e. absurd (not_met e), λ x. absurd (h x))
  decided-Met cond_less_than_or_equal Ordering.lt v w (h, g) = (λ e. g, λ x. refl)
  decided-Met cond_less_than_or_equal Ordering.eq v w (h, g) = (λ e. g, λ x. refl)
  decided-Met cond_less_than_or_equal Ordering.gt v w (h, g) =
      (λ e. absurd (not_met e), λ x. absurd (x g))
  decided-Met cond_exists c v w s = (λ e. no_op e, λ x. absurd x)
  decided-Met cond_not_exists c v w s = (λ e. no_op e, λ x. absurd x)
  decided-Met cond_unknown c v w s = (λ e. no_op e, λ x. absurd x)

  -- With a package in which no float64 is both below and above another, and for a leaf and a
  -- threshold that are read as values of one kind (signed integers of 64 bits, unsigned ones,
  -- floats, texts, bytes or truth values): a comparison is met exactly when the leaf's value is
  -- less, more or neither, as its operator says. Signed integers have the order of their two's
  -- complement, texts and bytes that of their first difference, and false is less than true; an
  -- operator that does not compare is never met.
  pub compare_with-Met :
      Asymmetric m
      → (orig : Bytes) (cond : Condition) (l : Leaf) (v w : Value) → Denotes m (leaf_bytes l orig) v
      → Denotes m cond.threshold w
      → SameKind m v w
      → (compare_with m orig cond (some l) ≡ ok tt) ↔ Met cond.op v w
  unfolding compare_with
  compare_with-Met asym orig cond l v w dv dw k =
      let (c, e, s) = leaves-Ordered m asym (leaf_bytes l orig) cond.threshold v w dv dw k in
      rw e (decided-Met cond.op c v w s)
