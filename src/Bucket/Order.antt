-- ===== src/Bucket/Order.antt =====
-- The order in which changes reach the bucket of swamp_bucket.go.
use hydraide.Base.{
  false, ◌≡◌, refl, sym, ◌∙◌, ◌⊎◌, ap, List, [], ◌∷◌, ◌++◌, Option, none, some, if◌then◌else◌, inl,
  inr, Bool-cases, arith,
}
use hydraide.Base.Bytes.{Bytes}
use hydraide.Base.Assoc.{bytes_eq, bytes_eq_iff, lookup, Distinct, lookup-insert, lookup-remove}
use hydraide.Bucket.Slots.{Treasure}
use hydraide.Bucket.State.{PendingOp, pending_insert, pending_update, pending_delete}
use hydraide.Bucket.Index.{Treasures}
use hydraide.Bucket.Replay.{changed_by, all_changed_by, changed_by-Distinct}

-- What an operation makes of the treasure of a key.
abbrev pub result : PendingOp → Bytes → Option Treasure → Option Treasure
result (pending_insert t) k o = if bytes_eq t.key k then some t else o
result (pending_update t) k o = if bytes_eq t.key k then some t else o
result (pending_delete key) k o = if bytes_eq key k then none else o

abbrev pub results : List PendingOp → Bytes → Option Treasure → Option Treasure
results [] k o = o
results (op ∷ ops) k o = results ops k (result op k o)

pub lookup-changed_by :
    (op : PendingOp) (k : Bytes) (ts : Treasures)
    → Distinct ts
    → lookup k (changed_by op ts) ≡ result op k (lookup k ts)
unfolding changed_by
lookup-changed_by (pending_insert t) k ts d = lookup-insert t.key k t ts
lookup-changed_by (pending_update t) k ts d = lookup-insert t.key k t ts
lookup-changed_by (pending_delete key) k ts d = lookup-remove key k ts d

pub lookup-all_changed_by :
    (ops : List PendingOp) (k : Bytes) (ts : Treasures)
    → Distinct ts
    → lookup k (all_changed_by ops ts) ≡ results ops k (lookup k ts)
unfolding all_changed_by
lookup-all_changed_by [] k ts d = refl
lookup-all_changed_by (op ∷ ops) k ts d =
    lookup-all_changed_by ops k (changed_by op ts) (changed_by-Distinct op ts d)
    ∙ ap (λ o. results ops k o) (lookup-changed_by op k ts d)

pub results-append :
    (ops later : List PendingOp) (k : Bytes) (o : Option Treasure)
    → results (ops ++ later) k o ≡ results later k (results ops k o)
results-append [] later k o = refl
results-append (op ∷ ops) later k o = results-append ops later k (result op k o)

-- An operation that has come makes the same of every treasure of its key.
result-key :
    (op : PendingOp) (k : Bytes) (o p : Option Treasure)
    → (result op k o ≡ result op k p) ⊎ ((q : Option Treasure) → result op k q ≡ q)
result-key (pending_insert t) k o p = elim (Bool-cases (bytes_eq t.key k)) [
  | inl e ↦ inl (rw e refl)
  | inr e ↦ inr (λ q. rw e refl)
]
result-key (pending_update t) k o p = elim (Bool-cases (bytes_eq t.key k)) [
  | inl e ↦ inl (rw e refl)
  | inr e ↦ inr (λ q. rw e refl)
]
result-key (pending_delete key) k o p = elim (Bool-cases (bytes_eq key k)) [
  | inl e ↦ inl (rw e refl)
  | inr e ↦ inr (λ q. rw e refl)
]

-- The operations make the one map of treasures the other.
abbrev pub Covers : List PendingOp → Treasures → Treasures → Type 0
Covers ops old ts = (k : Bytes) → results ops k (lookup k old) ≡ lookup k ts

-- They still do, with a change that is sent.
pub changed-Covers :
    (ops : List PendingOp) (op : PendingOp) (old ts : Treasures)
    → Distinct ts
    → Covers ops old ts
    → Covers (ops ++ (op ∷ [])) old (changed_by op ts)
changed-Covers ops op old ts d c = λ k.
    results-append ops (op ∷ []) k (lookup k old)
    ∙ ap (λ o. result op k o) (c k)
    ∙ sym (lookup-changed_by op k ts d)

-- A map that has the operations in it already has the change in it.
pub again-Covers :
    (ops : List PendingOp) (op : PendingOp) (ts : Treasures)
    → Distinct ts
    → Covers ops ts ts
    → Covers (ops ++ (op ∷ [])) (changed_by op ts) (changed_by op ts)
again-Covers ops op ts d c = λ k.
    let now = lookup-changed_by op k ts d in
    results-append ops (op ∷ []) k (lookup k (changed_by op ts))
    ∙ elim (result-key op k (results ops k (lookup k (changed_by op ts))) (lookup k ts)) [
      | inl e ↦ e ∙ sym now
      | inr same ↦
          let kept : lookup k (changed_by op ts) ≡ lookup k ts = now ∙ same (lookup k ts) in
          same (results ops k (lookup k (changed_by op ts)))
          ∙ ap (λ o. results ops k o) kept
          ∙ c k
          ∙ sym kept
    ]

-- The first operations may have been applied.
pub applied-Covers :
    (ops later : List PendingOp) (old ts : Treasures)
    → Distinct old
    → Covers (ops ++ later) old ts
    → Covers later (all_changed_by ops old) ts
applied-Covers ops later old ts d c = λ k.
    ap (λ o. results later k o) (lookup-all_changed_by ops k old d)
    ∙ sym (results-append ops later k (lookup k old))
    ∙ c k

results-key :
    (ops : List PendingOp) (k : Bytes) (o p : Option Treasure)
    → (results ops k o ≡ results ops k p) ⊎ ((q : Option Treasure) → results ops k q ≡ q)
results-key [] k o p = inr (λ q. refl)
results-key (op ∷ ops) k o p = elim (result-key op k o p) [
  | inl e ↦ inl (ap (λ q. results ops k q) e)
  | inr same ↦ elim (results-key ops k (result op k o) (result op k p)) [
    | inl e ↦ inl e
    | inr later ↦ inr (λ q. later (result op k q) ∙ same q)
  ]
]

-- The operations that are left still are in the map.
pub told-Covers :
    (op : PendingOp) (ops : List PendingOp) (ts : Treasures)
    → Covers (op ∷ ops) ts ts
    → Covers ops ts ts
told-Covers op ops ts c = λ k. elim (results-key ops k (lookup k ts) (result op k (lookup k ts))) [
  | inl e ↦ e ∙ c k
  | inr same ↦ same (lookup k ts)
]

-- The key of an operation.
abbrev pub key_of : PendingOp → Bytes
key_of (pending_insert t) = t.key
key_of (pending_update t) = t.key
key_of (pending_delete key) = key

result_other :
    (op : PendingOp) (k : Bytes) (o : Option Treasure)
    → bytes_eq (key_of op) k ≡ false
    → result op k o ≡ o
result_other (pending_insert t) k o e = rw e refl
result_other (pending_update t) k o e = rw e refl
result_other (pending_delete key) k o e = rw e refl

-- Operations on two keys may come in either order.
pub result-result :
    (op other : PendingOp) (k : Bytes) (o : Option Treasure)
    → bytes_eq (key_of op) (key_of other) ≡ false
    → result other k (result op k o) ≡ result op k (result other k o)
result-result op other k o apart = elim (Bool-cases (bytes_eq (key_of op) k)) [
  | inr e ↦
      ap (λ q. result other k q) (result_other op k o e)
      ∙ sym (result_other op k (result other k o) e)
  | inl e ↦
      let elsewhere : bytes_eq (key_of other) k ≡ false = ground (
        arith,
        bytes_eq_iff (key_of op) k,
        bytes_eq_iff (key_of other) k,
        bytes_eq_iff (key_of op) (key_of other),
      ) in
      result_other other k (result op k o) elsewhere
      ∙ sym (ap (λ q. result op k q) (result_other other k o elsewhere))
]

-- Lists of operations that make the same of every treasure.
abbrev pub Alike : List PendingOp → List PendingOp → Type 0
Alike ops others = (k : Bytes) (o : Option Treasure) → results ops k o ≡ results others k o

pub Alike-Covers :
    (before ops others : List PendingOp) (old ts : Treasures)
    → Alike ops others
    → Covers (before ++ ops) old ts
    → Covers (before ++ others) old ts
Alike-Covers before ops others old ts alike c = λ k.
    results-append before others k (lookup k old)
    ∙ sym (alike k (results before k (lookup k old)))
    ∙ sym (results-append before ops k (lookup k old))
    ∙ c k
