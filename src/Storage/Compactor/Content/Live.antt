-- ===== src/Storage/Compactor/Content/Live.antt =====
-- The entries that a compaction writes for an index, in any order of the map's iteration.
use hydraide.Base.{
  ◌==◌, ◌||◌, ◌≡◌, refl, List, [], ◌∷◌, ◌++◌, map, All, Option, none, some, arith, Bool-cases, inl,
  inr,
}
use mathlib.Core.Path.{transport}
use hydraide.Base.Bytes.{Bytes}
use hydraide.Base.Assoc.{
  bytes_eq, bytes_eq_iff, bytes_eq_refl, bytes_eq→eq, lookup, insert, remove, lookup-Absent,
  Distinct,
}
use hydraide.Storage.Entry.{Entry, op_insert, op_update, op_delete, op_metadata}
use hydraide.Storage.Block.Image.{Storable}
use hydraide.Storage.Reader.{Index, index_entry}
use hydraide.Storage.Reader.Index.{or_else, last_says, value_of, replay}
use hydraide.Storage.Compactor.{live_entry}

-- An iteration yields each pair of the map once.
pub record IsOrder (order : Index → List (Bytes × Bytes)) : Type 0 where
  pub distinct : (m : Index) → Distinct m → Distinct (order m)
  pub same : (m : Index) (k : Bytes) → Distinct m → lookup k (order m) ≡ lookup k m

abbrev pub later : Option (Option Bytes) → Option (Option Bytes) → Option (Option Bytes)
later none old = old
later (some new) old = some new

last_says-append :
    (k : Bytes) (xs ys : List Entry)
    → last_says k (xs ++ ys) ≡ later (last_says k ys) (last_says k xs)
last_says-append k [] ys = ground arith
last_says-append k (x ∷ xs) ys = ground (arith, last_says-append k xs ys)

abbrev pub wrapped : Option Bytes → Option (Option Bytes)
wrapped none = none
wrapped (some v) = some (some v)

last_says-live :
    (k : Bytes) (pairs : List (Bytes × Bytes))
    → Distinct pairs
    → last_says k (map live_entry pairs) ≡ wrapped (lookup k pairs)
unfolding lookup
last_says-live k [] d = refl
last_says-live k ((j, v) ∷ pairs) d =
    ground (arith, last_says-live k pairs, bytes_eq_iff j k, lookup-Absent j pairs)

-- Behind the entries `xs`, the pairs hide what `xs` says of their keys, and of no others.
pub value_of-append-live :
    (k : Bytes) (xs : List Entry) (pairs : List (Bytes × Bytes))
    → Distinct pairs
    → value_of k (xs ++ map live_entry pairs) ≡ or_else (wrapped (lookup k pairs)) (value_of k xs)
value_of-append-live k xs pairs d =
    ground (arith, last_says-append k xs (map live_entry pairs), last_says-live k pairs d)

pub storable_of_lookup :
    (pairs : List (Bytes × Bytes))
    → Distinct pairs
    → ((k v : Bytes) → lookup k pairs ≡ some v → Storable (live_entry (k, v)))
    → All Storable (map live_entry pairs)
unfolding lookup
storable_of_lookup [] d h = tt
storable_of_lookup ((j, v) ∷ pairs) d h = (
  h j v (rw bytes_eq_refl),
  storable_of_lookup pairs d.1
      (λ k w e. h k w (ground (arith, bytes_eq_iff j k, lookup-Absent j pairs))),
)

some_inj : {a b : Bytes} → some a ≡ some b → a ≡ b
some_inj q = cc

pub lookup-Storable :
    (m : List (Bytes × Bytes))
    → All Storable (map live_entry m)
    → (k v : Bytes) → lookup k m ≡ some v
    → Storable (live_entry (k, v))
unfolding lookup
lookup-Storable [] st k v e = cc
lookup-Storable ((j, w) ∷ m) (s, ss) k v e = elim (Bool-cases (bytes_eq j k)) [
  | inl same ↦
      let same_key : j ≡ k = bytes_eq→eq j k same in
      let same_value : w ≡ v = some_inj (rw same at e) in
      transport (λ i. Storable (live_entry (same_key i, same_value i))) s
  | inr other ↦ lookup-Storable m ss k v (rw other at e)
]

insert-Storable :
    (k v : Bytes) (m : Index)
    → Storable (live_entry (k, v))
    → All Storable (map live_entry m)
    → All Storable (map live_entry (insert k v m))
unfolding insert
insert-Storable k v [] s st = (s, tt)
insert-Storable k v ((j, w) ∷ m) s (t, ts) = elim (Bool-cases (bytes_eq j k)) [
  | inl same ↦ rw same (s, ts)
  | inr other ↦ rw other (t, insert-Storable k v m s ts)
]

remove-Storable :
    (k : Bytes) (m : Index)
    → All Storable (map live_entry m)
    → All Storable (map live_entry (remove k m))
unfolding remove
remove-Storable k [] st = tt
remove-Storable k ((j, w) ∷ m) (t, ts) = elim (Bool-cases (bytes_eq j k)) [
  | inl same ↦ rw same ts
  | inr other ↦ rw other (t, remove-Storable k m ts)
]

says-Storable :
    (e : Entry) (m : Index) (name : Bytes)
    → Storable e
    → All Storable (map live_entry m)
    → All Storable (map live_entry (index_entry e (m, name)).0)
unfolding index_entry
says-Storable e m name s st =
    let live : Storable (live_entry (e.key, e.payload)) = record {
      fits = record { key_pos = s.fits.key_pos; key = s.fits.key; payload = s.fits.payload };
      payload = s.payload;
    } in
    let removed = remove-Storable e.key m st in
    let inserted = insert-Storable e.key e.payload m live st in
    elim (Bool-cases (e.operation == op_delete)) [
      | inl is_delete ↦ rw is_delete removed
      | inr no_delete ↦
          rw no_delete (elim (Bool-cases (e.operation == op_insert || e.operation == op_update)) [
            | inl sets ↦ rw sets inserted
            | inr no_set ↦ rw no_set (elim (Bool-cases (e.operation == op_metadata)) [
              | inl meta ↦ rw meta st
              | inr no_meta ↦ rw no_meta st
            ])
          ])
    ]

-- Every pair of an index comes from an entry of the log, so it can be stored as well.
pub replay-Storable :
    (es : List Entry) (m : Index) (name : Bytes)
    → All Storable es
    → All Storable (map live_entry m)
    → All Storable (map live_entry (replay es (m, name)).0)
unfolding replay
replay-Storable [] m name se st = st
replay-Storable (e ∷ es) m name (s, se) st =
    replay-Storable es (index_entry e (m, name)).0 (index_entry e (m, name)).1 se
      (says-Storable e m name s st)
