-- ===== src/Storage/Reader/Index.antt =====
-- `LoadIndex` of chronicler/v2/reader.go, and the value that a log of entries gives a key.
use hydraide.Base.{
  ℕ, suc, ◌+◌, ◌≡◌, refl, ap, ◌∙◌, true, false, not, if◌then◌else◌, List, [], ◌∷◌, length, Option,
  none, some, arith, ◌==◌, ◌||◌, is_nil,
}
use hydraide.Base.Bytes.{Bytes}
use hydraide.Base.Assoc.{
  bytes_eq, lookup, lookup-insert, lookup-remove, Distinct, insert-Distinct, remove-Distinct,
}
use hydraide.Compressor.{Packages}
use hydraide.Compressor.RoundTrip.{Documented}
use hydraide.Storage.Entry.{Entry, op_insert, op_update, op_delete}
use hydraide.Storage.Writer.Files.{FileHolds}
use hydraide.Storage.Reader.{Index, index_entry, always, process, load_index}
use hydraide.Storage.Reader.Open.{reader, read_all_entries_lem}

-- What an entry says of a key: nothing, that it is gone, or its value.
abbrev pub says : Bytes → Entry → Option (Option Bytes)
says k e =
    if not (bytes_eq e.key k)
    then none
    else if e.operation == op_delete
    then some none
    else if e.operation == op_insert || e.operation == op_update
    then some (some e.payload)
    else none

abbrev pub or_else : Option (Option Bytes) → Option Bytes → Option Bytes
or_else none old = old
or_else (some new) old = new

-- What the last entry that says something of the key says.
abbrev pub last_says : Bytes → List Entry → Option (Option Bytes)
last_says k [] = none
last_says k (e ∷ es) = elim (last_says k es) [ some new ↦ some new | none ↦ says k e ]

abbrev pub value_of : Bytes → List Entry → Option Bytes
value_of k es = or_else (last_says k es) none

-- The entries applied to an index and a name, in order.
unfoldable pub replay : List Entry → Index × Bytes → Index × Bytes
replay [] s = s
replay (e ∷ es) s = replay es (index_entry e s)

index_entry-Distinct :
    (e : Entry) (m : Index) (name : Bytes) → Distinct m → Distinct (index_entry e (m, name)).0
unfolding index_entry
index_entry-Distinct e m name d =
    ground (arith, insert-Distinct e.key e.payload m d, remove-Distinct e.key m d)

lookup-index_entry :
    (k : Bytes) (e : Entry) (m : Index) (name : Bytes)
    → Distinct m
    → lookup k (index_entry e (m, name)).0 ≡ or_else (says k e) (lookup k m)
unfolding index_entry
lookup-index_entry k e m name d =
    ground (arith, lookup-insert e.key k e.payload m, lookup-remove e.key k m d)

or_else-last :
    (a b : Option (Option Bytes)) (old : Option Bytes)
    → or_else a (or_else b old) ≡ or_else (elim a [ some new ↦ some new | none ↦ b ]) old
or_else-last none b old = refl
or_else-last (some a) b old = refl

pub replay-Distinct :
    (es : List Entry) (m : Index) (name : Bytes) → Distinct m → Distinct (replay es (m, name)).0
unfolding replay
replay-Distinct [] m name d = d
replay-Distinct (e ∷ es) m name d =
    replay-Distinct es (index_entry e (m, name)).0 (index_entry e (m, name)).1
      (index_entry-Distinct e m name d)

pub lookup-replay :
    (k : Bytes) (es : List Entry) (m : Index) (name : Bytes)
    → Distinct m
    → lookup k (replay es (m, name)).0 ≡ or_else (last_says k es) (lookup k m)
unfolding replay
lookup-replay k [] m name d = refl
lookup-replay k (e ∷ es) m name d =
    lookup-replay k es (index_entry e (m, name)).0 (index_entry e (m, name)).1
      (index_entry-Distinct e m name d)
    ∙ ap (or_else (last_says k es)) (lookup-index_entry k e m name d)
    ∙ or_else-last (last_says k es) (says k e) (lookup k m)

pub process-always :
    (es : List Entry) (s : Index × Bytes) (total : ℕ)
    → process (always index_entry) es s total ≡ (replay es s, total + length es, true)
unfolding process replay
process-always [] s total = let e : total ≡ total + 0 = omega arith in λ i. (s, e i, true)
process-always (e ∷ es) s total =
    let sum : total + 1 + length es ≡ total + suc (length es) = omega arith in
    process-always es (index_entry e s) (total + 1)
    ∙ (λ i. (replay es (index_entry e s), sum i, true))

pub name_replay :
    (es : List Entry) (m : Index) (name : Bytes)
    → is_nil name ≡ false
    → (replay es (m, name)).1 ≡ name
unfolding replay index_entry
name_replay [] m name h = refl
name_replay (e ∷ es) m name h =
    let kept : (index_entry e (m, name)).1 ≡ name = ground arith in
    name_replay es (index_entry e (m, name)).0 (index_entry e (m, name)).1 (rw kept h) ∙ kept

module _ (p : Packages) (name : Bytes) (d : Documented p) (content : Bytes) (log : List Entry)
    (f : FileHolds p name content log) where
  abbrev pub replayed : Index × Bytes
  replayed = replay log ([], name)

  pub load_index-replay :
      load_index p (reader p name content log f) ≡ (replayed.0, replayed.1, none)
  unfolding load_index
  load_index-replay = rw (
    read_all_entries_lem p name content log f d (always index_entry) ([], name),
    process-always log ([], name) 0,
  )

  -- With packages that work as documented, the index that is loaded from a file that holds a log
  -- has, for each key, what the last entry of the log that says something of the key says, and no
  -- key twice; the load gives no error.
  pub load_index-value_of :
      (let (index, name, e) = load_index p (reader p name content log f) in
        (e ≡ none) × Distinct index × ((k : Bytes) → lookup k index ≡ value_of k log))
  unfolding lookup
  load_index-value_of =
      rw load_index-replay
        (refl, replay-Distinct log [] name tt, λ k. lookup-replay k log [] name tt)
