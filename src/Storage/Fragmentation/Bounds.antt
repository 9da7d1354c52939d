-- ===== src/Storage/Fragmentation/Bounds.antt =====
-- What `CalculateFragmentation` counts.
use hydraide.Base.{
  ℕ, suc, ◌+◌, ◌-◌, ◌*◌, ◌≤◌, ◌<◌, ◌≡◌, ◌⊎◌, refl, ◌∙◌, true, List, [], ◌∷◌, length, none, arith,
}
use mathlib.Core.Path.{transport}
use hydraide.Base.Assoc.{insert, remove}
use hydraide.Base.Bytes.{Bytes}
use hydraide.Compressor.{Packages}
use hydraide.Compressor.RoundTrip.{Documented}
use hydraide.Storage.Writer.Files.{FileHolds}
use hydraide.Storage.Reader.Open.{reader, read_all_entries_lem}
use hydraide.Storage.Entry.{Entry}
use hydraide.Storage.Reader.{Index, index_entry, process, load_index}
use hydraide.Storage.Reader.Index.{replay, load_index-replay}
use hydraide.Storage.Fragmentation.{
  Tally, count_entry, sum_sizes, Fragmentation, fragmentation_of, no_tally, calculate_fragmentation,
}

-- The keys of an index, with the sizes of their data.
abbrev pub sizes : Index → List (Bytes × ℕ)
sizes [] = []
sizes ((k, v) ∷ m) = (k, length v) ∷ sizes m

sizes-insert : (k v : Bytes) (m : Index) → sizes (insert k v m) ≡ insert k (length v) (sizes m)
unfolding insert
sizes-insert k v [] = refl
sizes-insert k v ((j, w) ∷ m) = ground (arith, sizes-insert k v m)

sizes-remove : (k : Bytes) (m : Index) → sizes (remove k m) ≡ remove k (sizes m)
unfolding remove
sizes-remove k [] = refl
sizes-remove k ((j, w) ∷ m) = ground (arith, sizes-remove k m)

length-sizes : (m : Index) → length (sizes m) ≡ length m
length-sizes [] = refl
length-sizes ((k, v) ∷ m) = omega (arith, length-sizes m)

-- The live keys of the tally are the keys of the index.
count_entry-sizes :
    (e : Entry) (t : Tally) (m : Index) (name : Bytes)
    → t.live_keys ≡ sizes m
    → (count_entry e t).live_keys ≡ sizes (index_entry e (m, name)).0
unfolding count_entry index_entry
count_entry-sizes e t m name h =
    ground (arith, sizes-insert e.key e.payload m, sizes-remove e.key m)

length-insert-le : (k : Bytes) (n : ℕ) (l : List (Bytes × ℕ)) → length (insert k n l) ≤ length l + 1
unfolding insert
length-insert-le k n [] = omega arith
length-insert-le k n ((j, w) ∷ l) = ground (arith, length-insert-le k n l)

length-remove-le : (k : Bytes) (l : List (Bytes × ℕ)) → length (remove k l) ≤ length l
unfolding remove
length-remove-le k [] = omega arith
length-remove-le k ((j, w) ∷ l) = ground (arith, length-remove-le k l)

sum-insert-le :
    (k : Bytes) (n : ℕ) (l : List (Bytes × ℕ)) → sum_sizes (insert k n l) ≤ sum_sizes l + n
unfolding insert
sum-insert-le k n [] = omega arith
sum-insert-le k n ((j, w) ∷ l) = ground (arith, sum-insert-le k n l)

sum-remove-le : (k : Bytes) (l : List (Bytes × ℕ)) → sum_sizes (remove k l) ≤ sum_sizes l
unfolding remove
sum-remove-le k [] = omega arith
sum-remove-le k ((j, w) ∷ l) = ground (arith, sum-remove-le k l)

-- No more live keys than entries, and no more live bytes than bytes.
pub record IsTally (t : Tally) : Type 0 where
  pub entries : length t.live_keys ≤ t.total_entries
  pub bytes : sum_sizes t.live_keys ≤ t.total_bytes
  pub none : t.total_entries ≡ 0 → t.total_bytes ≡ 0

pub count_entry-IsTally : (e : Entry) (t : Tally) → IsTally t → IsTally (count_entry e t)
unfolding count_entry
count_entry-IsTally e t v = ground (
  arith,
  length-insert-le e.key (length e.payload) t.live_keys,
  length-remove-le e.key t.live_keys,
  sum-insert-le e.key (length e.payload) t.live_keys,
  sum-remove-le e.key t.live_keys,
)

abbrev pub tally : List Entry → Tally → Tally
tally [] t = t
tally (e ∷ es) t = tally es (count_entry e t)

tally-IsTally : (es : List Entry) (t : Tally) → IsTally t → IsTally (tally es t)
tally-IsTally [] t v = v
tally-IsTally (e ∷ es) t v = tally-IsTally es (count_entry e t) (count_entry-IsTally e t v)

tally-sizes :
    (es : List Entry) (t : Tally) (m : Index) (name : Bytes)
    → t.live_keys ≡ sizes m
    → (tally es t).live_keys ≡ sizes (replay es (m, name)).0
unfolding replay
tally-sizes [] t m name h = h
tally-sizes (e ∷ es) t m name h =
    tally-sizes es (count_entry e t) (index_entry e (m, name)).0 (index_entry e (m, name)).1
      (count_entry-sizes e t m name h)

total-count_entry : (e : Entry) (t : Tally) → (count_entry e t).total_entries ≡ t.total_entries + 1
unfolding count_entry
total-count_entry e t = refl

tally-total :
    (es : List Entry) (t : Tally) → (tally es t).total_entries ≡ t.total_entries + length es
tally-total [] t = omega arith
tally-total (e ∷ es) t = omega (arith, tally-total es (count_entry e t), total-count_entry e t)

process-tally :
    (es : List Entry) (t : Tally) (total : ℕ)
    → process (λ entry t. (count_entry entry t, true)) es t total
      ≡ (tally es t, total + length es, true)
unfolding process
process-tally [] t total = let sum : total ≡ total + 0 = omega arith in λ i. (t, sum i, true)
process-tally (e ∷ es) t total =
    let sum : total + 1 + length es ≡ total + suc (length es) = omega arith in
    process-tally es (count_entry e t) (total + 1)
    ∙ (λ i. (tally es (count_entry e t), sum i, true))

-- The share of dead entries or that of dead bytes, whichever is more, and 0 with no entry at all.
pub record IsShare (f : Fragmentation) (live total live_bytes total_bytes : ℕ) : Type 0 where
  pub positive : 0 < f.ratio.den
  pub at_most_one : f.ratio.num ≤ f.ratio.den
  pub entry_share : (total - live) * f.ratio.den ≤ f.ratio.num * total
  pub byte_share : (total_bytes - live_bytes) * f.ratio.den ≤ f.ratio.num * total_bytes
  pub is_one_of :
      (f.ratio.num * total ≡ (total - live) * f.ratio.den)
      ⊎ ((0 < total_bytes) × (f.ratio.num * total_bytes ≡ (total_bytes - live_bytes) * f.ratio.den))
  pub none : total ≡ 0 → f.ratio.num ≡ 0
  pub live_count : f.live_count ≡ live
  pub total_count : f.total_count ≡ total

fragmentation_of-IsShare :
    (t : Tally)
    → IsTally t
    → IsShare
        (fragmentation_of t)
        (length t.live_keys)
        t.total_entries
        (sum_sizes t.live_keys)
        t.total_bytes
unfolding fragmentation_of
fragmentation_of-IsShare t v = grind arith

abbrev pub payload_bytes : List Entry → ℕ
payload_bytes [] = 0
payload_bytes (e ∷ es) = length e.payload + payload_bytes es

bytes-count_entry :
    (e : Entry) (t : Tally) → (count_entry e t).total_bytes ≡ t.total_bytes + length e.payload
unfolding count_entry
bytes-count_entry e t = refl

tally-bytes :
    (es : List Entry) (t : Tally) → (tally es t).total_bytes ≡ t.total_bytes + payload_bytes es
tally-bytes [] t = omega arith
tally-bytes (e ∷ es) t = omega (arith, tally-bytes es (count_entry e t), bytes-count_entry e t)

module _ (p : Packages) (d : Documented p) (name content : Bytes) (log : List Entry)
    (f : FileHolds p name content log) where
  abbrev pub counted : Tally
  counted = tally log no_tally

  abbrev pub live : Index
  live = (replay log ([], name)).0

  live_keys : counted.live_keys ≡ sizes live
  live_keys = tally-sizes log no_tally [] name refl

  pub calculated :
      calculate_fragmentation p (reader p name content log f) ≡ (fragmentation_of counted, none)
  unfolding calculate_fragmentation
  calculated = rw (
    read_all_entries_lem p name content log f d (λ entry t. (count_entry entry t, true)) no_tally,
    process-tally log no_tally 0,
  )

  share :
      IsShare
        (fragmentation_of counted)
        (length live)
        (length log)
        (sum_sizes (sizes live))
        (payload_bytes log)
  share =
      let entries : length counted.live_keys ≡ length live = rw live_keys (length-sizes live) in
      let total : counted.total_entries ≡ length log = omega (arith, tally-total log no_tally) in
      let bytes : counted.total_bytes ≡ payload_bytes log =
        omega (arith, tally-bytes log no_tally) in
      transport
        (λ i.
          IsShare (fragmentation_of counted) (entries i) (total i) (sum_sizes (live_keys i))
            (bytes i))
        (fragmentation_of-IsShare counted (tally-IsTally log no_tally (omega arith)))

  -- With packages that work as documented, the fragmentation of a file that holds a log is counted
  -- with no error: the live entries are those of the index that `LoadIndex` builds, and the ratio
  -- is the share of the entries that are dead or that of the data bytes that are, whichever is
  -- more, and 0 for an empty log.
  pub calculate_fragmentation-IsShare :
      (let (fragmentation, e) = calculate_fragmentation p (reader p name content log f) in
        let index = (load_index p (reader p name content log f)).0 in
        (e ≡ none)
        × IsShare fragmentation
            (length index)
            (length log)
            (sum_sizes (sizes index))
            (payload_bytes log))
  calculate_fragmentation-IsShare =
      rw (calculated, load_index-replay p name d content log f) (refl, share)
