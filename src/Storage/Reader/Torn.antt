-- ===== src/Storage/Reader/Torn.antt =====
-- `ReadAllEntries` and `LoadIndex` of chronicler/v2/reader.go on files whose last write was cut
-- off.
use hydraide.Base.{
  ℕ, zero, suc, ◌+◌, ◌<◌, ◌≡◌, refl, sym, ap, ◌∙◌, Bool, true, false, List, [], ◌∷◌, ◌++◌, length,
  take, drop, ltb, ltb-true, ◌%◌, ◌^◌, concat, All, Option, none, some, arith, append_assoc,
  length-append, drop-append, take-append, ltb-false,
}
use mathlib.Core.Path.{subst}
use hydraide.Base.Bytes.{Bytes}
use hydraide.Base.Outcome.{err}
use hydraide.Compressor.{Packages}
use hydraide.Compressor.RoundTrip.{Documented}
use hydraide.Storage.Errors.{Error, eof, unexpected_eof}
use hydraide.Storage.Header
use hydraide.Storage.BlockHeader
use hydraide.Storage.BlockHeader.{BlockHeader}
use hydraide.Storage.Entry.{Entry}
use hydraide.Storage.Block.Image.{IsBlock, header, compressed, encode_block, encode_blocks}
use hydraide.Storage.Writer.Files.{FileHolds}
use hydraide.Storage.Writer.{read_full}
use hydraide.Storage.Reader.{
  FileReader, data_bytes, process, after_block, read_next_block, read_loop, read_all_entries,
  load_index, or_nil_index, always, index_entry,
}
use hydraide.Storage.Reader.Blocks.{
  read_next_block_lem, read_loop_block, process-append, continue_with, offset_after, block_length,
  header_alone, finished,
}
use hydraide.Storage.Reader.Index.{process-always}
use hydraide.Storage.Reader.Open.{reader, read_all_entries_lem}

cut_read :
    (n : ℕ) (part : Bytes)
    → 0 < length part
    → length part < n
    → read_full n part ≡ err unexpected_eof
unfolding read_full
cut_read n [] pos less = absurd (omega arith)
cut_read n (b ∷ bs) pos less = ground arith

nested : (a b c d : Bytes) → (a ++ (b ++ c)) ++ d ≡ (a ++ b) ++ (c ++ d)
nested a b c d = ap (λ bs. bs ++ d) (sym (append_assoc a b c)) ∙ append_assoc (a ++ b) c d

-- How the loop ends at bytes that are no block: at the end of the file with no error.
abbrev pub stop {ℓ} : {S : Type ℓ} → Error → S → ℕ → S × ℕ × Option Error
stop e s total = elim e [ eof ↦ (s, total, none) | other ↦ (s, total, some other) ]

abbrev pub ends {ℓ} : {S : Type ℓ} → Error → S × ℕ × Bool → S × ℕ × Option Error
ends e (s, total, true) = stop e s total
ends e (s, total, false) = (s, total, none)

module _ {ℓ} {S : Type ℓ} (p : Packages) (d : Documented p) (callback : Entry → S → S × Bool)
    (tail : Bytes) (e : Error) (bad : (offset : ℕ) → read_next_block p offset tail ≡ err e) where
  at_tail :
      (fuel offset : ℕ) (s : S) (total : ℕ)
      → read_loop p callback (suc fuel) offset tail s total ≡ stop e s total
  unfolding read_loop
  at_tail fuel offset s total = rw (bad offset, read_loop)

  after_all :
      (ys : List Entry) (go : S → ℕ → S × ℕ × Option Error) (r : S × ℕ × Bool)
      → ((s : S) (total : ℕ) → go s total ≡ ends e (process callback ys s total))
      → after_block go r ≡ ends e (continue_with callback ys r)
  after_all ys go (s, total, true) h = h s total
  after_all ys go (s, total, false) h = refl

  read_loop_torn :
      (blocks : List (List Entry)) (fuel offset : ℕ) (s : S) (total : ℕ)
      → All (IsBlock p) blocks
      → length (encode_blocks p blocks ++ tail) < fuel
      → read_loop p callback fuel offset (encode_blocks p blocks ++ tail) s total
        ≡ ends e (process callback (concat blocks) s total)
  read_loop_torn blocks zero offset s total v h = absurd (omega arith)
  read_loop_torn [] (suc fuel) offset s total v h =
      at_tail fuel offset s total ∙ unfold process in refl
  read_loop_torn (es ∷ blocks) (suc fuel) offset s total (v, vs) h =
      let rest : Bytes = encode_blocks p blocks ++ tail in
      let shape : encode_blocks p (es ∷ blocks) ++ tail ≡ encode_block p es ++ rest =
        append_assoc (encode_block p es) (encode_blocks p blocks) tail in
      let shorter : length rest < fuel = omega (
        arith,
        length-append (encode_block p es) rest,
        block_length p d callback es,
        ap (λ (bs : Bytes). length bs) shape,
      ) in
      ap (λ bs. read_loop p callback (suc fuel) offset bs s total) shape
      ∙ read_loop_block p d callback fuel offset (encode_block p es ++ rest) rest _ s total
          (read_next_block_lem p d es v rest offset)
      ∙ after_all (concat blocks) _ (process callback es s total) (λ s' total'.
        read_loop_torn blocks fuel
          (offset_after p d callback offset (encode_block p es ++ rest) rest) s' total' vs shorter)
      ∙ ap (ends e) (sym (process-append callback es (concat blocks) s total))

module _ (p : Packages) (name content : Bytes) (log : List Entry) (f : FileHolds p name content log)
    (tail : Bytes) where
  -- The reader of the file with `tail` behind it.
  abbrev pub torn_reader : FileReader
  torn_reader = record (reader p name content log f) { content = content ++ tail }

  torn_bytes : data_bytes torn_reader ≡ encode_blocks p f.blocks ++ tail
  torn_bytes =
      let front : length (Header.serialize f.header ++ name) ≡ 64 + length name =
        rw (length-append, Header.length-serialize f.header f.well_formed) refl in
      let whole : content ++ tail
          ≡ (Header.serialize f.header ++ name) ++ (encode_blocks p f.blocks ++ tail) =
        ap (λ bs. bs ++ tail) f.image
        ∙ nested (Header.serialize f.header) name (encode_blocks p f.blocks) tail in
      rw (f.name_end, whole)
        (subst
          (λ n.
            drop n ((Header.serialize f.header ++ name) ++ (encode_blocks p f.blocks ++ tail))
            ≡ encode_blocks p f.blocks ++ tail)
          front
          (drop-append (Header.serialize f.header ++ name) (encode_blocks p f.blocks ++ tail)))

  torn_entries {ℓ} :
      (d : Documented p) {S : Type ℓ} (callback : Entry → S → S × Bool) (s : S) (e : Error)
      → ((offset : ℕ) → read_next_block p offset tail ≡ err e)
      → read_all_entries p callback torn_reader s ≡ ends e (process callback log s 0)
  unfolding read_all_entries
  torn_entries d callback s e bad = rw torn_bytes (
      read_loop_torn p d callback tail e bad f.blocks _ _ s 0 f.valid (omega arith)
      ∙ ap (λ l. ends e (process callback l s 0)) f.logged)

ends_eof {ℓ} : {S : Type ℓ} (r : S × ℕ × Bool) → ends eof r ≡ finished r
ends_eof (s, total, true) = refl
ends_eof (s, total, false) = refl

short_tail :
    (p : Packages) (tail : Bytes)
    → length tail < 16
    → (offset : ℕ) → read_next_block p offset tail ≡ err eof
unfolding read_next_block
short_tail p tail h offset =
    let short : ltb (length tail) 16 ≡ true = ltb-true (length tail) 16 h in rw short

head_bytes :
    (b : BlockHeader) (part : Bytes)
    → take 16 (BlockHeader.serialize b ++ part) ≡ BlockHeader.serialize b
unfolding BlockHeader.serialize
head_bytes b part = take-append (BlockHeader.serialize b) part

tail_bytes : (b : BlockHeader) (part : Bytes) → drop 16 (BlockHeader.serialize b ++ part) ≡ part
unfolding BlockHeader.serialize
tail_bytes b part = drop-append (BlockHeader.serialize b) part

long_enough :
    (b : BlockHeader) (part : Bytes) → ltb (length (BlockHeader.serialize b ++ part)) 16 ≡ false
long_enough b part =
    ltb-false _ 16 (rw length-append (omega (arith, BlockHeader.length-serialize b)))

cut_data :
    (p : Packages) (d : Documented p) (es : List Entry) (v : IsBlock p es) (part : Bytes)
    → 0 < length part
    → length part < length (compressed p es)
    → (offset : ℕ)
    → read_next_block p offset (BlockHeader.serialize (header p es) ++ part) ≡ err unexpected_eof
unfolding read_next_block
cut_data p d es v part pos less offset =
    let some_bytes : read_full (length (compressed p es) % 2 ^ 32) part ≡ err unexpected_eof =
      cut_read (length (compressed p es) % 2 ^ 32) part pos (omega (arith, v.compressed)) in
    rw (long_enough (header p es) part) (
      rw (head_bytes (header p es) part)
        (rw (tail_bytes (header p es) part) (rw (header_alone p d es v) (rw some_bytes))))

-- With packages that work as documented, a file that holds a log, with fewer than 16 bytes of a
-- block's header behind it, reads as the file without them: the callback is run over the log's
-- entries, in order, until it answers false, and the read ends with no error.
pub torn_header_lem {ℓ} :
    (p : Packages) (d : Documented p) (name content : Bytes) (log : List Entry)
    (f : FileHolds p name content log) (tail : Bytes) {S : Type ℓ} (callback : Entry → S → S × Bool)
    (s : S)
    → length tail < 16
    → read_all_entries p callback (torn_reader p name content log f tail) s
      ≡ read_all_entries p callback (reader p name content log f) s
torn_header_lem p d name content log f tail callback s h =
    torn_entries p name content log f tail d callback s eof (short_tail p tail h)
    ∙ ends_eof (process callback log s 0)
    ∙ sym (read_all_entries_lem p name content log f d callback s)

-- With packages that work as documented, a file that holds a log, with a block's header behind it
-- and some of the block's data, but less than all of it: the callback is run over the log's
-- entries, in order, until it answers false; if it never does, the read ends with the error
-- `unexpected_eof`.
pub torn_block_lem {ℓ} :
    (p : Packages) (d : Documented p) (name content : Bytes) (log : List Entry)
    (f : FileHolds p name content log) (es : List Entry) (part : Bytes) {S : Type ℓ}
    (callback : Entry → S → S × Bool) (s : S)
    → IsBlock p es
    → 0 < length part
    → length part < length (compressed p es)
    → read_all_entries p callback
        (torn_reader p name content log f (BlockHeader.serialize (header p es) ++ part))
        s
      ≡ ends unexpected_eof (process callback log s 0)
torn_block_lem p d name content log f es part callback s v pos less =
    torn_entries p name content log f (BlockHeader.serialize (header p es) ++ part) d callback s
      unexpected_eof (cut_data p d es v part pos less)

-- With packages that work as documented, after such a cut in a block's data the index of the file
-- cannot be loaded: whatever the log holds, the error is `unexpected_eof`, and the index is empty.
pub torn_load_index_lem :
    (p : Packages) (d : Documented p) (name content : Bytes) (log : List Entry)
    (f : FileHolds p name content log) (es : List Entry) (part : Bytes)
    → IsBlock p es
    → 0 < length part
    → length part < length (compressed p es)
    → (let (index, _, e) =
          load_index p
            (torn_reader p name content log f (BlockHeader.serialize (header p es) ++ part)) in
        (index ≡ []) × (e ≡ some unexpected_eof))
unfolding load_index or_nil_index
torn_load_index_lem p d name content log f es part v pos less =
    rw
      (
        torn_block_lem p d name content log f es part (always index_entry) ([], name) v pos less,
        process-always log ([], name) 0,
      )
      (refl, refl)
