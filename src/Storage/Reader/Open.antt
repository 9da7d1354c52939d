-- ===== src/Storage/Reader/Open.antt =====
-- Opening and reading a file that holds a log.
use hydraide.Base.{
  ◌+◌, ◌≡◌, ◌≢◌, refl, ap, ◌∙◌, Bool, true, false, List, [], ◌∷◌, ◌++◌, length, drop, some, arith,
  length-append, append_assoc, drop-append, Bool-cases, inl, inr, ◌==◌, ==→eq,
}
use mathlib.Core.Path.{subst}
use hydraide.Base.Bytes.{Bytes}
use hydraide.Base.Outcome.{ok}
use hydraide.Compressor.{Packages}
use hydraide.Compressor.RoundTrip.{Documented}
use hydraide.Storage.Errors.{Result}
use hydraide.Storage.Header
use hydraide.Storage.Header.{FileHeader}
use hydraide.Storage.Entry.{Entry}
use hydraide.Storage.Block.Image.{encode_blocks}
use hydraide.Storage.Writer.{read_full}
use hydraide.Storage.Writer.Files.{FileHolds}
use hydraide.Storage.Writer.Create.{read_full_at, deserialize_alone}
use hydraide.Storage.Reader.{
  FileReader, new_file_reader, open_reader, data_bytes, read_all_entries, process,
}
use hydraide.Storage.Reader.Blocks.{read_loop_lem, finished}

module _ (p : Packages) (name : Bytes) (content : Bytes) (log : List Entry)
    (f : FileHolds p name content log) where
  abbrev pub reader : FileReader
  reader = record { content = content; header = f.header; swamp_name = name }

  name_length_v3 : Header.is_v3 f.header ≡ true → length name ≡ f.header.name_length
  unfolding Header.is_v3
  name_length_v3 v3 = unfold Header.data_start_offset in ground (arith, f.name_end)

  no_name : Header.is_v3 f.header ≡ false → length name ≡ 0
  unfolding Header.is_v3
  no_name v2 = unfold Header.data_start_offset in ground (arith, f.name_end)

  nil_name : (name : Bytes) → length name ≡ 0 → [] ≡ name
  nil_name [] e = refl
  nil_name (b ∷ name) e = absurd (omega arith)

  unnamed :
      length name ≡ 0
      → ◌≡◌ {A = Result FileReader}
          (ok (record { content = content; header = f.header; swamp_name = [] }))
          (ok reader)
  unnamed e = λ i. ok (record reader { swamp_name = nil_name name e i })

  read_header :
      read_full 64 content ≡ ok (Header.serialize f.header, name ++ encode_blocks p f.blocks)
  read_header = rw f.image (
      read_full_at 64 (Header.serialize f.header) (name ++ encode_blocks p f.blocks)
        (Header.length-serialize f.header f.well_formed))

  opened : open_reader content ≡ ok reader
  unfolding open_reader
  opened =
      rw (read_header, deserialize_alone f.header f.well_formed)
        (elim (Bool-cases (Header.is_v3 f.header)) [
          | inr v2 ↦ rw v2 (unnamed (no_name v2))
          | inl v3 ↦ rw v3 (elim (Bool-cases (f.header.name_length == 0)) [
            | inl zero_length ↦ rw zero_length (
                unnamed
                  (omega (arith, name_length_v3 v3, ==→eq f.header.name_length 0 zero_length)))
            | inr more ↦ rw more (
                rw (
                  read_full_at f.header.name_length name (encode_blocks p f.blocks)
                    (name_length_v3 v3)))
          ])
        ])

  pub new_file_reader_lem :
      (file_path : Bytes) → file_path ≢ [] → new_file_reader (some content) file_path ≡ ok reader
  unfolding new_file_reader
  new_file_reader_lem [] h = absurd (h refl)
  new_file_reader_lem (b ∷ path) h = opened

  pub data_bytes_lem : data_bytes reader ≡ encode_blocks p f.blocks
  data_bytes_lem =
      rw
        (
          f.name_end,
          f.image,
          ← append_assoc (Header.serialize f.header) name (encode_blocks p f.blocks),
        )
        (subst
          (λ n.
            drop n ((Header.serialize f.header ++ name) ++ encode_blocks p f.blocks)
            ≡ encode_blocks p f.blocks)
          front (drop-append (Header.serialize f.header ++ name) (encode_blocks p f.blocks)))
    where
      front : length (Header.serialize f.header ++ name) ≡ 64 + length name
      front = rw (length-append, Header.length-serialize f.header f.well_formed)

  -- With packages that work as documented, a callback that reads a file that holds a log is run
  -- over the log's entries, in order, until it answers false, and the read ends with no error.
  pub read_all_entries_lem {ℓ} :
      (d : Documented p) {S : Type ℓ} (callback : Entry → S → S × Bool) (s : S)
      → read_all_entries p callback reader s ≡ finished (process callback log s 0)
  unfolding read_all_entries
  read_all_entries_lem d callback s = rw data_bytes_lem (
      read_loop_lem p d callback f.blocks _ _ s 0 f.valid (omega arith)
      ∙ ap (λ l. finished (process callback l s 0)) f.logged)
