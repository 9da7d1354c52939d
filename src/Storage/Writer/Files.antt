-- ===== src/Storage/Writer/Files.antt =====
-- What the file holds when a writer is made, synced and closed.
use hydraide.Base.{
  ◌+◌, ◌%◌, ◌^◌, ◌≡◌, refl, sym, ap, ◌∙◌, true, false, List, [], ◌++◌, length, concat, All, none,
  append-nil,
}
use mathlib.Core.Path.{subst}
use hydraide.Base.Bytes.{Bytes}
use hydraide.Compressor.{Packages}
use hydraide.Compressor.RoundTrip.{Documented}
use hydraide.Storage.Header
use hydraide.Storage.Header.{FileHeader, IsHeader, data_start_offset, recount}
use hydraide.Storage.Entry.{Entry}
use hydraide.Storage.Block.Image.{IsBlock, encode_blocks}
use hydraide.Storage.OsFile.{seek_end, write_at_start}
use hydraide.Storage.Writer.{
  FileWriter, with_counts, write_header, synced, closing, sync, close, flush_locked,
}
use hydraide.Storage.Writer.Log.{Holds, Stores, Flushes, flush_locked-Flushes}

module _ (p : Packages) (name : Bytes) where
  -- The bytes of a file whose blocks hold `log`, and whose header counts it.
  pub record FileHolds (content : Bytes) (log : List Entry) : Type 0 where
    pub header : FileHeader
    pub blocks : List (List Entry)
    pub image : content ≡ Header.serialize header ++ (name ++ encode_blocks p blocks)
    pub well_formed : IsHeader header
    pub name_end : data_start_offset header ≡ 64 + length name
    pub valid : All (IsBlock p) blocks
    pub block_count : header.block_count ≡ length blocks % 2 ^ 64
    pub entry_count : header.entry_count ≡ length log % 2 ^ 64
    pub logged : concat blocks ≡ log

  -- A writer's file holds what was flushed: the log less the entries in the buffer.
  pub Stores-FileHolds :
      (fw : FileWriter) (log : List Entry)
      → Stores p name fw log
      → (flushed : List Entry) × FileHolds fw.file.content flushed
        × (flushed ++ fw.buffer.entries ≡ log)
  Stores-FileHolds fw log s = (
    concat h.blocks,
    record {
      header = fw.header;
      blocks = h.blocks;
      image = h.image;
      well_formed = h.header;
      name_end = h.name_end;
      valid = h.valid;
      block_count = h.header_blocks ∙ h.block_count;
      entry_count = h.header_entries ∙ h.entry_count;
      logged = refl;
    },
    h.logged,
  )
    where
      h : Holds p name fw log
      h = s.holds

  -- With an empty buffer the file holds the whole log.
  empty-FileHolds :
      (fw : FileWriter) (log : List Entry)
      → Stores p name fw log
      → fw.buffer.entries ≡ []
      → FileHolds fw.file.content log
  empty-FileHolds fw log s e =
      let (flushed, holds, same) = Stores-FileHolds fw log s in
      let all : flushed ≡ log =
        sym (append-nil flushed) ∙ subst (λ es. flushed ++ es ≡ log) e same in
      subst (FileHolds fw.file.content) all holds

  same_header :
      (fw : FileWriter) (log : List Entry) → Holds p name fw log → with_counts fw ≡ fw.header
  unfolding with_counts
  same_header fw log h = λ i. record fw.header {
    block_count = sym h.header_blocks i;
    entry_count = sym h.header_entries i;
  }

  -- Writing the header again changes no byte.
  rewritten :
      (fw : FileWriter) (log : List Entry)
      → Holds p name fw log
      → write_header fw ≡ record fw { file = record { content = fw.file.content; pos = 64 } }
  unfolding write_header
  rewritten fw log h =
      let over =
        write_at_start fw.file (Header.serialize fw.header) (Header.serialize fw.header)
          (name ++ encode_blocks p h.blocks) h.image refl in
      let size = Header.length-serialize fw.header h.header in
      rw (same_header fw log h, over)
        (λ i. record fw { file = record { content = sym h.image i; pos = size i } })

  -- After `Sync` has put the position back, nothing has changed.
  synced_same :
      (fw : FileWriter) (log : List Entry) → Holds p name fw log → synced (fw, none) ≡ (fw, none)
  unfolding synced seek_end
  synced_same fw log h =
      let written = rewritten fw log h in
      (λ i. (record (written i) { file = seek_end (written i).file }, none)) ∙ (λ i.
        (record fw { file = record { content = fw.file.content; pos = sym h.at_end i } }, none))

  closed_file :
      (fw : FileWriter) (log : List Entry)
      → Holds p name fw log
      → (closing (fw, none)).0.file.content ≡ fw.file.content
  unfolding closing
  closed_file fw log h = ap (λ (w : FileWriter). w.file.content) (rewritten fw log h)

  module _ (d : Documented p) (fw : FileWriter) (log : List Entry) (s : Stores p name fw log)
      (is_open : fw.closed ≡ false) where
    f : Flushes p name log fw.closed (flush_locked p fw)
    f = flush_locked-Flushes p name d fw log s.holds

    no_error : flush_locked p fw ≡ ((flush_locked p fw).0, none)
    no_error i = ((flush_locked p fw).0, f.works.no_error i)

    -- With packages that work as documented, `sync` of an open writer that stores a log empties
    -- the buffer into the file with no error, and the writer is open and stores the same log.
    pub sync-Flushes : Flushes p name log false (sync p fw)
    unfolding sync
    sync-Flushes = simp is_open (
        rw (no_error, synced_same (flush_locked p fw).0 log f.works.stores.holds)
          (subst (λ b. Flushes p name log b ((flush_locked p fw).0, none)) is_open
            (rw no_error at f)))

    -- With packages that work as documented, `close` of an open writer that stores a log gives no
    -- error, marks the writer closed, and leaves a file that holds the whole log, buffered entries
    -- included.
    pub close-FileHolds :
        ((close p fw).1 ≡ none)
        × ((close p fw).0.closed ≡ true)
        × FileHolds (close p fw).0.file.content log
    unfolding close
    close-FileHolds = simp is_open (
        rw no_error (
          unfold closing in
          (
            refl,
            refl,
            subst (λ c. FileHolds c log)
                (sym (closed_file (flush_locked p fw).0 log f.works.stores.holds))
                (empty-FileHolds (flush_locked p fw).0 log f.works.stores f.empty),
          )))
