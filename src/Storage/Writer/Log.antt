-- ===== src/Storage/Writer/Log.antt =====
-- The log of a writer of chronicler/v2/writer.go: the entries of the blocks in its file, then
-- those of its buffer. `flushLocked` moves the ones to the others.
use hydraide.Base.{
  ◌+◌, ◌%◌, ◌^◌, ◌≤◌, ◌<◌, ◌≡◌, ◌≢◌, refl, sym, ap, ◌∙◌, Bool, List, [], ◌∷◌, ◌++◌, length, concat,
  All, All-append, Option, none, arith, length-append, append_assoc, append-nil, ◌⊎◌, inl, inr,
}
use hydraide.Base.Bytes.{Bytes, bound}
use hydraide.Compressor.{Packages}
use hydraide.Compressor.RoundTrip.{Documented}
use hydraide.Storage.Errors.{Error}
use hydraide.Storage.Header
use hydraide.Storage.Header.{
  FileHeader, IsHeader, data_start_offset, recount, recount-IsHeader, data_start_offset-recount,
}
use hydraide.Storage.BlockHeader
use hydraide.Storage.BlockHeader.{BlockHeader}
use hydraide.Storage.Entry.{Entry}
use hydraide.Storage.Block
use hydraide.Storage.Block.{WriteBuffer, cleared}
use hydraide.Storage.Block.Image.{
  IsBlock, Storable, total_size, encode_blocks, encode_blocks-append, header, compressed, flush_lem,
  IsBlock-of_Storable,
}
use hydraide.Storage.OsFile.{append_and_patch}
use hydraide.Storage.Writer.{FileWriter, write_block, flush_locked}

module _ (p : Packages) (name : Bytes) where
  -- The writer's file is a header, a name of the length that the header tells, and the blocks.
  pub record Holds (fw : FileWriter) (log : List Entry) : Type 0 where
    pub blocks : List (List Entry)
    pub image : fw.file.content ≡ Header.serialize fw.header ++ (name ++ encode_blocks p blocks)
    pub at_end : fw.file.pos ≡ length fw.file.content
    pub header : IsHeader fw.header
    pub name_end : data_start_offset fw.header ≡ 64 + length name
    pub valid : All (IsBlock p) blocks
    pub storable : All Storable fw.buffer.entries
    pub size : fw.buffer.current_size ≡ total_size fw.buffer.entries
    pub count : length fw.buffer.entries < bound 2
    pub bounded : total_size fw.buffer.entries < 2148200000
    pub max_pos : 0 < fw.buffer.max_size
    pub max : fw.buffer.max_size ≤ 524280
    pub block_count : fw.block_count ≡ length blocks % 2 ^ 64
    pub entry_count : fw.entry_count ≡ length (concat blocks) % 2 ^ 64
    pub header_blocks : fw.header.block_count ≡ fw.block_count
    pub header_entries : fw.header.entry_count ≡ fw.entry_count
    pub logged : concat blocks ++ fw.buffer.entries ≡ log

  -- Between two calls the buffer is below its limit.
  pub record Stores (fw : FileWriter) (log : List Entry) : Type 0 where
    pub holds : Holds fw log
    pub room : fw.buffer.current_size < fw.buffer.max_size

  module _ (d : Documented p) (fw : FileWriter) (log : List Entry) (h : Holds fw log) where
    abbrev entries : List Entry
    entries = fw.buffer.entries

    abbrev block_bytes : Bytes
    block_bytes = BlockHeader.serialize (header p entries)

    -- The writer after its buffer was flushed into a block.
    abbrev after : FileWriter
    after =
        write_block (record fw { buffer = cleared fw.buffer }) (header p entries)
          (compressed p entries)

    abbrev new_header : FileHeader
    new_header =
        recount fw.header ((fw.block_count + 1) % 2 ^ 64)
          ((fw.entry_count + length entries % 2 ^ 16) % 2 ^ 64)

    new_header-IsHeader : IsHeader new_header
    new_header-IsHeader = recount-IsHeader fw.header _ _ h.header (omega arith) (omega arith)

    abbrev tail : Bytes
    tail = name ++ encode_blocks p h.blocks

    file-after : after.file ≡ record {
      content = Header.serialize new_header ++ (tail ++ (block_bytes ++ compressed p entries));
      pos = length (Header.serialize new_header ++ (tail ++ (block_bytes ++ compressed p entries)));
    }
    unfolding write_block
    file-after =
        append_and_patch fw.file (Header.serialize fw.header) (Header.serialize new_header) tail
          block_bytes (compressed p entries) h.image h.at_end
          (Header.length-serialize fw.header h.header
            ∙ sym (Header.length-serialize new_header new_header-IsHeader))

    tail-after :
        tail ++ (block_bytes ++ compressed p entries)
        ≡ name ++ encode_blocks p (h.blocks ++ (entries ∷ []))
    tail-after = rw (encode_blocks-append p h.blocks entries) (append_assoc name _ _)

    counted : length (h.blocks ++ (entries ∷ [])) ≡ length h.blocks + 1
    counted = rw length-append

    concat_snoc : (xs : List (List Entry)) → concat (xs ++ (entries ∷ [])) ≡ concat xs ++ entries
    concat_snoc [] = append-nil entries
    concat_snoc (x ∷ xs) = rw (concat_snoc xs) (sym (append_assoc x (concat xs) entries))

    after-Stores : entries ≢ [] → Stores after log
    unfolding write_block
    after-Stores nonempty = record {
      holds = record {
        blocks = h.blocks ++ (entries ∷ []);
        image =
            ap (λ f. f.content) file-after ∙ ap (λ t. Header.serialize new_header ++ t) tail-after;
        at_end = rw file-after;
        header = new_header-IsHeader;
        name_end = data_start_offset-recount fw.header _ _ ∙ h.name_end;
        valid =
            All-append (IsBlock p) h.blocks (entries ∷ []) h.valid
              (IsBlock-of_Storable p d entries nonempty h.storable h.count h.bounded, tt);
        storable = tt;
        size = refl;
        count = omega arith;
        bounded = omega arith;
        max_pos = h.max_pos;
        max = h.max;
        block_count = omega (arith, counted, h.block_count);
        entry_count = omega (
          arith,
          ap (λ (l : List Entry). length l) (concat_snoc h.blocks),
          length-append (concat h.blocks) entries,
          h.entry_count,
          h.count,
        );
        header_blocks = refl;
        header_entries = refl;
        logged = rw append-nil (concat_snoc h.blocks ∙ h.logged);
      };
      room = h.max_pos;
    }

    flush_locked_some : entries ≢ [] → flush_locked p fw ≡ (after, none)
    unfolding flush_locked
    flush_locked_some nonempty = rw (flush_lem p fw.buffer nonempty)

    flush_locked_none : entries ≡ [] → flush_locked p fw ≡ (fw, none)
    unfolding flush_locked Block.flush Block.compress_entries
    flush_locked_none e = rw e

    roomy : entries ≡ [] → Stores fw log
    roomy e = record { holds = h; room = rw (h.size, e) h.max_pos }

-- A call that worked: it gave no error and left a writer that stores `log`.
module _ (p : Packages) (name : Bytes) where
  pub record Works (log : List Entry) (was : Bool) (r : FileWriter × Option Error) : Type 0 where
    pub stores : Stores p name r.0 log
    pub no_error : r.1 ≡ none
    pub closed : r.0.closed ≡ was

  pub record Flushes (log : List Entry) (was : Bool) (r : FileWriter × Option Error) : Type 0 where
    pub works : Works log was r
    pub empty : r.0.buffer.entries ≡ []

List-cases {ℓ} : {A : Type ℓ} (xs : List A) → (xs ≡ []) ⊎ (xs ≢ [])
List-cases [] = inl refl
List-cases (x ∷ xs) = inr (λ e. cc)

pub flush_locked-Flushes :
    (p : Packages) (name : Bytes) (d : Documented p) (fw : FileWriter) (log : List Entry)
    → Holds p name fw log
    → Flushes p name log fw.closed (flush_locked p fw)
flush_locked-Flushes p name d fw log h = elim (List-cases fw.buffer.entries) [
  | inl e ↦ rw (flush_locked_none p name d fw log h e) (record {
    works = record { stores = roomy p name d fw log h e; no_error = refl; closed = refl };
    empty = e;
  })
  | inr e ↦ rw (flush_locked_some p name d fw log h e) (record {
    works = record {
      stores = after-Stores p name d fw log h e;
      no_error = refl;
      closed = unfold write_block in refl;
    };
    empty = unfold write_block in refl;
  })
]
