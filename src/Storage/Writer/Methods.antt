-- ===== src/Storage/Writer/Methods.antt =====
-- `WriteEntry`, `WriteEntries` and `Flush` of chronicler/v2/writer.go on an open writer.
use hydraide.Base.{
  ◌≡◌, refl, sym, ap, ◌∙◌, false, List, [], ◌∷◌, ◌++◌, concat, All, All-append, none, arith,
  length-append, append_assoc, append-nil, leb→lt, Bool-cases, inl, inr,
}
use mathlib.Core.Path.{subst}
use hydraide.Base.Bytes.{Bytes}
use hydraide.Compressor.{Packages}
use hydraide.Compressor.RoundTrip.{Documented}
use hydraide.Storage.Entry.{Entry}
use hydraide.Storage.Block
use hydraide.Storage.Block.{WriteBuffer, should_flush}
use hydraide.Storage.Block.Image.{Storable, total_size-append, count-le-size}
use hydraide.Storage.Writer.{
  FileWriter, add_and_flush, write_entry, write_loop, write_entries, flush,
}
use hydraide.Storage.Writer.Log.{Holds, Stores, Works, Flushes, flush_locked-Flushes}

module _ (p : Packages) (name : Bytes) where
  -- The buffer with one more entry holds the longer log, whether or not it must be flushed.
  add-Holds :
      (fw : FileWriter) (log : List Entry) (e : Entry)
      → Stores p name fw log
      → Storable e
      → Holds p name (record fw { buffer = (Block.add fw.buffer e).0 }) (log ++ (e ∷ []))
  unfolding Block.add
  add-Holds fw log e s st = record {
    blocks = h.blocks;
    image = h.image;
    at_end = h.at_end;
    header = h.header;
    name_end = h.name_end;
    valid = h.valid;
    storable = All-append Storable fw.buffer.entries (e ∷ []) h.storable (st, tt);
    size = omega (arith, total_size-append fw.buffer.entries e, h.size);
    count = omega (
      arith,
      length-append fw.buffer.entries (e ∷ []),
      count-le-size fw.buffer.entries h.storable,
      s.room,
      h.max,
      h.size,
    );
    bounded = omega (
      arith,
      total_size-append fw.buffer.entries e,
      st.payload,
      st.fits.key,
      s.room,
      h.max,
      h.size,
    );
    max_pos = h.max_pos;
    max = h.max;
    block_count = h.block_count;
    entry_count = h.entry_count;
    header_blocks = h.header_blocks;
    header_entries = h.header_entries;
    logged =
        sym (append_assoc (concat h.blocks) fw.buffer.entries (e ∷ []))
        ∙ ap (λ l. l ++ (e ∷ [])) h.logged;
  }
    where
      h : Holds p name fw log
      h = s.holds

  module _ (d : Documented p) where
    add_and_flush-Works :
        (fw : FileWriter) (log : List Entry) (e : Entry)
        → Stores p name fw log
        → Storable e
        → Works p name (log ++ (e ∷ [])) fw.closed (add_and_flush p fw (Block.add fw.buffer e))
    unfolding add_and_flush Block.add
    add_and_flush-Works fw log e s st = elim (Bool-cases (should_flush (Block.add fw.buffer e).0)) [
      | inl full ↦
          rw full
            (flush_locked-Flushes p name d _ (log ++ (e ∷ [])) (add-Holds fw log e s st)).works
      | inr room ↦ rw room (record {
        stores = record { holds = add-Holds fw log e s st; room = leb→lt _ _ room };
        no_error = refl;
        closed = refl;
      })
    ]

    write_loop-Works :
        (es : List Entry) (fw : FileWriter) (log : List Entry)
        → Stores p name fw log
        → All Storable es
        → Works p name (log ++ es) fw.closed (write_loop p es (fw, none))
    unfolding write_loop
    write_loop-Works [] fw log s st =
        rw append-nil (record { stores = s; no_error = refl; closed = refl })
    write_loop-Works (e ∷ es) fw log s (st, sts) =
        let w = add_and_flush-Works fw log e s st in
        let next : FileWriter = (add_and_flush p fw (Block.add fw.buffer e)).0 in
        let no_error : add_and_flush p fw (Block.add fw.buffer e) ≡ (next, none) =
          λ i. (next, w.no_error i) in
        let rest = write_loop-Works es next (log ++ (e ∷ [])) w.stores sts in
        rw (no_error, ← append_assoc log (e ∷ []) es)
          (subst (λ b. Works p name ((log ++ (e ∷ [])) ++ es) b (write_loop p es (next, none)))
            w.closed rest)

    module _ (fw : FileWriter) (log : List Entry) (s : Stores p name fw log)
        (is_open : fw.closed ≡ false) where
      -- `write_entry` appends its entry to the log.
      pub write_entry-Works :
          (e : Entry) → Storable e → Works p name (log ++ (e ∷ [])) false (write_entry p fw e)
      unfolding write_entry
      write_entry-Works e st = rw is_open (rw is_open at (add_and_flush-Works fw log e s st))

      -- With packages that work as documented, `write_entries` on an open writer that stores a log
      -- appends its storable entries to the log, in their order: no error, and a writer that is
      -- open and stores the longer log.
      pub write_entries-Works :
          (es : List Entry)
          → All Storable es
          → Works p name (log ++ es) false (write_entries p fw es)
      unfolding write_entries
      write_entries-Works es st = rw is_open (rw is_open at (write_loop-Works es fw log s st))

      -- `flush` empties the buffer into the file, and keeps the log.
      pub flush-Flushes : Flushes p name log false (flush p fw)
      unfolding flush
      flush-Flushes = rw is_open (rw is_open at (flush_locked-Flushes p name d fw log s.holds))
