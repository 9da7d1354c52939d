-- ===== src/Storage/Reader/Blocks.antt =====
-- The loop of `ReadAllEntries` of chronicler/v2/reader.go over whole blocks.
use hydraide.Base.{
  ℕ, zero, suc, ◌+◌, ◌-◌, ◌%◌, ◌^◌, ◌≤◌, ◌<◌, ◌≡◌, refl, sym, ap, ◌∙◌, Bool, true, false, List, [],
  ◌∷◌, ◌++◌, length, take, drop, concat, All, Option, none, arith, length-append, append_assoc,
  append-nil, ltb, ltb-false, take_all, take-append, drop-append,
}
use hydraide.Base.Bytes.{Bytes}
use hydraide.Base.Outcome.{ok}
use hydraide.Compressor.{Packages}
use hydraide.Compressor.RoundTrip.{Documented}
use hydraide.Storage.Errors.{Error}
use hydraide.Storage.BlockHeader
use hydraide.Storage.BlockHeader.{BlockHeader}
use hydraide.Storage.Entry.{Entry}
use hydraide.Storage.Block.{Block, parse_block}
use hydraide.Storage.Block.Image.{
  IsBlock, encode_block, encode_blocks, header, compressed, block_header-IsBlockHeader,
}
use hydraide.Storage.Block.RoundTrip.{parse_block_lem}
use hydraide.Storage.Writer.{read_full}
use hydraide.Storage.Writer.Create.{read_full_at}
use hydraide.Storage.Reader.{read_next_block, process, read_loop, after_block}

abbrev pub finished {ℓ} : {S : Type ℓ} → S × ℕ × Bool → S × ℕ × Option Error
finished (s, total, go_on) = (s, total, none)

module _ {ℓ} {S : Type ℓ} (callback : Entry → S → S × Bool) where
  abbrev pub continue_with : List Entry → S × ℕ × Bool → S × ℕ × Bool
  continue_with ys (s, total, true) = process callback ys s total
  continue_with ys (s, total, false) = (s, total, false)

  pub process-append :
      (xs ys : List Entry) (s : S) (total : ℕ)
      → process callback (xs ++ ys) s total ≡ continue_with ys (process callback xs s total)
  unfolding process
  process-append [] ys s total = refl
  process-append (x ∷ xs) ys s total =
      ground (arith, process-append xs ys (callback x s).0 (total + 1))

module _ (p : Packages) (d : Documented p) where
  module _ (es : List Entry) (v : IsBlock p es) where
    pub header_alone :
        BlockHeader.deserialize (BlockHeader.serialize (header p es)) ≡ ok (header p es)
    header_alone =
        rw append-nil at (
          BlockHeader.block_header_round_trip (header p es) []
            (block_header-IsBlockHeader p es _ _))

    whole_block :
        parse_block p (header p es) (compressed p es)
        ≡ ok (record { header = header p es; entries = es; offset = 0 })
    whole_block =
        let all : take (length es % 2 ^ 16) es ≡ es = take_all _ es (omega (arith, v.count)) in
        parse_block_lem p d es v.fits
        ∙ (λ i. ok (record { header = header p es; entries = all i; offset = 0 }))

    module _ (rest : Bytes) where
      abbrev block_rest : Bytes
      block_rest = BlockHeader.serialize (header p es) ++ (compressed p es ++ rest)

      head_bytes : take 16 block_rest ≡ BlockHeader.serialize (header p es)
      unfolding BlockHeader.serialize
      head_bytes = take-append (BlockHeader.serialize (header p es)) (compressed p es ++ rest)

      tail_bytes : drop 16 block_rest ≡ compressed p es ++ rest
      unfolding BlockHeader.serialize
      tail_bytes = drop-append (BlockHeader.serialize (header p es)) (compressed p es ++ rest)

      enough : ltb (length block_rest) 16 ≡ false
      enough =
          ltb-false _ 16
            (rw length-append (omega (arith, BlockHeader.length-serialize (header p es))))

      payload_bytes :
          read_full (length (compressed p es) % 2 ^ 32) (compressed p es ++ rest)
          ≡ ok (compressed p es, rest)
      payload_bytes = read_full_at _ (compressed p es) rest (omega (arith, v.compressed))

      -- The next block is read whole, and what follows it is left.
      pub read_next_block_lem :
          (offset : ℕ)
          → read_next_block p offset (encode_block p es ++ rest)
            ≡ ok (record { header = header p es; entries = es; offset = offset }, rest)
      unfolding read_next_block
      read_next_block_lem offset =
          rw (append_assoc (BlockHeader.serialize (header p es)) (compressed p es) rest) (
            rw enough
              (rw head_bytes (rw tail_bytes (rw header_alone (rw payload_bytes (rw whole_block))))))

  module _ {ℓ} {S : Type ℓ} (callback : Entry → S → S × Bool) where
    pub block_length : (es : List Entry) → 16 ≤ length (encode_block p es)
    block_length es = rw length-append (omega (arith, BlockHeader.length-serialize (header p es)))

    at_the_end :
        (fuel offset : ℕ) (s : S) (total : ℕ)
        → read_loop p callback (suc fuel) offset [] s total ≡ (s, total, none)
    unfolding read_loop read_next_block
    at_the_end fuel offset s total = refl

    abbrev pub offset_after : ℕ → Bytes → Bytes → ℕ
    offset_after offset rest rest' = offset + (length rest - length rest')

    pub read_loop_block :
        (fuel offset : ℕ) (rest rest' : Bytes) (block : Block) (s : S) (total : ℕ)
        → read_next_block p offset rest ≡ ok (block, rest')
        → read_loop p callback (suc fuel) offset rest s total
          ≡ after_block
              (read_loop p callback fuel (offset_after offset rest rest') rest')
              (process callback block.entries s total)
    unfolding read_loop
    read_loop_block fuel offset rest rest' block s total e = rw (e, read_loop)

    after_all :
        (ys : List Entry) (go : S → ℕ → S × ℕ × Option Error) (r : S × ℕ × Bool)
        → ((s : S) (total : ℕ) → go s total ≡ finished (process callback ys s total))
        → after_block go r ≡ finished (continue_with callback ys r)
    after_all ys go (s, total, true) h = h s total
    after_all ys go (s, total, false) h = refl

    -- Over whole blocks the loop runs the callback over their entries, in order, until it answers
    -- false, and ends with no error.
    pub read_loop_lem :
        (blocks : List (List Entry)) (fuel offset : ℕ) (s : S) (total : ℕ)
        → All (IsBlock p) blocks
        → length (encode_blocks p blocks) < fuel
        → read_loop p callback fuel offset (encode_blocks p blocks) s total
          ≡ finished (process callback (concat blocks) s total)
    read_loop_lem blocks zero offset s total v h = absurd (omega arith)
    read_loop_lem [] (suc fuel) offset s total v h =
        at_the_end fuel offset s total ∙ unfold process in refl
    read_loop_lem (es ∷ blocks) (suc fuel) offset s total (v, vs) h =
        read_loop_block fuel offset (encode_blocks p (es ∷ blocks)) rest _ s total
          (read_next_block_lem es v rest offset)
        ∙ after_all (concat blocks) _ (process callback es s total) (λ s' total'.
          read_loop_lem blocks fuel (offset_after offset (encode_blocks p (es ∷ blocks)) rest) s'
            total' vs shorter)
        ∙ ap finished (sym (process-append callback es (concat blocks) s total))
      where
        rest : Bytes
        rest = encode_blocks p blocks

        shorter : length rest < fuel
        shorter =
            omega
              (arith, length-append (encode_block p es) (encode_blocks p blocks), block_length es)
