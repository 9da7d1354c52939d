-- ===== src/Storage/Compactor/Safety.antt =====
-- The file of the swamp under every outcome of `Compact` of chronicler/v2/compactor.go.
use hydraide.Base.{
  ℕ, ◌≡◌, refl, false, Option, none, some, List, Bool-cases, inl, inr, ap, ◌∙◌, ◌⊎◌, sym,
}
use hydraide.Base.Bytes.{Bytes}
use hydraide.Base.Outcome.{ok, err}
use hydraide.Compressor.{Packages}
use hydraide.Storage.Errors.{Error, Result}
use hydraide.Storage.Writer.{FileWriter}
use hydraide.Storage.Reader.{FileReader, Index, load_index, new_file_reader}
use hydraide.Storage.Fragmentation.{Fragmentation, calculate_fragmentation, ratio_ltb}
use hydraide.Storage.Compactor.{
  Disk, OsCalls, renamed, Compactor, CompactionResult, Answer, replace_main, close_written,
  write_live, rewrite, with_index, with_fragmentation, with_reader, with_file, compact,
  counted_result, sized_result,
}

-- The error is that of `os.Stat` after the rename.
abbrev StatFails : OsCalls → Option Error → Type 0
StatFails os e = (os.rename_error ≡ none) × (x : Error) × (os.stat_error ≡ some x) × (e ≡ some x)

-- A result that says "not compacted" comes with the old file, and an error says so.
-- Or else the file was replaced before `os.Stat` failed.
record IsSafe (os : OsCalls) (disk : Disk) (a : Answer) : Type 0 where
  kept : a.0.compacted ≡ false → (a.2.main ≡ disk.main) ⊎ StatFails os a.1
  error : (e : Error) → a.1 ≡ some e → a.0.compacted ≡ false

some_inj : {a b : CompactionResult} → some a ≡ some b → a ≡ b
some_inj q = cc

module _ (p : Packages) (order : Index → List (Bytes × Bytes)) (os : OsCalls) (now : ℕ)
    (disk : Disk) where
  renamed-IsSafe :
      (rename stat : Option Error) (r : CompactionResult) (content : Bytes)
      → r.compacted ≡ false
      → os.rename_error ≡ rename
      → os.stat_error ≡ stat
      → IsSafe os disk (renamed p rename stat r disk content)
  unfolding renamed
  renamed-IsSafe (some e) stat r content h _ _ = record { kept = λ _. inl refl; error = λ _ _. h }
  renamed-IsSafe none (some e) r content h moved failed = record {
    kept = λ _. inr (moved, e, failed, refl);
    error = λ _ _. h;
  }
  renamed-IsSafe none none r content h _ _ = record { kept = λ q. cc; error = λ e q. cc }

  replace_main-IsSafe :
      (r : CompactionResult) (w : FileWriter × Option Error)
      → r.compacted ≡ false
      → IsSafe os disk (replace_main p os r disk w)
  unfolding replace_main
  replace_main-IsSafe r (fw, some e) h = record { kept = λ _. inl refl; error = λ _ _. h }
  replace_main-IsSafe r (fw, none) h =
      renamed-IsSafe os.rename_error os.stat_error r fw.file.content h refl refl

  rewrite-IsSafe :
      (r : CompactionResult) (size : ℕ) (pairs : List (Bytes × Bytes)) (w : Result FileWriter)
      → r.compacted ≡ false
      → IsSafe os disk (rewrite p os now size r disk pairs w)
  unfolding rewrite
  rewrite-IsSafe r size pairs (err e) h = record { kept = λ _. inl refl; error = λ _ _. h }
  rewrite-IsSafe r size pairs (ok fw) h =
      replace_main-IsSafe r (close_written p (write_live p pairs (fw, none))) h

  with_index-IsSafe :
      (c : Compactor) (r : CompactionResult) (i : Index × Bytes × Option Error)
      → r.compacted ≡ false
      → IsSafe os disk (with_index p order os now c r disk i)
  unfolding with_index
  with_index-IsSafe c r (index, name, some e) h = record { kept = λ _. inl refl; error = λ _ _. h }
  with_index-IsSafe c r (index, name, none) h = rewrite-IsSafe r c.max_block_size _ _ h

  with_fragmentation-IsSafe :
      (c : Compactor) (r : CompactionResult) (fr : FileReader) (f : Fragmentation × Option Error)
      → r.compacted ≡ false
      → IsSafe os disk (with_fragmentation p order os now c r disk fr f)
  unfolding with_fragmentation
  with_fragmentation-IsSafe c r fr (f, some e) h = record { kept = λ _. inl refl; error = λ _ _. h }
  with_fragmentation-IsSafe c r fr (f, none) h = elim (Bool-cases (ratio_ltb f.ratio c.threshold)) [
    | inl below ↦ rw below (record { kept = λ _. inl refl; error = λ e q. cc })
    | inr above ↦ rw above (with_index-IsSafe c (counted_result r f) (load_index p fr) h)
  ]

  with_reader-IsSafe :
      (c : Compactor) (r : CompactionResult) (fr : Result FileReader)
      → r.compacted ≡ false
      → IsSafe os disk (with_reader p order os now c r disk fr)
  unfolding with_reader
  with_reader-IsSafe c r (err e) h = record { kept = λ _. inl refl; error = λ _ _. h }
  with_reader-IsSafe c r (ok fr) h =
      with_fragmentation-IsSafe c r fr (calculate_fragmentation p fr) h

  with_file-IsSafe :
      (c : Compactor) (content : Option Bytes)
      → IsSafe os disk (with_file p order os now c disk content)
  unfolding with_file
  with_file-IsSafe c none = record { kept = λ _. inl refl; error = λ _ _. refl }
  with_file-IsSafe c (some content) =
      with_reader-IsSafe c (sized_result content) (new_file_reader (some content) c.file_path) refl

  same_error :
      (e : Option Error) (x : Error)
      → e ≡ some x
      → StatFails os e
      → (os.rename_error ≡ none) × (os.stat_error ≡ some x)
  same_error e x q (moved, y, failed, given) =
      let same : ◌≡◌ {A = Option Error} (some y) (some x) = sym given ∙ q in (moved, failed ∙ same)

  -- A call of `compact` on any disk, whatever its bytes, and however the rename and the `os.Stat`
  -- after it end: where it answers with an error, or with a result that says "not compacted", the
  -- file is the one that it was, byte for byte, or else the rename succeeded and the error is that
  -- of the `os.Stat`.
  pub compact_keeps_main :
      (c : Compactor)
      → (let (result, e, disk') = compact p order os now c disk in
          ((x : Error)
            → e ≡ some x
            → (disk'.main ≡ disk.main) ⊎ ((os.rename_error ≡ none) × (os.stat_error ≡ some x)))
          × ((r : CompactionResult)
              → result ≡ some r
              → r.compacted ≡ false
              → (disk'.main ≡ disk.main)
                ⊎ ((os.rename_error ≡ none)
                    × (x : Error) × (os.stat_error ≡ some x)
                    × (e ≡ some x))))
  unfolding compact
  compact_keeps_main c =
      let a = with_file p order os now c disk disk.main in
      let s = with_file-IsSafe c disk.main in
      elim (Bool-cases c.is_running) [
        | inl running ↦ simp running (λ x _. inl refl, λ r q _. cc)
        | inr idle ↦ simp idle (
          λ x q. elim (s.kept (s.error x q)) [
            | inl same ↦ inl same
            | inr late ↦ inr (same_error a.1 x q late)
          ],
          λ r q h. s.kept (ap (λ (r : CompactionResult). r.compacted) (some_inj q) ∙ h),
        )
      ]
