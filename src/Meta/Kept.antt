-- ===== src/Meta/Kept.antt =====
-- What the file of metadata/metadata.go keeps.
use hydraide.Base.{
  ℕ, ◌≡◌, refl, ◌∙◌, ap, Bool, true, false, not, ◌||◌, List, [], ◌∷◌, Option, none, some,
  if◌then◌else◌, is_nil, inl, inr, Bool-cases,
}
use hydraide.Base.Bytes.{Bytes}
use hydraide.Base.Assoc.{bytes_eq, lookup, insert}
use hydraide.Meta.{
  Meta, Metadata, no_meta, or_nothing, new, get_key, set_key, same_value, delete_key, delete_found,
  set_swamp_name, set_updated_at, disable_file_persistence, destroy, decoded, load, load_from_file,
  save_to_file,
}

-- A call on the metadata of a path, or a restart, which makes and loads them anew.
pub data Call : Type 0 where
  sets : Bytes → Bytes → Call
  deletes names : Bytes → Call
  updates restarts : ℕ → Call
  saves disables destroys : Call

module _ (encode : Meta → Bytes) (decode : Bytes → Meta → Option Meta) where
  unfoldable pub call : Call → Metadata × Option Bytes → Metadata × Option Bytes
  call (sets key value) (m, file) = (set_key key value m, file)
  call (deletes key) (m, file) = (delete_key key m, file)
  call (names name) (m, file) = (set_swamp_name name m, file)
  call (updates now) (m, file) = (set_updated_at now m, file)
  call (restarts now) (m, file) = (load_from_file encode decode now file new, file)
  call saves (m, file) = (m, save_to_file encode decode m file)
  call disables (m, file) = (disable_file_persistence m, file)
  call destroys (m, file) = destroy m

  unfoldable pub run : List Call → Metadata × Option Bytes → Metadata × Option Bytes
  run [] s = s
  run (c ∷ calls) s = run calls (call c s)

  -- The parts of the metadata that callers set.
  abbrev pub parts : Meta → Bytes × List (Bytes × Bytes)
  parts meta = (meta.swamp_name, meta.key_value_pairs)

  -- The parts that a load of the file gives.
  abbrev content : Option Bytes → Bytes × List (Bytes × Bytes)
  content file = parts (load encode decode file new).meta

  -- What is not marked as modified is in the file.
  abbrev Kept : Metadata → Option Bytes → Type 0
  Kept m file = m.is_modified ≡ false → content file ≡ parts m.meta

  modified-Kept : (m : Metadata) (file : Option Bytes) → m.is_modified ≡ true → Kept m file
  modified-Kept m file e = λ no. cc

  if-Kept :
      (b : Bool) (m m' : Metadata) (file : Option Bytes)
      → Kept m file
      → Kept m' file
      → Kept (if b then m else m') file
  if-Kept true m m' file h h' = h
  if-Kept false m m' file h h' = h'

  delete_key-Kept :
      (o : Option Bytes) (key : Bytes) (m : Metadata) (file : Option Bytes)
      → Kept m file
      → Kept (delete_found o key m) file
  unfolding delete_found
  delete_key-Kept none key m file h = h
  delete_key-Kept (some v) key m file h = modified-Kept (delete_found (some v) key m) file refl

  -- After a save the file holds the metadata, and it still does what it did.
  save-content :
      ((meta : Meta) → decode (encode meta) no_meta ≡ some meta)
      → (m : Metadata) (file : Option Bytes) → m.file_persist_disabled ≡ false
      → Kept m file
      → content (save_to_file encode decode m file) ≡ parts m.meta
  unfolding save_to_file load new decoded
  save-content gob m file enabled h = elim (Bool-cases m.is_modified) [
    | inl e ↦ rw (enabled, e, gob m.meta) refl
    | inr e ↦ rw (enabled, e) (h e)
  ]

  save-Kept :
      ((meta : Meta) → decode (encode meta) no_meta ≡ some meta)
      → (m : Metadata) (file : Option Bytes) → Kept m file
      → Kept m (save_to_file encode decode m file)
  save-Kept gob m file h = λ e. elim (Bool-cases m.file_persist_disabled) [
    | inl off ↦ unfold save_to_file in rw off (h e)
    | inr on ↦ save-content gob m file on h
  ]

  call-Kept :
      ((meta : Meta) → decode (encode meta) no_meta ≡ some meta)
      → (c : Call) (m : Metadata) (file : Option Bytes) → Kept m file
      → Kept (call c (m, file)).0 (call c (m, file)).1
  unfolding call set_key delete_key set_swamp_name set_updated_at disable_file_persistence destroy
      load_from_file load new
  call-Kept gob (sets key value) m file h =
      if-Kept (same_value value (lookup key m.meta.key_value_pairs)) m
        (record m {
          meta = record m.meta { key_value_pairs = insert key value m.meta.key_value_pairs };
          is_modified = true;
        })
        file h (λ no. cc)
  call-Kept gob (deletes key) m file h =
      delete_key-Kept (lookup key m.meta.key_value_pairs) key m file h
  call-Kept gob (names name) m file h =
      if-Kept (is_nil m.meta.swamp_name || not (bytes_eq m.meta.swamp_name name))
        (record m { meta = record m.meta { swamp_name = name }; is_modified = true }) m file
        (λ no. cc) h
  call-Kept gob (updates now) m file h = λ no. cc
  call-Kept gob (restarts now) m none h = λ e. refl
  call-Kept gob (restarts now) m (some bytes) h = λ e. refl
  call-Kept gob saves m file h = save-Kept gob m file h
  call-Kept gob disables m file h = h
  call-Kept gob destroys m file h = λ e. refl

  run-Kept :
      ((meta : Meta) → decode (encode meta) no_meta ≡ some meta)
      → (calls : List Call) (m : Metadata) (file : Option Bytes) → Kept m file
      → Kept (run calls (m, file)).0 (run calls (m, file)).1
  unfolding run
  run-Kept gob [] m file h = h
  run-Kept gob (c ∷ calls) m file h =
      run-Kept gob calls (call c (m, file)).0 (call c (m, file)).1 (call-Kept gob c m file h)

  load_from_file-parts :
      (now : ℕ) (file : Option Bytes)
      → parts (load_from_file encode decode now file new).meta ≡ content file
  unfolding load_from_file load
  load_from_file-parts now none = refl
  load_from_file-parts now (some bytes) = refl

  -- With a codec that reads back what it wrote: after any calls and restarts, in any order, on the
  -- metadata of a path that had no file, if they may be saved, a save and then a restart give the
  -- swamp's name and the value of every key as they were, whether the save wrote the file or not.
  pub restart_keeps :
      ((meta : Meta) → decode (encode meta) no_meta ≡ some meta)
      → (calls : List Call) (now : ℕ) → (run calls (new, none)).0.file_persist_disabled ≡ false
      → (let (m, file) = run calls (new, none) in
          let m' = load_from_file encode decode now (save_to_file encode decode m file) new in
          (m'.meta.swamp_name ≡ m.meta.swamp_name)
          × ((key : Bytes) → get_key key m' ≡ get_key key m))
  unfolding get_key new load
  restart_keeps gob calls now enabled =
      let s = run calls (new, none) in
      let kept : Kept s.0 s.1 = run-Kept gob calls new none (λ e. refl) in
      let eq =
        load_from_file-parts now (save_to_file encode decode s.0 s.1)
        ∙ save-content gob s.0 s.1 enabled kept in
      (ap (λ p. p.0) eq, λ key. ap (λ p. or_nothing (lookup key p.1)) eq)
