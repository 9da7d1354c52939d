-- ===== src/Meta/Tests.antt =====
-- Calls on the metadata of metadata/metadata.go and a restart.
use hydraide.Base.{
  ℕ, zero, suc, ◌≡◌, refl, false, List, [], ◌∷◌, ◌++◌, Option, none, some, length, take, drop,
  take-append, drop-append,
}
use hydraide.Base.Bytes.{Bytes}
use hydraide.Base.Assoc.{bytes_eq, lookup, insert}
use hydraide.Meta.{
  Meta, no_meta, new, get_key, set_key, delete_key, delete_found, set_swamp_name, load_from_file,
  save_to_file, load, decoded, created,
}
use hydraide.Meta.Kept.{Call, sets, deletes, names, saves, restarts, call, run, restart_keeps}

-- A codec that writes the length of a text before it.
abbrev put_time : Option ℕ → Bytes → Bytes
put_time none bs = 0 ∷ bs
put_time (some t) bs = 1 ∷ (t ∷ bs)

abbrev put_pairs : List (Bytes × Bytes) → Bytes
put_pairs [] = []
put_pairs ((k, v) ∷ pairs) = length k ∷ (k ++ (length v ∷ (v ++ put_pairs pairs)))

abbrev encoded : Meta → Bytes
encoded m = put_time m.created_at (
    put_time m.updated_at (
      length m.key_value_pairs
      ∷ (length m.swamp_name ∷ (m.swamp_name ++ put_pairs m.key_value_pairs))))

abbrev get_text : Bytes → Bytes × Bytes
get_text [] = ([], [])
get_text (n ∷ bs) = (take n bs, drop n bs)

abbrev get_time : Bytes → Option ℕ × Bytes
get_time (suc n ∷ (t ∷ bs)) = (some t, bs)
get_time (n ∷ bs) = (none, bs)
get_time [] = (none, [])

abbrev get_pairs : ℕ → Bytes → List (Bytes × Bytes)
get_pairs zero bs = []
get_pairs (suc n) bs =
    let key = get_text bs in let value = get_text key.1 in (key.0, value.0) ∷ get_pairs n value.1

abbrev count_of : Bytes → ℕ
count_of [] = 0
count_of (n ∷ bs) = n

abbrev read_meta : Bytes → Meta
read_meta bs =
    let created = get_time bs in
    let updated = get_time created.1 in
    let name = get_text (drop 1 updated.1) in
    record {
      swamp_name = name.0;
      created_at = created.0;
      updated_at = updated.0;
      key_value_pairs = get_pairs (count_of updated.1) name.1;
    }

abbrev read : Bytes → Meta → Option Meta
read bs m = some (read_meta bs)

get-put_time : (o : Option ℕ) (bs : Bytes) → get_time (put_time o bs) ≡ (o, bs)
get-put_time none bs = refl
get-put_time (some t) bs = refl

get-put_text : (xs bs : Bytes) → get_text (length xs ∷ (xs ++ bs)) ≡ (xs, bs)
get-put_text xs bs = rw (take-append xs bs, drop-append xs bs) refl

get-put_pairs : (pairs : List (Bytes × Bytes)) → get_pairs (length pairs) (put_pairs pairs) ≡ pairs
get-put_pairs [] = refl
get-put_pairs ((k, v) ∷ pairs) =
    rw
      (
        take-append k (length v ∷ (v ++ put_pairs pairs)),
        drop-append k (length v ∷ (v ++ put_pairs pairs)),
        take-append v (put_pairs pairs),
        drop-append v (put_pairs pairs),
        get-put_pairs pairs,
      )
      refl

read-encoded : (m : Meta) → read (encoded m) no_meta ≡ some m
read-encoded m =
    let body =
      length m.key_value_pairs
      ∷ (length m.swamp_name ∷ (m.swamp_name ++ put_pairs m.key_value_pairs)) in
    rw
      (
        get-put_time m.created_at (put_time m.updated_at body),
        get-put_time m.updated_at body,
        take-append m.swamp_name (put_pairs m.key_value_pairs),
        drop-append m.swamp_name (put_pairs m.key_value_pairs),
        get-put_pairs m.key_value_pairs,
      )
      refl

abbrev calls : List Call
calls =
    names (b's' ∷ [])
    ∷ (sets (b'k' ∷ []) (b'v' ∷ [])
        ∷ (saves ∷ (restarts 5 ∷ (sets (b'k' ∷ []) (b'v' ∷ []) ∷ (deletes (b'j' ∷ []) ∷ [])))))

enabled : (run encoded read calls (new, none)).0.file_persist_disabled ≡ false
unfolding run call new set_key delete_key delete_found set_swamp_name load_from_file save_to_file
    load decoded created bytes_eq lookup insert
enabled = refl

restart_keeps_example :
    (let (m, file) = run encoded read calls (new, none) in
      let m' = load_from_file encoded read 9 (save_to_file encoded read m file) new in
      (m'.meta.swamp_name ≡ m.meta.swamp_name) × ((key : Bytes) → get_key key m' ≡ get_key key m))
restart_keeps_example = restart_keeps encoded read read-encoded calls 9 enabled
