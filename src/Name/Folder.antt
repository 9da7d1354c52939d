-- ===== src/Name/Folder.antt =====
-- The folder number of a name.
use hydraide.Base.{ℕ, ◌+◌, ◌%◌, ◌^◌, ◌<◌, ◌≤◌, ◌≡◌, refl, true, false, ◌++◌, ◌==◌, arith}
use hydraide.Base.Bytes.{Bytes}
use hydraide.Base.Outcome.{ok}
use hydraide.Name.{Name, get_folder_number}

number_of : (h a : ℕ) → 0 < a → a < 2 ^ 16 → ((h % a) % 2 ^ 16 + 1) % 2 ^ 16 ≡ h % a + 1
number_of h a pos size = let r : h % a < a = grind arith in omega arith

remembered :
    (n : Name) (other : Bytes → ℕ) (folders : ℕ)
    → 0 < n.folder_number
    → get_folder_number other folders n ≡ ok (n, n.folder_number)
unfolding get_folder_number
remembered n other folders h = ground arith

computed :
    (hash : Bytes → ℕ) (a : ℕ) (n : Name)
    → n.folder_number ≡ 0
    → 0 < a
    → a < 2 ^ 16
    → (let number : ℕ = hash (n.sanctuary_id ++ (n.realm_name ++ n.swamp_name)) % a + 1 in
        get_folder_number hash a n ≡ ok (record n { folder_number = number }, number))
unfolding get_folder_number
computed hash a n e pos size =
    let h : ℕ = hash (n.sanctuary_id ++ (n.realm_name ++ n.swamp_name)) in
    let first : (n.folder_number == 0) ≡ true = rw e refl in
    let some_folders : (a == 0) ≡ false = ground arith in
    rw (first, some_folders)
      (λ i. ok (record n { folder_number = number_of h a pos size i }, number_of h a pos size i))

-- Of a name that has no folder number yet, for a positive number of folders that a uint16 can
-- hold, and any hash: the number is one of 1 to that many, the path is kept, and every later call
-- gives the number again, whatever number of folders and hash it is for.
pub get_folder_number_lem :
    (hash : Bytes → ℕ) (all_folders : ℕ) (n : Name)
    → n.folder_number ≡ 0
    → 0 < all_folders
    → all_folders < 2 ^ 16
    → (n' : Name) × (number : ℕ) × (get_folder_number hash all_folders n ≡ ok (n', number))
      × (0 < number)
      × (number ≤ all_folders)
      × (n'.path ≡ n.path)
      × ((other : Bytes → ℕ) (folders : ℕ) → get_folder_number other folders n' ≡ ok (n', number))
unfolding get_folder_number
get_folder_number_lem hash all_folders n e pos size =
    let h : ℕ = hash (n.sanctuary_id ++ (n.realm_name ++ n.swamp_name)) in
    let r : h % all_folders < all_folders = grind arith in
    let n' : Name = record n { folder_number = h % all_folders + 1 } in
    (
      n',
      h % all_folders + 1,
      computed hash all_folders n e pos size,
      omega arith,
      omega arith,
      refl,
      λ other folders. remembered n' other folders (omega arith),
    )
