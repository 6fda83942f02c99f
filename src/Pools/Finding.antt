-- ===== src/Pools/Finding.antt =====
-- Which directories are listed, and which one the search for a volume finds.
use hostpath_provisioner.Base.{
  ◌≡◌, ◌≢◌, refl, sym, ap, ◌∙◌, ◌⊎◌, inl, inr, false, List, [], ◌∷◌, ◌++◌, Text, text_leb,
  text_beq_iff, ◌==◌, text_eq, is_empty, arith, ok, if◌then◌else◌, Bool-cases, Result-cases, ℕ, suc,
  ◌+◌, ◌<◌, pos, negsuc, get_elem?, some, length,
}
use mathlib.Core.Path.{subst}
use hostpath_provisioner.Base.Dict.{Dict}
use hostpath_provisioner.FilePath.{join, base, dir, clean}
use hostpath_provisioner.FilePath.Words.{IsName}
use hostpath_provisioner.FilePath.Join.{base-join, dir-join, join-clean}
use hostpath_provisioner.Os.{Os, DirEntry, StoragePoolInfo}
use hostpath_provisioner.Os.Laws.{IsLawful, AllNames}
use hostpath_provisioner.Pools.{
  insert_sorted, sort_strings, entry_directories, collect_directories,
  get_storage_pool_data_directories, find_volume_from, find_volume, index_from,
  index_of_starting_token,
}
use hostpath_provisioner.Pools.Sorting.{collect_directories_inv}

-- The path of every pool is set.
abbrev pub AllPaths : Dict StoragePoolInfo → Type 0
AllPaths [] = Unit {0}
AllPaths ((k, info) ∷ pools) = (is_empty info.path ≡ false) × AllPaths pools

-- A directory right below a path that is set.
pub record IsVolumeDir (d : Text) : Type 0 where
  pub pool : Text
  pub name : Text
  pub pool_set : is_empty pool ≡ false
  pub named : IsName name
  pub joined : join (pool ∷ name ∷ []) ≡ d

abbrev pub All {ℓ} : (Text → Type ℓ) → List Text → Type ℓ
All P [] = Unit
All P (x ∷ xs) = P x × All P xs

module _ {ℓ} (P : Text → Type ℓ) where
  pub All-append : (xs ys : List Text) → All P xs → All P ys → All P (xs ++ ys)
  All-append [] ys _ h = h
  All-append (x ∷ xs) ys (p, h) k = (p, All-append xs ys h k)

  All-insert_sorted : (x : Text) (l : List Text) → P x → All P l → All P (insert_sorted x l)
  unfolding insert_sorted
  All-insert_sorted x [] p _ = (p, tt)
  All-insert_sorted x (y ∷ l) p (q, h) = elim (Bool-cases (text_leb x y)) [
    | inl e ↦ rw e (p, (q, h))
    | inr e ↦ rw e (q, All-insert_sorted x l p h)
  ]

  pub All-sort_strings : (l : List Text) → All P l → All P (sort_strings l)
  unfolding sort_strings
  All-sort_strings [] _ = tt
  All-sort_strings (x ∷ l) (p, h) = All-insert_sorted x (sort_strings l) p (All-sort_strings l h)

entry_directories-IsVolumeDir :
    (path : Text) (files : List DirEntry)
    → is_empty path ≡ false
    → AllNames files
    → All IsVolumeDir (entry_directories path files)
unfolding entry_directories
entry_directories-IsVolumeDir path [] h _ = tt
entry_directories-IsVolumeDir path (f ∷ files) h (n, k) = elim (Bool-cases f.is_dir) [
  | inl e ↦ rw e (
    record { pool = path; name = f.name; pool_set = h; named = n; joined = refl },
    entry_directories-IsVolumeDir path files h k,
  )
  | inr e ↦ rw e (entry_directories-IsVolumeDir path files h k)
]

-- The directory that is removed for a found volume is the one that was found.
pub join-dir : (d id : Text) → IsVolumeDir d → base d ≡ id → join (dir d ∷ id ∷ []) ≡ d
join-dir d id v h =
    let b : v.name ≡ id = sym (base-join v.pool v.name v.pool_set v.named) ∙ ap base v.joined ∙ h in
    let e : dir d ≡ clean v.pool =
      ap dir (sym v.joined) ∙ dir-join v.pool v.name v.pool_set v.named in
    rw (e, ← b) (join-clean v.pool v.name v.pool_set v.named ∙ v.joined)

find_volume_from_inv :
    (P : Text → Type 0) (found : Text) (dirs : List Text) (id : Text)
    → All P dirs
    → (is_empty found ≡ false → P found × (base found ≡ id))
    → is_empty (find_volume_from found dirs id) ≡ false
    → P (find_volume_from found dirs id) × (base (find_volume_from found dirs id) ≡ id)
unfolding find_volume_from
find_volume_from_inv P found [] id _ h k = h k
find_volume_from_inv P found (d ∷ dirs) id (p, ps) h k =
    find_volume_from_inv P (if base d == id then d else found) dirs id ps
      (λ e. elim (Bool-cases (base d == id)) [
        | inl same ↦ rw same (p, (text_beq_iff (base d) id).0 same)
        | inr other ↦ rw other (h (rw other at e))
      ])
      k

-- What the search finds is one of the directories, and has the id as its last element.
pub find_volume_inv :
    (P : Text → Type 0) (dirs : List Text) (id : Text)
    → All P dirs
    → is_empty (find_volume dirs id) ≡ false
    → P (find_volume dirs id) × (base (find_volume dirs id) ≡ id)
unfolding find_volume
find_volume_inv P dirs id ps k = find_volume_from_inv P [] dirs id ps (λ h. absurd (ground arith)) k

abbrev pub NotNamed : Text → Text → Type 0
NotNamed id d = base d ≢ id

find_volume_from_absent :
    (found : Text) (dirs : List Text) (id : Text)
    → All (NotNamed id) dirs
    → find_volume_from found dirs id ≡ found
unfolding find_volume_from
find_volume_from_absent found [] id _ = refl
find_volume_from_absent found (d ∷ dirs) id (n, ns) =
    ground (arith, text_beq_iff (base d) id, find_volume_from_absent found dirs id ns)

pub find_volume_absent :
    (dirs : List Text) (id : Text) → All (NotNamed id) dirs → find_volume dirs id ≡ []
unfolding find_volume
find_volume_absent dirs id ns = find_volume_from_absent [] dirs id ns

module _ (O : Os) (L : IsLawful O) where
  collect_directories-IsVolumeDir :
      (pools : Dict StoragePoolInfo) (s : O.State) (ds : List Text)
      → AllPaths pools
      → collect_directories O pools s ≡ ok ds
      → All IsVolumeDir ds
  unfolding collect_directories
  collect_directories-IsVolumeDir [] s ds _ h =
      let e : ◌≡◌ {A = List Text} [] ds = ground arith in subst (All IsVolumeDir) e tt
  collect_directories-IsVolumeDir ((k, info) ∷ pools) s ds (path, paths) h =
      let (files, rest, read, collected, split) = collect_directories_inv O k info pools s ds h in
      rw split (
        All-append IsVolumeDir (entry_directories info.path files) rest
          (entry_directories-IsVolumeDir info.path files path
            (L.read_dir-AllNames info.path s files read))
          (collect_directories-IsVolumeDir pools s rest paths collected))

  -- Every directory that is listed lies right below the path of a pool.
  pub directories-IsVolumeDir :
      (pools : Dict StoragePoolInfo) (s : O.State) (ds : List Text)
      → AllPaths pools
      → get_storage_pool_data_directories O pools s ≡ ok ds
      → All IsVolumeDir ds
  unfolding get_storage_pool_data_directories
  directories-IsVolumeDir pools s ds paths h = elim (Result-cases (collect_directories O pools s)) [
    | inr (e, p) ↦ absurd (ground arith)
    | inl (found, p) ↦
        let e : sort_strings found ≡ ds = ground arith in
        subst (All IsVolumeDir) e (
          All-sort_strings IsVolumeDir found
            (collect_directories-IsVolumeDir pools s found paths p))
  ]

-- The index of a token is -1, or that of an element with that last part.
index_from_bounds :
    (i : ℕ) (value : Text) (list : List Text)
    → (index_from i value list ≡ negsuc 0)
      ⊎ ((j : ℕ) × (d : Text) × (index_from i value list ≡ pos (i + j))
          × (get_elem? list j ≡ some d)
          × (j < length list)
          × (base d ≡ value))
unfolding index_from
index_from_bounds i value [] = inl refl
index_from_bounds i value (d ∷ list) = elim (Bool-cases (base d == value)) [
  | inl e ↦
      inr (0, d, rw e (ap pos (omega arith)), refl, omega arith, (text_beq_iff (base d) value).0 e)
  | inr e ↦ elim (index_from_bounds (i + 1) value list) [
    | inl h ↦ inl (rw (e, h) refl)
    | inr (j, x, h, k, l, m) ↦ inr (suc j, x, rw e (h ∙ ap pos (omega arith)), k, omega arith, m)
  ]
]

pub index_of_starting_token_bounds :
    (value : Text) (list : List Text)
    → (index_of_starting_token value list ≡ negsuc 0)
      ⊎ ((j : ℕ) × (d : Text) × (index_of_starting_token value list ≡ pos j)
          × (get_elem? list j ≡ some d)
          × (j < length list)
          × (base d ≡ value))
unfolding index_of_starting_token
index_of_starting_token_bounds value list = elim (index_from_bounds 0 value list) [
  | inl h ↦ inl h
  | inr (j, d, h, k, l, m) ↦ inr (j, d, h ∙ ap pos (omega arith), k, l, m)
]
