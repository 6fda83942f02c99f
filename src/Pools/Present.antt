-- ===== src/Pools/Present.antt =====
-- A directory that was made is listed, and found by its name.
use hostpath_provisioner.Base.{
  ℕ, suc, contains, get_elem?, err, Error, is_not_exist, ◌≡◌, refl, ap, ◌∙◌, ◌⊎◌, inl, inr, Bool,
  true, false, ◌||◌, List, [], ◌∷◌, ◌++◌, some, Text, bytes, text_beq_iff, ◌==◌, text_eq, is_empty,
  arith, ok, Bool-cases, Result-cases,
}
use hostpath_provisioner.Base.Dict.{Dict, lookup}
use hostpath_provisioner.FilePath.{join, base, clean}
use hostpath_provisioner.FilePath.Words.{IsName}
use hostpath_provisioner.FilePath.Join.{base-join}
use hostpath_provisioner.Os.{Os, DirEntry, StoragePoolInfo}
use hostpath_provisioner.Os.Laws.{IsLawful, has_directory}
use hostpath_provisioner.Pools.{
  insert_sorted, sort_strings, entry_directories, collect_directories,
  get_storage_pool_data_directories, find_volume_from, find_volume,
}
use hostpath_provisioner.Pools.Sorting.{collect_directories_inv}

contains-append :
    (d : Text) (xs ys : List Text) → contains (xs ++ ys) d ≡ (contains xs d || contains ys d)
unfolding contains
contains-append d [] ys = refl
contains-append d (x ∷ xs) ys = ground (arith, contains-append d xs ys)

contains-insert_sorted :
    (d x : Text) (l : List Text) → contains (insert_sorted x l) d ≡ contains (x ∷ l) d
unfolding contains insert_sorted
contains-insert_sorted d x [] = refl
contains-insert_sorted d x (y ∷ l) = ground (arith, contains-insert_sorted d x l)

contains-sort_strings : (d : Text) (l : List Text) → contains (sort_strings l) d ≡ contains l d
unfolding contains sort_strings
contains-sort_strings d [] = refl
contains-sort_strings d (x ∷ l) =
    contains-insert_sorted d x (sort_strings l)
    ∙ ap (λ (b : Bool). x == d || b) (contains-sort_strings d l)

contains-entry_directories :
    (id path : Text) (files : List DirEntry)
    → has_directory id files ≡ true
    → contains (entry_directories path files) (join (path ∷ id ∷ [])) ≡ true
unfolding contains entry_directories has_directory
contains-entry_directories id path [] k = k
contains-entry_directories id path (f ∷ files) k = ground (
  arith,
  text_beq_iff f.name id,
  text_beq_iff (join (path ∷ id ∷ [])) (join (path ∷ id ∷ [])),
  contains-entry_directories id path files,
)

-- An element that is in a list stands at some place of it.
pub contains-get_elem? :
    (d : Text) (ds : List Text) → contains ds d ≡ true → (j : ℕ) × (get_elem? ds j ≡ some d)
unfolding contains
contains-get_elem? d [] h = absurd (ground arith)
contains-get_elem? d (x ∷ ds) h = elim (Bool-cases (x == d)) [
  | inl e ↦ (0, ap some ((text_beq_iff x d).0 e))
  | inr e ↦ let (j, found) = contains-get_elem? d ds (ground arith) in (suc j, found)
]

not_empty : (d id : Text) → IsName id → base d ≡ id → is_empty d ≡ false
unfolding base
not_empty [] id n h = absurd (let q = n.word.not_dot in ground (arith, text_beq_iff id (bytes ".")))
not_empty (c ∷ d) id n h = refl

find_volume_from_named :
    (found : Text) (ds : List Text) (id : Text)
    → IsName id
    → (is_empty found ≡ false) ⊎ ((d : Text) × (contains ds d ≡ true) × (base d ≡ id))
    → is_empty (find_volume_from found ds id) ≡ false
unfolding find_volume_from contains
find_volume_from_named found [] id n (inl h) = h
find_volume_from_named found [] id n (inr (x, h, k)) = absurd (ground arith)
find_volume_from_named found (d ∷ ds) id n h = elim (Bool-cases (base d == id)) [
  | inl e ↦
      rw e
        (find_volume_from_named d ds id n (inl (not_empty d id n ((text_beq_iff (base d) id).0 e))))
  | inr e ↦ rw e (
      find_volume_from_named found ds id n (elim h [
        | inl k ↦ inl k
        | inr (x, there, k) ↦ inr (x, ground (arith, text_beq_iff d x, text_beq_iff (base d) id), k)
      ]))
]

find_volume_named :
    (ds : List Text) (d id : Text)
    → IsName id
    → contains ds d ≡ true
    → base d ≡ id
    → is_empty (find_volume ds id) ≡ false
unfolding find_volume
find_volume_named ds d id n h k = find_volume_from_named [] ds id n (inr (d, h, k))

module _ (O : Os) (L : IsLawful O) where
  collect_directories-mkdir_all :
      (pools : Dict StoragePoolInfo) (p : Text) (s s' : O.State) (ds : List Text)
      → O.mkdir_all p 0o777 s ≡ (ok tt, s')
      → collect_directories O pools s ≡ ok ds
      → (ds' : List Text) × (collect_directories O pools s' ≡ ok ds')
  unfolding collect_directories
  collect_directories-mkdir_all [] p s s' ds h k = ([], refl)
  collect_directories-mkdir_all ((j, info) ∷ pools) p s s' ds h k =
      let (files, rest, files_read, collected, split) =
        collect_directories_inv O j info pools s ds k in
      let (files', files_read') = L.read_dir-mkdir_all p info.path 0o777 s s' files h files_read in
      let (rest', collected') = collect_directories-mkdir_all pools p s s' rest h collected in
      (entry_directories info.path files' ++ rest', ground arith)

  contains-collect_directories :
      (pools : Dict StoragePoolInfo) (k id : Text) (pool : StoragePoolInfo) (s s' : O.State)
      (ds : List Text) (x : Error)
      → lookup k pools ≡ some pool
      → is_empty pool.path ≡ false
      → clean pool.path ≡ pool.path
      → IsName id
      → O.stat (join (pool.path ∷ id ∷ [])) s ≡ err x
      → is_not_exist x ≡ true
      → O.mkdir_all (join (pool.path ∷ id ∷ [])) 0o777 s ≡ (ok tt, s')
      → collect_directories O pools s' ≡ ok ds
      → contains ds (join (pool.path ∷ id ∷ [])) ≡ true
  unfolding lookup
  contains-collect_directories [] k id pool s s' ds x found path c n gone new made h =
      absurd (ground arith)
  contains-collect_directories ((j, info) ∷ pools) k id pool s s' ds x found path c n gone new made
        h =
      let (files, rest, files_read, collected, split) =
        collect_directories_inv O j info pools s' ds h in
      let target = join (pool.path ∷ id ∷ []) in
      elim (Bool-cases (j == k)) [
        | inl e ↦
            let same : info ≡ pool = ground arith in
            let listed =
              L.read_dir-mkdir_all_new pool.path id 0o777 s s' files x path c n gone new made
                (rw (← same) files_read) in
            let named = contains-entry_directories id pool.path files listed in
            rw (split, contains-append target (entry_directories info.path files) rest)
              (ground arith)
        | inr e ↦
            let named =
              contains-collect_directories pools k id pool s s' rest x (ground arith) path c n gone
                new made collected in
            rw (split, contains-append target (entry_directories info.path files) rest, named)
              (ground arith)
      ]

  -- A directory that is made in a pool is listed, and a search for its name finds something.
  pub find_volume-mkdir_all :
      (pools : Dict StoragePoolInfo) (k id : Text) (pool : StoragePoolInfo) (s s' : O.State)
      (ds : List Text) (x : Error)
      → lookup k pools ≡ some pool
      → is_empty pool.path ≡ false
      → clean pool.path ≡ pool.path
      → IsName id
      → O.stat (join (pool.path ∷ id ∷ [])) s ≡ err x
      → is_not_exist x ≡ true
      → O.mkdir_all (join (pool.path ∷ id ∷ [])) 0o777 s ≡ (ok tt, s')
      → get_storage_pool_data_directories O pools s ≡ ok ds
      → (ds' : List Text) × (get_storage_pool_data_directories O pools s' ≡ ok ds')
        × (contains ds' (join (pool.path ∷ id ∷ [])) ≡ true)
        × (is_empty (find_volume ds' id) ≡ false)
  unfolding get_storage_pool_data_directories
  find_volume-mkdir_all pools k id pool s s' ds x found path c n gone new made h =
      elim (Result-cases (collect_directories O pools s)) [
        | inr (e, p) ↦ absurd (ground arith)
        | inl (old, p) ↦
            let target = join (pool.path ∷ id ∷ []) in
            let (now, collected) = collect_directories-mkdir_all pools target s s' old made p in
            let named =
              contains-collect_directories pools k id pool s s' now x found path c n gone new made
                collected in
            let listed = contains-sort_strings target now ∙ named in
            (
              sort_strings now,
              ground arith,
              listed,
              find_volume_named (sort_strings now) target id n listed
                  (base-join pool.path id path n),
            )
      ]
