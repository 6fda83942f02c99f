-- ===== src/Controller/History/Spared.antt =====
-- The paths of a volume, and the directories that are listed.
use hostpath_provisioner.Base.{
  ◌≡◌, true, false, List, [], ◌∷◌, Text, arith, ok, Bool-cases, Result-cases, inl, inr, is_empty,
}
use mathlib.Core.Path.{subst}
use hostpath_provisioner.Base.Dict.{Dict}
use hostpath_provisioner.FilePath.{base}
use hostpath_provisioner.FilePath.Join.{base-join}
use hostpath_provisioner.Os.{Os, DirEntry, StoragePoolInfo}
use hostpath_provisioner.Os.Frame.{covers}
use hostpath_provisioner.Os.Laws.{IsLawful, AllNames}
use hostpath_provisioner.Pools.{
  entry_directories, sort_strings, collect_directories, get_storage_pool_data_directories,
}
use hostpath_provisioner.Pools.Sorting.{collect_directories_inv}
use hostpath_provisioner.Pools.Finding.{All, All-append, All-sort_strings, AllPaths}
use hostpath_provisioner.Controller.History.{volume_paths, spares}

module _ (p : Text) where
  -- Where none of the paths of a volume covers p, the directory does not.
  abbrev pub Spared : Dict StoragePoolInfo → Text → Type 0
  Spared pools d = spares (volume_paths pools (base d)) p ≡ true → covers d p ≡ false

  entry_directories-Spared :
      (k : Text) (info : StoragePoolInfo) (pools : Dict StoragePoolInfo) (files : List DirEntry)
      → is_empty info.path ≡ false
      → AllNames files
      → All (Spared ((k, info) ∷ pools)) (entry_directories info.path files)
  unfolding entry_directories volume_paths spares
  entry_directories-Spared k info pools [] h _ = tt
  entry_directories-Spared k info pools (f ∷ files) h (n, ns) = elim (Bool-cases f.is_dir) [
    | inl e ↦ rw e (
      λ k. let b = base-join info.path f.name h n in ground arith,
      entry_directories-Spared k info pools files h ns,
    )
    | inr e ↦ rw e (entry_directories-Spared k info pools files h ns)
  ]

  more-Spared :
      (k : Text) (info : StoragePoolInfo) (pools : Dict StoragePoolInfo) (ds : List Text)
      → All (Spared pools) ds
      → All (Spared ((k, info) ∷ pools)) ds
  unfolding volume_paths spares
  more-Spared k info pools [] _ = tt
  more-Spared k info pools (d ∷ ds) (h, hs) =
      (λ k. h (ground arith), more-Spared k info pools ds hs)

  module _ (O : Os) (L : IsLawful O) where
    collect_directories-Spared :
        (pools : Dict StoragePoolInfo) (s : O.State) (ds : List Text)
        → AllPaths pools
        → collect_directories O pools s ≡ ok ds
        → All (Spared pools) ds
    unfolding collect_directories
    collect_directories-Spared [] s ds _ h =
        let e : ◌≡◌ {A = List Text} [] ds = ground arith in subst (All (Spared [])) e tt
    collect_directories-Spared ((k, info) ∷ pools) s ds (path, paths) h =
        let (files, rest, read, collected, split) = collect_directories_inv O k info pools s ds h in
        rw split (
          All-append (Spared ((k, info) ∷ pools)) (entry_directories info.path files) rest
            (entry_directories-Spared k info pools files path
              (L.read_dir-AllNames info.path s files read))
            (more-Spared k info pools rest
              (collect_directories-Spared pools s rest paths collected)))

    pub directories-Spared :
        (pools : Dict StoragePoolInfo) (s : O.State) (ds : List Text)
        → AllPaths pools
        → get_storage_pool_data_directories O pools s ≡ ok ds
        → All (Spared pools) ds
    unfolding get_storage_pool_data_directories
    directories-Spared pools s ds paths h = elim (Result-cases (collect_directories O pools s)) [
      | inr (e, q) ↦ absurd (ground arith)
      | inl (found, q) ↦
          let e : sort_strings found ≡ ds = ground arith in
          subst (All (Spared pools)) e (
            All-sort_strings (Spared pools) found
              (collect_directories-Spared pools s found paths q))
    ]
