-- ===== src/Pools.antt =====
-- Storage pools and the volume directories in them (pkg/hostpath/utils.go, hostpath.go: Config).
pub mod Sorting
pub mod Finding
pub mod Present
use hostpath_provisioner.Base.{
  ℕ, ℤ, pos, negsuc, Text, bytes, ◌==◌, text_eq, text_leb, Bool, true, false, List, [], ◌∷◌, ◌++◌,
  Option, none, some, Result, ok, err, Error, is_not_exist, if◌then◌else◌, suc, ◌+◌, Exec, perform,
  pure, ◌>>=◌, ◌>>◌, attempt, fail,
}
use hostpath_provisioner.Base.Dict.{Dict, lookup}
use hostpath_provisioner.FilePath.{join, base}
use hostpath_provisioner.Os.{Os, DirEntry, StoragePoolInfo}
use hostpath_provisioner.Csi.{Snapshot}

pub record Config : Type 0 where
  pub driver_name : Text
  pub endpoint : Text
  pub node_id : Text
  pub storage_pool_info : Dict StoragePoolInfo
  pub default_storage_pool_name : Text
  pub version : Text

abbrev pub storage_pool_name_key : Text
storage_pool_name_key = bytes "storagePool"

abbrev pub legacy_storage_pool_name : Text
legacy_storage_pool_name = bytes "legacy"

unfoldable pub get_storage_pool_name_from_map : Dict Text → Text
get_storage_pool_name_from_map params = elim (lookup storage_pool_name_key params) [
  | some name ↦ name
  | none ↦ legacy_storage_pool_name
]

-- cfg.StoragePoolInfo[name].Path: the empty string for a pool that is not there
unfoldable pub pool_path : Config → Text → Text
pool_path cfg name = elim (lookup name cfg.storage_pool_info) [ some info ↦ info.path | none ↦ [] ]

-- sort.Strings, by what it returns: the same strings in bytewise order.
unfoldable pub insert_sorted : Text → List Text → List Text
insert_sorted x [] = x ∷ []
insert_sorted x (y ∷ ys) = if text_leb x y then x ∷ y ∷ ys else y ∷ insert_sorted x ys

unfoldable pub sort_strings : List Text → List Text
unfolding insert_sorted
sort_strings [] = []
sort_strings (x ∷ xs) = insert_sorted x (sort_strings xs)

-- The inner loop: the directories among the entries of one pool.
unfoldable pub entry_directories : Text → List DirEntry → List Text
entry_directories path [] = []
entry_directories path (f ∷ files) =
    let rest = entry_directories path files in
    if f.is_dir then join (path ∷ f.name ∷ []) ∷ rest else rest

-- filepath.Base(dir) == id: the last match of the loop in DeleteVolume and its like, or "".
find_volume_from : Text → List Text → Text → Text
find_volume_from found [] id = found
find_volume_from found (d ∷ dirs) id = find_volume_from (if base d == id then d else found) dirs id

unfoldable pub find_volume : List Text → Text → Text
unfolding find_volume_from
find_volume dirs id = find_volume_from [] dirs id

unfoldable pub index_from : ℕ → Text → List Text → ℤ
index_from i value [] = negsuc 0
index_from i value (match ∷ list) =
    let rest = index_from (i + 1) value list in if base match == value then pos i else rest

unfoldable pub index_of_starting_token : Text → List Text → ℤ
unfolding index_from
index_of_starting_token value list = index_from 0 value list

snapshot_index_from : ℕ → Text → List Snapshot → ℤ
snapshot_index_from i value [] = negsuc 0
snapshot_index_from i value (match ∷ list) =
    let rest = snapshot_index_from (i + 1) value list in
    if match.snapshot_id == value then pos i else rest

unfoldable pub index_of_snapshot_id : Text → List Snapshot → ℤ
unfolding snapshot_index_from
index_of_snapshot_id value list = snapshot_index_from 0 value list

module _ (O : Os) where
  unfoldable pub check_path_exist : Text → O.State → Result Bool
  check_path_exist path s = elim (O.stat path s) [
    | ok info ↦ ok true
    | err e ↦ if is_not_exist e then ok false else err e
  ]

  -- The loop over the pools, in the order of iteration of the map.
  unfoldable pub collect_directories : Dict StoragePoolInfo → O.State → Result (List Text)
  collect_directories [] s = ok []
  collect_directories ((k, info) ∷ pools) s =
      let rest = collect_directories pools s in
      elim (O.read_dir info.path s) [
        | err e ↦ err e
        | ok files ↦ elim rest [
          | err e ↦ err e
          | ok directories ↦ ok (entry_directories info.path files ++ directories)
        ]
      ]

  unfoldable pub get_storage_pool_data_directories :
      Dict StoragePoolInfo → O.State → Result (List Text)
  unfolding collect_directories
  get_storage_pool_data_directories pools s = elim (collect_directories pools s) [
    | err e ↦ err e
    | ok directories ↦ ok (sort_strings directories)
  ]

  unfoldable pub create_volume_directory : Text → Text → Exec O.State (Unit {0})
  create_volume_directory base_path vol_id =
      perform (O.mkdir_all (join (base_path ∷ vol_id ∷ [])) 0o777)

  unfoldable pub create_snapshot_directory : Text → Text → Exec O.State (Unit {0})
  unfolding create_volume_directory
  create_snapshot_directory base_path snap_id = create_volume_directory base_path snap_id

  unfoldable pub delete_volume_directory : Text → Text → Exec O.State (Unit {0})
  delete_volume_directory base_path vol_id = do
    removed ← attempt (O.remove_all (join (base_path ∷ vol_id ∷ [])))
    elim removed [ ok _ ↦ pure tt | err e ↦ if is_not_exist e then pure tt else fail e ]
