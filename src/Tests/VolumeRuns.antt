-- ===== src/Tests/VolumeRuns.antt =====
-- Volumes: creating, deleting, listing.
use hostpath_provisioner.Base.{
  inl, get_elem?, ℕ, is_empty, pos, Text, bytes, ◌≡◌, ◌≢◌, refl, ◌↔◌, false, List, [], ◌∷◌, Option,
  none, some, ok, Error, returns, fails, panics, status, aborted, not_found, arith, length, ◌+◌,
}
use mathlib.Core.List.{Permᴰ}
use hostpath_provisioner.Os.Memory.{memory-IsLawful}
use hostpath_provisioner.Csi.{
  VolumeEntry, ListVolumesResponse, snapshot_source, VolumeContentSource,
}
use hostpath_provisioner.Controller.Volumes.{get_volume_directories, create_volume, delete_volume}
use hostpath_provisioner.Controller.Volumes.Create.{create_volume-restore_failed, the_volume}
use hostpath_provisioner.Controller.Volumes.Checks.{Accepts, Accepts-iff, IsAcceptable}
use hostpath_provisioner.Controller.Volumes.Listed.{get_volume_directories-create_volume}
use hostpath_provisioner.Controller.Volumes.Delete.{delete_volume_found}
use hostpath_provisioner.Controller.Listing.{controller_get_volume, list_volumes}
use hostpath_provisioner.Controller.Listing.Get.{controller_get_volume-list_volumes}
use hostpath_provisioner.Controller.Listing.Pages.{list_volumes_total}
use hostpath_provisioner.Controller.Listing.Pages.Tokens.{
  request, list_volumes_loses_last, list_volumes_refuses_token,
}
use hostpath_provisioner.Pools.{find_volume, check_path_exist, get_storage_pool_data_directories}
use hostpath_provisioner.Pools.Sorting.{get_storage_pool_data_directories-perm, IsSorted}
use hostpath_provisioner.FilePath.{join, base}
use hostpath_provisioner.Tests.Compute.{everything}
use hostpath_provisioner.Tests.Data.{
  machine, pool, other_pool, config, controller_on, fresh, create_request,
}

abbrev created : List Text
created = bytes "/data/pvc-1" ∷ fresh

create_run : create_volume machine (controller_on machine) (some (create_request none)) fresh ≡ (
  returns (the_volume machine (controller_on machine) (create_request none) pool (pos 409600)),
  created,
)
unfolding everything the_volume
create_run = refl

get_volume_directories-create_volume_example :
    (ds : List Text) × (get_volume_directories machine (controller_on machine) created ≡ ok ds)
    × ((j : ℕ) × (get_elem? ds j ≡ some (bytes "/data/pvc-1")))
    × (is_empty (find_volume ds (bytes "pvc-1")) ≡ false)
    × (base (find_volume ds (bytes "pvc-1")) ≡ bytes "pvc-1")
unfolding everything the_volume
get_volume_directories-create_volume_example =
    get_volume_directories-create_volume machine (controller_on machine) (memory-IsLawful 100 10)
      (create_request none) pool fresh created
      (the_volume machine (controller_on machine) (create_request none) pool (pos 409600)) []
      (refl, refl) refl refl
      (record {
        word = record { nonempty = refl; not_dot = refl; no_slash = refl };
        not_dots = refl;
      })
      (refl, tt) refl refl refl refl create_run

abbrev from_snapshot : Option VolumeContentSource
from_snapshot = some (snapshot_source (some (bytes "snap-1")))

abbrev not_restored : Error
not_restored = status not_found (bytes "snapshot snap-1 not found, unable to restore into volume")

-- The volume is there, the snapshot is not.
create_volume-restore_failed_example :
    (create_volume machine (controller_on machine) (some (create_request from_snapshot)) created
      ≡ (fails not_restored, fresh))
    × (check_path_exist machine (join (bytes "/data" ∷ bytes "pvc-1" ∷ [])) fresh ≡ ok false)
unfolding everything
create_volume-restore_failed_example =
    create_volume-restore_failed machine (controller_on machine) (memory-IsLawful 100 10)
      (create_request from_snapshot) pool (bytes "snap-1") created created created fresh
      (pos 409600) not_restored (refl, refl) refl refl refl (inl (refl, refl)) refl refl

Accepts-iff_example :
    Accepts config (create_request none) ↔ IsAcceptable config (create_request none)
Accepts-iff_example = Accepts-iff config (create_request none)

delete_volume_found_example :
    (delete_volume machine (controller_on machine) (some (bytes "pvc-1")) created
      ≡ (returns tt, fresh))
    × (base (bytes "/data/pvc-1") ≡ bytes "pvc-1")
    × (check_path_exist machine (bytes "/data/pvc-1") fresh ≡ ok false)
unfolding everything
delete_volume_found_example =
    delete_volume_found machine (controller_on machine) (memory-IsLawful 100 10) (bytes "pvc-1")
      created fresh (bytes "/data/pvc-1" ∷ []) (refl, tt) refl refl refl refl

abbrev three : List Text
three = bytes "/data/c" ∷ bytes "/data/a" ∷ bytes "/data/b" ∷ fresh

abbrev listed : List Text
listed = bytes "/data/a" ∷ bytes "/data/b" ∷ bytes "/data/c" ∷ []

get_storage_pool_data_directories-perm_example :
    (get_storage_pool_data_directories machine
        ((bytes "other", other_pool) ∷ (bytes "local", pool) ∷ [])
        (bytes "/data2" ∷ bytes "/data2/z" ∷ three)
      ≡ ok (bytes "/data/a" ∷ bytes "/data/b" ∷ bytes "/data/c" ∷ bytes "/data2/z" ∷ []))
    × IsSorted (bytes "/data/a" ∷ bytes "/data/b" ∷ bytes "/data/c" ∷ bytes "/data2/z" ∷ [])
unfolding everything
get_storage_pool_data_directories-perm_example =
    get_storage_pool_data_directories-perm machine
      {pools = (bytes "local", pool) ∷ (bytes "other", other_pool) ∷ []}
      {pools' = (bytes "other", other_pool) ∷ (bytes "local", pool) ∷ []}
      (bytes "/data2" ∷ bytes "/data2/z" ∷ three)
      (bytes "/data/a" ∷ bytes "/data/b" ∷ bytes "/data/c" ∷ bytes "/data2/z" ∷ [])
      (Permᴰ.swap refl refl) refl

list_volumes_total_example :
    ((list_volumes machine (controller_on machine) (some (request 2 (bytes "7"))) three).0 ≢ panics)
    × ((list_volumes machine (controller_on machine) (some (request 2 (bytes "7"))) three).1
        ≡ three)
list_volumes_total_example =
    list_volumes_total machine (controller_on machine) (some (request 2 (bytes "7"))) three

controller_get_volume-list_volumes_example :
    (entry : VolumeEntry) × (resp : ListVolumesResponse) × (j : ℕ) × (controller_get_volume machine
        (controller_on machine)
        (some (bytes "b"))
        three
      ≡ (returns entry, three))
    × (list_volumes machine (controller_on machine) (some (request 0 [])) three
        ≡ (returns resp, three))
    × (get_elem? resp.entries j ≡ some entry)
    × (entry.volume_id ≡ bytes "b")
unfolding everything
controller_get_volume-list_volumes_example =
    controller_get_volume-list_volumes machine (controller_on machine) three
      ((bytes "/data", pos 409600) ∷ []) (bytes "b") (bytes "/data/a")
      (bytes "/data/b" ∷ bytes "/data/c" ∷ []) refl refl refl refl

list_volumes_loses_last_example :
    (resp : ListVolumesResponse) × (list_volumes machine
        (controller_on machine)
        (some (request 2 []))
        three
      ≡ (returns resp, three))
    × (resp.next_token ≡ [])
    × (length resp.entries + 1 ≡ 3)
unfolding everything
list_volumes_loses_last_example =
    list_volumes_loses_last machine (controller_on machine) three ((bytes "/data", pos 409600) ∷ [])
      refl (bytes "/data/a") (bytes "/data/b" ∷ bytes "/data/c" ∷ []) (omega arith) refl

list_volumes_refuses_token_example :
    (resp : ListVolumesResponse) × (list_volumes machine
        (controller_on machine)
        (some (request 1 []))
        three
      ≡ (returns resp, three))
    × (resp.next_token ≡ bytes "b")
    × (list_volumes machine (controller_on machine) (some (request 1 resp.next_token)) three
        ≡ (fails (status aborted (bytes "the type of startingToken should be integer")), three))
unfolding everything
list_volumes_refuses_token_example =
    list_volumes_refuses_token machine (controller_on machine) three
      ((bytes "/data", pos 409600) ∷ []) refl (bytes "/data/a")
      (bytes "/data/b" ∷ bytes "/data/c" ∷ []) 1 (bytes "/data/b") (omega arith) (omega arith) refl
      refl refl refl
