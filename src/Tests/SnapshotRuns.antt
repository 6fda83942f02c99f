-- ===== src/Tests/SnapshotRuns.antt =====
-- Snapshots: creating, deleting, listing.
use hostpath_provisioner.Base.{
  true, fails, ℕ, ◌≤◌, ◌+◌, take, pos, Text, bytes, ◌≡◌, ◌≢◌, refl, true, List, [], ◌∷◌, some, err,
  Error, errorf, returns, fails, panics, arith,
}
use hostpath_provisioner.Os.{Os}
use hostpath_provisioner.Os.Memory.{memory, memory-IsLawful, directory}
use hostpath_provisioner.Csi.{Snapshot, CreateSnapshotRequest, ListSnapshotsRequest}
use hostpath_provisioner.Snapshots.{create_snapshot, get_all_snapshots, reflink_provider}
use hostpath_provisioner.Snapshots.Writes.{described}
use hostpath_provisioner.Snapshots.Retried.{create_snapshot_retried}
use hostpath_provisioner.Os.Laws.{IsLawful}
use hostpath_provisioner.Os.Frame.{IsFramed, memory-IsFramed}
use hostpath_provisioner.Controller.Snaps.{
  controller_create_snapshot, list_snapshots, snapshot_page,
}
use hostpath_provisioner.Controller.Snaps.Delete.{list_snapshots-controller_delete_snapshot}
use hostpath_provisioner.Controller.Snaps.Pages.{snapshot_page_panics}
use hostpath_provisioner.Controller.Snaps.Walk.{follow, follow_lem}
use hostpath_provisioner.Controller.Snaps.Stuck.{IsStuck, controller_create_snapshot-IsStuck}
use hostpath_provisioner.Tests.Compute.{everything}
use hostpath_provisioner.Tests.Data.{
  machine, config, pool, reflink, controller_on, fresh, parameters,
}

-- A snapshot of the volume pvc-1, and the volume.
abbrev snapped : List Text
snapped =
    bytes "/snap/snap-1"
    ∷ bytes "/snap/snap-1/data"
    ∷ bytes "/snap/snap-1/pvc-1"
    ∷ bytes "/data/pvc-1"
    ∷ fresh

abbrev snapshot_called : Text → Snapshot
snapshot_called id = described machine reflink id (bytes "pvc-1") directory

-- The name is taken by a snapshot of another volume.
abbrev of_other_volume : CreateSnapshotRequest
of_other_volume = record {
  name = bytes "snap-1";
  source_volume_id = bytes "pvc-2";
  parameters = parameters;
}

abbrev s1 : Snapshot
s1 = snapshot_called (bytes "s1")

abbrev s2_on : List Snapshot
s2_on =
    snapshot_called (bytes "s2") ∷ snapshot_called (bytes "s3") ∷ snapshot_called (bytes "s4") ∷ []

snapshot_page_panics_example :
    snapshot_page (s1 ∷ s2_on) (bytes "9") (pos 2) snapped ≡ (panics, snapped)
unfolding everything
snapshot_page_panics_example =
    snapshot_page_panics s1 s2_on (omega arith) (bytes "9") 9 2 snapped refl (omega arith)
      (omega arith) (omega arith)

-- The directories of three snapshots.
abbrev three_snapshots : List Text
three_snapshots =
    bytes "/snap/s1"
    ∷ bytes "/snap/s1/pvc-1"
    ∷ bytes "/snap/s2"
    ∷ bytes "/snap/s2/pvc-1"
    ∷ bytes "/snap/s3"
    ∷ bytes "/snap/s3/pvc-1"
    ∷ fresh

abbrev one_each : ListSnapshotsRequest
one_each = record {
  max_entries = pos 1;
  starting_token = [];
  source_volume_id = [];
  snapshot_id = [];
}

abbrev s2_s3 : List Snapshot
s2_s3 = snapshot_called (bytes "s2") ∷ snapshot_called (bytes "s3") ∷ []

follow_lem_example :
    (k : ℕ) × (follow machine (controller_on machine) 3 one_each three_snapshots
      ≡ some (take k (s1 ∷ s2_s3)))
    × (k ≤ 3)
    × (3 ≤ k + 1)
unfolding everything
follow_lem_example =
    follow_lem machine (controller_on machine) s1 s2_s3 1 three_snapshots (omega arith)
      (omega arith) (bytes "local") (reflink_provider machine reflink) one_each refl refl refl refl

abbrev for_snap_1 : ListSnapshotsRequest
for_snap_1 = record {
  max_entries = pos 0;
  starting_token = [];
  source_volume_id = [];
  snapshot_id = bytes "snap-1";
}

list_snapshots-controller_delete_snapshot_example :
    list_snapshots machine (controller_on machine) (some for_snap_1) (bytes "/data/pvc-1" ∷ fresh)
    ≡ (returns (record { entries = []; next_token = [] }), bytes "/data/pvc-1" ∷ fresh)
unfolding everything
list_snapshots-controller_delete_snapshot_example =
    list_snapshots-controller_delete_snapshot machine (memory-IsLawful 100 10) config
      (controller_on machine) for_snap_1 snapped (bytes "/data/pvc-1" ∷ fresh) refl refl refl refl

-- A machine where cp fails.
abbrev no_cp : Os
no_cp = record (memory 100 10) {
  run_command = λ name args s. (err (errorf (bytes "exit status 1")), s);
}

-- The volume, and an empty directory with the snapshot's name.
abbrev with_volume : List Text
with_volume = bytes "/snap/s1" ∷ bytes "/data/pvc-1" ∷ fresh

abbrev with_data : List Text
with_data = bytes "/snap/s1/data" ∷ with_volume

abbrev with_source : List Text
with_source = bytes "/snap/s1/pvc-1" ∷ with_data

abbrev not_copied : Error
not_copied = errorf (bytes "failed to copy /data/pvc-1/. to /snap/s1/data: exit status 1")

-- CreateSnapshot was cut off behind its first directory.
abbrev cut_off : List Text
cut_off = bytes "/snap/s1" ∷ bytes "/snap/s1/data" ∷ bytes "/data/pvc-1" ∷ fresh

abbrev again : CreateSnapshotRequest
again = record { name = bytes "s1"; source_volume_id = bytes "pvc-1"; parameters = parameters }

cut_off-IsStuck : IsStuck machine reflink (bytes "s1") cut_off
unfolding everything
cut_off-IsStuck = record {
  info = directory;
  entries = record { name = bytes "data"; is_dir = true } ∷ [];
  found = refl;
  is_dir = refl;
  listed = refl;
  no_entry = refl;
}

controller_create_snapshot-IsStuck_example :
    (controller_create_snapshot machine (controller_on machine) (some again) cut_off ≡ (
      fails (errorf (bytes "getsnapshot by id failed, source volume not found for snapshot s1")),
      cut_off,
    ))
    × ((get_all_snapshots machine reflink cut_off).0 ≢ returns [])
unfolding everything
controller_create_snapshot-IsStuck_example =
    controller_create_snapshot-IsStuck machine (controller_on machine) reflink again pool
      (bytes "/snap") cut_off (record { name = bytes "s1"; is_dir = true } ∷ []) [] refl refl refl
      refl refl cut_off-IsStuck refl refl

no_cp-IsLawful : IsLawful no_cp
no_cp-IsLawful = record {
  stat-mkdir_all = (memory-IsLawful 100 10).stat-mkdir_all;
  stat-remove_all = (memory-IsLawful 100 10).stat-remove_all;
  stat-remove_all_missing = (memory-IsLawful 100 10).stat-remove_all_missing;
  read_dir-AllNames = (memory-IsLawful 100 10).read_dir-AllNames;
  read_dir-mkdir_all = (memory-IsLawful 100 10).read_dir-mkdir_all;
  read_dir-mkdir_all_new = (memory-IsLawful 100 10).read_dir-mkdir_all_new;
  quantity_int64_lem = (memory-IsLawful 100 10).quantity_int64_lem;
}

no_cp-IsFramed : IsFramed no_cp
no_cp-IsFramed = record {
  keeps-mkdir_all = (memory-IsFramed 100 10).keeps-mkdir_all;
  keeps-copy = λ ps args s h. h;
  keeps-remove_all = (memory-IsFramed 100 10).keeps-remove_all;
}

create_snapshot_retried_example :
    (create_snapshot no_cp reflink (bytes "s1") (bytes "pvc-1") with_volume
      ≡ (fails not_copied, with_source))
    × ((snapshot : Snapshot) × (create_snapshot no_cp reflink
            (bytes "s1")
            (bytes "pvc-1")
            with_source
          ≡ (returns snapshot, with_source))
        × (snapshot.snapshot_id ≡ bytes "s1")
        × (snapshot.source_volume_id ≡ bytes "pvc-1")
        × (snapshot.ready_to_use ≡ true))
unfolding everything
create_snapshot_retried_example =
    create_snapshot_retried no_cp no_cp-IsLawful no_cp-IsFramed reflink (bytes "s1") (bytes "pvc-1")
      with_volume with_data with_source with_source not_copied (pos 1) refl refl refl refl refl refl
