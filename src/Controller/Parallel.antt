-- ===== src/Controller/Parallel.antt =====
-- Calls of CreateVolume and DeleteVolume that overlap: no mutex orders them. Each call goes on by one
-- step at a time: a row of ReadDirs is one step, and a restore from a snapshot, which holds the mutex
-- of the snapshot calls, is one.
pub mod Holding
pub mod Volumes
use hostpath_provisioner.Base.{
  ℕ, zero, suc, ℤ, Text, bytes, is_empty, Bool, true, false, List, [], ◌∷◌, ◌++◌, Option, none,
  some, Result, ok, err, errorf, message, Error, Outcome, returns, fails, panics, Exec, lift, read,
  fail, pure, caught, try, outcome, ◌>>=◌, ◌>>◌, if◌then◌else◌,
}
use hostpath_provisioner.Base.Dict.{lookup}
use hostpath_provisioner.FilePath.{join, dir}
use hostpath_provisioner.Os.{Os, StoragePoolInfo}
use hostpath_provisioner.Csi.{
  CreateVolumeRequest, Volume, VolumeContentSource, snapshot_source, volume_source,
}
use hostpath_provisioner.Capacity.{get_volume_dir_capacity}
use hostpath_provisioner.Pools.{
  get_storage_pool_name_from_map, check_path_exist, create_volume_directory, find_volume,
}
use hostpath_provisioner.Controller.{HostPathController}
use hostpath_provisioner.Controller.Volumes.{
  validate_create_volume_request, validate_create_volume_request_topology,
  validate_delete_volume_request, volume_topologies, no_pool, get_volume_directories, delete_found,
  restore_from_snapshot, drop_after_restore,
}

-- Where a call stands. CreateVolume: at its start, before the test of the directory and before it is
-- made, before the restore and before the deletion behind a restore that has failed, each with the pool
-- and its capacity, and returned. DeleteVolume: at its start, before the removal
-- of what was found, and returned.
pub data Worker : Type 0 where
  create_starts : CreateVolumeRequest → Worker
  create_checks : CreateVolumeRequest → StoragePoolInfo → ℤ → Worker
  create_makes : CreateVolumeRequest → StoragePoolInfo → ℤ → Worker
  create_restores : CreateVolumeRequest → StoragePoolInfo → ℤ → Worker
  create_drops : CreateVolumeRequest → StoragePoolInfo → ℤ → Error → Worker
  create_ends : CreateVolumeRequest → Outcome Volume → Worker
  delete_starts : Text → Worker
  delete_removes : Text → Text → Worker
  delete_ends : Text → Outcome (Unit {0}) → Worker

module _ (O : Os) (hpc : HostPathController O.State) where
  open hpc use {cfg}

  abbrev pub response : CreateVolumeRequest → StoragePoolInfo → ℤ → Volume
  response req pool capacity = record {
    volume_id = req.name;
    capacity_bytes = capacity;
    volume_context = req.parameters;
    content_source = req.volume_content_source;
    accessible_topology = volume_topologies cfg.node_id pool;
  }

  -- The checks, the pool, and its capacity.
  unfoldable pub find_pool : CreateVolumeRequest → Exec O.State (StoragePoolInfo × ℤ)
  find_pool req = do
    lift (validate_create_volume_request (some req))
    lift (validate_create_volume_request_topology cfg req)
    let storage_pool_name = get_storage_pool_name_from_map req.parameters
    elim (lookup storage_pool_name cfg.storage_pool_info) [
      | none ↦ fail (no_pool storage_pool_name)
      | some pool ↦ do capacity ← read (get_volume_dir_capacity O pool.path); pure (pool, capacity)
    ]

  -- The restore of a request that is from a snapshot.
  unfoldable pub restore_source : Text → Text → Option VolumeContentSource → Exec O.State (Unit {0})
  restore_source storage_pool_name name (some (snapshot_source (some id))) =
      restore_from_snapshot O hpc id storage_pool_name name
  restore_source storage_pool_name name (some (snapshot_source none)) = pure tt
  restore_source storage_pool_name name (some (volume_source _)) = pure tt
  restore_source storage_pool_name name none = pure tt

  -- The deletion behind a restore that has failed; it never returns.
  unfoldable pub drop_volume :
      CreateVolumeRequest → StoragePoolInfo → ℤ → Error → Exec O.State Volume
  drop_volume req pool capacity e = do
    drop_after_restore O hpc pool.path req.name e
    pure (response req pool capacity)

  unfoldable pub find_directory : Text → Exec O.State Text
  find_directory id = do
    lift (validate_delete_volume_request (some id))
    volume_dirs ← read (get_volume_directories O hpc)
    pure (find_volume volume_dirs id)

  unfoldable pub advance : Worker → O.State → Worker × O.State
  unfolding find_pool find_directory restore_source drop_volume
  advance (create_starts req) s = elim (find_pool req s).0 [
    | returns (pool, capacity) ↦ (create_checks req pool capacity, s)
    | fails e ↦ (create_ends req (fails e), s)
    | panics ↦ (create_ends req panics, s)
  ]
  advance (create_checks req pool capacity) s =
      elim (check_path_exist O (join (pool.path ∷ req.name ∷ [])) s) [
        | err e ↦ (create_ends req (fails e), s)
        | ok exists ↦
            if exists
            then (create_restores req pool capacity, s)
            else (create_makes req pool capacity, s)
      ]
  advance (create_makes req pool capacity) s =
      let (made, s') = create_volume_directory O pool.path req.name s in
      (
        elim made [
          | returns _ ↦ create_restores req pool capacity
          | fails e ↦ create_ends req (
              fails
                (errorf (bytes "failed to create volume " ++ req.name ++ bytes ": " ++ message e)))
          | panics ↦ create_ends req panics
        ],
        s',
      )
  advance (create_restores req pool capacity) s =
      let (restored, s') =
        restore_source (get_storage_pool_name_from_map req.parameters) req.name
          req.volume_content_source s in
      (
        elim restored [
          | returns _ ↦ create_ends req (returns (response req pool capacity))
          | fails e ↦ create_drops req pool capacity e
          | panics ↦ create_ends req panics
        ],
        s',
      )
  advance (create_drops req pool capacity e) s =
      let (result, s') = drop_volume req pool capacity e s in (create_ends req result, s')
  advance (create_ends req result) s = (create_ends req result, s)
  advance (delete_starts id) s = elim (find_directory id s).0 [
    | returns d ↦ (delete_removes id d, s)
    | fails e ↦ (delete_ends id (fails e), s)
    | panics ↦ (delete_ends id panics, s)
  ]
  advance (delete_removes id d) s =
      let (result, s') = delete_found O hpc d id s in (delete_ends id result, s')
  advance (delete_ends id result) s = (delete_ends id result, s)

  -- The call of a number takes a step.
  unfoldable pub step_at : ℕ → List Worker → O.State → List Worker × O.State
  unfolding advance
  step_at i [] s = ([], s)
  step_at zero (w ∷ ws) s = let (w', s') = advance w s in (w' ∷ ws, s')
  step_at (suc i) (w ∷ ws) s = let (ws', s') = step_at i ws s in (w ∷ ws', s')

  -- The calls in the order of a schedule.
  unfoldable pub interleave : List ℕ → List Worker → O.State → List Worker × O.State
  unfolding step_at
  interleave [] ws s = (ws, s)
  interleave (i ∷ schedule) ws s = let (ws', s') = step_at i ws s in interleave schedule ws' s'
