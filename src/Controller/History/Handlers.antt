-- ===== src/Controller/History/Handlers.antt =====
-- CreateVolume and CreateSnapshot, at a path that their call spares.
use hostpath_provisioner.Base.{
  ◌≡◌, refl, Text, text_eq, true, false, List, [], ◌∷◌, Option, none, some, read, Keeps, pure-Keeps,
  fail-Keeps, lift-Keeps, deref-Keeps, read-Keeps, try-Keeps, if-Keeps, bind-Keeps, result-Keeps,
  option-Keeps, arith,
}
use hostpath_provisioner.Base.Dict.{lookup}
use hostpath_provisioner.FilePath.{join}
use hostpath_provisioner.Os.{Os, StoragePoolInfo}
use hostpath_provisioner.Os.Frame.{covers, IsFramed}
use hostpath_provisioner.Csi.{
  CreateVolumeRequest, VolumeContentSource, snapshot_source, volume_source, CreateSnapshotRequest,
}
use hostpath_provisioner.Pools.{get_storage_pool_name_from_map, pool_path, check_path_exist}
use hostpath_provisioner.Capacity.{get_volume_dir_capacity}
use hostpath_provisioner.Snapshots.{SnapshotProvider}
use hostpath_provisioner.Snapshots.Keeping.{ProviderKeeps}
use hostpath_provisioner.Controller.{HostPathController}
use hostpath_provisioner.Controller.Providers.{AllProviders, lookup-AllProviders}
use hostpath_provisioner.Controller.Volumes.{
  validate_create_volume_request, validate_create_volume_request_topology, restore_from_snapshot,
  restore_content, create_in_pool, create_volume,
}
use hostpath_provisioner.Controller.Snaps.{
  validate_create_snapshot_request, ensure_initialized, find_or_create, create_snapshot_in_pool,
  controller_create_snapshot,
}
use hostpath_provisioner.Controller.History.{create_volume_call, may_remove, spares}
use hostpath_provisioner.Controller.History.Keeping.{There, ensured-Keeps, dropped-Keeps}

-- Volumes from snapshots.
module _ (O : Os) (F : IsFramed O) (hpc : HostPathController O.State) (ps : List Text)
    (providers : AllProviders (ProviderKeeps (There O F hpc ps)) hpc.snapshot_providers) where
  abbrev P : O.State → Type 0
  P = There O F hpc ps

  pub restore_from_snapshot-Keeps :
      (id pool target : Text) → Keeps P (restore_from_snapshot O hpc id pool target)
  unfolding restore_from_snapshot
  restore_from_snapshot-Keeps id pool target =
      option-Keeps P (lookup pool hpc.snapshot_providers) _ _ (fail-Keeps P _) (λ provider found.
        (lookup-AllProviders (ProviderKeeps P) pool hpc.snapshot_providers provider providers
            found).restore_snapshot
          id _)

  restore_content-Keeps :
      (pool path name : Text) (source : Option VolumeContentSource)
      → ((id : Option Text)
          → source ≡ some (snapshot_source id)
          → covers (join (path ∷ name ∷ [])) (join ps) ≡ false)
      → Keeps P (restore_content O hpc pool path name source)
  unfolding restore_content
  restore_content-Keeps pool path name (some (snapshot_source (some id))) spared =
      bind-Keeps P _ _ (try-Keeps P _ (restore_from_snapshot-Keeps id pool name)) (λ restored.
        result-Keeps P restored _ _ (λ _. pure-Keeps P tt)
          (λ e. dropped-Keeps O F hpc ps path name e (spared (some id) refl)))
  restore_content-Keeps pool path name (some (snapshot_source none)) spared = pure-Keeps P tt
  restore_content-Keeps pool path name (some (volume_source v)) spared = pure-Keeps P tt
  restore_content-Keeps pool path name none spared = pure-Keeps P tt

  create_in_pool-Keeps :
      (req : CreateVolumeRequest) (name : Text) (pool : StoragePoolInfo)
      → ((id : Option Text)
          → req.volume_content_source ≡ some (snapshot_source id)
          → covers (join (pool.path ∷ req.name ∷ [])) (join ps) ≡ false)
      → Keeps P (create_in_pool O hpc req name pool)
  unfolding create_in_pool
  create_in_pool-Keeps req name pool spared =
      bind-Keeps P (read (get_volume_dir_capacity O pool.path)) _ (read-Keeps P _) (λ capacity.
        bind-Keeps P _ _ (ensured-Keeps O F hpc ps pool.path req.name) (λ _.
          bind-Keeps P _ _
            (restore_content-Keeps name pool.path req.name req.volume_content_source spared)
            (λ _. pure-Keeps P _)))

  -- The paths of the call hold that of the volume, where there is a snapshot.
  source-spared :
      (req : CreateVolumeRequest) (pool : StoragePoolInfo) (id : Option Text)
      → lookup (get_storage_pool_name_from_map req.parameters) hpc.cfg.storage_pool_info ≡ some pool
      → spares (may_remove hpc.cfg (create_volume_call (some req))) (join ps) ≡ true
      → req.volume_content_source ≡ some (snapshot_source id)
      → covers (join (pool.path ∷ req.name ∷ [])) (join ps) ≡ false
  unfolding may_remove spares pool_path
  source-spared req pool id found spared source =
      let named : pool_path hpc.cfg (get_storage_pool_name_from_map req.parameters) ≡ pool.path =
        rw (pool_path, found) refl in
      let only = rw source at spared in rw (← named) (ground arith)

  pub create_volume-Keeps :
      (req : Option CreateVolumeRequest)
      → spares (may_remove hpc.cfg (create_volume_call req)) (join ps) ≡ true
      → Keeps P (create_volume O hpc req)
  unfolding create_volume validate_create_volume_request
  create_volume-Keeps none spared = record { behind = λ s h. h }
  create_volume-Keeps (some req) spared =
      bind-Keeps P _ _ (lift-Keeps P (validate_create_volume_request (some req))) (λ _.
        bind-Keeps P _ _ (lift-Keeps P (validate_create_volume_request_topology hpc.cfg req)) (λ _.
          option-Keeps P _ _ _ (fail-Keeps P _) (λ pool found.
            create_in_pool-Keeps req _ pool
              (λ id source. source-spared req pool id found spared source))))

  initialized-Keeps :
      (provider : SnapshotProvider O.State) (path : Text)
      → ProviderKeeps P provider
      → Keeps P (ensure_initialized O hpc provider path)
  unfolding ensure_initialized
  initialized-Keeps provider path k =
      bind-Keeps P (read (check_path_exist O path)) _ (read-Keeps P _) (λ exists.
        if-Keeps P exists _ _ (pure-Keeps P tt) (
          bind-Keeps P _ _ (try-Keeps P _ k.initialize)
            (λ made. result-Keeps P made _ _ (λ _. pure-Keeps P tt) (λ e. fail-Keeps P _))))

  find_or_create-Keeps :
      (provider : SnapshotProvider O.State) (name volume : Text)
      → ProviderKeeps P provider
      → Keeps P (find_or_create provider name volume)
  unfolding find_or_create
  find_or_create-Keeps provider name volume k =
      bind-Keeps P _ _ (try-Keeps P _ (k.get_snapshot_by_id name)) (λ found.
        result-Keeps P found _ _
          (λ o.
            option-Keeps P o _ _ (k.create_snapshot name volume)
              (λ snapshot _. if-Keeps P _ _ _ (pure-Keeps P snapshot) (fail-Keeps P _)))
          (λ e. fail-Keeps P _))

  create_snapshot_in_pool-Keeps :
      (req : CreateSnapshotRequest) (name : Text) (pool : StoragePoolInfo)
      → Keeps P (create_snapshot_in_pool O hpc req name pool)
  unfolding create_snapshot_in_pool
  create_snapshot_in_pool-Keeps req name pool =
      option-Keeps P pool.snapshot_path _ _ (fail-Keeps P _) (λ path _.
        option-Keeps P (lookup name hpc.snapshot_providers) _ _ (fail-Keeps P _) (λ provider found.
          let k =
            lookup-AllProviders (ProviderKeeps P) name hpc.snapshot_providers provider providers
              found in
          bind-Keeps P _ _ (initialized-Keeps provider path k)
            (λ _. find_or_create-Keeps provider req.name req.source_volume_id k)))

  pub controller_create_snapshot-Keeps :
      (req : Option CreateSnapshotRequest) → Keeps P (controller_create_snapshot O hpc req)
  unfolding controller_create_snapshot
  controller_create_snapshot-Keeps req =
      bind-Keeps P _ _ (lift-Keeps P (validate_create_snapshot_request req)) (λ _.
        bind-Keeps P _ _ (deref-Keeps P req) (λ r.
          let name = get_storage_pool_name_from_map r.parameters in
          option-Keeps P (lookup name hpc.cfg.storage_pool_info) _
            (create_snapshot_in_pool O hpc r name) (fail-Keeps P _)
            (λ pool found. create_snapshot_in_pool-Keeps r name pool)))
