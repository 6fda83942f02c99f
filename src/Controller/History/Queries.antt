-- ===== src/Controller/History/Queries.antt =====
-- The handlers of the controller that only read, and DeleteSnapshot, at a path that is spared.
use hostpath_provisioner.Base.{
  ◌≡◌, Text, text_eq, is_empty, not, List, [], ◌∷◌, ◌++◌, Option, none, some, read, gets, lift, ℤ,
  pos, ltb_ℤ, beq_ℤ, negsuc, length, Result-cases, inl, inr, Keeps, pure-Keeps, fail-Keeps,
  lift-Keeps, deref-Keeps, read-Keeps, gets-Keeps, if-Keeps, bind-Keeps, option-Keeps, arith,
}
use hostpath_provisioner.Base.Dict.{Dict, lookup}
use hostpath_provisioner.FilePath.{join}
use hostpath_provisioner.Decimal.{parse_uint}
use hostpath_provisioner.Os.{Os}
use hostpath_provisioner.Csi.{
  ListSnapshotsRequest, Snapshot, ValidateVolumeCapabilitiesRequest, ListVolumesRequest,
}
use hostpath_provisioner.Pools.{
  get_storage_pool_name_from_map, pool_path, check_path_exist, find_volume,
}
use hostpath_provisioner.Capacity.{get_pv_stats}
use hostpath_provisioner.Snapshots.{SnapshotProvider}
use hostpath_provisioner.Snapshots.Keeping.{ProviderKeeps}
use hostpath_provisioner.Controller.{HostPathController, capacity_map}
use hostpath_provisioner.Controller.Providers.{AllProviders}
use hostpath_provisioner.Controller.Volumes.{
  get_volume_directories, validate_volume_capabilities, get_capacity,
}
use hostpath_provisioner.Controller.Listing.{
  validate_list_volumes_request, check_starting_token, page_start, page_end, volume_next_token,
  volume_entries, list_page, list_directories, list_volumes, controller_get_volume,
}
use hostpath_provisioner.Controller.Snaps.{
  delete_everywhere, controller_delete_snapshot, snapshots_for, collect_snapshots, snapshot_page,
  list_snapshots, first_token,
}

module _ (O : Os) (hpc : HostPathController O.State) (P : O.State → Type 0) where
  validated-Keeps :
      (req : ValidateVolumeCapabilitiesRequest) (s : O.State)
      → P s
      → P (validate_volume_capabilities O hpc req s).1
  unfolding validate_volume_capabilities
  validated-Keeps req s h =
      let path =
        join (
          pool_path hpc.cfg (get_storage_pool_name_from_map req.parameters) ∷ req.volume_id ∷ []) in
      let same : (validate_volume_capabilities O hpc req s).1 ≡ s =
        elim (Result-cases (check_path_exist O path s)) [
          | inl (e, p) ↦ ground arith
          | inr (e, p) ↦ ground arith
        ] in
      rw same h

  pub validate_volume_capabilities-Keeps :
      (req : ValidateVolumeCapabilitiesRequest) → Keeps P (validate_volume_capabilities O hpc req)
  validate_volume_capabilities-Keeps req = record { behind = validated-Keeps req }

  pub get_capacity-Keeps : (req : Option (Dict Text)) → Keeps P (get_capacity O hpc req)
  unfolding get_capacity
  get_capacity-Keeps none = fail-Keeps P _
  get_capacity-Keeps (some parameters) =
      option-Keeps P (lookup (get_storage_pool_name_from_map parameters) hpc.cfg.storage_pool_info)
        _ _ (fail-Keeps P _)
        (λ pool found.
          bind-Keeps P (read (get_pv_stats O pool.path)) _ (read-Keeps P _)
            (λ info. pure-Keeps P _))

  next_token-Keeps : (dirs : List Text) (end : ℤ) → Keeps P (volume_next_token O hpc dirs end)
  unfolding volume_next_token
  next_token-Keeps dirs end =
      if-Keeps P (ltb_ℤ end _) _ _ (bind-Keeps P _ _ (deref-Keeps P _) (λ next. pure-Keeps P _))
        (pure-Keeps P [])

  list_page-Keeps :
      (capacities : Dict ℤ) (dirs : List Text) (token : Text) (max_entries : ℤ)
      → Keeps P (list_page O hpc capacities dirs token max_entries)
  unfolding list_page
  list_page-Keeps capacities dirs token max_entries =
      if-Keeps P (beq_ℤ (page_start token dirs) (negsuc 0)) _ _ (fail-Keeps P _) (
        bind-Keeps P _ _ (deref-Keeps P _) (λ page.
          bind-Keeps P (gets (λ s. volume_entries O hpc capacities s page)) _ (gets-Keeps P _)
            (λ entries.
              bind-Keeps P
                (volume_next_token O hpc dirs
                  (page_end (page_start token dirs) max_entries (pos (length dirs))))
                _ (next_token-Keeps dirs _)
                (λ next. pure-Keeps P (record { entries = entries; next_token = next })))))

  list_directories-Keeps :
      (capacities : Dict ℤ) (dirs : List Text) (token : Text) (max_entries : ℤ)
      → Keeps P (list_directories O hpc capacities dirs token max_entries)
  unfolding list_directories
  list_directories-Keeps capacities [] token max_entries =
      if-Keeps P (is_empty token) _ _ (pure-Keeps P _) (fail-Keeps P _)
  list_directories-Keeps capacities (d ∷ dirs) token max_entries =
      list_page-Keeps capacities (d ∷ dirs) _ max_entries

  pub list_volumes-Keeps : (req : Option ListVolumesRequest) → Keeps P (list_volumes O hpc req)
  unfolding list_volumes
  list_volumes-Keeps req = bind-Keeps P _ _ (lift-Keeps P (validate_list_volumes_request req)) (λ _.
      bind-Keeps P _ _ (deref-Keeps P req) (λ r.
        bind-Keeps P (read (capacity_map O hpc.cfg.storage_pool_info [])) _ (read-Keeps P _)
          (λ capacities.
            bind-Keeps P (read (get_volume_directories O hpc)) _ (read-Keeps P _) (λ dirs.
              bind-Keeps P (lift (check_starting_token r.starting_token)) _ (lift-Keeps P _)
                (λ _. list_directories-Keeps capacities dirs r.starting_token r.max_entries)))))

  pub controller_get_volume-Keeps : (req : Option Text) → Keeps P (controller_get_volume O hpc req)
  unfolding controller_get_volume
  controller_get_volume-Keeps none = fail-Keeps P _
  controller_get_volume-Keeps (some id) = if-Keeps P (is_empty id) _ _ (fail-Keeps P _) (
      bind-Keeps P (read (capacity_map O hpc.cfg.storage_pool_info [])) _ (read-Keeps P _)
        (λ capacities.
          bind-Keeps P (read (get_volume_directories O hpc)) _ (read-Keeps P _) (λ dirs.
            if-Keeps P (is_empty (find_volume dirs id)) _ _ (fail-Keeps P _) (gets-Keeps P _))))

module _ (O : Os) (hpc : HostPathController O.State) (P : O.State → Type 0)
    (providers : AllProviders (ProviderKeeps P) hpc.snapshot_providers) where
  snapshots_for-Keeps :
      (provider : SnapshotProvider O.State) (req : ListSnapshotsRequest)
      → ProviderKeeps P provider
      → Keeps P (snapshots_for provider req)
  unfolding snapshots_for
  snapshots_for-Keeps provider req k =
      if-Keeps P (not (is_empty req.snapshot_id)) _ _
        (bind-Keeps P _ _ (k.get_snapshot_by_id req.snapshot_id) (λ found.
          option-Keeps P found _ _ (pure-Keeps P []) (λ snapshot _. pure-Keeps P (snapshot ∷ []))))
        (if-Keeps P (not (is_empty req.source_volume_id)) _ _
          (k.get_snapshots_by_volume_source_id req.source_volume_id) k.get_all_snapshots)

  collect_snapshots-Keeps :
      (m : Dict (SnapshotProvider O.State)) (req : ListSnapshotsRequest) (found : List Snapshot)
      → AllProviders (ProviderKeeps P) m
      → Keeps P (collect_snapshots m req found)
  unfolding collect_snapshots
  collect_snapshots-Keeps [] req found _ = pure-Keeps P found
  collect_snapshots-Keeps ((k, provider) ∷ m) req found (keeps, rest) =
      bind-Keeps P _ _ (snapshots_for-Keeps provider req keeps)
        (λ more. collect_snapshots-Keeps m req (found ++ more) rest)

  snapshot_page-Keeps :
      (found : List Snapshot) (token : Text) (max_entries : ℤ)
      → Keeps P (snapshot_page found token max_entries)
  unfolding snapshot_page
  snapshot_page-Keeps [] token max_entries =
      if-Keeps P (is_empty token) _ _ (pure-Keeps P _) (fail-Keeps P _)
  snapshot_page-Keeps (x ∷ xs) token max_entries =
      option-Keeps P (parse_uint (first_token token)) _ _ (fail-Keeps P _)
        (λ n _. bind-Keeps P _ _ (deref-Keeps P _) (λ page. pure-Keeps P _))

  pub list_snapshots-Keeps :
      (req : Option ListSnapshotsRequest) → Keeps P (list_snapshots O hpc req)
  unfolding list_snapshots
  list_snapshots-Keeps none = fail-Keeps P _
  list_snapshots-Keeps (some req) =
      bind-Keeps P _ _ (collect_snapshots-Keeps hpc.snapshot_providers req [] providers)
        (λ found. snapshot_page-Keeps found req.starting_token req.max_entries)

module _ {S : Type 0} (P : S → Type 0) (id : Text) where
  delete_everywhere-Keeps :
      (m : Dict (SnapshotProvider S))
      → AllProviders (λ p. Keeps P (p.delete_snapshot id)) m
      → Keeps P (delete_everywhere m id)
  unfolding delete_everywhere
  delete_everywhere-Keeps [] _ = pure-Keeps P tt
  delete_everywhere-Keeps ((k, provider) ∷ m) (keeps, rest) =
      bind-Keeps P _ _ keeps (λ _. delete_everywhere-Keeps m rest)

pub controller_delete_snapshot-Keeps :
    (O : Os) (hpc : HostPathController O.State) (P : O.State → Type 0) (id : Text)
    → AllProviders (λ p. Keeps P (p.delete_snapshot id)) hpc.snapshot_providers
    → Keeps P (controller_delete_snapshot O hpc (some id))
unfolding controller_delete_snapshot
controller_delete_snapshot-Keeps O hpc P id keeps =
    if-Keeps P (is_empty id) _ _ (fail-Keeps P _)
      (delete_everywhere-Keeps P id hpc.snapshot_providers keeps)

pub delete_nothing-Keeps :
    (O : Os) (hpc : HostPathController O.State) (P : O.State → Type 0)
    → Keeps P (controller_delete_snapshot O hpc none)
unfolding controller_delete_snapshot
delete_nothing-Keeps O hpc P = fail-Keeps P _
