-- ===== src/Controller/History/Made.antt =====
-- The directory behind a CreateVolume.
use hostpath_provisioner.Base.{
  ◌≡◌, refl, Text, true, [], ◌∷◌, Option, none, some, ok, Error, returns, arith, pair_eq,
  Option-cases, Outcome-cases, Result-cases, inl, inr,
}
use hostpath_provisioner.Base.Dict.{lookup}
use hostpath_provisioner.FilePath.{join}
use hostpath_provisioner.Os.{Os, StoragePoolInfo}
use hostpath_provisioner.Os.Frame.{Present, IsFramed}
use hostpath_provisioner.Os.Laws.{IsLawful}
use hostpath_provisioner.Csi.{
  CreateVolumeRequest, Volume, VolumeContentSource, snapshot_source, volume_source,
}
use hostpath_provisioner.Pools.{
  get_storage_pool_name_from_map, pool_path, check_path_exist, delete_volume_directory,
}
use hostpath_provisioner.Capacity.{get_volume_dir_capacity}
use hostpath_provisioner.Snapshots.Keeping.{ProviderKeeps}
use hostpath_provisioner.Controller.{HostPathController}
use hostpath_provisioner.Controller.Providers.{AllProviders}
use hostpath_provisioner.Controller.Volumes.{
  validate_create_volume_request, validate_create_volume_request_topology, ensure_volume_directory,
  restore_from_snapshot, drop_after_restore, restore_content, create_in_pool, create_volume,
}
use hostpath_provisioner.Controller.Volumes.Create.{ensure_volume_directory-exists}
use hostpath_provisioner.Controller.History.Keeping.{There}
use hostpath_provisioner.Controller.History.Handlers.{restore_from_snapshot-Keeps}

module _ (O : Os) where
  -- What checkPathExist says of a path.
  pub check_path_exist-Present :
      (p : Text) (s : O.State) → check_path_exist O p s ≡ ok true → Present O p s
  unfolding check_path_exist
  check_path_exist-Present p s h = elim (Result-cases (O.stat p s)) [
    | inl (i, e) ↦ (i, e)
    | inr (x, e) ↦ absurd (ground arith)
  ]

  pub Present-check_path_exist :
      (p : Text) (s : O.State) → Present O p s → check_path_exist O p s ≡ ok true
  unfolding check_path_exist
  Present-check_path_exist p s (i, h) = rw (check_path_exist, h) refl

module _ (O : Os) (L : IsLawful O) (F : IsFramed O) (hpc : HostPathController O.State)
    (path name : Text)
    (providers : AllProviders
      (ProviderKeeps (There O F hpc (path ∷ name ∷ [])))
      hpc.snapshot_providers) where
  abbrev P : O.State → Type 0
  P = Present O (join (path ∷ name ∷ []))

  drop_after_restore-fails :
      (dir vol : Text) (e : Error) (s s' : O.State)
      → drop_after_restore O hpc dir vol e s ≡ (returns tt, s')
      → P s'
  unfolding drop_after_restore
  drop_after_restore-fails dir vol e s s' h =
      elim (Outcome-cases (delete_volume_directory O dir vol s).0) [
        | inl (u, p) ↦ absurd (ground arith)
        | inr (inl (x, p)) ↦ absurd (ground arith)
        | inr (inr p) ↦ absurd (ground arith)
      ]

  restore_content-made :
      (pool dir vol : Text) (source : Option VolumeContentSource) (s s' : O.State)
      → P s
      → restore_content O hpc pool dir vol source s ≡ (returns tt, s')
      → P s'
  unfolding restore_content
  restore_content-made pool dir vol none s s' there h =
      let e : s ≡ s' = ground arith in rw (← e) there
  restore_content-made pool dir vol (some (volume_source v)) s s' there h =
      let e : s ≡ s' = ground arith in rw (← e) there
  restore_content-made pool dir vol (some (snapshot_source none)) s s' there h =
      let e : s ≡ s' = ground arith in rw (← e) there
  restore_content-made pool dir vol (some (snapshot_source (some id))) s s' there h =
      let call = restore_from_snapshot O hpc id pool vol s in
      let kept =
        (restore_from_snapshot-Keeps O F hpc (path ∷ name ∷ []) providers id pool vol).behind s
          there in
      elim (Outcome-cases call.0) [
        | inl (u, p) ↦ let e : call.1 ≡ s' = ground arith in rw (← e) kept
        | inr (inl (x, p)) ↦ drop_after_restore-fails dir vol x call.1 s' (ground arith)
        | inr (inr p) ↦ absurd (ground arith)
      ]

  ensured-made :
      (s s' : O.State) → ensure_volume_directory O hpc path name s ≡ (returns tt, s') → P s'
  ensured-made s s' h =
      check_path_exist-Present O (join (path ∷ name ∷ [])) s'
        (ensure_volume_directory-exists O hpc L path name s s' h)

  create_in_pool-made :
      (req : CreateVolumeRequest) (pool_name : Text) (pool : StoragePoolInfo) (s s' : O.State)
      (vol : Volume)
      → pool.path ≡ path
      → req.name ≡ name
      → create_in_pool O hpc req pool_name pool s ≡ (returns vol, s')
      → P s'
  unfolding create_in_pool
  create_in_pool-made req pool_name pool s s' vol at_path has_name h =
      let ensured = ensure_volume_directory O hpc pool.path req.name s in
      let restored =
        restore_content O hpc pool_name pool.path req.name req.volume_content_source ensured.1 in
      elim (Result-cases (get_volume_dir_capacity O pool.path s)) [
        | inr (e, p) ↦ absurd (ground arith)
        | inl (c, p) ↦ elim (Outcome-cases ensured.0) [
          | inr (inl (e, q)) ↦ absurd (ground arith)
          | inr (inr q) ↦ absurd (ground arith)
          | inl (u, q) ↦ elim (Outcome-cases restored.0) [
            | inr (inl (e, r)) ↦ absurd (ground arith)
            | inr (inr r) ↦ absurd (ground arith)
            | inl (v, r) ↦
                let e : restored.1 ≡ s' = ground arith in
                restore_content-made pool_name pool.path req.name req.volume_content_source
                  ensured.1 s'
                  (ensured-made s ensured.1 (rw (← at_path, ← has_name) (pair_eq ensured q refl)))
                  (pair_eq restored r e)
          ]
        ]
      ]

  -- The volume that is returned is in the pool of the request.
  pub create_volume-made :
      (req : CreateVolumeRequest) (s s' : O.State) (vol : Volume)
      → pool_path hpc.cfg (get_storage_pool_name_from_map req.parameters) ≡ path
      → req.name ≡ name
      → create_volume O hpc (some req) s ≡ (returns vol, s')
      → P s'
  unfolding create_volume pool_path
  create_volume-made req s s' vol at_path has_name h =
      let pool_name = get_storage_pool_name_from_map req.parameters in
      elim (Result-cases (validate_create_volume_request (some req))) [
        | inr (e, p) ↦ absurd (ground arith)
        | inl (u, p) ↦ elim (Result-cases (validate_create_volume_request_topology hpc.cfg req)) [
          | inr (e, q) ↦ absurd (ground arith)
          | inl (v, q) ↦ elim (Option-cases (lookup pool_name hpc.cfg.storage_pool_info)) [
            | inl r ↦ absurd (ground arith)
            | inr (pool, r) ↦
                create_in_pool-made req pool_name pool s s' vol (ground arith) has_name
                  (ground arith)
          ]
        ]
      ]
