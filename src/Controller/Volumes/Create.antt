-- ===== src/Controller/Volumes/Create.antt =====
-- What a successful CreateVolume leaves on the machine, that it can be repeated, and what a failed
-- restore does.
use hostpath_provisioner.Base.{
  ◌⊎◌, ℤ, ◌≡◌, refl, sym, ◌∙◌, true, false, [], ◌∷◌, Option, none, some, Text, text_eq, ok, Error,
  returns, fails, arith, pair_eq, Outcome-cases, Result-cases, inl, inr,
}
use hostpath_provisioner.Base.Dict.{lookup}
use hostpath_provisioner.FilePath.{join}
use hostpath_provisioner.Os.{Os, StoragePoolInfo}
use hostpath_provisioner.Os.Laws.{IsLawful}
use hostpath_provisioner.Csi.{CreateVolumeRequest, Volume, snapshot_source}
use hostpath_provisioner.Pools.{
  get_storage_pool_name_from_map, check_path_exist, create_volume_directory,
  delete_volume_directory,
}
use hostpath_provisioner.Capacity.{get_volume_dir_capacity}
use hostpath_provisioner.Controller.{HostPathController}
use hostpath_provisioner.Controller.Volumes.{
  create_volume, create_in_pool, ensure_volume_directory, restore_content, restore_from_snapshot,
  drop_after_restore, volume_topologies,
}
use hostpath_provisioner.Controller.Volumes.Checks.{Accepts}

module _ (O : Os) (hpc : HostPathController O.State) where
  -- A directory that is ensured exists.
  pub ensure_volume_directory-exists :
      IsLawful O
      → (path name : Text) (s s' : O.State)
      → ensure_volume_directory O hpc path name s ≡ (returns tt, s')
      → check_path_exist O (join (path ∷ name ∷ [])) s' ≡ ok true
  unfolding ensure_volume_directory create_volume_directory check_path_exist
  ensure_volume_directory-exists L path name s s' h =
      elim (Result-cases (check_path_exist O (join (path ∷ name ∷ [])) s)) [
        | inr (e, p) ↦ absurd (ground arith)
        | inl (true, p) ↦ ground arith
        | inl (false, p) ↦
            let call = O.mkdir_all (join (path ∷ name ∷ [])) 0o777 s in
            elim (Result-cases call.0) [
              | inr (e, q) ↦ absurd (ground arith)
              | inl (u, q) ↦
                  let (i, there, is_dir) =
                    L.stat-mkdir_all (join (path ∷ name ∷ [])) 0o777 s s'
                      (pair_eq call q (ground arith)) in
                  ground arith
            ]
      ]

  -- One that exists is left alone.
  ensure_volume_directory_existing :
      (path name : Text) (s : O.State)
      → check_path_exist O (join (path ∷ name ∷ [])) s ≡ ok true
      → ensure_volume_directory O hpc path name s ≡ (returns tt, s)
  unfolding ensure_volume_directory
  ensure_volume_directory_existing path name s h = ground arith

  -- The directory is there, or os.MkdirAll makes it.
  ensured_either :
      (path name : Text) (s s₀ : O.State)
      → ((check_path_exist O (join (path ∷ name ∷ [])) s ≡ ok true) × (s ≡ s₀))
        ⊎ ((check_path_exist O (join (path ∷ name ∷ [])) s ≡ ok false)
            × (O.mkdir_all (join (path ∷ name ∷ [])) 0o777 s ≡ (ok tt, s₀)))
      → ensure_volume_directory O hpc path name s ≡ (returns tt, s₀)
  unfolding ensure_volume_directory create_volume_directory
  ensured_either path name s s₀ (inl (there, same)) = ground arith
  ensured_either path name s s₀ (inr (missing, made)) = ground arith

  -- What CreateVolume answers.
  unfoldable pub the_volume : CreateVolumeRequest → StoragePoolInfo → ℤ → Volume
  the_volume req pool capacity = record {
    volume_id = req.name;
    capacity_bytes = capacity;
    volume_context = req.parameters;
    content_source = req.volume_content_source;
    accessible_topology = volume_topologies hpc.cfg.node_id pool;
  }

  -- The pool of a request.
  abbrev pub pool_of : CreateVolumeRequest → Option StoragePoolInfo
  pool_of req = lookup (get_storage_pool_name_from_map req.parameters) hpc.cfg.storage_pool_info

  pub create_volume-eq-create_in_pool :
      (req : CreateVolumeRequest) (pool : StoragePoolInfo) (s : O.State)
      → Accepts hpc.cfg req
      → pool_of req ≡ some pool
      → create_volume O hpc (some req) s
        ≡ create_in_pool O hpc req (get_storage_pool_name_from_map req.parameters) pool s
  unfolding create_volume
  create_volume-eq-create_in_pool req pool s a p = ground arith

  pub create_in_pool_inv :
      (req : CreateVolumeRequest) (name : Text) (pool : StoragePoolInfo) (s s' : O.State)
      (vol : Volume)
      → req.volume_content_source ≡ none
      → create_in_pool O hpc req name pool s ≡ (returns vol, s')
      → (c : ℤ) × (vol ≡ the_volume req pool c)
        × (ensure_volume_directory O hpc pool.path req.name s ≡ (returns tt, s'))
  unfolding create_in_pool restore_content the_volume
  create_in_pool_inv req name pool s s' vol n h =
      let call = ensure_volume_directory O hpc pool.path req.name s in
      elim (Result-cases (get_volume_dir_capacity O pool.path s)) [
        | inr (e, p) ↦ absurd (ground arith)
        | inl (c, p) ↦ elim (Outcome-cases call.0) [
          | inr (inl (e, q)) ↦ absurd (ground arith)
          | inr (inr q) ↦ absurd (ground arith)
          | inl (u, q) ↦ (c, ground arith, pair_eq call q (ground arith))
        ]
      ]

  pub create_in_pool_existing :
      (req : CreateVolumeRequest) (name : Text) (pool : StoragePoolInfo) (s : O.State) (c : ℤ)
      → req.volume_content_source ≡ none
      → get_volume_dir_capacity O pool.path s ≡ ok c
      → check_path_exist O (join (pool.path ∷ req.name ∷ [])) s ≡ ok true
      → create_in_pool O hpc req name pool s ≡ (returns (the_volume req pool c), s)
  unfolding create_in_pool restore_content the_volume
  create_in_pool_existing req name pool s c n h k =
      ground (arith, ensure_volume_directory_existing pool.path req.name s k)

  -- On a machine that meets IsLawful: where CreateVolume of a request that passes its checks,
  -- with a pool that is configured and no content source, succeeds, the volume has the name of
  -- the request, its directory exists in the pool of the request, and with the capacity of the
  -- pool still readable the same request succeeds again and changes nothing.
  pub create_volume-repeat :
      IsLawful O
      → (req : CreateVolumeRequest) (pool : StoragePoolInfo) (s s' : O.State) (vol : Volume) (c : ℤ)
      → Accepts hpc.cfg req
      → pool_of req ≡ some pool
      → req.volume_content_source ≡ none
      → create_volume O hpc (some req) s ≡ (returns vol, s')
      → get_volume_dir_capacity O pool.path s' ≡ ok c
      → (vol.volume_id ≡ req.name)
        × (check_path_exist O (join (pool.path ∷ req.name ∷ [])) s' ≡ ok true)
        × (create_volume O hpc (some req) s' ≡ (returns (the_volume req pool c), s'))
  unfolding the_volume
  create_volume-repeat L req pool s s' vol c a p n h k =
      let name = get_storage_pool_name_from_map req.parameters in
      let (c₀, made, ensured) =
        create_in_pool_inv req name pool s s' vol n
          (sym (create_volume-eq-create_in_pool req pool s a p) ∙ h) in
      let there = ensure_volume_directory-exists L pool.path req.name s s' ensured in
      (
        rw made refl,
        there,
        create_volume-eq-create_in_pool req pool s' a p
            ∙ create_in_pool_existing req name pool s' c n k there,
      )

  -- Where the restore of a snapshot fails, whatever the driver's directory held before, a
  -- CreateVolume whose clean-up succeeds returns the error of the restore, and nothing is left at
  -- the path of the volume.
  pub restore_content_failed :
      IsLawful O
      → (name path vol id : Text) (s s₁ s₂ : O.State) (e : Error)
      → restore_from_snapshot O hpc id name vol s ≡ (fails e, s₁)
      → O.remove_all (join (path ∷ vol ∷ [])) s₁ ≡ (ok tt, s₂)
      → (restore_content O hpc name path vol (some (snapshot_source (some id))) s ≡ (fails e, s₂))
        × (check_path_exist O (join (path ∷ vol ∷ [])) s₂ ≡ ok false)
  unfolding restore_content drop_after_restore delete_volume_directory check_path_exist
  restore_content_failed L name path vol id s s₁ s₂ e h k =
      let (e', gone, not_exist) = L.stat-remove_all (join (path ∷ vol ∷ [])) s₁ s₂ k in
      (ground arith, ground arith)

  -- On a machine that meets IsLawful: a CreateVolume of a request that passes its checks, from a
  -- snapshot whose restore fails, in a pool that is configured and whose capacity can be read, for a
  -- volume that was there before the call or whose directory the call has made: once os.RemoveAll of
  -- the directory has succeeded, the error of the restore is returned and nothing is at the path of
  -- the volume, also where it was there before the call.
  pub create_volume-restore_failed :
      IsLawful O
      → (req : CreateVolumeRequest) (pool : StoragePoolInfo) (id : Text) (s s₀ s₁ s₂ : O.State)
        (c : ℤ) (e : Error)
      → Accepts hpc.cfg req
      → pool_of req ≡ some pool
      → req.volume_content_source ≡ some (snapshot_source (some id))
      → get_volume_dir_capacity O pool.path s ≡ ok c
      → ((check_path_exist O (join (pool.path ∷ req.name ∷ [])) s ≡ ok true) × (s ≡ s₀))
        ⊎ ((check_path_exist O (join (pool.path ∷ req.name ∷ [])) s ≡ ok false)
            × (O.mkdir_all (join (pool.path ∷ req.name ∷ [])) 0o777 s ≡ (ok tt, s₀)))
      → restore_from_snapshot O hpc id (get_storage_pool_name_from_map req.parameters) req.name s₀
        ≡ (fails e, s₁)
      → O.remove_all (join (pool.path ∷ req.name ∷ [])) s₁ ≡ (ok tt, s₂)
      → (create_volume O hpc (some req) s ≡ (fails e, s₂))
        × (check_path_exist O (join (pool.path ∷ req.name ∷ [])) s₂ ≡ ok false)
  create_volume-restore_failed L req pool id s s₀ s₁ s₂ c e a p src cap there restored removed =
      let name = get_storage_pool_name_from_map req.parameters in
      let (failed, gone) =
        restore_content_failed L name pool.path req.name id s₀ s₁ s₂ e restored removed in
      let ensured = ensured_either pool.path req.name s s₀ there in
      (
        create_volume-eq-create_in_pool req pool s a p ∙ (unfold create_in_pool in ground arith),
        gone,
      )
