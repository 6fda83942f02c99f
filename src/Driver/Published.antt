-- ===== src/Driver/Published.antt =====
-- The controller and the node together: CreateVolume, and NodePublishVolume of its volume.
use hostpath_provisioner.Base.{
  ◌≡◌, refl, sym, ap, ◌∙◌, Bool, true, false, List, [], ◌∷◌, none, some, ok, returns, if◌then◌else◌,
  arith,
}
use hostpath_provisioner.FilePath.{join}
use hostpath_provisioner.Os.{Os, StoragePoolInfo}
use hostpath_provisioner.Os.Laws.{IsLawful}
use hostpath_provisioner.Os.Frame.{IsFramed}
use hostpath_provisioner.Csi.{CreateVolumeRequest, Volume, NodePublishVolumeRequest}
use hostpath_provisioner.Pools.{Config, get_storage_pool_name_from_map, pool_path, check_path_exist}
use hostpath_provisioner.Pools.Finding.{AllPaths}
use hostpath_provisioner.Controller.{HostPathController, new_host_path_controller}
use hostpath_provisioner.Controller.Volumes.{create_volume}
use hostpath_provisioner.Controller.Volumes.Checks.{Accepts}
use hostpath_provisioner.Controller.Volumes.Create.{
  pool_of, the_volume, create_volume-eq-create_in_pool, create_in_pool_inv,
}
use hostpath_provisioner.Controller.History.{Call, serve, all_spare}
use hostpath_provisioner.Controller.History.Made.{create_volume-made, Present-check_path_exist}
use hostpath_provisioner.Controller.History.Served.{providers-Keep, serve_lem}
use hostpath_provisioner.Node.{fs_type_of, mount_options, is_ephemeral_volume_request}
use hostpath_provisioner.Node.Mount.{node_publish_volume}
use hostpath_provisioner.Node.Publish.{IsMountRequest, pool_directory, node_publish_volume_pool}

module _ (O : Os) (L : IsLawful O) (F : IsFramed O) (cfg : Config)
    (hpc : HostPathController O.State) (made : new_host_path_controller O cfg ≡ some hpc)
    (paths : AllPaths hpc.cfg.storage_pool_info) where
  -- The directory of a volume is the one that a request with its id and its pool is for.
  pool_directory-eq :
      (req : CreateVolumeRequest) (pool : StoragePoolInfo) (publish : NodePublishVolumeRequest)
      → pool_of O hpc req ≡ some pool
      → publish.volume_id ≡ req.name
      → get_storage_pool_name_from_map publish.volume_context
        ≡ get_storage_pool_name_from_map req.parameters
      → pool_directory O hpc.cfg publish ≡ join (pool.path ∷ req.name ∷ [])
  unfolding pool_path
  pool_directory-eq req pool publish found id context =
      let named : pool_path hpc.cfg (get_storage_pool_name_from_map req.parameters) ≡ pool.path =
        ground arith in
      ap (λ p. join (p ∷ publish.volume_id ∷ [])) (ap (pool_path hpc.cfg) context ∙ named)
      ∙ ap (λ n. join (pool.path ∷ n ∷ [])) id

  -- On a machine that meets IsLawful and IsFramed, with a controller that NewHostPathController has
  -- made and whose pools have their paths set: where CreateVolume of a request that passes its
  -- checks, with a pool that is configured and no content source, has returned a volume, and any
  -- calls follow, none of which may remove the volume's directory, then that directory is there,
  -- and a NodePublishVolume that passes its checks, with the id of the returned volume, the pool of
  -- its context, and not for an ephemeral volume, mounts that directory where the mount works, and
  -- does nothing at a target that is a mount point already.
  pub node_publish_volume-create_volume :
      (req : CreateVolumeRequest) (pool : StoragePoolInfo) (calls : List Call)
      (publish : NodePublishVolumeRequest) (s s₁ s₂ : O.State) (vol : Volume) (not_mnt : Bool)
      → Accepts hpc.cfg req
      → pool_of O hpc req ≡ some pool
      → req.volume_content_source ≡ none
      → create_volume O hpc (some req) s ≡ (returns vol, s₁)
      → all_spare hpc.cfg calls (join (pool.path ∷ req.name ∷ [])) ≡ true
      → IsMountRequest publish
      → publish.volume_id ≡ vol.volume_id
      → get_storage_pool_name_from_map publish.volume_context
        ≡ get_storage_pool_name_from_map vol.volume_context
      → is_ephemeral_volume_request publish ≡ false
      → O.is_not_mount_point publish.target_path (serve O hpc calls s₁) ≡ ok not_mnt
      → O.mount
          (join (pool.path ∷ req.name ∷ []))
          publish.target_path
          (fs_type_of publish.volume_capability)
          (mount_options publish.readonly)
          (serve O hpc calls s₁)
        ≡ (ok tt, s₂)
      → (check_path_exist O (join (pool.path ∷ req.name ∷ [])) (serve O hpc calls s₁) ≡ ok true)
        × (node_publish_volume O hpc.cfg (some publish) (serve O hpc calls s₁)
            ≡ (returns tt, if not_mnt then s₂ else serve O hpc calls s₁))
  unfolding pool_path
  node_publish_volume-create_volume req pool calls publish s s₁ s₂ vol not_mnt accepted found
        no_source h spared valid id context persistent target mounted =
      let ps = pool.path ∷ req.name ∷ [] in
      let later = serve O hpc calls s₁ in
      let name = get_storage_pool_name_from_map req.parameters in
      let named : pool_path hpc.cfg name ≡ pool.path = ground arith in
      let (c, is_volume, _) =
        create_in_pool_inv O hpc req name pool s s₁ vol no_source
          (sym (create_volume-eq-create_in_pool O hpc req pool s accepted found) ∙ h) in
      let placed =
        create_volume-made O L F hpc pool.path req.name (providers-Keep O L F cfg hpc made paths ps)
          req s s₁ vol named refl h in
      let same_id : vol.volume_id ≡ req.name = rw is_volume (unfold the_volume in refl) in
      let same_context : vol.volume_context ≡ req.parameters =
        rw is_volume (unfold the_volume in refl) in
      let directory =
        pool_directory-eq req pool publish found (id ∙ same_id)
          (context ∙ ap get_storage_pool_name_from_map same_context) in
      (
        Present-check_path_exist O (join ps) later
            (serve_lem O L F cfg hpc made paths ps calls s₁ spared placed),
        node_publish_volume_pool O hpc.cfg publish later s₂ not_mnt valid persistent target
            (rw directory mounted),
      )
