-- ===== src/Node/Unpublish.antt =====
-- NodeUnpublishVolume.
use hostpath_provisioner.Base.{
  ◌≡◌, ◌∙◌, Bool, true, false, List, [], ◌∷◌, some, Text, is_empty, ok, returns, arith,
  if◌then◌else◌,
}
use hostpath_provisioner.FilePath.{join, base, dir}
use hostpath_provisioner.Os.{Os}
use hostpath_provisioner.Os.Laws.{IsLawful}
use hostpath_provisioner.Csi.{NodeUnpublishVolumeRequest}
use hostpath_provisioner.Pools.{
  Config, check_path_exist, get_storage_pool_data_directories, delete_volume_directory, find_volume,
}
use hostpath_provisioner.Pools.Finding.{
  AllPaths, IsVolumeDir, join-dir, find_volume_inv, directories-IsVolumeDir,
}
use hostpath_provisioner.Node.{validate_node_unpublish_request, is_ephemeral_volume_id}
use hostpath_provisioner.Node.Unmount.{
  unmount_target, remove_target, remove_found, remove_ephemeral_path, remove_ephemeral,
  node_unpublish_volume,
}

module _ (O : Os) (cfg : Config) where
  unmounted_lem :
      (target : Text) (s s₁ : O.State) (not_mnt : Bool)
      → O.is_not_mount_point target s ≡ ok not_mnt
      → O.unmount target s ≡ (ok tt, s₁)
      → unmount_target O cfg target s ≡ (returns tt, if not_mnt then s else s₁)
  unfolding unmount_target
  unmounted_lem target s s₁ true h k = ground arith
  unmounted_lem target s s₁ false h k = ground arith

  -- What is left to do once the target is gone.
  target_gone :
      (req : NodeUnpublishVolumeRequest) (s s₁ s₂ : O.State) (not_mnt : Bool)
      → is_empty req.volume_id ≡ false
      → is_empty req.target_path ≡ false
      → O.is_not_mount_point req.target_path s ≡ ok not_mnt
      → O.unmount req.target_path s ≡ (ok tt, s₁)
      → O.remove_all req.target_path (if not_mnt then s else s₁) ≡ (ok tt, s₂)
      → node_unpublish_volume O cfg (some req) s ≡ remove_ephemeral O cfg req.volume_id s₂
  unfolding node_unpublish_volume validate_node_unpublish_request remove_target
  target_gone req s s₁ s₂ not_mnt a b d e f =
      ground (arith, unmounted_lem req.target_path s s₁ not_mnt d e)

  -- NodeUnpublishVolume of a volume whose id does not begin with "csi", where the id and the
  -- target are not empty and the calls of the machine work: the target is unmounted only if it is
  -- a mount point, then removed with all below it, and that is all that happens.
  pub node_unpublish_volume_pool :
      (req : NodeUnpublishVolumeRequest) (s s₁ s₂ : O.State) (not_mnt : Bool)
      → is_empty req.volume_id ≡ false
      → is_empty req.target_path ≡ false
      → is_ephemeral_volume_id req.volume_id ≡ false
      → O.is_not_mount_point req.target_path s ≡ ok not_mnt
      → O.unmount req.target_path s ≡ (ok tt, s₁)
      → O.remove_all req.target_path (if not_mnt then s else s₁) ≡ (ok tt, s₂)
      → node_unpublish_volume O cfg (some req) s ≡ (returns tt, s₂)
  unfolding remove_ephemeral
  node_unpublish_volume_pool req s s₁ s₂ not_mnt a b c d e f =
      target_gone req s s₁ s₂ not_mnt a b d e f ∙ ground arith

  remove_ephemeral_lem :
      (id : Text) (s s' : O.State) (ds : List Text)
      → is_ephemeral_volume_id id ≡ true
      → get_storage_pool_data_directories O cfg.storage_pool_info s ≡ ok ds
      → remove_found O cfg (find_volume ds id) id s ≡ (returns tt, s')
      → remove_ephemeral O cfg id s ≡ (returns tt, s')
  unfolding remove_ephemeral remove_ephemeral_path
  remove_ephemeral_lem id s s' ds h k l = ground arith

  remove_found_lem :
      (d id : Text) (s s' : O.State)
      → is_empty d ≡ false
      → join (dir d ∷ id ∷ []) ≡ d
      → O.remove_all d s ≡ (ok tt, s')
      → remove_found O cfg d id s ≡ (returns tt, s')
  unfolding remove_found delete_volume_directory
  remove_found_lem d id s s' h j k = ground arith

  -- On a machine that meets IsLawful, where every pool has its path set and the calls of the
  -- machine work: NodeUnpublishVolume of a volume whose id begins with "csi" and that a pool has
  -- removes the directory that the search by its id finds, whose last element is the id, whatever
  -- the volume is.
  pub node_unpublish_volume_csi :
      IsLawful O
      → (req : NodeUnpublishVolumeRequest) (s s₁ s₂ s₃ : O.State) (not_mnt : Bool) (ds : List Text)
      → AllPaths cfg.storage_pool_info
      → is_empty req.volume_id ≡ false
      → is_empty req.target_path ≡ false
      → is_ephemeral_volume_id req.volume_id ≡ true
      → O.is_not_mount_point req.target_path s ≡ ok not_mnt
      → O.unmount req.target_path s ≡ (ok tt, s₁)
      → O.remove_all req.target_path (if not_mnt then s else s₁) ≡ (ok tt, s₂)
      → get_storage_pool_data_directories O cfg.storage_pool_info s₂ ≡ ok ds
      → is_empty (find_volume ds req.volume_id) ≡ false
      → O.remove_all (find_volume ds req.volume_id) s₂ ≡ (ok tt, s₃)
      → (node_unpublish_volume O cfg (some req) s ≡ (returns tt, s₃))
        × (base (find_volume ds req.volume_id) ≡ req.volume_id)
        × (check_path_exist O (find_volume ds req.volume_id) s₃ ≡ ok false)
  node_unpublish_volume_csi L req s s₁ s₂ s₃ not_mnt ds paths a b c d e f g h i =
      let found = find_volume ds req.volume_id in
      let dirs = directories-IsVolumeDir O L cfg.storage_pool_info s₂ ds paths g in
      let (v, named) = find_volume_inv IsVolumeDir ds req.volume_id dirs h in
      let (x, gone, not_exist) = L.stat-remove_all found s₂ s₃ i in
      (
        target_gone req s s₁ s₂ not_mnt a b d e f
            ∙ remove_ephemeral_lem req.volume_id s₂ s₃ ds c g (
                remove_found_lem found req.volume_id s₂ s₃ h (join-dir found req.volume_id v named)
                  i),
        named,
        (unfold check_path_exist in ground arith),
      )
