-- ===== src/Controller/Volumes/Confirm.antt =====
-- ValidateVolumeCapabilities.
use hostpath_provisioner.Base.{
  ◌≡◌, ◌≢◌, refl, ◌↔◌, true, false, List, [], ◌∷◌, is_empty, ok, returns, arith, Result-cases, inl,
  inr,
}
use hostpath_provisioner.FilePath.{join}
use hostpath_provisioner.Os.{Os}
use hostpath_provisioner.Csi.{
  VolumeCapability, MountVolume, mount_volume, block_volume, no_access_type,
  ValidateVolumeCapabilitiesRequest, Confirmed,
}
use hostpath_provisioner.Pools.{check_path_exist, get_storage_pool_name_from_map, pool_path}
use hostpath_provisioner.Controller.{HostPathController}
use hostpath_provisioner.Controller.Volumes.{is_mount, all_mounts, validate_volume_capabilities}

-- There is a capability, and each of them is a mount.
abbrev pub OnlyMounts : List VolumeCapability → Type 0
OnlyMounts [] = Unit
OnlyMounts (c ∷ caps) = ((m : MountVolume) × (c ≡ mount_volume m)) × OnlyMounts caps

all_mounts-OnlyMounts : (caps : List VolumeCapability) → all_mounts caps ≡ true → OnlyMounts caps
unfolding all_mounts is_mount
all_mounts-OnlyMounts [] h = tt
all_mounts-OnlyMounts (mount_volume m ∷ caps) h = ((m, refl), all_mounts-OnlyMounts caps h)
all_mounts-OnlyMounts (block_volume ∷ caps) h = absurd (ground arith)
all_mounts-OnlyMounts (no_access_type ∷ caps) h = absurd (ground arith)

OnlyMounts-all_mounts : (caps : List VolumeCapability) → OnlyMounts caps → all_mounts caps ≡ true
unfolding all_mounts is_mount
OnlyMounts-all_mounts [] h = refl
OnlyMounts-all_mounts (c ∷ caps) ((m, e), h) = rw e (OnlyMounts-all_mounts caps h)

module _ (O : Os) (hpc : HostPathController O.State) where
  -- What the request asks the controller to confirm.
  abbrev pub confirmed : ValidateVolumeCapabilitiesRequest → Confirmed
  confirmed req = record {
    volume_context = req.volume_context;
    volume_capabilities = req.volume_capabilities;
    parameters = req.parameters;
  }

  -- ValidateVolumeCapabilities confirms exactly the requests with a volume id, at least one
  -- capability and only mounts among them, whose volume exists in the pool of their parameters; and
  -- it confirms what was asked for.
  pub validate_volume_capabilities_iff :
      (req : ValidateVolumeCapabilitiesRequest) (s : O.State)
      → (validate_volume_capabilities O hpc req s ≡ (returns (confirmed req), s)) ↔ (
          (is_empty req.volume_id ≡ false)
          × (req.volume_capabilities ≢ [])
          × OnlyMounts req.volume_capabilities
          × (check_path_exist O
                (join (
                  pool_path hpc.cfg (get_storage_pool_name_from_map req.parameters)
                  ∷ req.volume_id
                  ∷ []))
                s
              ≡ ok true))
  unfolding validate_volume_capabilities
  validate_volume_capabilities_iff req s =
      let path =
        join (
          pool_path hpc.cfg (get_storage_pool_name_from_map req.parameters) ∷ req.volume_id ∷ []) in
      (
        λ h. (
          ground arith,
          ground arith,
          all_mounts-OnlyMounts req.volume_capabilities (ground arith),
          elim (Result-cases (check_path_exist O path s)) [
            | inl (true, p) ↦ p
            | inl (false, p) ↦ absurd (ground arith)
            | inr (e, p) ↦ absurd (ground arith)
          ],
        ),
        λ h. let mounts = OnlyMounts-all_mounts req.volume_capabilities h.2 in ground arith,
      )
