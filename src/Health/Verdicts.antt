-- ===== src/Health/Verdicts.antt =====
-- When a volume is reported healthy.
use hostpath_provisioner.Base.{
  pos, beq_ℤ, ◌≡◌, ◌↔◌, true, false, Text, [], ok, arith, Result-cases, inl, inr,
}
use hostpath_provisioner.Os.{Os}
use hostpath_provisioner.Capacity.{FsInfo, get_pv_stats}
use hostpath_provisioner.Pools.{check_path_exist}
use hostpath_provisioner.Health.{
  check_mount_point_exist, check_if_space_available, do_health_check_in_controller_side,
  do_health_check_in_node_side,
}

module _ (O : Os) (path : Text) (s : O.State) where
  -- The file system's numbers could be read, and blocks and inodes are left.
  abbrev pub HasSpace : Type 0
  HasSpace =
      (info : FsInfo) × (get_pv_stats O path s ≡ ok info)
      × (beq_ℤ info.available (pos 0) ≡ false)
      × (beq_ℤ info.inodes_free (pos 0) ≡ false)

  check_if_space_available_iff : (check_if_space_available O path s ≡ (true, [])) ↔ HasSpace
  unfolding check_if_space_available
  check_if_space_available_iff = (forward, λ h. ground arith)
    where
      forward : check_if_space_available O path s ≡ (true, []) → HasSpace
      forward h = elim (Result-cases (get_pv_stats O path s)) [
        | inr (e, p) ↦ absurd (ground arith)
        | inl (info, p) ↦ (info, p, ground arith, ground arith)
      ]

  -- The controller reports a volume healthy, with no message, exactly when its directory exists, its
  -- file system's numbers can be read, and neither the available bytes nor the free inodes are 0.
  pub do_health_check_in_controller_side_iff :
      (do_health_check_in_controller_side O path s ≡ (true, []))
      ↔ ((check_path_exist O path s ≡ ok true) × HasSpace)
  unfolding do_health_check_in_controller_side
  do_health_check_in_controller_side_iff = elim (Result-cases (check_path_exist O path s)) [
    | inr (e, p) ↦ (λ h. absurd (ground arith), λ h. absurd (ground arith))
    | inl (false, p) ↦ (λ h. absurd (ground arith), λ h. absurd (ground arith))
    | inl (true, p) ↦ (
      λ h. (p, check_if_space_available_iff.0 (ground arith)),
      λ h. ground (arith, check_if_space_available_iff.1 h.1),
    )
  ]

  -- The node reports a volume healthy, with no message, exactly when its path is the target of one
  -- of the mounts that findmnt reports, its file system's numbers can be read, and neither the
  -- available bytes nor the free inodes are 0.
  pub do_health_check_in_node_side_iff :
      (do_health_check_in_node_side O path s ≡ (true, []))
      ↔ ((check_mount_point_exist O path s ≡ ok true) × HasSpace)
  unfolding do_health_check_in_node_side
  do_health_check_in_node_side_iff = elim (Result-cases (check_mount_point_exist O path s)) [
    | inr (e, p) ↦ (λ h. absurd (ground arith), λ h. absurd (ground arith))
    | inl (false, p) ↦ (λ h. absurd (ground arith), λ h. absurd (ground arith))
    | inl (true, p) ↦ (
      λ h. (p, check_if_space_available_iff.0 (ground arith)),
      λ h. ground (arith, check_if_space_available_iff.1 h.1),
    )
  ]
