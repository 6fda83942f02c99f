-- ===== src/Health.antt =====
-- pkg/hostpath/healthcheck.go, and the calls of findmnt in pkg/hostpath/utils.go.
pub mod Device
pub mod Monitor
pub mod Verdicts
use hostpath_provisioner.Base.{
  ℤ, pos, beq_ℤ, Text, bytes, ◌==◌, text_eq, Bool, true, false, ◌||◌, List, [], ◌∷◌, ◌++◌, length,
  Option, none, some, Result, ok, err, Error, errorf, message, if◌then◌else◌, nat_eq, is_empty, not,
}
use hostpath_provisioner.Base.Dict.{Dict}
use hostpath_provisioner.FilePath.{cons_head}
use hostpath_provisioner.Os.{
  Os, MountPointInfo, StoragePoolInfo, FirstName, a_name, eof, name_error,
}
use hostpath_provisioner.Capacity.{get_pv_stats}
use hostpath_provisioner.Pools.{check_path_exist}

-- strings.Split(source, "[")[0]: what stands before the first bracket.
unfoldable pub before_bracket : Text → Text
before_bracket [] = []
before_bracket (c ∷ s) = let rest = before_bracket s in if c == b'[' then [] else c ∷ rest

unfoldable pub has_bracket : Text → Bool
has_bracket [] = false
has_bracket (c ∷ s) = c == b'[' || has_bracket s

unfoldable pub extract_device_from_mount_info_source : Text → Text
unfolding before_bracket has_bracket
extract_device_from_mount_info_source source =
    if has_bracket source then before_bracket source else source

unfoldable pub has_target : Text → List MountPointInfo → Bool
has_target volume_path [] = false
has_target volume_path (m ∷ ms) = m.target == volume_path || has_target volume_path ms

abbrev pub csi_socket_dir : Text
csi_socket_dir = bytes "/csi"

module _ (O : Os) where
  unfoldable pub parse_mount_info : Text → Result (List MountPointInfo)
  parse_mount_info original = elim (O.unmarshal_mounts original) [
    | err e ↦ err e
    | ok [] ↦ err (errorf (bytes "failed to get mount info"))
    | ok (m ∷ ms) ↦ ok (m ∷ ms)
  ]

  parsed_mounts : Text → Result (List MountPointInfo)
  unfolding parse_mount_info
  parsed_mounts out =
      if is_empty out
      then err (errorf (bytes "mount point info is nil"))
      else elim (parse_mount_info out) [
        | err e ↦ err (errorf (bytes "failed to parse the mount infos: " ++ message e))
        | ok infos ↦ ok infos
      ]

  unfoldable pub get_mount_infos : List Text → O.State → Result (List MountPointInfo)
  unfolding parsed_mounts
  get_mount_infos args s = elim (O.look_path (bytes "findmnt") s) [
    | err e ↦ err (errorf (bytes "findmnt not found: " ++ message e))
    | ok cmd_path ↦ elim (O.combined_output cmd_path (args ++ bytes "--json" ∷ []) s) [
      | err e ↦ err e
      | ok out ↦ parsed_mounts out
    ]
  ]

  unfoldable pub check_mount_point_exist : Text → O.State → Result Bool
  unfolding get_mount_infos has_target
  check_mount_point_exist volume_path s = elim (get_mount_infos (volume_path ∷ []) s) [
    | err e ↦ err e
    | ok infos ↦ ok (has_target volume_path infos)
  ]

  -- (available bytes, free inodes)
  unfoldable pub check_pv_usage : Text → O.State → Result (ℤ × ℤ)
  check_pv_usage volume_path s = elim (get_pv_stats O volume_path s) [
    | err e ↦ err e
    | ok info ↦ ok (info.available, info.inodes_free)
  ]

  unfoldable pub check_if_space_available : Text → O.State → Bool × Text
  unfolding check_pv_usage
  check_if_space_available volume_path s = elim (check_pv_usage volume_path s) [
    | err e ↦ (false, message e)
    | ok (available, inodes_free) ↦
        if beq_ℤ available (pos 0)
        then (false, bytes "No space left on device")
        else if beq_ℤ inodes_free (pos 0)
        then (false, bytes "No inodes remaining on device")
        else (true, [])
  ]

  unfoldable pub do_health_check_in_controller_side : Text → O.State → Bool × Text
  do_health_check_in_controller_side volume_path s = elim (check_path_exist O volume_path s) [
    | err e ↦ (false, message e)
    | ok false ↦ (false, bytes "The source path of the volume doesn't exist")
    | ok true ↦ check_if_space_available volume_path s
  ]

  unfoldable pub do_health_check_in_node_side : Text → O.State → Bool × Text
  do_health_check_in_node_side volume_path s = elim (check_mount_point_exist volume_path s) [
    | err e ↦ (false, message e)
    | ok false ↦ (false, bytes "The volume isn't mounted")
    | ok true ↦ check_if_space_available volume_path s
  ]

  unfoldable pub same_device : List MountPointInfo → List MountPointInfo → Bool
  same_device (m ∷ []) (c ∷ []) =
      extract_device_from_mount_info_source m.source
      == extract_device_from_mount_info_source c.source
  same_device _ _ = false

  unfoldable pub check_volume_path_shared_with_os : Text → O.State → Bool
  unfolding same_device
  check_volume_path_shared_with_os volume_path s =
      elim (get_mount_infos (bytes "-T" ∷ volume_path ∷ []) s) [
        | err _ ↦ false
        | ok for_path ↦ elim (get_mount_infos (bytes "-T" ∷ csi_socket_dir ∷ []) s) [
          | err _ ↦ false
          | ok for_socket ↦ same_device for_path for_socket
        ]
      ]

  -- The loop of evaluateSharedPathMetric: whether the gauge is set to 1.
  unfoldable pub evaluate_shared_path_metric : Dict StoragePoolInfo → O.State → Bool
  evaluate_shared_path_metric [] s = false
  evaluate_shared_path_metric ((k, v) ∷ pools) s =
      check_volume_path_shared_with_os v.path s
      || (elim v.snapshot_path [ none ↦ false | some p ↦ check_volume_path_shared_with_os p s ])
      || evaluate_shared_path_metric pools s

  unfoldable pub check_path_is_empty : Text → O.State → Result Bool
  check_path_is_empty path s = elim (O.open_file path s) [
    | err e ↦ err e
    | ok _ ↦ elim (O.first_name path s) [
      | a_name _ ↦ ok false
      | eof ↦ ok true
      | name_error e ↦ err e
    ]
  ]
