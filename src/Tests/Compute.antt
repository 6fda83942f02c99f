-- ===== src/Tests/Compute.antt =====
-- One name that opens every function of the model, for the runs at concrete inputs.
use hostpath_provisioner.FilePath.{
  split, join_slash, is_rooted, push, reduce, render, clean, join, last_word, base, has_slash,
  upto_slash, dir,
}
use hostpath_provisioner.Os.Memory.{is_name, without, children}
use hostpath_provisioner.Capacity.{
  quotient, round_to_units, round_down_capacity_pretty, fs_numbers, fs_info, get_pv_stats,
  get_volume_dir_capacity,
}
use hostpath_provisioner.Pools.{
  get_storage_pool_name_from_map, pool_path, insert_sorted, sort_strings, entry_directories,
  find_volume, index_from, index_of_starting_token, index_of_snapshot_id, check_path_exist,
  collect_directories, get_storage_pool_data_directories, create_volume_directory,
  create_snapshot_directory, delete_volume_directory,
}
use hostpath_provisioner.Health.{
  before_bracket, has_bracket, extract_device_from_mount_info_source, has_target, parse_mount_info,
  get_mount_infos, check_mount_point_exist, check_pv_usage, check_if_space_available,
  do_health_check_in_controller_side, do_health_check_in_node_side,
  check_volume_path_shared_with_os, evaluate_shared_path_metric, check_path_is_empty,
}
use hostpath_provisioner.Snapshots.{
  source_entry, of_volume, reflink_copy, ensure_path_exists, initialize, get_source_volume_id,
  get_snapshot_by_id, snapshots_of_entries, get_all_snapshots, get_snapshots_by_volume_source_id,
  create_snapshot_from_dir, create_snapshot, delete_snapshot, restore_snapshot,
}
use hostpath_provisioner.Controller.{
  slice, make_providers, new_host_path_controller, capacity_map, capacity_at,
  controller_get_capabilities, controller_publish_volume, controller_unpublish_volume,
  controller_expand_volume, controller_modify_volume,
}
use hostpath_provisioner.Controller.Volumes.{
  is_mount, any_mount, validate_create_volume_request, names_node,
  validate_create_volume_request_topology, volume_topologies, validate_delete_volume_request,
  all_mounts, restore_from_snapshot, ensure_volume_directory, drop_after_restore, restore_content,
  create_in_pool, create_volume, get_volume_directories, delete_found, delete_volume,
  validate_volume_capabilities, get_capacity,
}
use hostpath_provisioner.Controller.Listing.{
  validate_list_volumes_request, check_starting_token, page_start, page_end, volume_entry,
  volume_entries, volume_next_token, list_page, list_directories, list_volumes,
  controller_get_volume,
}
use hostpath_provisioner.Controller.Snaps.{
  validate_create_snapshot_request, snapshot_end, snapshot_next_token, snapshot_page, snapshots_for,
  collect_snapshots, delete_everywhere, find_or_create, ensure_initialized, create_snapshot_in_pool,
  controller_create_snapshot, controller_delete_snapshot, list_snapshots,
}
use hostpath_provisioner.Decimal.{parse_uint, format_int}
use hostpath_provisioner.Node.{
  validate_request_capabilities, validate_node_publish_request, fs_type_of, mount_options,
  is_ephemeral_volume_request, is_ephemeral_volume_id, get_ephemeral_volume_path,
  validate_node_unpublish_request, validate_node_get_volume_stats_request, node_get_volume_stats,
  node_get_info, node_get_capabilities, node_stage_volume, node_unstage_volume, node_expand_volume,
}
use hostpath_provisioner.Node.Mount.{
  removal_note, mount_failed, can_mount_volume, volume_source_path, mount_volume_at,
  node_publish_volume,
}
use hostpath_provisioner.Node.Unmount.{
  unmount_target, remove_found, remove_ephemeral_path, remove_target, remove_ephemeral,
  node_unpublish_volume,
}
use hostpath_provisioner.Driver.{
  validate_config, register_pools, make_data_roots, new_host_path_driver, get_plugin_info,
  get_plugin_capabilities, probe,
}
use hostpath_provisioner.Server.{
  to_lower, drop_mark, split_mark, has_scheme, parse, remove_stale, listen, get_tls_version,
  metrics_tls,
}
use hostpath_provisioner.Provisioner.{
  new_host_path_provisioner, is_correct_node, is_correct_node_by_binding_mode, volume_object,
  volume_path, deletion_check, calculate_pv_capacity, should_provision, provision, delete,
}
use hostpath_provisioner.Controller.Listing.Pages.{page_stop, next_token_of}
use hostpath_provisioner.Base.{
  text_beq, has_prefix, text_leb, contains, message, to_int64, bits64, ◌*ℤ◌,
}
use hostpath_provisioner.Base.Dict.{lookup, insert, value_or_empty}
use hostpath_provisioner.Os.Laws.{has_directory}

unfoldable pub everything : Unit {0}
unfolding split join_slash is_rooted push reduce render clean join last_word base has_slash
    upto_slash dir is_name without children quotient round_to_units round_down_capacity_pretty
    fs_numbers fs_info get_pv_stats get_volume_dir_capacity get_storage_pool_name_from_map pool_path
    insert_sorted sort_strings entry_directories find_volume index_from index_of_starting_token
    index_of_snapshot_id check_path_exist collect_directories get_storage_pool_data_directories
    create_volume_directory create_snapshot_directory delete_volume_directory before_bracket
    has_bracket extract_device_from_mount_info_source has_target parse_mount_info get_mount_infos
    check_mount_point_exist check_pv_usage check_if_space_available
    do_health_check_in_controller_side do_health_check_in_node_side check_volume_path_shared_with_os
    evaluate_shared_path_metric check_path_is_empty source_entry of_volume reflink_copy
    ensure_path_exists initialize get_source_volume_id get_snapshot_by_id snapshots_of_entries
    get_all_snapshots get_snapshots_by_volume_source_id create_snapshot_from_dir create_snapshot
    delete_snapshot restore_snapshot slice make_providers new_host_path_controller capacity_map
    capacity_at controller_get_capabilities controller_publish_volume controller_unpublish_volume
    controller_expand_volume controller_modify_volume is_mount any_mount
    validate_create_volume_request names_node validate_create_volume_request_topology
    volume_topologies validate_delete_volume_request all_mounts restore_from_snapshot
    ensure_volume_directory drop_after_restore restore_content create_in_pool create_volume
    get_volume_directories delete_found delete_volume validate_volume_capabilities get_capacity
    validate_list_volumes_request check_starting_token page_start page_end volume_entry
    volume_entries volume_next_token list_page list_directories list_volumes controller_get_volume
    validate_create_snapshot_request snapshot_end snapshot_next_token snapshot_page snapshots_for
    collect_snapshots delete_everywhere find_or_create ensure_initialized create_snapshot_in_pool
    controller_create_snapshot controller_delete_snapshot list_snapshots parse_uint format_int
    validate_request_capabilities validate_node_publish_request fs_type_of mount_options
    is_ephemeral_volume_request is_ephemeral_volume_id get_ephemeral_volume_path
    validate_node_unpublish_request validate_node_get_volume_stats_request removal_note mount_failed
    can_mount_volume volume_source_path mount_volume_at node_publish_volume unmount_target
    remove_found remove_ephemeral_path remove_target remove_ephemeral node_unpublish_volume
    node_get_volume_stats node_get_info node_get_capabilities node_stage_volume node_unstage_volume
    node_expand_volume validate_config register_pools make_data_roots new_host_path_driver
    get_plugin_info get_plugin_capabilities probe to_lower drop_mark split_mark has_scheme parse
    remove_stale listen get_tls_version metrics_tls new_host_path_provisioner is_correct_node
    is_correct_node_by_binding_mode volume_object volume_path deletion_check calculate_pv_capacity
    should_provision provision delete page_stop next_token_of text_beq has_prefix text_leb contains
    message to_int64 bits64 ◌*ℤ◌ lookup insert value_or_empty has_directory
everything = tt
