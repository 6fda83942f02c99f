-- ===== src/Controller/Listing.antt =====
-- ListVolumes and ControllerGetVolume.
pub mod Get
pub mod Pages
use hostpath_provisioner.Base.{
  ℕ, ℤ, pos, negsuc, ◌+ℤ◌, ◌-ℤ◌, ltb_ℤ, beq_ℤ, Text, bytes, ◌==◌, text_eq, is_empty, Bool, true,
  false, not, List, [], ◌∷◌, ◌++◌, length, get_elem?, Option, none, some, Result, ok, err, Error,
  status, not_found, aborted, if◌then◌else◌, Exec, pure, fail, lift, deref, read, gets, ◌>>=◌, ◌>>◌,
}
use hostpath_provisioner.Base.Dict.{Dict}
use hostpath_provisioner.FilePath.{base, dir}
use hostpath_provisioner.Decimal.{parse_uint}
use hostpath_provisioner.Os.{Os}
use hostpath_provisioner.Csi.{ListVolumesRequest, ListVolumesResponse, VolumeEntry}
use hostpath_provisioner.Health.{do_health_check_in_controller_side}
use hostpath_provisioner.Pools.{Config, find_volume, index_of_starting_token}
use hostpath_provisioner.Controller.{HostPathController, slice, capacity_map, capacity_at}
use hostpath_provisioner.Controller.Volumes.{invalid, get_volume_directories}

unfoldable pub validate_list_volumes_request : Option ListVolumesRequest → Result (Unit {0})
validate_list_volumes_request none = err (invalid (bytes "missing request"))
validate_list_volumes_request (some req) =
    if ltb_ℤ req.max_entries (pos 0) then err (invalid (bytes "maxEntries < 0")) else ok tt

-- A token that is given has to be a number of 32 bits.
unfoldable pub check_starting_token : Text → Result (Unit {0})
check_starting_token token = if is_empty token then ok tt else elim (parse_uint token) [
  | none ↦ err (status aborted (bytes "the type of startingToken should be integer"))
  | some _ ↦ ok tt
]

-- Where the page begins, whether -1 or an index, where it ends, and how many volumes there are.
unfoldable pub page_start : Text → List Text → ℤ
page_start token dirs = index_of_starting_token token dirs

unfoldable pub page_end : ℤ → ℤ → ℤ → ℤ
page_end start max_entries total =
    let max_length = if beq_ℤ max_entries (pos 0) then total else max_entries in
    let end = start +ℤ max_length in if ltb_ℤ total end then total else end

abbrev pub at_index {ℓ} : {A : Type ℓ} → List A → ℤ → Option A
at_index xs (pos i) = get_elem? xs i
at_index xs (negsuc i) = none

module _ (O : Os) (hpc : HostPathController O.State) where
  open hpc use {cfg}

  unfoldable pub volume_entry : Dict ℤ → O.State → Text → VolumeEntry
  volume_entry capacities s volume_dir =
      let (healthy, msg) = do_health_check_in_controller_side O volume_dir s in
      record {
        volume_id = base volume_dir;
        capacity_bytes = capacity_at (dir volume_dir) capacities;
        published_node_ids = cfg.node_id ∷ [];
        condition = record { abnormal = not healthy; message = msg };
      }

  -- The loop over volumeDirs[start:end].
  unfoldable pub volume_entries : Dict ℤ → O.State → List Text → List VolumeEntry
  volume_entries capacities s [] = []
  volume_entries capacities s (d ∷ dirs) =
      volume_entry capacities s d ∷ volume_entries capacities s dirs

  -- NextToken: volumeDirs[end], which panics out of range.
  unfoldable pub volume_next_token : List Text → ℤ → Exec O.State Text
  volume_next_token dirs end =
      if ltb_ℤ end (pos (length dirs) -ℤ pos 1)
      then (do next ← deref (at_index dirs end); pure (base next))
      else pure []

  -- The page of a list that is not empty.
  unfoldable pub list_page : Dict ℤ → List Text → Text → ℤ → Exec O.State ListVolumesResponse
  list_page capacities dirs token max_entries = do
    let start = page_start token dirs
    let end = page_end start max_entries (pos (length dirs))
    if beq_ℤ start (negsuc 0)
        then fail (invalid (bytes "volume " ++ token ++ bytes " not found"))
        else do
          page ← deref (slice dirs start end)
          entries ← gets (λ s. volume_entries capacities s page)
          next_token ← volume_next_token dirs end
          pure (record { entries = entries; next_token = next_token })

  unfoldable pub list_directories : Dict ℤ → List Text → Text → ℤ → Exec O.State ListVolumesResponse
  list_directories capacities [] token max_entries =
      if is_empty token
      then pure (record { entries = []; next_token = [] })
      else fail (status aborted (bytes "volume " ++ token ++ bytes " not found"))
  list_directories capacities (d ∷ dirs) token max_entries =
      list_page capacities (d ∷ dirs) (if is_empty token then base d else token) max_entries

  unfoldable pub list_volumes : Option ListVolumesRequest → Exec O.State ListVolumesResponse
  list_volumes request = do
    lift (validate_list_volumes_request request)
    req ← deref request
    capacities ← read (capacity_map O cfg.storage_pool_info [])
    dirs ← read (get_volume_directories O hpc)
    lift (check_starting_token req.starting_token)
    list_directories capacities dirs req.starting_token req.max_entries

  -- The request is its volume id.
  unfoldable pub controller_get_volume : Option Text → Exec O.State VolumeEntry
  controller_get_volume none = fail (invalid (bytes "missing request"))
  controller_get_volume (some volume_id) =
      if is_empty volume_id then fail (invalid (bytes "volume ID not provided")) else do
        capacities ← read (capacity_map O cfg.storage_pool_info [])
        dirs ← read (get_volume_directories O hpc)
        let volume_path = find_volume dirs volume_id
        if is_empty volume_path
            then fail (status not_found (bytes "volume " ++ volume_id ++ bytes " not found"))
            else gets
                (λ s. record (volume_entry capacities s volume_path) { volume_id = volume_id })
