-- ===== src/Controller/Listing/Get.antt =====
-- ControllerGetVolume against ListVolumes.
use hostpath_provisioner.Base.{
  ℕ, ℤ, zero, suc, ◌≡◌, refl, false, List, [], ◌∷◌, some, Text, is_empty, ok, get_elem?, returns,
  arith,
}
use hostpath_provisioner.Base.Dict.{Dict}
use hostpath_provisioner.FilePath.{base}
use hostpath_provisioner.Os.{Os}
use hostpath_provisioner.Csi.{ListVolumesResponse, VolumeEntry}
use hostpath_provisioner.Pools.{find_volume}
use hostpath_provisioner.Pools.Finding.{All, find_volume_inv}
use hostpath_provisioner.Controller.{HostPathController, capacity_map}
use hostpath_provisioner.Controller.Volumes.{get_volume_directories}
use hostpath_provisioner.Controller.Listing.{
  volume_entry, volume_entries, list_volumes, controller_get_volume,
}
use hostpath_provisioner.Controller.Listing.Pages.Tokens.{request, list_volumes-volume_entries}

-- The text stands at some place in the list.
abbrev pub IsListed : List Text → Text → Type 0
IsListed ds d = (j : ℕ) × (get_elem? ds j ≡ some d)

All-more : (d : Text) (ds es : List Text) → All (IsListed ds) es → All (IsListed (d ∷ ds)) es
All-more d ds [] h = tt
All-more d ds (e ∷ es) ((j, at_j), h) = ((suc j, at_j), All-more d ds es h)

All-IsListed : (ds : List Text) → All (IsListed ds) ds
All-IsListed [] = tt
All-IsListed (d ∷ ds) = ((0, refl), All-more d ds ds (All-IsListed ds))

module _ (O : Os) (hpc : HostPathController O.State) (s : O.State) (capacities : Dict ℤ) where
  get_elem?-volume_entries :
      (ds : List Text) (j : ℕ) (d : Text)
      → get_elem? ds j ≡ some d
      → get_elem? (volume_entries O hpc capacities s ds) j
        ≡ some (volume_entry O hpc capacities s d)
  unfolding volume_entries
  get_elem?-volume_entries [] j d h = absurd (ground arith)
  get_elem?-volume_entries (x ∷ ds) zero d h = let e : x ≡ d = ground arith in rw e refl
  get_elem?-volume_entries (x ∷ ds) (suc j) d h = get_elem?-volume_entries ds j d h

  controller_get_volume_found :
      (id : Text) (ds : List Text)
      → is_empty id ≡ false
      → capacity_map O hpc.cfg.storage_pool_info [] s ≡ ok capacities
      → get_volume_directories O hpc s ≡ ok ds
      → is_empty (find_volume ds id) ≡ false
      → base (find_volume ds id) ≡ id
      → controller_get_volume O hpc (some id) s
        ≡ (returns (volume_entry O hpc capacities s (find_volume ds id)), s)
  unfolding controller_get_volume volume_entry
  controller_get_volume_found id ds h k l m named = ground arith

  -- Where the capacities of the pools can be read and the search by an id that is not empty finds a
  -- volume directory, ControllerGetVolume of the id returns an entry that is one of those that
  -- ListVolumes with no limit and no token returns, with that id, and changes nothing.
  pub controller_get_volume-list_volumes :
      (id d : Text) (ds : List Text)
      → is_empty id ≡ false
      → capacity_map O hpc.cfg.storage_pool_info [] s ≡ ok capacities
      → get_volume_directories O hpc s ≡ ok (d ∷ ds)
      → is_empty (find_volume (d ∷ ds) id) ≡ false
      → (entry : VolumeEntry) × (resp : ListVolumesResponse) × (j : ℕ) × (controller_get_volume O
            hpc
            (some id)
            s
          ≡ (returns entry, s))
        × (list_volumes O hpc (some (request 0 [])) s ≡ (returns resp, s))
        × (get_elem? resp.entries j ≡ some entry)
        × (entry.volume_id ≡ id)
  controller_get_volume-list_volumes id d ds h k l m =
      let dirs = d ∷ ds in
      let ((j, at_j), named) = find_volume_inv (IsListed dirs) dirs id (All-IsListed dirs) m in
      (
        volume_entry O hpc capacities s (find_volume dirs id),
        record { entries = volume_entries O hpc capacities s dirs; next_token = [] },
        j,
        controller_get_volume_found id dirs h k l m named,
        list_volumes-volume_entries O hpc s capacities k d ds l,
        get_elem?-volume_entries dirs j (find_volume dirs id) at_j,
        (unfold volume_entry in named),
      )
