-- ===== src/Controller/Listing/Pages/Tokens.antt =====
-- The first page of ListVolumes, the volume that its tokens lose, and the tokens that are refused.
use hostpath_provisioner.Base.{
  ℕ, suc, ◌+◌, ◌-◌, ◌≤◌, ◌<◌, ℤ, pos, ◌≡◌, refl, ◌∙◌, ap, false, List, [], ◌∷◌, length, take,
  length-take, take_all, get_elem?, none, some, Text, bytes, is_empty, ok, status, aborted, returns,
  fails, arith, true, ◌↔◌,
}
use hostpath_provisioner.Base.Dict.{Dict}
use hostpath_provisioner.FilePath.{base, dir}
use hostpath_provisioner.Decimal.{parse_uint}
use hostpath_provisioner.Os.{Os}
use hostpath_provisioner.Csi.{ListVolumesRequest, ListVolumesResponse, VolumeEntry}
use hostpath_provisioner.Health.{do_health_check_in_controller_side}
use hostpath_provisioner.Controller.{HostPathController, capacity_map, capacity_at}
use hostpath_provisioner.Controller.Volumes.{get_volume_directories}
use hostpath_provisioner.Controller.Listing.{
  validate_list_volumes_request, check_starting_token, volume_entries, list_volumes,
}
use hostpath_provisioner.Controller.Listing.Pages.{
  page_stop, next_token_of, page_response, list_first,
}

abbrev pub request : ℕ → Text → ListVolumesRequest
request m token = record { max_entries = pos m; starting_token = token }

stop_all : (n : ℕ) → page_stop 0 0 n ≡ n
unfolding page_stop
stop_all n = ground arith

stop_at : (m n : ℕ) → 0 < m → m ≤ n → page_stop 0 m n ≡ m
unfolding page_stop
stop_at m n h k = ground arith

next_token_none : (dirs : List Text) (e : ℕ) → length dirs ≤ e + 1 → next_token_of dirs e ≡ []
unfolding next_token_of
next_token_none dirs e h = ground arith

next_token_some :
    (dirs : List Text) (e : ℕ) (x : Text)
    → e + 1 < length dirs
    → get_elem? dirs e ≡ some x
    → next_token_of dirs e ≡ base x
unfolding next_token_of
next_token_some dirs e x h k = ground arith

module _ (O : Os) (hpc : HostPathController O.State) (s : O.State) (capacities : Dict ℤ) where
  -- What an entry says of a volume directory: its last element, the node, the capacity that was read
  -- for its parent, and whether its health check fails.
  abbrev pub Describes : Text → VolumeEntry → Type 0
  Describes d e =
      (e.volume_id ≡ base d)
      × (e.published_node_ids ≡ hpc.cfg.node_id ∷ [])
      × (e.capacity_bytes ≡ capacity_at (dir d) capacities)
      × (e.condition.message ≡ (do_health_check_in_controller_side O d s).1)
      × ((e.condition.abnormal ≡ false) ↔ ((do_health_check_in_controller_side O d s).0 ≡ true))

  -- The entries describe the directories, one each, in their order.
  abbrev pub AllDescribed : List Text → List VolumeEntry → Type 0
  AllDescribed [] [] = Unit
  AllDescribed (d ∷ ds) (e ∷ es) = Describes d e × AllDescribed ds es
  AllDescribed [] (e ∷ es) = ⊥
  AllDescribed (d ∷ ds) [] = ⊥

module _ (O : Os) (hpc : HostPathController O.State) (s : O.State) (capacities : Dict ℤ)
    (capacities_read : capacity_map O hpc.cfg.storage_pool_info [] s ≡ ok capacities) where
  length-volume_entries :
      (ds : List Text) → length (volume_entries O hpc capacities s ds) ≡ length ds
  unfolding volume_entries
  length-volume_entries [] = refl
  length-volume_entries (d ∷ ds) = ap suc (length-volume_entries ds)

  list_volumes_first :
      (d : Text) (ds : List Text) (m : ℕ)
      → get_volume_directories O hpc s ≡ ok (d ∷ ds)
      → list_volumes O hpc (some (request m [])) s
        ≡ (returns (page_response O hpc capacities (d ∷ ds) 0 m s), s)
  unfolding list_volumes validate_list_volumes_request check_starting_token
  list_volumes_first d ds m h = ground (arith, list_first O hpc capacities d ds m s)

  -- The first page with no limit, as the loop over the directories.
  pub list_volumes-volume_entries :
      (d : Text) (ds : List Text)
      → get_volume_directories O hpc s ≡ ok (d ∷ ds)
      → list_volumes O hpc (some (request 0 [])) s ≡ (
        returns (record { entries = volume_entries O hpc capacities s (d ∷ ds); next_token = [] }),
        s,
      )
  list_volumes-volume_entries d ds h =
      list_volumes_first d ds 0 h
      ∙ rw (
        stop_all (length (d ∷ ds)),
        next_token_none (d ∷ ds) (length (d ∷ ds)) (omega arith),
        take_all (length (d ∷ ds) - 0) (d ∷ ds) (omega arith),
      )

  -- Where the capacities of the pools can be read: with at least two volumes, no token, and a
  -- limit of one less than their number, ListVolumes returns all but one of them and no token for
  -- the last.
  pub list_volumes_loses_last :
      (d : Text) (ds : List Text)
      → 0 < length ds
      → get_volume_directories O hpc s ≡ ok (d ∷ ds)
      → (resp : ListVolumesResponse) × (list_volumes O hpc (some (request (length ds) [])) s
          ≡ (returns resp, s))
        × (resp.next_token ≡ [])
        × (length resp.entries + 1 ≡ length (d ∷ ds))
  list_volumes_loses_last d ds h k = (
    page_response O hpc capacities (d ∷ ds) 0 (length ds) s,
    list_volumes_first d ds (length ds) k,
    rw (stop_at (length ds) (length (d ∷ ds)) h (omega arith))
        (next_token_none (d ∷ ds) (length ds) (omega arith)),
    rw
        (
          stop_at (length ds) (length (d ∷ ds)) h (omega arith),
          length-volume_entries (take (length ds - 0) (d ∷ ds)),
          length-take (length ds - 0) (d ∷ ds),
        )
        (omega arith),
  )

  refused :
      (ds : List Text) (m : ℕ) (token : Text)
      → get_volume_directories O hpc s ≡ ok ds
      → is_empty token ≡ false
      → parse_uint token ≡ none
      → list_volumes O hpc (some (request m token)) s
        ≡ (fails (status aborted (bytes "the type of startingToken should be integer")), s)
  unfolding list_volumes validate_list_volumes_request check_starting_token
  refused ds m token h k l = ground arith

  -- Where the capacities of the pools can be read: with a limit and at least two volumes behind
  -- the first page, the page's token is the name of the next volume; where that name is not empty
  -- and no number of 32 bits, ListVolumes refuses with Aborted the token that it gave out.
  pub list_volumes_refuses_token :
      (d : Text) (ds : List Text) (m : ℕ) (next : Text)
      → 0 < m
      → m + 1 < length (d ∷ ds)
      → get_volume_directories O hpc s ≡ ok (d ∷ ds)
      → get_elem? (d ∷ ds) m ≡ some next
      → is_empty (base next) ≡ false
      → parse_uint (base next) ≡ none
      → (resp : ListVolumesResponse) × (list_volumes O hpc (some (request m [])) s
          ≡ (returns resp, s))
        × (resp.next_token ≡ base next)
        × (list_volumes O hpc (some (request m resp.next_token)) s
            ≡ (fails (status aborted (bytes "the type of startingToken should be integer")), s))
  list_volumes_refuses_token d ds m next h k l f g p =
      let token : next_token_of (d ∷ ds) (page_stop 0 m (length (d ∷ ds))) ≡ base next =
        rw (stop_at m (length (d ∷ ds)) h (omega arith)) (next_token_some (d ∷ ds) m next k f) in
      (
        page_response O hpc capacities (d ∷ ds) 0 m s,
        list_volumes_first d ds m l,
        token,
        rw token (refused (d ∷ ds) m (base next) l g p),
      )
