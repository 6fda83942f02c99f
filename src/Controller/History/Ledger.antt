-- ===== src/Controller/History/Ledger.antt =====
-- The volumes on account and the machine.
use hostpath_provisioner.Base.{
  ◌≡◌, refl, ◌∙◌, true, List, [], ◌∷◌, none, some, ok, ℤ, returns, arith, pair_eq, Outcome-cases,
  Bool-cases, inl, inr,
}
use hostpath_provisioner.FilePath.{join}
use hostpath_provisioner.Os.{Os, StoragePoolInfo}
use hostpath_provisioner.Os.Frame.{Present, IsFramed}
use hostpath_provisioner.Os.Laws.{IsLawful}
use hostpath_provisioner.Csi.{CreateVolumeRequest, Volume}
use hostpath_provisioner.Capacity.{get_volume_dir_capacity}
use hostpath_provisioner.Pools.{Config, get_storage_pool_name_from_map, pool_path}
use hostpath_provisioner.Pools.Finding.{AllPaths}
use hostpath_provisioner.Controller.{HostPathController, new_host_path_controller}
use hostpath_provisioner.Controller.Volumes.{create_volume}
use hostpath_provisioner.Controller.Volumes.Checks.{Accepts}
use hostpath_provisioner.Controller.Volumes.Create.{
  pool_of, the_volume, create_volume-eq-create_in_pool, create_in_pool_existing,
}
use hostpath_provisioner.Controller.History.{
  Call, create_volume_call, delete_volume_call, validate_call, get_capacity_call, list_volumes_call,
  get_volume_call, create_snapshot_call, delete_snapshot_call, list_snapshots_call, handle, serve,
  may_remove, spares, all_spare, Accounts, strike, enter, account, history,
}
use hostpath_provisioner.Controller.History.Made.{create_volume-made, Present-check_path_exist}
use hostpath_provisioner.Controller.History.Served.{handle-Keeps, providers-Keep, serve_lem}

-- Something is at the path of every volume.
abbrev pub AllThere : (O : Os) → Accounts → O.State → Type 0
AllThere O [] s = Unit
AllThere O (ps ∷ accounts) s = Present O (join ps) s × AllThere O accounts s

module _ (O : Os) (L : IsLawful O) (F : IsFramed O) (cfg : Config)
    (hpc : HostPathController O.State) (made : new_host_path_controller O cfg ≡ some hpc)
    (paths : AllPaths hpc.cfg.storage_pool_info) where
  strike-AllThere :
      (call : Call) (accounts : Accounts) (s : O.State)
      → AllThere O accounts s
      → AllThere O (strike (may_remove hpc.cfg call) accounts) (handle O hpc call s).1
  unfolding strike
  strike-AllThere call [] s _ = tt
  strike-AllThere call (ps ∷ accounts) s (there, rest) =
      elim (Bool-cases (spares (may_remove hpc.cfg call) (join ps))) [
        | inl e ↦ rw e (
          (handle-Keeps O L F cfg hpc made paths ps call e).behind s there,
          strike-AllThere call accounts s rest,
        )
        | inr e ↦ rw e (strike-AllThere call accounts s rest)
      ]

  enter-AllThere :
      (call : Call) (accounts : Accounts) (s : O.State)
      → AllThere O accounts (handle O hpc call s).1
      → AllThere O (enter hpc.cfg call (handle O hpc call s).0 accounts) (handle O hpc call s).1
  unfolding enter handle
  enter-AllThere (create_volume_call none) accounts s there = there
  enter-AllThere (create_volume_call (some req)) accounts s there =
      let path = pool_path hpc.cfg (get_storage_pool_name_from_map req.parameters) in
      let call = create_volume O hpc (some req) s in
      elim (Outcome-cases call.0) [
        | inl (vol, p) ↦
            let placed =
              create_volume-made O L F hpc path req.name
                (providers-Keep O L F cfg hpc made paths (path ∷ req.name ∷ [])) req s call.1 vol
                refl refl (pair_eq call p refl) in
            rw p (placed, rw p at there)
        | inr (inl (e, p)) ↦ rw p (rw p at there)
        | inr (inr p) ↦ rw p (rw p at there)
      ]
  enter-AllThere (delete_volume_call req) accounts s there = there
  enter-AllThere (validate_call req) accounts s there = there
  enter-AllThere (get_capacity_call req) accounts s there = there
  enter-AllThere (list_volumes_call req) accounts s there = there
  enter-AllThere (get_volume_call req) accounts s there = there
  enter-AllThere (create_snapshot_call req) accounts s there = there
  enter-AllThere (delete_snapshot_call req) accounts s there = there
  enter-AllThere (list_snapshots_call req) accounts s there = there

  -- On a machine that meets IsLawful and IsFramed, with a controller that NewHostPathController has
  -- made and whose pools have their paths set: the controller keeps the contract that `account`
  -- states. Where something is at the path of every volume that is on account, then after any calls,
  -- each of which may succeed, fail or panic, something is at the path of every volume that is on
  -- account behind the history of these calls and their results: CreateVolume enters its volume
  -- when it has returned, and a call strikes the volumes that it may remove.
  pub account-AllThere :
      (calls : List Call) (accounts : Accounts) (s : O.State)
      → AllThere O accounts s
      → AllThere O (account hpc.cfg (history O hpc calls s) accounts) (serve O hpc calls s)
  unfolding account history serve
  account-AllThere [] accounts s there = there
  account-AllThere (call ∷ calls) accounts s there =
      account-AllThere calls _ (handle O hpc call s).1 (
        enter-AllThere call (strike (may_remove hpc.cfg call) accounts) s
          (strike-AllThere call accounts s there))

  -- On a machine that meets IsLawful and IsFramed, with a controller that NewHostPathController has
  -- made and whose pools have their paths set: where CreateVolume of a request that passes its
  -- checks, with a pool that is configured and no content source, has returned, and any calls
  -- follow, none of which may remove the volume's directory, then with the capacity of the pool
  -- readable the same request returns the volume again and changes nothing.
  pub create_volume-serve :
      (req : CreateVolumeRequest) (pool : StoragePoolInfo) (calls : List Call) (s s' : O.State)
      (vol : Volume) (c : ℤ)
      → Accepts hpc.cfg req
      → pool_of O hpc req ≡ some pool
      → req.volume_content_source ≡ none
      → create_volume O hpc (some req) s ≡ (returns vol, s')
      → all_spare hpc.cfg calls (join (pool.path ∷ req.name ∷ [])) ≡ true
      → get_volume_dir_capacity O pool.path (serve O hpc calls s') ≡ ok c
      → create_volume O hpc (some req) (serve O hpc calls s')
        ≡ (returns (the_volume O hpc req pool c), serve O hpc calls s')
  unfolding pool_path
  create_volume-serve req pool calls s s' vol c accepted found no_source h spared readable =
      let ps = pool.path ∷ req.name ∷ [] in
      let named : pool_path hpc.cfg (get_storage_pool_name_from_map req.parameters) ≡ pool.path =
        ground arith in
      let placed =
        create_volume-made O L F hpc pool.path req.name (providers-Keep O L F cfg hpc made paths ps)
          req s s' vol named refl h in
      let kept = serve_lem O L F cfg hpc made paths ps calls s' spared placed in
      create_volume-eq-create_in_pool O hpc req pool (serve O hpc calls s') accepted found
      ∙ create_in_pool_existing O hpc req (get_storage_pool_name_from_map req.parameters) pool
          (serve O hpc calls s') c no_source readable
          (Present-check_path_exist O (join ps) (serve O hpc calls s') kept)
