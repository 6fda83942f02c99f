-- ===== src/Controller/History/Served.antt =====
-- What a history of calls leaves at a path that all of them spare.
use hostpath_provisioner.Base.{
  ◌≡◌, Text, text_eq, true, List, [], ◌∷◌, none, some, Exec, Keeps, pure-Keeps, bind-Keeps, arith,
  Option-cases, inl, inr,
}
use hostpath_provisioner.Base.Dict.{Dict}
use hostpath_provisioner.FilePath.{join}
use hostpath_provisioner.Os.{Os, StoragePoolInfo}
use hostpath_provisioner.Os.Frame.{Present, IsFramed}
use hostpath_provisioner.Os.Laws.{IsLawful}
use hostpath_provisioner.Pools.{Config}
use hostpath_provisioner.Pools.Finding.{AllPaths}
use hostpath_provisioner.Snapshots.Keeping.{
  ProviderKeeps, reflink_provider-Keeps, delete_snapshot-Keeps,
}
use hostpath_provisioner.Controller.{HostPathController, new_host_path_controller}
use hostpath_provisioner.Controller.Providers.{
  AllProviders, AllPools, new_host_path_controller-AllProviders, new_host_path_controller-cfg,
}
use hostpath_provisioner.Controller.History.{
  Call, create_volume_call, delete_volume_call, validate_call, get_capacity_call, list_volumes_call,
  get_volume_call, create_snapshot_call, delete_snapshot_call, list_snapshots_call, Reply, handle,
  serve, may_remove, snapshot_paths, spares, all_spare, answer,
}
use hostpath_provisioner.Controller.History.Keeping.{There, delete_volume-Keeps}
use hostpath_provisioner.Controller.History.Handlers.{
  create_volume-Keeps, controller_create_snapshot-Keeps,
}
use hostpath_provisioner.Controller.History.Queries.{
  validate_volume_capabilities-Keeps, get_capacity-Keeps, list_volumes-Keeps,
  controller_get_volume-Keeps, list_snapshots-Keeps, controller_delete_snapshot-Keeps,
  delete_nothing-Keeps,
}

module _ (O : Os) (L : IsLawful O) (F : IsFramed O) (cfg : Config)
    (hpc : HostPathController O.State) (made : new_host_path_controller O cfg ≡ some hpc)
    (paths : AllPaths hpc.cfg.storage_pool_info) where
  module _ (ps : List Text) where
    abbrev P : O.State → Type 0
    P = There O F hpc ps

    pools-Keeps :
        (node_id : Text) (pools : Dict StoragePoolInfo) → AllPools O (ProviderKeeps P) node_id pools
    pools-Keeps node_id [] = tt
    pools-Keeps node_id ((k, info) ∷ pools) =
        (λ kind path _ _. reflink_provider-Keeps O F ps _, pools-Keeps node_id pools)

    pub providers-Keep : AllProviders (ProviderKeeps P) hpc.snapshot_providers
    providers-Keep =
        new_host_path_controller-AllProviders O (ProviderKeeps P) cfg hpc
          (pools-Keeps cfg.node_id cfg.storage_pool_info) made

    pools-delete :
        (id node_id : Text) (pools : Dict StoragePoolInfo)
        → spares (snapshot_paths pools id) (join ps) ≡ true
        → AllPools O (λ p. Keeps P (p.delete_snapshot id)) node_id pools
    unfolding snapshot_paths spares
    pools-delete id node_id [] spared = tt
    pools-delete id node_id ((k, info) ∷ pools) spared = (
      λ kind path _ has_path. delete_snapshot-Keeps O F ps _ id (ground arith),
      pools-delete id node_id pools (elim (Option-cases info.snapshot_path) [
        | inl e ↦ ground arith
        | inr (path, e) ↦ ground arith
      ]),
    )

    answer-Keeps :
        {A : Type 0} (reply : A → Reply) (m : Exec O.State A) → Keeps P m → Keeps P (answer reply m)
    answer-Keeps reply m k = bind-Keeps P m _ k (λ a. pure-Keeps P (reply a))

    pub handle-Keeps :
        (call : Call)
        → spares (may_remove hpc.cfg call) (join ps) ≡ true
        → Keeps P (handle O hpc call)
    unfolding handle may_remove
    handle-Keeps (create_volume_call req) spared =
        answer-Keeps _ _ (create_volume-Keeps O F hpc ps providers-Keep req spared)
    handle-Keeps (delete_volume_call req) spared =
        answer-Keeps _ _ (delete_volume-Keeps O F hpc ps L paths req spared)
    handle-Keeps (validate_call req) spared =
        answer-Keeps _ _ (validate_volume_capabilities-Keeps O hpc P req)
    handle-Keeps (get_capacity_call req) spared = answer-Keeps _ _ (get_capacity-Keeps O hpc P req)
    handle-Keeps (list_volumes_call req) spared = answer-Keeps _ _ (list_volumes-Keeps O hpc P req)
    handle-Keeps (get_volume_call req) spared =
        answer-Keeps _ _ (controller_get_volume-Keeps O hpc P req)
    handle-Keeps (create_snapshot_call req) spared =
        answer-Keeps _ _ (controller_create_snapshot-Keeps O F hpc ps providers-Keep req)
    handle-Keeps (delete_snapshot_call none) spared =
        answer-Keeps _ _ (delete_nothing-Keeps O hpc P)
    handle-Keeps (delete_snapshot_call (some id)) spared = answer-Keeps _ _ (
        controller_delete_snapshot-Keeps O hpc P id (
          new_host_path_controller-AllProviders O (λ p. Keeps P (p.delete_snapshot id)) cfg hpc
            (pools-delete id cfg.node_id cfg.storage_pool_info
              (rw (← new_host_path_controller-cfg O cfg hpc made) spared))
            made))
    handle-Keeps (list_snapshots_call req) spared =
        answer-Keeps _ _ (list_snapshots-Keeps O hpc P providers-Keep req)

    -- What is there stays there, whether the calls succeed or fail.
    pub serve_lem :
        (calls : List Call) (s : O.State)
        → all_spare hpc.cfg calls (join ps) ≡ true
        → Present O (join ps) s
        → Present O (join ps) (serve O hpc calls s)
    unfolding serve all_spare
    serve_lem [] s spared there = there
    serve_lem (call ∷ calls) s spared there =
        serve_lem calls (handle O hpc call s).1 (ground arith)
          ((handle-Keeps call (ground arith)).behind s there)
