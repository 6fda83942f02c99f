-- ===== src/Controller/Snaps/Delete.antt =====
-- DeleteSnapshot, and ListSnapshots behind it.
use hostpath_provisioner.Base.{
  ◌≡◌, refl, false, ok, [], ◌∷◌, some, true, Text, text_eq, is_empty, returns, arith, Outcome-cases,
  inl, inr, pair_eq,
}
use hostpath_provisioner.Base.Dict.{Dict}
use hostpath_provisioner.Os.{Os, StoragePoolInfo}
use hostpath_provisioner.Os.Laws.{IsLawful}
use hostpath_provisioner.Csi.{ListSnapshotsRequest}
use hostpath_provisioner.Pools.{Config, check_path_exist}
use hostpath_provisioner.FilePath.{join}
use hostpath_provisioner.Snapshots.{SnapshotProvider, Reflink, reflink_provider, delete_snapshot}
use hostpath_provisioner.Snapshots.Contract.{Absent, IsContract, IsReflink, IsReflink-IsContract}
use hostpath_provisioner.Controller.{HostPathController, new_host_path_controller}
use hostpath_provisioner.Controller.Providers.{
  AllProviders, AllPools, new_host_path_controller-AllProviders,
}
use hostpath_provisioner.Controller.Snaps.{
  snapshot_page, snapshots_for, collect_snapshots, delete_everywhere, controller_delete_snapshot,
  list_snapshots,
}

module _ {S : Type 0} where
  -- The loop of DeleteSnapshot, one provider at a time.
  delete_everywhere-cons :
      (k : Text) (q : SnapshotProvider S) (providers : Dict (SnapshotProvider S)) (id : Text)
      (s s' : S)
      → delete_everywhere ((k, q) ∷ providers) id s ≡ (returns tt, s')
      → (s₁ : S) × (q.delete_snapshot id s ≡ (returns tt, s₁))
        × (delete_everywhere providers id s₁ ≡ (returns tt, s'))
  unfolding delete_everywhere
  delete_everywhere-cons k q providers id s s' h =
      let call = q.delete_snapshot id s in
      elim (Outcome-cases call.0) [
        | inl (u, p) ↦ (call.1, pair_eq call p refl, ground arith)
        | inr (inl (e, p)) ↦ absurd (ground arith)
        | inr (inr p) ↦ absurd (ground arith)
      ]

  delete_everywhere-nil :
      (id : Text) (s s' : S) → delete_everywhere {S = S} [] id s ≡ (returns tt, s') → s ≡ s'
  unfolding delete_everywhere
  delete_everywhere-nil id s s' h = ground arith

  module _ (P : SnapshotProvider S → Type 0) (contract : IsContract P) where
    delete_everywhere_kept :
        (providers : Dict (SnapshotProvider S)) (p : SnapshotProvider S) (id : Text) (s s' : S)
        → AllProviders P providers
        → P p
        → delete_everywhere providers id s ≡ (returns tt, s')
        → Absent p id s
        → Absent p id s'
    delete_everywhere_kept [] p id s s' all kind h absent =
        rw (← delete_everywhere-nil id s s' h) absent
    delete_everywhere_kept ((k, q) ∷ providers) p id s s' (kind_q, all) kind h absent =
        let (s₁, deleted, rest) = delete_everywhere-cons k q providers id s s' h in
        delete_everywhere_kept providers p id s₁ s' all kind rest
          (contract.get-delete_other p q kind kind_q id s s₁ deleted absent)

    delete_everywhere_lem :
        (providers : Dict (SnapshotProvider S)) (id : Text) (s s' : S)
        → AllProviders P providers
        → delete_everywhere providers id s ≡ (returns tt, s')
        → AllProviders (λ p. Absent p id s') providers
    delete_everywhere_lem [] id s s' all h = tt
    delete_everywhere_lem ((k, p) ∷ providers) id s s' (kind, all) h =
        let (s₁, deleted, rest) = delete_everywhere-cons k p providers id s s' h in
        (
          delete_everywhere_kept providers p id s₁ s' all kind rest
              (contract.get-delete p kind id s s₁ deleted),
          delete_everywhere_lem providers id s₁ s' all rest,
        )

  -- A search that finds nothing with any provider.
  collect_nothing :
      (providers : Dict (SnapshotProvider S)) (req : ListSnapshotsRequest) (s : S)
      → is_empty req.snapshot_id ≡ false
      → AllProviders (λ p. Absent p req.snapshot_id s) providers
      → collect_snapshots providers req [] s ≡ (returns [], s)
  unfolding collect_snapshots snapshots_for
  collect_nothing [] req s h all = refl
  collect_nothing ((k, p) ∷ providers) req s h (absent, all) =
      rw (h, absent) (collect_nothing providers req s h all)

module _ (O : Os) where
  AllPools-IsReflink :
      (node_id : Text) (pools : Dict StoragePoolInfo) → AllPools O (IsReflink O) node_id pools
  AllPools-IsReflink node_id [] = tt
  AllPools-IsReflink node_id ((pool, info) ∷ pools) = (
    λ kind path _ _. (record { node_name = node_id; path = path; source_path = info.path }, refl),
    AllPools-IsReflink node_id pools,
  )

  new_host_path_controller-IsReflink :
      (cfg : Config) (hpc : HostPathController O.State)
      → new_host_path_controller O cfg ≡ some hpc
      → AllProviders (IsReflink O) hpc.snapshot_providers
  new_host_path_controller-IsReflink cfg hpc =
      new_host_path_controller-AllProviders O (IsReflink O) cfg hpc
        (AllPools-IsReflink cfg.node_id cfg.storage_pool_info)

  delete_everywhere_done :
      (hpc : HostPathController O.State) (id : Text) (s s' : O.State)
      → is_empty id ≡ false
      → controller_delete_snapshot O hpc (some id) s ≡ (returns tt, s')
      → delete_everywhere hpc.snapshot_providers id s ≡ (returns tt, s')
  unfolding controller_delete_snapshot
  delete_everywhere_done hpc id s s' h k = ground arith

  -- On a machine that meets IsLawful, with a controller that NewHostPathController has made:
  -- where DeleteSnapshot of an id that is not empty has returned with no error, ListSnapshots for
  -- that id and with no token, on the machine that it left, returns no snapshot, and changes
  -- nothing.
  pub list_snapshots-controller_delete_snapshot :
      IsLawful O
      → (cfg : Config) (hpc : HostPathController O.State) (req : ListSnapshotsRequest)
        (s s' : O.State)
      → new_host_path_controller O cfg ≡ some hpc
      → is_empty req.snapshot_id ≡ false
      → req.starting_token ≡ []
      → controller_delete_snapshot O hpc (some req.snapshot_id) s ≡ (returns tt, s')
      → list_snapshots O hpc (some req) s'
        ≡ (returns (record { entries = []; next_token = [] }), s')
  unfolding list_snapshots snapshot_page
  list_snapshots-controller_delete_snapshot L cfg hpc req s s' made named token h =
      let absent =
        delete_everywhere_lem (IsReflink O) (IsReflink-IsContract O L) hpc.snapshot_providers
          req.snapshot_id s s' (new_host_path_controller-IsReflink cfg hpc made)
          (delete_everywhere_done hpc req.snapshot_id s s' named h) in
      rw (collect_nothing hpc.snapshot_providers req s' named absent, token) refl

  -- On a machine that meets IsLawful, with a controller whose one snapshot provider is that of a pool:
  -- where an id that is not empty, behind the path of the pool's snapshots, is the path of a volume,
  -- as with "..", the volume is there, and os.RemoveAll of its path succeeds, DeleteSnapshot of that
  -- id succeeds, and nothing is at the path of the volume afterwards.
  pub controller_delete_snapshot-escapes :
      IsLawful O
      → (hpc : HostPathController O.State) (name id path volume : Text) (r : Reflink)
        (s s' : O.State)
      → hpc.snapshot_providers ≡ (name, reflink_provider O r) ∷ []
      → is_empty id ≡ false
      → join (r.path ∷ id ∷ []) ≡ join (path ∷ volume ∷ [])
      → check_path_exist O (join (path ∷ volume ∷ [])) s ≡ ok true
      → O.remove_all (join (path ∷ volume ∷ [])) s ≡ (ok tt, s')
      → (controller_delete_snapshot O hpc (some id) s ≡ (returns tt, s'))
        × (check_path_exist O (join (path ∷ volume ∷ [])) s' ≡ ok false)
  unfolding check_path_exist controller_delete_snapshot delete_everywhere delete_snapshot
  controller_delete_snapshot-escapes L hpc name id path volume r s s' one named same there removed =
      let (e, gone, not_exist) = L.stat-remove_all (join (path ∷ volume ∷ [])) s s' removed in
      (rw one (ground arith), ground arith)
