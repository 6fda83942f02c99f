-- ===== src/Controller/Providers.antt =====
-- What holds of every snapshot provider that NewHostPathController makes.
use hostpath_provisioner.Base.{
  ◌≡◌, [], ◌∷◌, some, Text, bytes, text_eq, ◌==◌, arith, Option-cases, Bool-cases, inl, inr,
}
use hostpath_provisioner.Base.Dict.{Dict, insert, lookup}
use hostpath_provisioner.Os.{Os, StoragePoolInfo}
use hostpath_provisioner.Pools.{Config}
use hostpath_provisioner.Snapshots.{SnapshotProvider, Reflink, reflink_provider}
use hostpath_provisioner.Controller.{HostPathController, make_providers, new_host_path_controller}

abbrev pub AllProviders :
    {S : Type 0} → (SnapshotProvider S → Type 0) → Dict (SnapshotProvider S) → Type 0
AllProviders P [] = Unit
AllProviders P ((k, p) ∷ providers) = P p × AllProviders P providers

pub lookup-AllProviders :
    {S : Type 0} (P : SnapshotProvider S → Type 0) (k : Text) (m : Dict (SnapshotProvider S))
    (p : SnapshotProvider S)
    → AllProviders P m
    → lookup k m ≡ some p
    → P p
unfolding lookup
lookup-AllProviders P k [] p _ h = absurd (ground arith)
lookup-AllProviders P k ((j, q) ∷ m) p (a, all) h = elim (Bool-cases (j == k)) [
  | inl e ↦ let same : q ≡ p = ground arith in rw (← same) a
  | inr e ↦ lookup-AllProviders P k m p all (ground arith)
]

module _ (O : Os) (P : SnapshotProvider O.State → Type 0) where
  insert-AllProviders :
      (k : Text) (p : SnapshotProvider O.State) (m : Dict (SnapshotProvider O.State))
      → P p
      → AllProviders P m
      → AllProviders P (insert k p m)
  unfolding insert
  insert-AllProviders k p [] h all = (h, tt)
  insert-AllProviders k p ((j, q) ∷ m) h (a, all) = elim (Bool-cases (j == k)) [
    | inl e ↦ rw e (h, all)
    | inr e ↦ rw e (a, insert-AllProviders k p m h all)
  ]

  -- P holds of the provider of every pool that has one.
  abbrev pub AllPools : Text → Dict StoragePoolInfo → Type 0
  AllPools node_id [] = Unit
  AllPools node_id ((pool, info) ∷ pools) =
      ((kind path : Text)
        → info.snapshot_provider ≡ some kind
        → info.snapshot_path ≡ some path
        → P (
            reflink_provider O
              (record { node_name = node_id; path = path; source_path = info.path })))
      × AllPools node_id pools

  make_providers-AllProviders :
      (node_id : Text) (pools : Dict StoragePoolInfo)
      (made providers : Dict (SnapshotProvider O.State))
      → AllPools node_id pools
      → AllProviders P made
      → make_providers O node_id pools made ≡ some providers
      → AllProviders P providers
  unfolding make_providers
  make_providers-AllProviders node_id [] made providers _ all h =
      let e : made ≡ providers = ground arith in rw (← e) all
  make_providers-AllProviders node_id ((pool, info) ∷ pools) made providers (holds, rest) all h =
      elim (Option-cases info.snapshot_provider) [
        | inl p ↦ make_providers-AllProviders node_id pools made providers rest all (ground arith)
        | inr (kind, p) ↦ elim (Bool-cases (kind == bytes "reflink")) [
          | inr other ↦ absurd (ground arith)
          | inl same ↦ elim (Option-cases info.snapshot_path) [
            | inl q ↦ absurd (ground arith)
            | inr (path, q) ↦
                let r : Reflink = record {
                  node_name = node_id;
                  path = path;
                  source_path = info.path;
                } in
                make_providers-AllProviders node_id pools (insert pool (reflink_provider O r) made)
                  providers rest
                  (insert-AllProviders pool (reflink_provider O r) made (holds kind path p q) all)
                  (ground arith)
          ]
        ]
      ]

  pub new_host_path_controller-AllProviders :
      (cfg : Config) (hpc : HostPathController O.State)
      → AllPools cfg.node_id cfg.storage_pool_info
      → new_host_path_controller O cfg ≡ some hpc
      → AllProviders P hpc.snapshot_providers
  unfolding new_host_path_controller
  new_host_path_controller-AllProviders cfg hpc pools h =
      elim (Option-cases (make_providers O cfg.node_id cfg.storage_pool_info [])) [
        | inl p ↦ absurd (ground arith)
        | inr (providers, p) ↦
            let e : hpc.snapshot_providers ≡ providers = ground arith in
            rw e (
              make_providers-AllProviders cfg.node_id cfg.storage_pool_info [] providers pools tt p)
      ]

pub new_host_path_controller-cfg :
    (O : Os) (cfg : Config) (hpc : HostPathController O.State)
    → new_host_path_controller O cfg ≡ some hpc
    → hpc.cfg ≡ cfg
unfolding new_host_path_controller
new_host_path_controller-cfg O cfg hpc h =
    elim (Option-cases (make_providers O cfg.node_id cfg.storage_pool_info [])) [
      | inl p ↦ absurd (ground arith)
      | inr (providers, p) ↦ ground arith
    ]
