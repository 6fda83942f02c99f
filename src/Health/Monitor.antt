-- ===== src/Health/Monitor.antt =====
-- evaluateSharedPathMetric (pkg/hostpath/utils.go), the goroutine that calls it
-- (pkg/hostpath/hostpath.go), and the gauge (pkg/monitoring/metrics).
use hostpath_provisioner.Base.{
  ℕ, ◌≡◌, refl, ◌↔◌, ◌⊎◌, inl, inr, Text, true, false, ◌||◌, List, [], ◌∷◌, ◌++◌, none, some,
  get_elem?, zero, suc, if◌then◌else◌, arith, Bool-cases, Option-cases,
}
use hostpath_provisioner.Base.Dict.{Dict}
use hostpath_provisioner.Os.{Os, StoragePoolInfo}
use hostpath_provisioner.Health.Device.{OnSocketDevice, check_volume_path_shared_with_os_iff}
use hostpath_provisioner.Health.{check_volume_path_shared_with_os, evaluate_shared_path_metric}

-- What the select of the goroutine receives: the minute has passed, or the context is done.
pub data Event : Type 0 where
  minute_passed context_done : Event

module _ (O : Os) (pools : Dict StoragePoolInfo) where
  -- The value that evaluateSharedPathMetric gives SetPoolPathSharedWithOs.
  unfoldable pub pool_path_shared_with_os : O.State → ℕ
  pool_path_shared_with_os s = if evaluate_shared_path_metric O pools s then 1 else 0

  -- The loop of the goroutine over what it receives and the machines at those times: the value of
  -- the gauge at the end.
  unfoldable pub monitor_loop : ℕ → List (Event × O.State) → ℕ
  monitor_loop gauge [] = gauge
  monitor_loop gauge ((minute_passed, s) ∷ events) =
      monitor_loop (pool_path_shared_with_os s) events
  monitor_loop gauge ((context_done, s) ∷ events) = gauge

  unfoldable pub monitor : O.State → List (Event × O.State) → ℕ
  unfolding monitor_loop
  monitor s events = monitor_loop (pool_path_shared_with_os s) events

module _ (O : Os) where
  -- A path of the pool lies on the device of the socket's directory.
  abbrev pub SharesPath : StoragePoolInfo → O.State → Type 0
  SharesPath info s =
      OnSocketDevice O info.path s
      ⊎ ((p : Text) × (info.snapshot_path ≡ some p) × OnSocketDevice O p s)

  -- The same, as checkVolumePathSharedWithOS answers.
  abbrev IsFoundShared : StoragePoolInfo → O.State → Type 0
  IsFoundShared info s =
      (check_volume_path_shared_with_os O info.path s ≡ true)
      ⊎ ((p : Text) × (info.snapshot_path ≡ some p)
          × (check_volume_path_shared_with_os O p s ≡ true))

  found-SharesPath :
      (info : StoragePoolInfo) (s : O.State) → IsFoundShared info s ↔ SharesPath info s
  found-SharesPath info s = (
    λ h. elim h [
      | inl e ↦ inl ((check_volume_path_shared_with_os_iff O info.path s).0 e)
      | inr (p, at, e) ↦ inr (p, at, (check_volume_path_shared_with_os_iff O p s).0 e)
    ],
    λ h. elim h [
      | inl e ↦ inl ((check_volume_path_shared_with_os_iff O info.path s).1 e)
      | inr (p, at, e) ↦ inr (p, at, (check_volume_path_shared_with_os_iff O p s).1 e)
    ],
  )

module _ (O : Os) (s : O.State) where
  pool_shares :
      (info : StoragePoolInfo)
      → ((check_volume_path_shared_with_os O info.path s || (elim info.snapshot_path [
        | none ↦ false
        | some p ↦ check_volume_path_shared_with_os O p s
      ]))
          ≡ true)
        ↔ IsFoundShared O info s
  pool_shares info = elim (Option-cases info.snapshot_path) [
    | inl e ↦ (λ h. inl (ground arith), λ h. ground arith)
    | inr (p, e) ↦ elim (Bool-cases (check_volume_path_shared_with_os O info.path s)) [
      | inl f ↦ (λ h. inl f, λ h. ground arith)
      | inr f ↦ (λ h. inr (p, e, ground arith), λ h. ground arith)
    ]
  ]

  -- A pool of the list is shared.
  abbrev pub SharedIn : Dict StoragePoolInfo → Type 0
  SharedIn pools =
      (j : ℕ) × (k : Text) × (info : StoragePoolInfo) × (get_elem? pools j ≡ some (k, info))
      × SharesPath O info s

  evaluate_shared_path_metric-SharedIn :
      (pools : Dict StoragePoolInfo) → evaluate_shared_path_metric O pools s ≡ true → SharedIn pools
  unfolding evaluate_shared_path_metric
  evaluate_shared_path_metric-SharedIn [] h = absurd (ground arith)
  evaluate_shared_path_metric-SharedIn ((k, info) ∷ pools) h =
      elim (Bool-cases (evaluate_shared_path_metric O pools s)) [
        | inl e ↦
            let (j, k', info', found, shares) = evaluate_shared_path_metric-SharedIn pools e in
            (suc j, k', info', found, shares)
        | inr e ↦
            (0, k, info, refl, (found-SharesPath O info s).0 ((pool_shares info).0 (ground arith)))
      ]

  SharedIn-evaluate_shared_path_metric :
      (pools : Dict StoragePoolInfo) (j : ℕ) (k : Text) (info : StoragePoolInfo)
      → get_elem? pools j ≡ some (k, info)
      → SharesPath O info s
      → evaluate_shared_path_metric O pools s ≡ true
  unfolding evaluate_shared_path_metric
  SharedIn-evaluate_shared_path_metric [] j k info found shares = absurd (ground arith)
  SharedIn-evaluate_shared_path_metric ((k', info') ∷ pools) zero k info found shares =
      let same : info' ≡ info = ground arith in
      let shared = (pool_shares info).1 ((found-SharesPath O info s).1 shares) in ground arith
  SharedIn-evaluate_shared_path_metric ((k', info') ∷ pools) (suc j) k info found shares =
      ground (arith, SharedIn-evaluate_shared_path_metric pools j k info found shares)

module _ (O : Os) where
  -- The machine at which the gauge was set last.
  abbrev pub last_machine : O.State → List O.State → O.State
  last_machine first [] = first
  last_machine first (s ∷ seen) = last_machine s seen

  abbrev pub minutes : List O.State → List (Event × O.State)
  minutes [] = []
  minutes (s ∷ seen) = (minute_passed, s) ∷ minutes seen

module _ (O : Os) (pools : Dict StoragePoolInfo) where
  monitor_loop_lem :
      (first t : O.State) (seen : List O.State) (rest : List (Event × O.State))
      → monitor_loop O pools
          (pool_path_shared_with_os O pools first)
          (minutes O seen ++ (context_done, t) ∷ rest)
        ≡ pool_path_shared_with_os O pools (last_machine O first seen)
  unfolding monitor_loop
  monitor_loop_lem first t [] rest = refl
  monitor_loop_lem first t (s ∷ seen) rest = monitor_loop_lem s t seen rest

  -- After any number of minutes and the end of the context, whatever comes later, the gauge is 1
  -- exactly where, for the path or the snapshot path of one of the pools, findmnt reported one mount
  -- when the gauge was evaluated last, it reported one for the socket's directory, and the sources of
  -- the two name one device, with or without a directory in brackets. A findmnt that fails counts as
  -- no such mount.
  pub monitor_iff :
      (first t : O.State) (seen : List O.State) (rest : List (Event × O.State))
      → (monitor O pools first (minutes O seen ++ (context_done, t) ∷ rest) ≡ 1)
        ↔ SharedIn O (last_machine O first seen) pools
  unfolding monitor pool_path_shared_with_os
  monitor_iff first t seen rest =
      let last = last_machine O first seen in
      let loop = monitor_loop_lem first t seen rest in
      (
        λ h.
            evaluate_shared_path_metric-SharedIn O last pools
              (elim (Bool-cases (evaluate_shared_path_metric O pools last)) [
                | inl e ↦ e
                | inr e ↦ absurd (ground arith)
              ]),
        λ (j, k, info, found, shares).
            let e = SharedIn-evaluate_shared_path_metric O last pools j k info found shares in
            ground arith,
      )
