-- ===== src/Controller/Parallel/Holding.antt =====
-- What holds of each of the calls that overlap, at one step of one of them.
use hostpath_provisioner.Base.{
  ℤ, ◌≡◌, refl, sym, ◌∙◌, Text, true, false, List, [], ◌∷◌, some, returns, fails, panics, arith,
  pair_eq, is_empty, Option-cases, Option, none, Error, Keeps, pure-Keeps, bind-Keeps,
  Outcome-cases, Result-cases, inl, inr, bytes, ◌++◌, errorf, message,
}
use mathlib.Core.Path.{subst}
use hostpath_provisioner.Base.Dict.{lookup}
use hostpath_provisioner.FilePath.{join, dir}
use hostpath_provisioner.Os.{Os, StoragePoolInfo}
use hostpath_provisioner.Os.Frame.{covers, Present, IsFramed}
use hostpath_provisioner.Os.Laws.{IsLawful}
use hostpath_provisioner.Csi.{
  CreateVolumeRequest, VolumeContentSource, snapshot_source, volume_source,
}
use hostpath_provisioner.Capacity.{get_volume_dir_capacity}
use hostpath_provisioner.Pools.{
  get_storage_pool_name_from_map, pool_path, check_path_exist, create_volume_directory, find_volume,
  delete_volume_directory,
}
use hostpath_provisioner.Pools.Finding.{AllPaths}
use hostpath_provisioner.Controller.{HostPathController}
use hostpath_provisioner.Controller.Volumes.{
  validate_create_volume_request, validate_create_volume_request_topology,
  validate_delete_volume_request, get_volume_directories, drop_after_restore,
}
use hostpath_provisioner.Controller.History.{volume_paths, spares, may_remove, create_volume_call}
use hostpath_provisioner.Controller.History.Keeping.{
  There, found-Keeps, found-spared, dropped-Keeps,
}
use hostpath_provisioner.Controller.History.Handlers.{restore_from_snapshot-Keeps}
use hostpath_provisioner.Controller.Providers.{AllProviders}
use hostpath_provisioner.Snapshots.Keeping.{ProviderKeeps}
use hostpath_provisioner.Controller.History.Made.{check_path_exist-Present}
use hostpath_provisioner.Controller.Parallel.{
  Worker, create_starts, create_checks, create_makes, create_ends, delete_starts, delete_removes,
  delete_ends, find_pool, find_directory, advance, response, create_restores, create_drops,
  restore_source, drop_volume,
}

-- The elements of the path of a request's volume.
abbrev pub elements : (O : Os) → HostPathController O.State → CreateVolumeRequest → List Text
elements O hpc req =
    pool_path hpc.cfg (get_storage_pool_name_from_map req.parameters) ∷ req.name ∷ []

module _ (O : Os) (L : IsLawful O) (F : IsFramed O) (hpc : HostPathController O.State)
    (paths : AllPaths hpc.cfg.storage_pool_info) (ps : List Text)
    (providers : AllProviders (ProviderKeeps (There O F hpc ps)) hpc.snapshot_providers) where
  abbrev P : O.State → Type 0
  P = Present O (join ps)

  -- The deletion behind a failed restore of the request spares the path.
  abbrev pub KeepsClear : CreateVolumeRequest → Type 0
  KeepsClear req = spares (may_remove hpc.cfg (create_volume_call (some req))) (join ps) ≡ true

  -- What holds of each call at any time, with the path in view: a deletion spares it, a pool is that
  -- of its request, and a CreateVolume for it has it in place before the restore and once returned.
  abbrev pub Holds : Worker → O.State → Type 0
  Holds (create_starts req) s = KeepsClear req
  Holds (create_checks req pool c) s =
      (pool.path ∷ req.name ∷ [] ≡ elements O hpc req) × KeepsClear req
  Holds (create_makes req pool c) s =
      (pool.path ∷ req.name ∷ [] ≡ elements O hpc req) × KeepsClear req
  Holds (create_restores req pool c) s =
      (pool.path ∷ req.name ∷ [] ≡ elements O hpc req)
      × KeepsClear req
      × (elements O hpc req ≡ ps → P s)
  Holds (create_drops req pool c e) s = covers (join (pool.path ∷ req.name ∷ [])) (join ps) ≡ false
  Holds (create_ends req (returns vol)) s = elements O hpc req ≡ ps → P s
  Holds (create_ends req (fails e)) s = Unit
  Holds (create_ends req panics) s = Unit
  Holds (delete_starts id) s = spares (volume_paths hpc.cfg.storage_pool_info id) (join ps) ≡ true
  Holds (delete_removes id d) s =
      is_empty d ≡ false → covers (join (dir d ∷ id ∷ [])) (join ps) ≡ false
  Holds (delete_ends id result) s = Unit

  abbrev pub AllHold : List Worker → O.State → Type 0
  AllHold [] s = Unit
  AllHold (w ∷ ws) s = Holds w s × AllHold ws s

  -- A step elsewhere that keeps the path keeps what holds of a call.
  pub Holds-later : (w : Worker) (s s' : O.State) → (P s → P s') → Holds w s → Holds w s'
  Holds-later (create_starts req) s s' k h = h
  Holds-later (create_checks req pool c) s s' k h = h
  Holds-later (create_makes req pool c) s s' k h = h
  Holds-later (create_restores req pool c) s s' k (at, spared, h) = (at, spared, λ e. k (h e))
  Holds-later (create_drops req pool c x) s s' k h = h
  Holds-later (create_ends req (returns vol)) s s' k h = λ e. k (h e)
  Holds-later (create_ends req (fails e)) s s' k h = h
  Holds-later (create_ends req panics) s s' k h = h
  Holds-later (delete_starts id) s s' k h = h
  Holds-later (delete_removes id d) s s' k h = h
  Holds-later (delete_ends id result) s s' k h = h

  pub AllHold-later :
      (ws : List Worker) (s s' : O.State) → (P s → P s') → AllHold ws s → AllHold ws s'
  AllHold-later [] s s' k _ = tt
  AllHold-later (w ∷ ws) s s' k (h, hs) = (Holds-later w s s' k h, AllHold-later ws s s' k hs)

  at-path :
      (req : CreateVolumeRequest) (pool : StoragePoolInfo) (s : O.State)
      → pool.path ∷ req.name ∷ [] ≡ elements O hpc req
      → elements O hpc req ≡ ps
      → Present O (join (pool.path ∷ req.name ∷ [])) s
      → P s
  at-path req pool s at e = subst (λ q. Present O (join q) s) (at ∙ e)

  -- Only the steps that make and remove directories change the machine.
  starts_unchanged :
      (req : CreateVolumeRequest) (s : O.State) → (advance O hpc (create_starts req) s).1 ≡ s
  unfolding advance
  starts_unchanged req s = elim (Outcome-cases (find_pool O hpc req s).0) [
    | inl (a, p) ↦ ground arith
    | inr (inl (e, p)) ↦ ground arith
    | inr (inr p) ↦ ground arith
  ]

  checks_unchanged :
      (req : CreateVolumeRequest) (pool : StoragePoolInfo) (c : ℤ) (s : O.State)
      → (advance O hpc (create_checks req pool c) s).1 ≡ s
  unfolding advance
  checks_unchanged req pool c s =
      elim (Result-cases (check_path_exist O (join (pool.path ∷ req.name ∷ [])) s)) [
        | inl (true, p) ↦ ground arith
        | inl (false, p) ↦ ground arith
        | inr (e, p) ↦ ground arith
      ]

  deletion_unchanged : (id : Text) (s : O.State) → (advance O hpc (delete_starts id) s).1 ≡ s
  unfolding advance
  deletion_unchanged id s = elim (Outcome-cases (find_directory O hpc id s).0) [
    | inl (a, p) ↦ ground arith
    | inr (inl (e, p)) ↦ ground arith
    | inr (inr p) ↦ ground arith
  ]

  restore_source-Keeps :
      (name vol : Text) (source : Option VolumeContentSource)
      → Keeps P (restore_source O hpc name vol source)
  unfolding restore_source
  restore_source-Keeps name vol (some (snapshot_source (some id))) =
      restore_from_snapshot-Keeps O F hpc ps providers id name vol
  restore_source-Keeps name vol (some (snapshot_source none)) = pure-Keeps P tt
  restore_source-Keeps name vol (some (volume_source v)) = pure-Keeps P tt
  restore_source-Keeps name vol none = pure-Keeps P tt

  drop_volume-Keeps :
      (req : CreateVolumeRequest) (pool : StoragePoolInfo) (c : ℤ) (e : Error)
      → covers (join (pool.path ∷ req.name ∷ [])) (join ps) ≡ false
      → Keeps P (drop_volume O hpc req pool c e)
  unfolding drop_volume
  drop_volume-Keeps req pool c e spared =
      bind-Keeps P _ _ (dropped-Keeps O F hpc ps pool.path req.name e spared) (λ _. pure-Keeps P _)

  -- A step of a call keeps the path.
  pub advance-keeps : (w : Worker) (s : O.State) → Holds w s → P s → P (advance O hpc w s).1
  unfolding advance create_volume_directory
  advance-keeps (create_starts req) s h there = rw (starts_unchanged req s) there
  advance-keeps (create_checks req pool c) s h there = rw (checks_unchanged req pool c s) there
  advance-keeps (create_makes req pool c) s h there = F.keeps-mkdir_all ps _ _ s there
  advance-keeps (create_restores req pool c) s h there =
      (restore_source-Keeps (get_storage_pool_name_from_map req.parameters) req.name
          req.volume_content_source).behind
        s there
  advance-keeps (create_drops req pool c e) s h there =
      (drop_volume-Keeps req pool c e h).behind s there
  advance-keeps (create_ends req result) s h there = there
  advance-keeps (delete_starts id) s h there = rw (deletion_unchanged id s) there
  advance-keeps (delete_removes id d) s h there = (found-Keeps O F hpc ps d id h).behind s there
  advance-keeps (delete_ends id result) s h there = there

  -- The pool that is found is that of the request.
  find_pool_inv :
      (req : CreateVolumeRequest) (pool : StoragePoolInfo) (c : ℤ) (s : O.State)
      → (find_pool O hpc req s).0 ≡ returns (pool, c)
      → pool.path ∷ req.name ∷ [] ≡ elements O hpc req
  unfolding find_pool pool_path
  find_pool_inv req pool c s h =
      let pool_name = get_storage_pool_name_from_map req.parameters in
      elim (Result-cases (validate_create_volume_request (some req))) [
        | inr (e, p) ↦ absurd (ground arith)
        | inl (u, p) ↦ elim (Result-cases (validate_create_volume_request_topology hpc.cfg req)) [
          | inr (e, q) ↦ absurd (ground arith)
          | inl (v, q) ↦ elim (Option-cases (lookup pool_name hpc.cfg.storage_pool_info)) [
            | inl r ↦ absurd (ground arith)
            | inr (found, r) ↦ elim (Result-cases (get_volume_dir_capacity O found.path s)) [
              | inr (e, t) ↦ absurd (ground arith)
              | inl (c', t) ↦ ground arith
            ]
          ]
        ]
      ]

  find_directory_spared :
      (id d : Text) (s : O.State)
      → spares (volume_paths hpc.cfg.storage_pool_info id) (join ps) ≡ true
      → (find_directory O hpc id s).0 ≡ returns d
      → is_empty d ≡ false
      → covers (join (dir d ∷ id ∷ [])) (join ps) ≡ false
  unfolding find_directory
  find_directory_spared id d s spared h found =
      elim (Result-cases (validate_delete_volume_request (some id))) [
        | inr (e, p) ↦ absurd (ground arith)
        | inl (u, p) ↦ elim (Result-cases (get_volume_directories O hpc s)) [
          | inr (e, q) ↦ absurd (ground arith)
          | inl (ds, q) ↦
              let same : find_volume ds id ≡ d = ground arith in
              rw (← same) (found-spared O F hpc ps L paths id s ds spared q (rw same found))
        ]
      ]

  moved :
      (w w' : Worker) (s s' : O.State)
      → advance O hpc w s ≡ (w', s')
      → Holds w' s'
      → Holds (advance O hpc w s).0 (advance O hpc w s).1
  moved w w' s s' e h = subst (λ r. Holds r.0 r.1) (sym e) h

  check-Holds :
      (req : CreateVolumeRequest) (pool : StoragePoolInfo) (c : ℤ) (s : O.State)
      → Holds (create_checks req pool c) s
      → Holds
          (advance O hpc (create_checks req pool c) s).0
          (advance O hpc (create_checks req pool c) s).1
  unfolding advance
  check-Holds req pool c s (h, spared) =
      let w = create_checks req pool c in
      elim (Result-cases (check_path_exist O (join (pool.path ∷ req.name ∷ [])) s)) [
        | inl (true, p) ↦
            moved w (create_restores req pool c) s s (ground arith)
              (h, spared, λ e. at-path req pool s h e (check_path_exist-Present O _ s p))
        | inl (false, p) ↦ moved w (create_makes req pool c) s s (ground arith) (h, spared)
        | inr (e, p) ↦ moved w (create_ends req (fails e)) s s (ground arith) tt
      ]

  make-Holds :
      (req : CreateVolumeRequest) (pool : StoragePoolInfo) (c : ℤ) (s : O.State)
      → Holds (create_makes req pool c) s
      → Holds
          (advance O hpc (create_makes req pool c) s).0
          (advance O hpc (create_makes req pool c) s).1
  unfolding advance create_volume_directory
  make-Holds req pool c s (h, spared) =
      let w = create_makes req pool c in
      let path = join (pool.path ∷ req.name ∷ []) in
      let call = O.mkdir_all path 0o777 s in
      elim (Result-cases call.0) [
        | inr (e, p) ↦
            moved w
              (create_ends req (
                fails (
                  errorf
                    (bytes "failed to create volume " ++ req.name ++ bytes ": " ++ message e))))
              s call.1 (ground arith) tt
        | inl (u, p) ↦
            let (i, there, _) = L.stat-mkdir_all path 0o777 s call.1 (pair_eq call p refl) in
            moved w (create_restores req pool c) s call.1 (ground arith)
              (h, spared, λ e. at-path req pool call.1 h e (i, there))
      ]

  -- A restore fails only where there is a snapshot, so that the deletion spares the path.
  failed-spared :
      (req : CreateVolumeRequest) (pool : StoragePoolInfo) (e : Error) (s : O.State)
      → pool.path ∷ req.name ∷ [] ≡ elements O hpc req
      → KeepsClear req
      → (restore_source O hpc
          (get_storage_pool_name_from_map req.parameters)
          req.name
          req.volume_content_source
          s).0
        ≡ fails e
      → covers (join (pool.path ∷ req.name ∷ [])) (join ps) ≡ false
  unfolding restore_source may_remove spares
  failed-spared req pool e s at spared failed = elim (Option-cases req.volume_content_source) [
    | inl k ↦ absurd (ground arith)
    | inr (volume_source v, k) ↦ absurd (ground arith)
    | inr (snapshot_source id, k) ↦ let only = rw k at spared in rw at (ground arith)
  ]

  restore-Holds :
      (req : CreateVolumeRequest) (pool : StoragePoolInfo) (c : ℤ) (s : O.State)
      → Holds (create_restores req pool c) s
      → Holds
          (advance O hpc (create_restores req pool c) s).0
          (advance O hpc (create_restores req pool c) s).1
  unfolding advance
  restore-Holds req pool c s (at, spared, there) =
      let w = create_restores req pool c in
      let name = get_storage_pool_name_from_map req.parameters in
      let call = restore_source O hpc name req.name req.volume_content_source s in
      let kept = restore_source-Keeps name req.name req.volume_content_source in
      elim (Outcome-cases call.0) [
        | inl (u, p) ↦
            moved w (create_ends req (returns (response O hpc req pool c))) s call.1 (ground arith)
              (λ e. kept.behind s (there e))
        | inr (inl (e, p)) ↦
            moved w (create_drops req pool c e) s call.1 (ground arith)
              (failed-spared req pool e s at spared p)
        | inr (inr p) ↦ moved w (create_ends req panics) s call.1 (ground arith) tt
      ]

  -- The deletion behind a failed restore does not return.
  drop-Holds :
      (req : CreateVolumeRequest) (pool : StoragePoolInfo) (c : ℤ) (e : Error) (s : O.State)
      → Holds
          (advance O hpc (create_drops req pool c e) s).0
          (advance O hpc (create_drops req pool c e) s).1
  unfolding advance drop_volume drop_after_restore
  drop-Holds req pool c e s =
      let w = create_drops req pool c e in
      let call = delete_volume_directory O pool.path req.name s in
      elim (Outcome-cases call.0) [
        | inl (u, p) ↦ moved w (create_ends req (fails e)) s call.1 (ground arith) tt
        | inr (inl (x, p)) ↦
            moved w
              (create_ends req (
                fails (
                  errorf
                    (bytes "failed to delete restore " ++ req.name ++ bytes ": " ++ message x))))
              s call.1 (ground arith) tt
        | inr (inr p) ↦ moved w (create_ends req panics) s call.1 (ground arith) tt
      ]

  pub advance-Holds :
      (w : Worker) (s : O.State) → Holds w s → Holds (advance O hpc w s).0 (advance O hpc w s).1
  unfolding advance
  advance-Holds (create_starts req) s h =
      let w = create_starts req in
      elim (Outcome-cases (find_pool O hpc req s).0) [
        | inl ((pool, c), p) ↦
            moved w (create_checks req pool c) s s (ground arith) (find_pool_inv req pool c s p, h)
        | inr (inl (e, p)) ↦ moved w (create_ends req (fails e)) s s (ground arith) tt
        | inr (inr p) ↦ moved w (create_ends req panics) s s (ground arith) tt
      ]
  advance-Holds (create_checks req pool c) s h = check-Holds req pool c s h
  advance-Holds (create_makes req pool c) s h = make-Holds req pool c s h
  advance-Holds (create_restores req pool c) s h = restore-Holds req pool c s h
  advance-Holds (create_drops req pool c e) s h = drop-Holds req pool c e s
  advance-Holds (create_ends req result) s h = h
  advance-Holds (delete_starts id) s h =
      let w = delete_starts id in
      elim (Outcome-cases (find_directory O hpc id s).0) [
        | inl (d, p) ↦
            moved w (delete_removes id d) s s (ground arith) (find_directory_spared id d s h p)
        | inr (inl (e, p)) ↦ moved w (delete_ends id (fails e)) s s (ground arith) tt
        | inr (inr p) ↦ moved w (delete_ends id panics) s s (ground arith) tt
      ]
  advance-Holds (delete_removes id d) s h = tt
  advance-Holds (delete_ends id result) s h = tt
