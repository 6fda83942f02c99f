-- ===== src/Controller/Parallel/Volumes.antt =====
-- The volumes behind calls that overlap.
use hostpath_provisioner.Base.{
  ℕ, zero, suc, ◌≡◌, refl, Text, true, List, [], ◌∷◌, some, returns, arith, get_elem?,
}
use hostpath_provisioner.FilePath.{join}
use hostpath_provisioner.Os.{Os}
use hostpath_provisioner.Os.Frame.{Present, IsFramed}
use hostpath_provisioner.Os.Laws.{IsLawful}
use hostpath_provisioner.Csi.{CreateVolumeRequest, Volume}
use hostpath_provisioner.Pools.{Config}
use hostpath_provisioner.Pools.Finding.{AllPaths}
use hostpath_provisioner.Snapshots.Keeping.{ProviderKeeps}
use hostpath_provisioner.Controller.{HostPathController, new_host_path_controller}
use hostpath_provisioner.Controller.Providers.{AllProviders}
use hostpath_provisioner.Controller.History.{volume_paths, spares, may_remove, create_volume_call}
use hostpath_provisioner.Controller.History.Keeping.{There}
use hostpath_provisioner.Controller.History.Served.{providers-Keep}
use hostpath_provisioner.Controller.Parallel.Holding.{
  elements, Holds, AllHold, Holds-later, AllHold-later, advance-keeps, advance-Holds,
}
use hostpath_provisioner.Controller.Parallel.{
  Worker, create_starts, create_checks, create_makes, create_ends, delete_starts, delete_removes,
  delete_ends, advance, interleave, step_at, create_restores, create_drops,
}

module _ (O : Os) (L : IsLawful O) (F : IsFramed O) (hpc : HostPathController O.State)
    (paths : AllPaths hpc.cfg.storage_pool_info) (ps : List Text)
    (providers : AllProviders (ProviderKeeps (There O F hpc ps)) hpc.snapshot_providers) where
  abbrev P : O.State → Type 0
  P = Present O (join ps)

  step_at-keeps :
      (i : ℕ) (ws : List Worker) (s : O.State)
      → AllHold O L F hpc paths ps providers ws s
      → P s
      → P (step_at O hpc i ws s).1
  unfolding step_at
  step_at-keeps i [] s _ there = there
  step_at-keeps zero (w ∷ ws) s (h, hs) there =
      advance-keeps O L F hpc paths ps providers w s h there
  step_at-keeps (suc i) (w ∷ ws) s (h, hs) there = step_at-keeps i ws s hs there

  step_at-AllHold :
      (i : ℕ) (ws : List Worker) (s : O.State)
      → AllHold O L F hpc paths ps providers ws s
      → AllHold O L F hpc paths ps providers (step_at O hpc i ws s).0 (step_at O hpc i ws s).1
  unfolding step_at
  step_at-AllHold i [] s _ = tt
  step_at-AllHold zero (w ∷ ws) s (h, hs) = (
    advance-Holds O L F hpc paths ps providers w s h,
    AllHold-later O L F hpc paths ps providers ws s (advance O hpc w s).1
        (advance-keeps O L F hpc paths ps providers w s h) hs,
  )
  step_at-AllHold (suc i) (w ∷ ws) s (h, hs) = (
    Holds-later O L F hpc paths ps providers w s (step_at O hpc i ws s).1 (step_at-keeps i ws s hs)
        h,
    step_at-AllHold i ws s hs,
  )

  interleave-AllHold :
      (schedule : List ℕ) (ws : List Worker) (s : O.State)
      → AllHold O L F hpc paths ps providers ws s
      → AllHold O L F hpc paths ps providers
          (interleave O hpc schedule ws s).0
          (interleave O hpc schedule ws s).1
  unfolding interleave
  interleave-AllHold [] ws s h = h
  interleave-AllHold (i ∷ schedule) ws s h =
      interleave-AllHold schedule (step_at O hpc i ws s).0 (step_at O hpc i ws s).1
        (step_at-AllHold i ws s h)

  AllHold-get_elem? :
      (j : ℕ) (ws : List Worker) (w : Worker) (s : O.State)
      → AllHold O L F hpc paths ps providers ws s
      → get_elem? ws j ≡ some w
      → Holds O L F hpc paths ps providers w s
  AllHold-get_elem? j [] w s _ h = absurd (ground arith)
  AllHold-get_elem? zero (v ∷ ws) w s (h, _) e = let same : v ≡ w = ground arith in rw (← same) h
  AllHold-get_elem? (suc j) (v ∷ ws) w s (_, hs) e = AllHold-get_elem? j ws w s hs e

-- Every call stands at its start, and every call that may remove something spares the path.
abbrev pub AllBegin : Config → Text → List Worker → Type 0
AllBegin cfg path [] = Unit
AllBegin cfg path (create_starts req ∷ ws) =
    (spares (may_remove cfg (create_volume_call (some req))) path ≡ true) × AllBegin cfg path ws
AllBegin cfg path (delete_starts id ∷ ws) =
    (spares (volume_paths cfg.storage_pool_info id) path ≡ true) × AllBegin cfg path ws
AllBegin cfg path (create_checks _ _ _ ∷ ws) = ⊥
AllBegin cfg path (create_makes _ _ _ ∷ ws) = ⊥
AllBegin cfg path (create_restores _ _ _ ∷ ws) = ⊥
AllBegin cfg path (create_drops _ _ _ _ ∷ ws) = ⊥
AllBegin cfg path (create_ends _ _ ∷ ws) = ⊥
AllBegin cfg path (delete_removes _ _ ∷ ws) = ⊥
AllBegin cfg path (delete_ends _ _ ∷ ws) = ⊥

module _ (O : Os) (L : IsLawful O) (F : IsFramed O) (hpc : HostPathController O.State)
    (cfg : Config) (made : new_host_path_controller O cfg ≡ some hpc)
    (paths : AllPaths hpc.cfg.storage_pool_info) where
  AllBegin-AllHold :
      (ps : List Text)
      (providers : AllProviders (ProviderKeeps (There O F hpc ps)) hpc.snapshot_providers)
      (ws : List Worker) (s : O.State)
      → AllBegin hpc.cfg (join ps) ws
      → AllHold O L F hpc paths ps providers ws s
  AllBegin-AllHold ps providers [] s _ = tt
  AllBegin-AllHold ps providers (create_starts req ∷ ws) s (h, hs) =
      (h, AllBegin-AllHold ps providers ws s hs)
  AllBegin-AllHold ps providers (delete_starts id ∷ ws) s (h, hs) =
      (h, AllBegin-AllHold ps providers ws s hs)
  AllBegin-AllHold ps providers (create_checks _ _ _ ∷ ws) s h = absurd h
  AllBegin-AllHold ps providers (create_makes _ _ _ ∷ ws) s h = absurd h
  AllBegin-AllHold ps providers (create_restores _ _ _ ∷ ws) s h = absurd h
  AllBegin-AllHold ps providers (create_drops _ _ _ _ ∷ ws) s h = absurd h
  AllBegin-AllHold ps providers (create_ends _ _ ∷ ws) s h = absurd h
  AllBegin-AllHold ps providers (delete_removes _ _ ∷ ws) s h = absurd h
  AllBegin-AllHold ps providers (delete_ends _ _ ∷ ws) s h = absurd h

  -- On a machine that meets IsLawful and IsFramed, with a controller that NewHostPathController has
  -- made and pools that have their paths set: where calls of CreateVolume, also from snapshots, and of
  -- DeleteVolume overlap, in any order of their steps, and none of them may remove the volume of a
  -- request (no DeleteVolume of it, and no CreateVolume of it from a snapshot, which removes it where
  -- the restore fails), then once a CreateVolume of that request has returned, something is at the
  -- path of its volume at every later moment.
  pub interleave-Present :
      (req : CreateVolumeRequest) (vol : Volume) (j : ℕ) (schedule : List ℕ) (ws : List Worker)
      (s : O.State)
      → AllBegin hpc.cfg (join (elements O hpc req)) ws
      → get_elem? (interleave O hpc schedule ws s).0 j ≡ some (create_ends req (returns vol))
      → Present O (join (elements O hpc req)) (interleave O hpc schedule ws s).1
  interleave-Present req vol j schedule ws s h found =
      let ps = elements O hpc req in
      let providers = providers-Keep O L F cfg hpc made paths ps in
      AllHold-get_elem? O L F hpc paths ps providers j (interleave O hpc schedule ws s).0
        (create_ends req (returns vol)) (interleave O hpc schedule ws s).1
        (interleave-AllHold O L F hpc paths ps providers schedule ws s
          (AllBegin-AllHold ps providers ws s h))
        found refl
