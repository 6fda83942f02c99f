-- ===== src/Snapshots/Retried.antt =====
-- CreateSnapshot of the provider behind one whose copy has failed (pkg/hostpath/reflink.go).
use hostpath_provisioner.Base.{
  ◌≡◌, ◌∙◌, true, false, List, [], ◌∷◌, ◌++◌, Text, bytes, text_eq, ok, err, Error, returns, fails,
  arith, ℤ, pos, refl,
}
use mathlib.Core.Path.{subst}
use hostpath_provisioner.FilePath.{join}
use hostpath_provisioner.Os.{Os}
use hostpath_provisioner.Os.Frame.{Present, IsFramed}
use hostpath_provisioner.Os.Laws.{IsLawful}
use hostpath_provisioner.Csi.{Snapshot}
use hostpath_provisioner.Pools.{check_path_exist}
use hostpath_provisioner.Snapshots.{
  Reflink, data_path, reflink_copy, create_snapshot_from_dir, copy_volume, create_snapshot,
}
use hostpath_provisioner.Controller.History.Made.{
  check_path_exist-Present, Present-check_path_exist,
}
use hostpath_provisioner.Snapshots.Writes.{copy_volume_failed, create_snapshot-eq-copy_volume}

module _ (O : Os) (L : IsLawful O) (F : IsFramed O) (r : Reflink) where
  kept_once :
      (ps : List Text) (p : Text) (s s' : O.State)
      → O.mkdir_all p 0o755 s ≡ (ok tt, s')
      → Present O (join ps) s
      → Present O (join ps) s'
  kept_once ps p s s' made h =
      subst (λ r. Present O (join ps) r.1) made (F.keeps-mkdir_all ps p 0o755 s h)

  kept :
      (ps : List Text) (p q : Text) (s s₁ s₂ : O.State)
      → O.mkdir_all p 0o755 s ≡ (ok tt, s₁)
      → O.mkdir_all q 0o755 s₁ ≡ (ok tt, s₂)
      → Present O (join ps) s
      → Present O (join ps) s₂
  kept ps p q s s₁ s₂ c d h = kept_once ps q s₁ s₂ d (kept_once ps p s s₁ c h)

  -- What is there is there after a copy that fails.
  reflink_copy-keeps :
      (src dst : Text) (ps : List Text) (s s' : O.State) (e : Error)
      → reflink_copy O src dst s ≡ (err e, s')
      → Present O (join ps) s
      → Present O (join ps) s'
  unfolding reflink_copy
  reflink_copy-keeps src dst ps s s' e failed h =
      subst (λ r. Present O (join ps) r.1) failed
        (F.keeps-copy ps (bytes "--reflink=auto" ∷ src ∷ dst ∷ []) s h)

  -- With the volume and the data directory there, nothing is copied.
  create_snapshot_existing :
      (id vol : Text) (s : O.State) (t : ℤ)
      → check_path_exist O (join (r.source_path ∷ vol ∷ [])) s ≡ ok true
      → check_path_exist O (join (r.path ∷ id ∷ data_path ∷ [])) s ≡ ok true
      → O.stat_ctim (join (r.path ∷ id ∷ data_path ∷ [])) s ≡ ok t
      → (snapshot : Snapshot) × (create_snapshot O r id vol s ≡ (returns snapshot, s))
        × (snapshot.snapshot_id ≡ id)
        × (snapshot.source_volume_id ≡ vol)
        × (snapshot.ready_to_use ≡ true)
  unfolding copy_volume create_snapshot_from_dir
  create_snapshot_existing id vol s t a b c = (
    record {
      snapshot_id = id;
      source_volume_id = vol;
      creation_time = record { seconds = t; nanos = pos 0 };
      ready_to_use = true;
    },
    create_snapshot-eq-copy_volume O r id vol s a ∙ ground arith,
    refl,
    refl,
    refl,
  )

  -- On a machine that meets IsLawful and IsFramed: where CreateSnapshot of the provider, for a volume
  -- that exists and an id that has no data directory, makes its two directories and cp then fails, the
  -- call returns the error; and on the machine that it leaves, where the creation time of the data
  -- directory can be read there, CreateSnapshot of the provider for the same id and volume returns a
  -- snapshot of them that is ready to use, and changes nothing, so that nothing is copied.
  pub create_snapshot_retried :
      (id vol : Text) (s s₁ s₂ s₃ : O.State) (e : Error) (t : ℤ)
      → check_path_exist O (join (r.source_path ∷ vol ∷ [])) s ≡ ok true
      → check_path_exist O (join (r.path ∷ id ∷ data_path ∷ [])) s ≡ ok false
      → O.mkdir_all (join (r.path ∷ id ∷ data_path ∷ [])) 0o755 s ≡ (ok tt, s₁)
      → O.mkdir_all (join (r.path ∷ id ∷ vol ∷ [])) 0o755 s₁ ≡ (ok tt, s₂)
      → reflink_copy O
          (join (r.source_path ∷ vol ∷ []) ++ bytes "/.")
          (join (r.path ∷ id ∷ data_path ∷ []))
          s₂
        ≡ (err e, s₃)
      → O.stat_ctim (join (r.path ∷ id ∷ data_path ∷ [])) s₃ ≡ ok t
      → (create_snapshot O r id vol s ≡ (fails e, s₃))
        × ((snapshot : Snapshot) × (create_snapshot O r id vol s₃ ≡ (returns snapshot, s₃))
            × (snapshot.snapshot_id ≡ id)
            × (snapshot.source_volume_id ≡ vol)
            × (snapshot.ready_to_use ≡ true))
  create_snapshot_retried id vol s s₁ s₂ s₃ e t a b c d f g =
      let src = r.source_path ∷ vol ∷ [] in
      let dst = r.path ∷ id ∷ data_path ∷ [] in
      let volume =
        kept src (join dst) (join (r.path ∷ id ∷ vol ∷ [])) s s₁ s₂ c d
          (check_path_exist-Present O (join src) s a) in
      let (i, made, _) = L.stat-mkdir_all (join dst) 0o755 s s₁ c in
      let there = kept_once dst (join (r.path ∷ id ∷ vol ∷ [])) s₁ s₂ d (i, made) in
      let at_end : (ps : List Text) → Present O (join ps) s₂ → Present O (join ps) s₃ =
        λ ps h. reflink_copy-keeps (join src ++ bytes "/.") (join dst) ps s₂ s₃ e f h in
      (
        create_snapshot-eq-copy_volume O r id vol s a
            ∙ copy_volume_failed O r id vol (join src) s s₁ s₂ s₃ e b c d f,
        create_snapshot_existing id vol s₃ t
            (Present-check_path_exist O (join src) s₃ (at_end src volume))
            (Present-check_path_exist O (join dst) s₃ (at_end dst there)) g,
      )
