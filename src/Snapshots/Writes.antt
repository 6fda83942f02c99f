-- ===== src/Snapshots/Writes.antt =====
-- What creating and deleting a snapshot leaves on the machine.
use hostpath_provisioner.Base.{
  ◌≡◌, refl, sym, ◌⊎◌, true, false, [], ◌∷◌, ◌++◌, Text, bytes, text_eq, ok, err, Error, returns,
  fails, arith, Result-cases, inl, inr, pair_eq,
}
use hostpath_provisioner.FilePath.{join}
use hostpath_provisioner.Os.{Os, FileInfo}
use hostpath_provisioner.Os.Laws.{IsLawful}
use hostpath_provisioner.Csi.{Snapshot}
use hostpath_provisioner.Pools.{check_path_exist}
use hostpath_provisioner.Snapshots.{
  Reflink, data_path, reflink_copy, copy_volume, create_snapshot, delete_snapshot,
}

module _ (O : Os) (r : Reflink) where
  -- On a machine that meets IsLawful: where DeleteSnapshot of the provider returns with no error,
  -- nothing is at the path of the snapshot, and nothing has changed unless something was at the
  -- path before.
  pub delete_snapshot_lem :
      IsLawful O
      → (id : Text) (s s' : O.State) → delete_snapshot O r id s ≡ (returns tt, s')
      → (check_path_exist O (join (r.path ∷ id ∷ [])) s' ≡ ok false)
        × ((s' ≡ s) ⊎ (check_path_exist O (join (r.path ∷ id ∷ [])) s ≡ ok true))
  unfolding delete_snapshot
  delete_snapshot_lem L id s s' h =
      let path = join (r.path ∷ id ∷ []) in
      elim (Result-cases (check_path_exist O path s)) [
        | inr (e, p) ↦ absurd (ground arith)
        | inl (false, p) ↦ let same : s ≡ s' = ground arith in (rw (← same) p, inl (sym same))
        | inl (true, p) ↦
            let call = O.remove_all path s in
            elim (Result-cases call.0) [
              | inr (e, q) ↦ absurd (ground arith)
              | inl (u, q) ↦
                  let (e, gone, not_exist) =
                    L.stat-remove_all path s s' (pair_eq call q (ground arith)) in
                  (unfold check_path_exist in ground arith, inr p)
            ]
      ]

  pub copy_volume_failed :
      (id vol src : Text) (s s₁ s₂ s₃ : O.State) (e : Error)
      → check_path_exist O (join (r.path ∷ id ∷ data_path ∷ [])) s ≡ ok false
      → O.mkdir_all (join (r.path ∷ id ∷ data_path ∷ [])) 0o755 s ≡ (ok tt, s₁)
      → O.mkdir_all (join (r.path ∷ id ∷ vol ∷ [])) 0o755 s₁ ≡ (ok tt, s₂)
      → reflink_copy O (src ++ bytes "/.") (join (r.path ∷ id ∷ data_path ∷ [])) s₂ ≡ (err e, s₃)
      → copy_volume O r id vol src s ≡ (fails e, s₃)
  unfolding copy_volume
  copy_volume_failed id vol src s s₁ s₂ s₃ e b c d f = ground arith

  pub create_snapshot-eq-copy_volume :
      (id vol : Text) (s : O.State)
      → check_path_exist O (join (r.source_path ∷ vol ∷ [])) s ≡ ok true
      → create_snapshot O r id vol s ≡ copy_volume O r id vol (join (r.source_path ∷ vol ∷ [])) s
  unfolding create_snapshot copy_volume
  create_snapshot-eq-copy_volume id vol s a = rw (a, create_snapshot) refl

  -- The snapshot that GetSnapshotById makes up from a directory.
  abbrev pub described : Text → Text → FileInfo → Snapshot
  described id vol i = record {
    snapshot_id = id;
    source_volume_id = vol;
    creation_time = record { seconds = i.ctim_sec; nanos = i.ctim_nsec };
    ready_to_use = true;
  }
