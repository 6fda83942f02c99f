-- ===== src/Snapshots/Keeping.antt =====
-- What the provider that copies with cp leaves at other paths.
use hostpath_provisioner.Base.{
  ℕ, ◌≡◌, Text, bytes, text_eq, false, not, List, [], ◌∷◌, none, read, gets, perform, is_not_exist,
  Keeps, pure-Keeps, fail-Keeps, panic-Keeps, read-Keeps, gets-Keeps, perform-Keeps, if-Keeps,
  bind-Keeps, result-Keeps, option-Keeps,
}
use hostpath_provisioner.FilePath.{join}
use hostpath_provisioner.Os.{Os, FileInfo, DirEntry}
use hostpath_provisioner.Os.Frame.{covers, Present, IsFramed}
use hostpath_provisioner.Pools.{check_path_exist}
use hostpath_provisioner.Snapshots.{
  SnapshotProvider, Reflink, source_entry, reflink_copy, ensure_path_exists, initialize,
  get_source_volume_id, describe_snapshot, get_snapshot_by_id, snapshots_of_entries,
  get_all_snapshots, get_snapshots_by_volume_source_id, create_snapshot_from_dir, copy_volume,
  create_snapshot, delete_snapshot, copy_back, restore_snapshot, reflink_provider,
}

-- The calls of a provider that keep P, the deletion of one snapshot among them.
pub record ProviderKeeps {S : Type 0} (P : S → Type 0) (p : SnapshotProvider S) : Type 0 where
  pub initialize : Keeps P p.initialize
  pub get_snapshot_by_id : (id : Text) → Keeps P (p.get_snapshot_by_id id)
  pub get_snapshots_by_volume_source_id :
      (id : Text) → Keeps P (p.get_snapshots_by_volume_source_id id)
  pub get_all_snapshots : Keeps P p.get_all_snapshots
  pub create_snapshot : (id volume : Text) → Keeps P (p.create_snapshot id volume)
  pub restore_snapshot : (id target : Text) → Keeps P (p.restore_snapshot id target)

module _ (O : Os) (F : IsFramed O) (ps : List Text) where
  abbrev There : O.State → Type 0
  There = Present O (join ps)

  made-Keeps : (path : Text) (mode : ℕ) → Keeps There (perform (O.mkdir_all path mode))
  made-Keeps path mode =
      perform-Keeps There (O.mkdir_all path mode) (F.keeps-mkdir_all ps path mode)

  copied-Keeps : (src dst : Text) → Keeps There (perform (reflink_copy O src dst))
  unfolding reflink_copy
  copied-Keeps src dst =
      perform-Keeps There (reflink_copy O src dst)
        (F.keeps-copy ps (bytes "--reflink=auto" ∷ src ∷ dst ∷ []))

  module _ (r : Reflink) where
    source-Keeps : (id : Text) → Keeps There (get_source_volume_id O r id)
    unfolding get_source_volume_id
    source-Keeps id =
        bind-Keeps There (read (O.read_dir (join (r.path ∷ id ∷ [])))) _
          (read-Keeps There (O.read_dir (join (r.path ∷ id ∷ []))))
          (λ entries.
            option-Keeps There (source_entry entries) _ _ (fail-Keeps There _)
              (λ name _. pure-Keeps There name))

    described-Keeps : (id : Text) (info : FileInfo) → Keeps There (describe_snapshot O r id info)
    unfolding describe_snapshot
    described-Keeps id info = if-Keeps There (not info.is_dir) _ _ (fail-Keeps There _) (
        bind-Keeps There (get_source_volume_id O r id) _ (source-Keeps id)
          (λ source. pure-Keeps There _))

    got-Keeps : (id : Text) → Keeps There (get_snapshot_by_id O r id)
    unfolding get_snapshot_by_id
    got-Keeps id =
        bind-Keeps There (gets (O.stat (join (r.path ∷ id ∷ [])))) _
          (gets-Keeps There (O.stat (join (r.path ∷ id ∷ []))))
          (λ found.
            result-Keeps There found _ _ (described-Keeps id) (λ e.
              if-Keeps There (is_not_exist e) _ _ (pure-Keeps There none) (fail-Keeps There e)))

    entries-Keeps : (entries : List DirEntry) → Keeps There (snapshots_of_entries O r entries)
    unfolding snapshots_of_entries
    entries-Keeps [] = pure-Keeps There []
    entries-Keeps (entry ∷ entries) =
        if-Keeps There (not entry.is_dir) _ _ (entries-Keeps entries) (
          bind-Keeps There (get_snapshot_by_id O r entry.name) _ (got-Keeps entry.name) (λ snapshot.
            option-Keeps There snapshot _ _ (panic-Keeps There) (λ found _.
              bind-Keeps There (snapshots_of_entries O r entries) _ (entries-Keeps entries)
                (λ others. pure-Keeps There (found ∷ others)))))

    all-Keeps : Keeps There (get_all_snapshots O r)
    unfolding get_all_snapshots
    all-Keeps =
        bind-Keeps There (read (O.read_dir r.path)) _ (read-Keeps There (O.read_dir r.path))
          entries-Keeps

    of_source-Keeps : (volume : Text) → Keeps There (get_snapshots_by_volume_source_id O r volume)
    unfolding get_snapshots_by_volume_source_id
    of_source-Keeps volume =
        bind-Keeps There (get_all_snapshots O r) _ all-Keeps (λ snapshots. pure-Keeps There _)

    from_dir-Keeps :
        (id volume path : Text) → Keeps There (create_snapshot_from_dir O r id volume path)
    unfolding create_snapshot_from_dir
    from_dir-Keeps id volume path =
        bind-Keeps There (read (O.stat_ctim path)) _ (read-Keeps There (O.stat_ctim path))
          (λ time. pure-Keeps There _)

    copy_volume-Keeps : (id volume dir : Text) → Keeps There (copy_volume O r id volume dir)
    unfolding copy_volume
    copy_volume-Keeps id volume dir =
        bind-Keeps There (read (check_path_exist O _)) _ (read-Keeps There _) (λ exists.
          if-Keeps There exists _ _ (from_dir-Keeps id volume _) (
            bind-Keeps There _ _ (made-Keeps _ 0o755) (λ _.
              bind-Keeps There _ _ (made-Keeps _ 0o755)
                (λ _. bind-Keeps There _ _ (copied-Keeps _ _) (λ _. from_dir-Keeps id volume _)))))

    created-Keeps : (id volume : Text) → Keeps There (create_snapshot O r id volume)
    unfolding create_snapshot
    created-Keeps id volume =
        bind-Keeps There (read (check_path_exist O _)) _ (read-Keeps There _)
          (λ exists. if-Keeps There exists _ _ (copy_volume-Keeps id volume _) (fail-Keeps There _))

    copy_back-Keeps : (src dst : Text) → Keeps There (copy_back O r src dst)
    unfolding copy_back
    copy_back-Keeps src dst =
        bind-Keeps There (read (check_path_exist O dst)) _ (read-Keeps There _)
          (λ exists. if-Keeps There exists _ _ (copied-Keeps _ dst) (fail-Keeps There _))

    restored-Keeps : (id target : Text) → Keeps There (restore_snapshot O r id target)
    unfolding restore_snapshot
    restored-Keeps id target =
        bind-Keeps There (read (check_path_exist O _)) _ (read-Keeps There _)
          (λ exists. if-Keeps There exists _ _ (copy_back-Keeps _ target) (fail-Keeps There _))

    -- Deleting a snapshot whose path does not cover the other path keeps what is there.
    pub delete_snapshot-Keeps :
        (id : Text)
        → covers (join (r.path ∷ id ∷ [])) (join ps) ≡ false
        → Keeps There (delete_snapshot O r id)
    unfolding delete_snapshot
    delete_snapshot-Keeps id spared =
        bind-Keeps There (read (check_path_exist O _)) _ (read-Keeps There _) (λ exists.
          if-Keeps There exists _ _
            (perform-Keeps There (O.remove_all (join (r.path ∷ id ∷ [])))
              (λ s. F.keeps-remove_all ps (r.path ∷ id ∷ []) s spared))
            (pure-Keeps There tt))

    pub reflink_provider-Keeps : ProviderKeeps There (reflink_provider O r)
    unfolding initialize ensure_path_exists
    reflink_provider-Keeps = record {
      initialize = made-Keeps r.path 0o755;
      get_snapshot_by_id = got-Keeps;
      get_snapshots_by_volume_source_id = of_source-Keeps;
      get_all_snapshots = all-Keeps;
      create_snapshot = created-Keeps;
      restore_snapshot = restored-Keeps;
    }
