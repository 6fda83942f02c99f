-- ===== src/Controller/History/Keeping.antt =====
-- What the handlers of the controller leave at a path that their call spares.
use hostpath_provisioner.Base.{
  ◌≡◌, refl, Text, text_eq, is_empty, true, false, List, [], ◌∷◌, Option, none, some, ok, Error,
  read, is_not_exist, Keeps, pure-Keeps, fail-Keeps, lift-Keeps, read-Keeps, perform-Keeps,
  attempt-Keeps, try-Keeps, if-Keeps, bind-Keeps, result-Keeps, read_then-Keeps,
}
use hostpath_provisioner.FilePath.{join, dir}
use hostpath_provisioner.Os.{Os}
use hostpath_provisioner.Os.Frame.{covers, Present, IsFramed}
use hostpath_provisioner.Os.Laws.{IsLawful}
use hostpath_provisioner.Pools.{
  check_path_exist, create_volume_directory, delete_volume_directory, find_volume,
}
use hostpath_provisioner.Pools.Finding.{
  AllPaths, IsVolumeDir, join-dir, find_volume_inv, directories-IsVolumeDir,
}
use hostpath_provisioner.Controller.{HostPathController}
use hostpath_provisioner.Controller.Volumes.{
  validate_delete_volume_request, ensure_volume_directory, drop_after_restore,
  get_volume_directories, delete_found, delete_volume,
}
use hostpath_provisioner.Controller.History.{delete_volume_call, may_remove, volume_paths, spares}
use hostpath_provisioner.Controller.History.Spared.{Spared, directories-Spared}

module _ (O : Os) (F : IsFramed O) (hpc : HostPathController O.State) (ps : List Text) where
  abbrev pub There : O.State → Type 0
  There = Present O (join ps)

  pub ensured-Keeps : (path name : Text) → Keeps There (ensure_volume_directory O hpc path name)
  unfolding ensure_volume_directory create_volume_directory
  ensured-Keeps path name =
      bind-Keeps There (read (check_path_exist O _)) _ (read-Keeps There _) (λ exists.
        if-Keeps There exists _ _ (pure-Keeps There tt) (
          bind-Keeps There _ _
            (try-Keeps There _
              (perform-Keeps There _ (F.keeps-mkdir_all ps (join (path ∷ name ∷ [])) 0o777)))
            (λ made.
              result-Keeps There made _ _ (λ _. pure-Keeps There tt) (λ e. fail-Keeps There _))))

  removed-Keeps :
      (path name : Text)
      → covers (join (path ∷ name ∷ [])) (join ps) ≡ false
      → Keeps There (delete_volume_directory O path name)
  unfolding delete_volume_directory
  removed-Keeps path name spared =
      bind-Keeps There _ _
        (attempt-Keeps There (O.remove_all (join (path ∷ name ∷ [])))
          (λ s. F.keeps-remove_all ps (path ∷ name ∷ []) s spared))
        (λ removed.
          result-Keeps There removed _ _ (λ _. pure-Keeps There tt)
            (λ e. if-Keeps There (is_not_exist e) _ _ (pure-Keeps There tt) (fail-Keeps There e)))

  pub dropped-Keeps :
      (path name : Text) (e : Error)
      → covers (join (path ∷ name ∷ [])) (join ps) ≡ false
      → Keeps There (drop_after_restore O hpc path name e)
  unfolding drop_after_restore
  dropped-Keeps path name e spared =
      bind-Keeps There _ _ (try-Keeps There _ (removed-Keeps path name spared)) (λ removed.
        result-Keeps There removed _ _ (λ _. fail-Keeps There e) (λ e'. fail-Keeps There _))

  pub found-Keeps :
      (d id : Text)
      → (is_empty d ≡ false → covers (join (dir d ∷ id ∷ [])) (join ps) ≡ false)
      → Keeps There (delete_found O hpc d id)
  unfolding delete_found
  found-Keeps [] id spared = pure-Keeps There tt
  found-Keeps (c ∷ d) id spared =
      bind-Keeps There _ _ (try-Keeps There _ (removed-Keeps (dir (c ∷ d)) id (spared refl)))
        (λ removed.
          result-Keeps There removed _ _ (λ _. pure-Keeps There tt) (λ e. fail-Keeps There _))

  -- The directory that DeleteVolume finds is spared with the paths of the volume.
  pub found-spared :
      IsLawful O
      → AllPaths hpc.cfg.storage_pool_info
      → (id : Text) (s : O.State) (ds : List Text)
      → spares (volume_paths hpc.cfg.storage_pool_info id) (join ps) ≡ true
      → get_volume_directories O hpc s ≡ ok ds
      → is_empty (find_volume ds id) ≡ false
      → covers (join (dir (find_volume ds id) ∷ id ∷ [])) (join ps) ≡ false
  unfolding get_volume_directories
  found-spared L paths id s ds spared listed found =
      let pools = hpc.cfg.storage_pool_info in
      let (is_dir, named) =
        find_volume_inv IsVolumeDir ds id (directories-IsVolumeDir O L pools s ds paths listed)
          found in
      let (apart, _) =
        find_volume_inv (Spared (join ps) pools) ds id
          (directories-Spared (join ps) O L pools s ds paths listed) found in
      rw (join-dir (find_volume ds id) id is_dir named) (apart (rw named spared))

  pub delete_volume-Keeps :
      IsLawful O
      → AllPaths hpc.cfg.storage_pool_info
      → (req : Option Text) → spares (may_remove hpc.cfg (delete_volume_call req)) (join ps) ≡ true
      → Keeps There (delete_volume O hpc req)
  unfolding delete_volume may_remove validate_delete_volume_request
  delete_volume-Keeps L paths none spared = record { behind = λ s h. h }
  delete_volume-Keeps L paths (some id) spared =
      bind-Keeps There _ _ (lift-Keeps There (validate_delete_volume_request (some id))) (λ _.
        read_then-Keeps There (get_volume_directories O hpc) _ (λ s ds listed h.
          (found-Keeps (find_volume ds id) id (found-spared L paths id s ds spared listed)).behind s
            h))
