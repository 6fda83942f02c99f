-- ===== src/Controller/Volumes/Delete.antt =====
-- What DeleteVolume removes.
use hostpath_provisioner.Base.{
  ◌≡◌, ◌∙◌, false, List, [], ◌∷◌, some, Text, text_eq, is_empty, Result, ok, err, is_not_exist,
  Outcome, returns, fails, errorf, bytes, message, ◌++◌, arith, if◌then◌else◌,
}
use hostpath_provisioner.FilePath.{join, base, dir}
use hostpath_provisioner.Os.{Os}
use hostpath_provisioner.Os.Laws.{IsLawful}
use hostpath_provisioner.Pools.{check_path_exist, delete_volume_directory, find_volume}
use hostpath_provisioner.Pools.Finding.{
  All, AllPaths, NotNamed, find_volume_absent, IsVolumeDir, join-dir, find_volume_inv,
  directories-IsVolumeDir,
}
use hostpath_provisioner.Controller.{HostPathController}
use hostpath_provisioner.Controller.Volumes.{
  validate_delete_volume_request, get_volume_directories, delete_found, delete_volume,
}

-- How DeleteVolume ends by the result of os.RemoveAll.
abbrev pub removal_outcome : Text → Result (Unit {0}) → Outcome (Unit {0})
removal_outcome id (ok _) = returns tt
removal_outcome id (err e) =
    if is_not_exist e
    then returns tt
    else fails (errorf (bytes "failed to delete volume " ++ id ++ bytes ": " ++ message e))

module _ (O : Os) (hpc : HostPathController O.State) where
  -- Where the volume directories can be listed, DeleteVolume of a volume id that is not empty and
  -- the last element of none of them succeeds and changes nothing.
  pub delete_volume_absent :
      (id : Text) (s : O.State) (ds : List Text)
      → is_empty id ≡ false
      → get_volume_directories O hpc s ≡ ok ds
      → All (NotNamed id) ds
      → delete_volume O hpc (some id) s ≡ (returns tt, s)
  unfolding delete_volume validate_delete_volume_request delete_found
  delete_volume_absent id s ds h k ns = ground (arith, find_volume_absent ds id ns)

  delete_found_lem :
      (d id : Text) (s s' : O.State) (r : Result (Unit {0}))
      → is_empty d ≡ false
      → join (dir d ∷ id ∷ []) ≡ d
      → O.remove_all d s ≡ (r, s')
      → delete_found O hpc d id s ≡ (removal_outcome id r, s')
  unfolding delete_found delete_volume_directory
  delete_found_lem d id s s' (ok u) h j k = ground arith
  delete_found_lem d id s s' (err e) h j k = ground arith

  delete_volume-eq-delete_found :
      (id : Text) (s : O.State) (ds : List Text)
      → is_empty id ≡ false
      → get_volume_directories O hpc s ≡ ok ds
      → delete_volume O hpc (some id) s ≡ delete_found O hpc (find_volume ds id) id s
  unfolding delete_volume validate_delete_volume_request
  delete_volume-eq-delete_found id s ds h k = ground arith

  module _ (L : IsLawful O) (id : Text) (s s' : O.State) (ds : List Text)
      (paths : AllPaths hpc.cfg.storage_pool_info) (named : is_empty id ≡ false)
      (listed : get_volume_directories O hpc s ≡ ok ds)
      (found : is_empty (find_volume ds id) ≡ false) where
    found_lem : IsVolumeDir (find_volume ds id) × (base (find_volume ds id) ≡ id)
    found_lem =
        find_volume_inv IsVolumeDir ds id
          (directories-IsVolumeDir O L hpc.cfg.storage_pool_info s ds paths
            (unfold get_volume_directories in listed))
          found

    -- On a machine that meets IsLawful: DeleteVolume of a volume that a pool has, where every
    -- pool has its path set and the volume directories can be listed, fails exactly where the
    -- os.RemoveAll of the directory that the search found fails with an error other than "not
    -- exist", and leaves the machine as that call left it.
    pub delete_volume_outcome :
        (r : Result (Unit {0}))
        → O.remove_all (find_volume ds id) s ≡ (r, s')
        → delete_volume O hpc (some id) s ≡ (removal_outcome id r, s')
    delete_volume_outcome r removed =
        delete_volume-eq-delete_found id s ds named listed
        ∙ delete_found_lem (find_volume ds id) id s s' r found
            (join-dir (find_volume ds id) id found_lem.0 found_lem.1) removed

    -- On a machine that meets IsLawful: DeleteVolume of a volume that a pool has, where every
    -- pool has its path set, the volume directories can be listed and os.RemoveAll succeeds: the
    -- call succeeds, the directory that was removed is the one that the search found, which has
    -- the id as its last element, and nothing is at its path.
    pub delete_volume_found :
        O.remove_all (find_volume ds id) s ≡ (ok tt, s')
        → (delete_volume O hpc (some id) s ≡ (returns tt, s'))
          × (base (find_volume ds id) ≡ id)
          × (check_path_exist O (find_volume ds id) s' ≡ ok false)
    delete_volume_found removed =
        let (e, gone, not_exist) = L.stat-remove_all (find_volume ds id) s s' removed in
        (
          delete_volume_outcome (ok tt) removed,
          found_lem.1,
          (unfold check_path_exist in ground arith),
        )
