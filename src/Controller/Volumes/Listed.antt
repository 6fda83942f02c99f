-- ===== src/Controller/Volumes/Listed.antt =====
-- A volume that was created is listed, and deleted again by its id.
use hostpath_provisioner.Base.{
  ℕ, get_elem?, Error, err, is_not_exist, true, ◌≡◌, sym, ◌∙◌, false, List, [], ◌∷◌, none, some,
  Text, is_empty, ok, returns, arith, pair_eq, Result-cases, inl, inr,
}
use hostpath_provisioner.FilePath.{join, base, clean}
use hostpath_provisioner.FilePath.Words.{IsName}
use hostpath_provisioner.Os.{Os, StoragePoolInfo}
use hostpath_provisioner.Os.Laws.{IsLawful}
use hostpath_provisioner.Csi.{CreateVolumeRequest, Volume}
use hostpath_provisioner.Pools.{
  check_path_exist, create_volume_directory, find_volume, get_storage_pool_name_from_map,
}
use hostpath_provisioner.Pools.Finding.{
  AllPaths, find_volume_inv, IsVolumeDir, directories-IsVolumeDir,
}
use hostpath_provisioner.Pools.Present.{find_volume-mkdir_all, contains-get_elem?}
use hostpath_provisioner.Controller.{HostPathController}
use hostpath_provisioner.Controller.Volumes.{
  create_volume, ensure_volume_directory, get_volume_directories,
}
use hostpath_provisioner.Controller.Volumes.Checks.{Accepts}
use hostpath_provisioner.Controller.Volumes.Create.{
  pool_of, create_in_pool_inv, create_volume-eq-create_in_pool,
}

module _ (O : Os) (hpc : HostPathController O.State) where
  missing :
      (p : Text) (s : O.State)
      → check_path_exist O p s ≡ ok false
      → (x : Error) × (O.stat p s ≡ err x) × (is_not_exist x ≡ true)
  unfolding check_path_exist
  missing p s h = elim (Result-cases (O.stat p s)) [
    | inl (i, e) ↦ absurd (ground arith)
    | inr (x, e) ↦ (x, e, ground arith)
  ]

  made_directory :
      (path name : Text) (s s' : O.State)
      → check_path_exist O (join (path ∷ name ∷ [])) s ≡ ok false
      → ensure_volume_directory O hpc path name s ≡ (returns tt, s')
      → O.mkdir_all (join (path ∷ name ∷ [])) 0o777 s ≡ (ok tt, s')
  unfolding ensure_volume_directory create_volume_directory
  made_directory path name s s' new h =
      let call = O.mkdir_all (join (path ∷ name ∷ [])) 0o777 s in
      elim (Result-cases call.0) [
        | inr (e, q) ↦ absurd (ground arith)
        | inl (u, q) ↦ pair_eq call q (ground arith)
      ]

  -- On a machine that meets IsLawful, where every pool has its path set and the volume
  -- directories can be listed: where CreateVolume of a request that passes its checks, with a
  -- name that is one element of a path, a pool that is configured with a clean path and no content
  -- source, succeeds and nothing was at the path of the volume before, the volume directories can be
  -- listed afterwards, the path of the volume is one of them, and the search for the name finds one
  -- with the name as its last element.
  pub get_volume_directories-create_volume :
      IsLawful O
      → (req : CreateVolumeRequest) (pool : StoragePoolInfo) (s s' : O.State) (vol : Volume)
        (ds : List Text)
      → Accepts hpc.cfg req
      → pool_of O hpc req ≡ some pool
      → req.volume_content_source ≡ none
      → IsName req.name
      → AllPaths hpc.cfg.storage_pool_info
      → is_empty pool.path ≡ false
      → clean pool.path ≡ pool.path
      → check_path_exist O (join (pool.path ∷ req.name ∷ [])) s ≡ ok false
      → get_volume_directories O hpc s ≡ ok ds
      → create_volume O hpc (some req) s ≡ (returns vol, s')
      → (ds' : List Text) × (get_volume_directories O hpc s' ≡ ok ds')
        × ((j : ℕ) × (get_elem? ds' j ≡ some (join (pool.path ∷ req.name ∷ []))))
        × (is_empty (find_volume ds' req.name) ≡ false)
        × (base (find_volume ds' req.name) ≡ req.name)
  unfolding get_volume_directories
  get_volume_directories-create_volume L req pool s s' vol ds a p none_given n paths path c_ new
        listed h =
      let name = get_storage_pool_name_from_map req.parameters in
      let (c, made, ensured) =
        create_in_pool_inv O hpc req name pool s s' vol none_given
          (sym (create_volume-eq-create_in_pool O hpc req pool s a p) ∙ h) in
      let (x, gone, not_exist) = missing (join (pool.path ∷ req.name ∷ [])) s new in
      let mkdir = made_directory pool.path req.name s s' new ensured in
      let (ds', listed', there, found) =
        find_volume-mkdir_all O L hpc.cfg.storage_pool_info name req.name pool s s' ds x p path c_ n
          gone not_exist mkdir listed in
      let dirs = directories-IsVolumeDir O L hpc.cfg.storage_pool_info s' ds' paths listed' in
      let (j, at) = contains-get_elem? (join (pool.path ∷ req.name ∷ [])) ds' there in
      (ds', listed', (j, at), found, (find_volume_inv IsVolumeDir ds' req.name dirs found).1)
