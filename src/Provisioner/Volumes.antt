-- ===== src/Provisioner/Volumes.antt =====
-- Provision and Delete of the legacy provisioner.
use hostpath_provisioner.Base.{
  ℤ, ◌≡◌, ◌≢◌, some, Text, text_eq, text_beq, text_beq_iff, ok, returns, arith, Option-cases,
  Result-cases, inl, inr, pair_eq,
}
use hostpath_provisioner.Base.Dict.{lookup}
use hostpath_provisioner.Os.{Os}
use hostpath_provisioner.Provisioner.{
  HostPathProvisioner, PersistentVolume, PersistentVolumeClaim, deleted, provisioner_identity,
  provision_on_node, is_correct_node, deletion_check, volume_object, volume_path,
  calculate_pv_capacity, provision, delete,
}

-- The volume is one of this provisioner's on this node.
abbrev pub IsOurs : HostPathProvisioner → PersistentVolume → Type 0
IsOurs p volume =
    (lookup provisioner_identity volume.annotations ≡ some p.identity)
    × (lookup provision_on_node volume.annotations ≡ some p.node_name)

deletion_check_ours :
    (p : HostPathProvisioner) (volume : PersistentVolume)
    → ¬ IsOurs p volume
    → deletion_check p volume ≢ deleted
unfolding deletion_check is_correct_node
deletion_check_ours p volume h d =
    elim (Option-cases (lookup provisioner_identity volume.annotations)) [
      | inl e ↦ ground arith
      | inr (ann, e) ↦ elim (Option-cases (lookup provision_on_node volume.annotations)) [
        | inl f ↦ ground arith
        | inr (node, f) ↦ h (
          ground (arith, text_beq_iff ann p.identity),
          ground (arith, text_beq_iff ann p.identity, text_beq_iff node p.node_name),
        )
      ]
    ]

module _ (O : Os) (p : HostPathProvisioner) where
  -- Delete changes nothing for a volume that has not both this provisioner's identity and this
  -- node's name in its annotations.
  pub delete_others :
      (volume : PersistentVolume) (s : O.State) → ¬ IsOurs p volume → (delete O p volume s).1 ≡ s
  unfolding delete
  delete_others volume s h = ground (arith, deletion_check_ours p volume h)

  delete_own :
      (pv_name path : Text) (c : ℤ) (t t' : O.State)
      → O.remove_all path t ≡ (ok tt, t')
      → delete O p (volume_object p pv_name path c) t ≡ (returns deleted, t')
  unfolding delete deletion_check is_correct_node volume_object lookup text_beq
  delete_own pv_name path c t t' k =
      ground (arith, text_beq_iff p.identity p.identity, text_beq_iff p.node_name p.node_name)

  -- A volume that Provision has returned is deleted by Delete, where os.RemoveAll works: the
  -- directory that is removed is the one that Provision made.
  pub delete-provision :
      (pvc : PersistentVolumeClaim) (pv_name : Text) (s s' t t' : O.State)
      (volume : PersistentVolume)
      → provision O p pvc pv_name s ≡ (returns volume, s')
      → O.remove_all (volume_path p pvc.name pv_name) t ≡ (ok tt, t')
      → (O.mkdir_all (volume_path p pvc.name pv_name) 0o777 s ≡ (ok tt, s'))
        × (delete O p volume t ≡ (returns deleted, t'))
  unfolding provision
  delete-provision pvc pv_name s s' t t' volume h k =
      let path = volume_path p pvc.name pv_name in
      let call = O.mkdir_all path 0o777 s in
      elim (Result-cases (calculate_pv_capacity O p p.pv_dir s)) [
        | inr (e, q) ↦ absurd (ground arith)
        | inl (c, q) ↦ elim (Result-cases call.0) [
          | inr (e, m) ↦ absurd (ground arith)
          | inl (u, m) ↦
              let made : volume_object p pv_name path c ≡ volume = ground arith in
              (pair_eq call m (ground arith), rw (← made) (delete_own pv_name path c t t' k))
        ]
      ]
