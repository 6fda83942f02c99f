-- ===== src/Provisioner.antt =====
-- cmd/provisioner/hostpath-provisioner.go: the legacy provisioner, which the provisioning library
-- (controller/) calls: ShouldProvision, Provision and Delete.
pub mod Main
pub mod Claims
pub mod Volumes
use hostpath_provisioner.Base.{
  ℕ, ℤ, pos, ltb_ℤ, to_int64, ◌*ℤ◌, Text, bytes, ◌==◌, text_eq, is_empty, Bool, true, false, List,
  [], ◌∷◌, ◌++◌, Option, none, some, Result, ok, err, Error, errorf, message, if◌then◌else◌, Exec,
  pure, fail, read, attempt, perform, panic, ◌>>=◌, ◌>>◌,
}
use hostpath_provisioner.Base.Dict.{Dict, lookup, insert}
use hostpath_provisioner.FilePath.{join}
use hostpath_provisioner.Os.{Os, StatFs}
use hostpath_provisioner.Capacity.{round_down_capacity_pretty}
use hostpath_provisioner.Server.{to_lower}

pub record HostPathProvisioner : Type 0 where
  pub pv_dir : Text
  pub identity : Text
  pub node_name : Text
  pub use_naming_prefix : Bool

abbrev pub default_provisioner_name : Text
default_provisioner_name = bytes "kubevirt.io/hostpath-provisioner"

abbrev pub ann_storage_provisioner : Text
ann_storage_provisioner = bytes "volume.beta.kubernetes.io/storage-provisioner"

abbrev pub provision_on_node : Text
provision_on_node = bytes "kubevirt.io/provisionOnNode"

abbrev pub selected_node : Text
selected_node = bytes "volume.kubernetes.io/selected-node"

abbrev pub provisioner_identity : Text
provisioner_identity = bytes "hostPathProvisionerIdentity"

-- storage.VolumeBindingMode
abbrev pub wait_for_first_consumer : Text
wait_for_first_consumer = bytes "WaitForFirstConsumer"

-- NewHostPathProvisioner over the environment; `none`: glog.Fatal.
unfoldable pub new_host_path_provisioner : (Text → Text) → Option HostPathProvisioner
new_host_path_provisioner getenv =
    if is_empty (getenv (bytes "NODE_NAME"))
    then none
    else if is_empty (getenv (bytes "PV_DIR"))
    then none
    else some (record {
      pv_dir = getenv (bytes "PV_DIR");
      identity = default_provisioner_name;
      node_name = getenv (bytes "NODE_NAME");
      use_naming_prefix = to_lower (getenv (bytes "USE_NAMING_PREFIX")) == bytes "true";
    })

unfoldable pub is_correct_node : Dict Text → Text → Text → Bool
is_correct_node annotations node_name annotation_name = elim (lookup annotation_name annotations) [
  | none ↦ false
  | some val ↦ val == node_name
]

-- The answer, and the annotations, which one branch writes to.
unfoldable pub is_correct_node_by_binding_mode : Dict Text → Text → Text → Bool × Dict Text
is_correct_node_by_binding_mode annotations node_name binding_mode =
    elim (lookup provision_on_node annotations) [
      | some _ ↦
          if is_correct_node annotations node_name provision_on_node
          then (true, insert ann_storage_provisioner default_provisioner_name annotations)
          else (false, annotations)
      | none ↦
          if binding_mode == wait_for_first_consumer
          then (is_correct_node annotations node_name selected_node, annotations)
          else (false, annotations)
    ]

-- The claim, as far as the provisioner reads it; the request in bytes.
pub record PersistentVolumeClaim : Type 0 where
  pub name : Text
  pub annotations : Dict Text
  pub storage_request : ℤ

-- The volume, as far as the provisioner writes or reads it.
pub record PersistentVolume : Type 0 where
  pub name : Text
  pub annotations : Dict Text
  pub reclaim_policy : Text
  pub access_modes : List Text
  pub capacity : ℤ
  pub host_path : Option Text
  pub node_affinity : Dict (List Text)

-- How Delete fails: with a *controller.IgnoredError, or with another error.
pub data DeleteResult : Type 0 where
  deleted : DeleteResult
  ignored : Text → DeleteResult
  delete_error : Error → DeleteResult

-- The volume object that Provision returns.
unfoldable pub volume_object : HostPathProvisioner → Text → Text → ℤ → PersistentVolume
volume_object p pv_name v_path capacity = record {
  name = pv_name;
  annotations = (provisioner_identity, p.identity) ∷ (provision_on_node, p.node_name) ∷ [];
  reclaim_policy = bytes "Delete";
  access_modes = bytes "ReadWriteOnce" ∷ [];
  capacity = capacity;
  host_path = some v_path;
  node_affinity = (bytes "kubernetes.io/hostname", p.node_name ∷ []) ∷ [];
}

-- The directory of a volume.
unfoldable pub volume_path : HostPathProvisioner → Text → Text → Text
volume_path p claim_name pv_name =
    if p.use_naming_prefix
    then join (p.pv_dir ∷ (claim_name ++ bytes "-" ++ pv_name) ∷ [])
    else join (p.pv_dir ∷ pv_name ∷ [])

-- The checks of Delete before it removes anything; `deleted` stands for passing them.
unfoldable pub deletion_check : HostPathProvisioner → PersistentVolume → DeleteResult
deletion_check p volume = elim (lookup provisioner_identity volume.annotations) [
  | none ↦ delete_error (errorf (bytes "identity annotation not found on PV"))
  | some ann ↦
      if ann == p.identity
      then (if is_correct_node volume.annotations p.node_name provision_on_node
          then deleted
          else ignored (bytes "identity annotation on pvc does not match ours, not deleting PV"))
      else ignored (bytes "identity annotation on PV does not match ours")
]

module _ (O : Os) (p : HostPathProvisioner) where
  -- calculatePvCapacity
  unfoldable pub calculate_pv_capacity : Text → O.State → Result ℤ
  unfolding ◌*ℤ◌ to_int64
  calculate_pv_capacity path s = elim (O.statfs path s) [
    | err e ↦ err e
    | ok st ↦ ok (round_down_capacity_pretty (to_int64 (to_int64 (pos st.blocks) *ℤ st.bsize)))
  ]

  -- The answer, and the annotations of the claim.
  unfoldable pub should_provision : PersistentVolumeClaim → Text → O.State → Bool × Dict Text
  should_provision pvc binding_mode s =
      let (right_node, annotations) =
        is_correct_node_by_binding_mode pvc.annotations p.node_name binding_mode in
      if right_node
      then (
        elim (calculate_pv_capacity p.pv_dir s) [
          | err _ ↦ false
          | ok capacity ↦ if ltb_ℤ capacity pvc.storage_request then false else true
        ],
        annotations,
      )
      else (false, annotations)

  unfoldable pub provision : PersistentVolumeClaim → Text → Exec O.State PersistentVolume
  provision pvc pv_name = do
    capacity ← read (calculate_pv_capacity p.pv_dir)
    let v_path = volume_path p pvc.name pv_name
    perform (O.mkdir_all v_path 0o777)
    pure (volume_object p pv_name v_path capacity)

  -- A volume whose source is no host path is a nil pointer.
  remove_backing : Option Text → Exec O.State DeleteResult
  remove_backing none = panic
  remove_backing (some path) = do
    removed ← attempt (O.remove_all path)
    elim removed [ ok _ ↦ pure deleted | err e ↦ pure (delete_error e) ]

  unfoldable pub delete : PersistentVolume → Exec O.State DeleteResult
  unfolding remove_backing
  delete volume = elim (deletion_check p volume) [
    | deleted ↦ remove_backing volume.host_path
    | ignored reason ↦ pure (ignored reason)
    | delete_error e ↦ pure (delete_error e)
  ]
