-- ===== src/Provisioner/Main.antt =====
-- main of cmd/provisioner/hostpath-provisioner.go: what the provisioning controller is started with.
use hostpath_provisioner.Base.{Text, none, some, Result, ok, err}
use hostpath_provisioner.Provisioner.{
  HostPathProvisioner, default_provisioner_name, new_host_path_provisioner,
}

-- Packages rest, kubernetes and discovery of k8s.io/client-go, as far as main calls them.
pub record KubeLibrary : Type 1 where
  pub Config : Type 0
  pub Clientset : Type 0
  pub in_cluster_config : Result Config
  pub new_for_config : Config → Result Clientset
  pub server_version : Clientset → Result Text

-- glog.Fatalf has ended the process, or the controller that NewProvisionController has made runs.
pub data Start (Clientset : Type 0) : Type 0 where
  fatal : Start Clientset
  runs : Clientset → Text → HostPathProvisioner → Text → Start Clientset

unfoldable pub main : (L : KubeLibrary) → (Text → Text) → Start L.Clientset
main L getenv = elim L.in_cluster_config [
  | err _ ↦ fatal
  | ok config ↦ elim (L.new_for_config config) [
    | err _ ↦ fatal
    | ok clientset ↦ elim (L.server_version clientset) [
      | err _ ↦ fatal
      | ok version ↦ elim (new_host_path_provisioner getenv) [
        | none ↦ fatal
        | some provisioner ↦ runs clientset default_provisioner_name provisioner version
      ]
    ]
  ]
]
