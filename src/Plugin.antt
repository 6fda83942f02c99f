-- ===== src/Plugin.antt =====
-- cmd/plugin/plugin.go: the program of the driver.
use hostpath_provisioner.Base.{Text, bytes, [], Option, returns, fails, panics}
use hostpath_provisioner.Os.{Os}
use hostpath_provisioner.Pools.{Config}
use hostpath_provisioner.Driver.{new_host_path_driver}
use hostpath_provisioner.Controller.{HostPathController}
use hostpath_provisioner.Cert.{CertLibrary}
use hostpath_provisioner.Server.Metrics.{MetricsServer, run_prometheus_server}

-- What flag.Parse fills in.
pub record Flags : Type 0 where
  pub cfg : Config
  pub data_dir : Text
  pub metrics_cert_file : Text
  pub metrics_key_file : Text
  pub metrics_tls_version : Text

-- The defaults of the flags.
unfoldable pub default_flags : Flags
default_flags = record {
  cfg = record {
    driver_name = bytes "hostpath.csi.kubevirt.io";
    endpoint = bytes "unix://tmp/csi.sock";
    node_id = [];
    storage_pool_info = [];
    default_storage_pool_name = [];
    version = [];
  };
  data_dir =
      bytes
        "[{\"name\":\"legacy\",\"path\":\"/csi-data-dir\",\"snapshotPath\":\"/snap-dir\", \"snapshotProvider\":\"reflink\"}]";
  metrics_cert_file = [];
  metrics_key_file = [];
  metrics_tls_version = bytes "VersionTLS13";
}

-- How main goes on: it exits with status 1, it enters driver.Run, or it has panicked.
pub data Main (S : Type 0) : Type 0 where
  exits : Main S
  runs : HostPathController S → Main S
  crashes : Main S

module _ (O : Os) (L : CertLibrary) (getenv : Text → Text) where
  -- The metrics server that is started, how main goes on, and the machine.
  unfoldable pub main :
      Flags → O.State → Option (MetricsServer L.Certificate) × (Main O.State × O.State)
  main flags s =
      let metrics =
        run_prometheus_server L getenv (bytes ":8443") flags.metrics_cert_file
          flags.metrics_key_file flags.metrics_tls_version in
      let (driver, s') = new_host_path_driver O flags.cfg flags.data_dir s in
      (metrics, (elim driver [ returns hpc ↦ runs hpc | fails _ ↦ exits | panics ↦ crashes ], s'))
