-- ===== src/Server/Metrics.antt =====
-- RunPrometheusServer (pkg/hostpath/utils.go): what the metrics server is started with.
use hostpath_provisioner.Base.{ℕ, Text, text_eq, [], Option, none, some, ok, err, if◌then◌else◌}
use hostpath_provisioner.Cert.{CertLibrary, generate_self_signed_cert}
use hostpath_provisioner.Server.{metrics_tls}

-- http.Server with its TLS configuration, and the files that ListenAndServeTLS is given.
pub record MetricsServer (Certificate : Type 0) : Type 0 where
  pub addr : Text
  pub min_version : ℕ
  pub certificate : Option Certificate
  pub cert_file : Text
  pub key_file : Text

-- The server whose goroutine is started; `none` where the function returns before that.
unfoldable pub run_prometheus_server :
    (L : CertLibrary)
    → (Text → Text)
    → Text
    → Text
    → Text
    → Text
    → Option (MetricsServer L.Certificate)
unfolding metrics_tls
run_prometheus_server L getenv metrics_addr cert_file key_file tls_version =
    let tls = metrics_tls cert_file key_file tls_version in
    if tls.uses_files
    then some (record {
      addr = metrics_addr;
      min_version = tls.min_version;
      certificate = none;
      cert_file = cert_file;
      key_file = key_file;
    })
    else elim (generate_self_signed_cert L getenv) [
      | err _ ↦ none
      | ok own ↦ some (record {
        addr = metrics_addr;
        min_version = tls.min_version;
        certificate = some own;
        cert_file = [];
        key_file = [];
      })
    ]
