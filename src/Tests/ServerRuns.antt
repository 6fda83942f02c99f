-- ===== src/Tests/ServerRuns.antt =====
-- The server's life, its log, its certificate, and the shared path metric.
use hostpath_provisioner.Base.{
  panics, some, ℕ, ◌≡◌, ◌≢◌, refl, ◌↔◌, Text, bytes, contains, nat_eq, true, List, [], ◌∷◌, ◌++◌,
  Option, none, some, get_elem?, ok, errorf, returns, fail, Exec, if◌then◌else◌, text_eq, ◌==◌,
}
use hostpath_provisioner.Server.Logging.{LogLibrary}
use hostpath_provisioner.Os.{Os}
use hostpath_provisioner.Os.Memory.{memory}
use hostpath_provisioner.Server.Lifecycle.{
  GrpcServer, exited, returned, in_wait, running, stop, force_stop, start, listens, sets_server,
  sets_cleanup, serve_returns, Reach, begin, later,
}
use hostpath_provisioner.Server.Lifecycle.Waiting.{Reach-ne-returned, HasServed, stop_iff}
use hostpath_provisioner.Cert.{is_v4, replace_all, ip_with_dashes, dns_names}
use hostpath_provisioner.Cert.Names.{ip_with_dashes_lem, dns_names_mapped, IsDashed}
use hostpath_provisioner.Health.Monitor.{
  context_done, monitor, pool_path_shared_with_os, minutes, SharedIn, monitor_iff,
}
use hostpath_provisioner.Tests.Compute.{everything}
use hostpath_provisioner.Tests.Data.{config, machine, fresh}

abbrev printed : LogLibrary Text Text
printed = record {
  strip_request = λ req. req;
  strip_response = λ resp. elim resp [ none ↦ [] | some text ↦ text ];
  marshal = λ method req resp text e. ok (method ++ req);
}

abbrev failing : Text → Exec (List Text) Text
failing req = fail (errorf (bytes "no pool"))

-- The server behind the end of its goroutine.
abbrev ended : GrpcServer (List Text)
ended = record {
  wait_group = 1;
  server = true;
  cleanup = some (some (bytes "/csi.sock"));
  goroutine = exited;
  caller = in_wait;
  process = running;
  machine = fresh;
}

ended_reached : Reach machine (bytes "unix://csi.sock") fresh ended
unfolding everything
ended_reached =
    later
      (later
        (later
          (later (later begin (start refl refl))
            (listens (bytes "unix://csi.sock") (some (bytes "/csi.sock")) fresh refl refl refl))
          (sets_server (some (bytes "/csi.sock")) refl refl))
        (sets_cleanup (some (bytes "/csi.sock")) refl refl))
      (serve_returns refl refl)

Reach-ne-returned_example : ended.caller ≢ returned
Reach-ne-returned_example = Reach-ne-returned machine (bytes "unix://csi.sock") ended_reached

stop_iff_example :
    (((force_stop machine ended fresh).0 ≡ returns tt)
      ↔ HasServed machine (bytes "unix://csi.sock") ended)
    × ((force_stop machine ended fresh ≡ (panics, fresh))
        ↔ ¬ HasServed machine (bytes "unix://csi.sock") ended)
    × (stop machine 0 ended fresh ≡ some (force_stop machine ended fresh))
stop_iff_example = stop_iff machine (bytes "unix://csi.sock") ended_reached fresh

-- An environment, and its addresses.
abbrev getenv : Text → Text
getenv name =
    if name == bytes "POD_IP"
    then bytes "10.244.0.5"
    else if name == bytes "POD_NAMESPACE"
    then bytes "default"
    else []

abbrev parse_ip : Text → Option Text
parse_ip text = if text == bytes "10.244.0.5" then some (10 ∷ 244 ∷ 0 ∷ 5 ∷ []) else none

ip_with_dashes_lem_example :
    IsDashed (ip_with_dashes parse_ip (bytes "10.244.0.5")) b'.' (bytes "10.244.0.5")
unfolding everything is_v4 replace_all
ip_with_dashes_lem_example =
    ip_with_dashes_lem parse_ip (bytes "10.244.0.5") (10 ∷ 244 ∷ 0 ∷ 5 ∷ []) refl refl true refl
      refl refl

-- The same with an IPv4-mapped address.
abbrev mapped_getenv : Text → Text
mapped_getenv name =
    if name == bytes "POD_IP"
    then bytes "::ffff:10.244.0.5"
    else if name == bytes "POD_NAMESPACE"
    then bytes "default"
    else []

abbrev mapped_ip : Text
mapped_ip = 0 ∷ 0 ∷ 0 ∷ 0 ∷ 0 ∷ 0 ∷ 0 ∷ 0 ∷ 0 ∷ 0 ∷ 255 ∷ 255 ∷ 10 ∷ 244 ∷ 0 ∷ 5 ∷ []

abbrev parse_mapped : Text → Option Text
parse_mapped text = if text == bytes "::ffff:10.244.0.5" then some mapped_ip else none

dns_names_mapped_example :
    (j : ℕ) × (name : Text) × (get_elem? (dns_names parse_mapped mapped_getenv) j ≡ some name)
    × (contains name b':' ≡ true)
unfolding everything is_v4
dns_names_mapped_example =
    dns_names_mapped parse_mapped mapped_getenv mapped_ip refl refl refl refl refl

-- A machine with a findmnt, which reports one mount for every path.
abbrev with_findmnt : Os
with_findmnt = record (memory 100 10) {
  look_path = λ name s. ok (bytes "/bin/findmnt");
  combined_output = λ path args s. ok (bytes "mounts");
  unmarshal_mounts = λ out. ok (
      record {
        target = bytes "/";
        source = bytes "/dev/sda1[/var]";
        fs_type = bytes "xfs";
        options = [];
      }
      ∷ []);
}

monitor_run : monitor with_findmnt config.storage_pool_info fresh ((context_done, fresh) ∷ []) ≡ 1
unfolding everything monitor pool_path_shared_with_os
monitor_run = refl

monitor_iff_example :
    (monitor with_findmnt config.storage_pool_info fresh
        (minutes with_findmnt (fresh ∷ []) ++ (context_done, fresh) ∷ [])
      ≡ 1)
    ↔ SharedIn with_findmnt fresh config.storage_pool_info
monitor_iff_example = monitor_iff with_findmnt config.storage_pool_info fresh fresh (fresh ∷ []) []
