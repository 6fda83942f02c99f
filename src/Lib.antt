-- ===== src/Lib.antt =====
-- The hostpath provisioner: a CSI driver (pkg/hostpath, started by cmd/plugin) that keeps each
-- volume as a directory of a storage pool on the node, and the legacy provisioner (cmd/provisioner)
-- that does so through host paths.
--
-- The parts and their files:
--   Base, Base/*: Go's values and effects. A string is the list of its bytes (Text), an int64 an
--     integer with its wrap-around written out (to_int64), a map an association list (Dict). A
--     function that returns (value, error) and changes the machine is an Exec: it returns, fails or
--     panics, and the machine that it leaves comes back in all three cases.
--   FilePath, FilePath/*: path/filepath (Join, Clean, Base, Dir), and what Base and Dir say of a path
--     that was joined. Decimal, Decimal/RoundTrip: strconv's ParseUint and FormatInt.
--   Os: the machine. Every call of packages os, syscall, os/exec, net, encoding/json and
--     k8s.io/utils/mount that the driver makes is a field of the record Os, over a state that is not
--     known. Os/Laws: IsLawful, what some theorems assume of it: the directory that MkdirAll has made
--     is found by Stat, and by ReadDir where nothing was at its path before, what RemoveAll has removed is not, the names in a directory are
--     single elements of a path, and a resource.Quantity keeps its number. Os/Memory: a machine that
--     meets these laws, for the runs. Os/Frame: IsFramed, what a call on one path leaves of another
--     where no symbolic link gives a path a second name, with `covers` for the paths that may lie
--     below a path.
--   Csi: the messages of the Container Storage Interface, with the fields that the driver uses.
--   Capacity, Capacity/Rounding: fsInfo, getPVStats (pkg/hostpath/healthcheck.go),
--     roundDownCapacityPretty (pkg/hostpath/utils.go), getVolumeDirCapacity.
--   Pools, Pools/*: the storage pools, getStoragePoolDataDirectories, checkPathExist, the making and
--     the deletion of a directory (pkg/hostpath/utils.go), and the search for a volume by the last
--     element of its path.
--   Health, Health/Verdicts, Health/Device: pkg/hostpath/healthcheck.go and the calls of findmnt.
--   Snapshots, Snapshots/*: pkg/hostpath/reflink.go. SnapshotProvider is the interface, whose calls
--     the controller makes; reflink_provider fills it, and Snapshots/Contract states what the
--     controller counts on when it deletes a snapshot (IsContract).
--   Controller, Controller/*: pkg/hostpath/controllerserver.go, one function for each handler:
--     create_volume, delete_volume, validate_volume_capabilities, get_capacity, list_volumes,
--     controller_get_volume, controller_create_snapshot, controller_delete_snapshot, list_snapshots.
--     Controller/Providers: what holds of every provider that NewHostPathController makes.
--     Controller/Snaps/Walk: a client of ListSnapshots (follow). Controller/Snaps/Stuck: a snapshot
--     directory with no entry for its volume (IsStuck).
--   Controller/History, Controller/History/*: the controller service as a whole. A Call is a request
--     of one of its handlers, `handle` runs it, `serve` runs a row of them, and `may_remove` lists the
--     paths that a call may remove. `account` is the contract with the clients of the service: it
--     sees calls and results only, and says which volumes a client may count on.
--   Controller/Parallel, Controller/Parallel/*: calls of CreateVolume and DeleteVolume that overlap. A
--     Worker is one call, `advance` its next step, and `interleave` runs the steps of many calls in
--     the order of a schedule. A restore from a snapshot and the deletion where it fails are a step
--     each.
--   Node, Node/*: pkg/hostpath/nodeserver.go: node_publish_volume, node_unpublish_volume,
--     node_get_volume_stats, node_get_info.
--   Driver, Driver/Setup: NewHostPathDriver (pkg/hostpath/hostpath.go), which reads the pools and hands
--     one configuration to the three services; pkg/hostpath/identityserver.go. Health/Monitor: the
--     goroutine that NewHostPathDriver starts, over what its select receives. Driver/Published: the
--     controller and the node together.
--   Server, Server/Endpoint: parse and listen (pkg/hostpath/server.go), getTLSVersion. Server/Lifecycle:
--     Start, Wait, Stop, ForceStop and serve, and Run of pkg/hostpath/hostpath.go, as the steps of a
--     process (Step) and the states that it reaches (Reach); Server/Lifecycle/Waiting holds the
--     invariant. Server/Logging: logGRPC and logGRPCJson, by the lines that they
--     write themselves; the handlers' own lines, some with the whole request, are not modelled.
--   Server/Metrics: RunPrometheusServer (pkg/hostpath/utils.go). Cert, Cert/Names:
--     generateSelfSignedCert (pkg/hostpath/tls.go), with net, crypto/tls and certutil as CertLibrary.
--   Plugin: cmd/plugin/plugin.go, which starts the metrics server and the driver.
--   Provisioner, Provisioner/*: cmd/provisioner/hostpath-provisioner.go, with its main in
--     Provisioner/Main.
--   Tests/*: a machine, a configuration, and the theorems at concrete inputs.
--
-- Loops are recursion on lists. Two functions take fuel: format_from, which prints a number n with the
-- fuel n + 1, one unit for each digit, of which n has at most n + 1; and follow, with one unit for each
-- call, which is given as many as there are snapshots. A call out of range, a nil pointer and
-- klog.Fatalf are the outcome `panics`.
--
-- Not modelled: calls that overlap other than those of Controller/Parallel (the others run one at a
-- time, as the mutex of the controller makes the snapshot calls do), what google.golang.org/grpc,
-- net/http and the metrics library (pkg/monitoring) do, klog.Infof outside the log of calls, the
-- legacy provisioning library (controller/, the copy of another project's library), vendored code,
-- tests, tools and deployment files. The order in which Go goes through a map is that of the
-- association list, the same at every call; Go takes another order at each, and the theorem on the
-- pages of ListSnapshots is for one provider, where there is one order. Texts are compared and put in lower case by their bytes, as ASCII.
pub mod Base
pub mod FilePath
pub mod Os
pub mod Csi
pub mod Capacity
pub mod Pools
pub mod Health
pub mod Snapshots
pub mod Controller
pub mod Decimal
pub mod Node
pub mod Driver
pub mod Server
pub mod Provisioner
pub mod Cert
pub mod Plugin
mod Tests
