-- ===== src/Server.antt =====
-- pkg/hostpath/server.go: the endpoint of the gRPC server; pkg/hostpath/utils.go: getTLSVersion.
pub mod Endpoint
pub mod Metrics
pub mod Logging
pub mod Lifecycle
use hostpath_provisioner.Base.{
  ℕ, ◌+◌, Text, bytes, ◌==◌, text_eq, is_empty, has_prefix, Bool, true, false, ◌&&◌, ◌||◌, leb,
  List, [], ◌∷◌, ◌++◌, map, Option, none, some, Result, ok, err, errorf, message, is_not_exist,
  if◌then◌else◌, Exec, pure, fail, lift, attempt, perform, ◌>>=◌, ◌>>◌,
}
use hostpath_provisioner.Os.{Os}

lower : ℕ → ℕ
lower c = if leb b'A' c && leb c b'Z' then c + 32 else c

-- strings.ToLower, on ASCII.
unfoldable pub to_lower : Text → Text
unfolding lower
to_lower s = map lower s

abbrev pub scheme_mark : Text
scheme_mark = bytes "://"

-- strings.SplitN(ep, "://", 2), where the mark occurs: what is before it and what is behind it.
unfoldable pub drop_mark : Text → Text
drop_mark (a ∷ b ∷ c ∷ s) = s
drop_mark s = []

unfoldable pub split_mark : Text → Text × Text
unfolding drop_mark has_prefix
split_mark [] = ([], [])
split_mark (c ∷ s) =
    let (before, after) = split_mark s in
    if has_prefix (c ∷ s) scheme_mark then ([], drop_mark (c ∷ s)) else (c ∷ before, after)

unfoldable pub has_scheme : Text → Bool
unfolding has_prefix to_lower
has_scheme ep =
    has_prefix (to_lower ep) (bytes "unix://") || has_prefix (to_lower ep) (bytes "tcp://")

-- The protocol and the address.
unfoldable pub parse : Text → Result (Text × Text)
unfolding has_scheme split_mark
parse ep =
    let (proto, addr) = split_mark ep in
    if has_scheme ep
    then (if is_empty addr
        then err (errorf (bytes "invalid endpoint: " ++ ep))
        else ok (proto, addr))
    else ok (bytes "unix", ep)

-- %q, for a text with nothing to escape.
quote : Text → Text
quote text = b'"' ∷ text ++ b'"' ∷ []

module _ (O : Os) where
  -- The stale socket is removed first; what is returned is the file that `cleanup` removes.
  unfoldable pub remove_stale : Text → Exec O.State (Unit {0})
  unfolding quote
  remove_stale addr = do
    removed ← attempt (O.remove addr)
    elim removed [
      | ok _ ↦ pure tt
      | err e ↦
          if is_not_exist e
          then pure tt
          else fail (errorf (addr ++ bytes ": " ++ quote (message e)))
    ]

  unfoldable pub listen : Text → Exec O.State (Option Text)
  listen endpoint = do
    parsed ← lift (parse endpoint)
    if parsed.0 == bytes "unix"
        then (do
          remove_stale (bytes "/" ++ parsed.1)
          perform (O.listen (bytes "unix") (bytes "/" ++ parsed.1))
          pure (some (bytes "/" ++ parsed.1)))
        else do perform (O.listen (bytes "unix") parsed.1); pure none

-- The number of a TLS version.
unfoldable pub get_tls_version : Text → Option ℕ
get_tls_version name =
    if name == bytes "VersionTLS10"
    then some 0x0301
    else if name == bytes "VersionTLS11"
    then some 0x0302
    else if name == bytes "VersionTLS12"
    then some 0x0303
    else if name == bytes "VersionTLS13"
    then some 0x0304
    else none

-- How RunPrometheusServer sets up TLS: the smallest version, and the given files or a certificate
-- of its own.
pub record MetricsTls : Type 0 where
  pub min_version : ℕ
  pub uses_files : Bool

unfoldable pub metrics_tls : Text → Text → Text → MetricsTls
unfolding get_tls_version
metrics_tls cert_file key_file tls_version = record {
  min_version = elim (get_tls_version tls_version) [ none ↦ 0x0304 | some v ↦ v ];
  uses_files = if is_empty cert_file then false else if is_empty key_file then false else true;
}
