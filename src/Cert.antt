-- ===== src/Cert.antt =====
-- pkg/hostpath/tls.go: the self-signed certificate of the metrics server.
pub mod Names
use hostpath_provisioner.Base.{
  ℕ, Text, bytes, ◌==◌, nat_eq, text_eq, nat_beq, is_empty, Bool, true, false, ◌&&◌, ◌||◌, List, [],
  ◌∷◌, ◌++◌, map, length, take, drop, Option, none, some, Result, ok, err, errorf, message,
  if◌then◌else◌,
}

-- Packages net, crypto/tls and k8s.io/client-go/util/cert, as far as they are called. An address is
-- the list of its bytes.
pub record CertLibrary : Type 1 where
  pub Certificate : Type 0
  pub parse_ip : Text → Option Text
  pub generate_self_signed_cert_key : Text → List Text → List Text → Result (Text × Text)
  pub x509_key_pair : Text → Text → Result Certificate

-- ip.To4() != nil: four bytes, or sixteen of which the first twelve are those of a mapped address.
unfoldable pub is_v4 : Text → Bool
is_v4 ip =
    nat_beq (length ip) 4
    || (nat_beq (length ip) 16
        && take 12 ip == 0 ∷ 0 ∷ 0 ∷ 0 ∷ 0 ∷ 0 ∷ 0 ∷ 0 ∷ 0 ∷ 0 ∷ 255 ∷ 255 ∷ [])

-- strings.ReplaceAll, of one character by another
unfoldable pub replace_all : ℕ → ℕ → Text → Text
replace_all old new [] = []
replace_all old new (c ∷ s) = (if c == old then new else c) ∷ replace_all old new s

abbrev pub localhost : Text
localhost = bytes "localhost"

module _ (parse_ip : Text → Option Text) where
  -- ips: localhost, and the address of the pod where POD_IP has one
  unfoldable pub subject_ips : Text → List Text
  subject_ips pod_ip =
      let localhost_ip = 127 ∷ 0 ∷ 0 ∷ 1 ∷ [] in
      if is_empty pod_ip
      then localhost_ip ∷ []
      else elim (parse_ip pod_ip) [ none ↦ localhost_ip ∷ [] | some ip ↦ localhost_ip ∷ ip ∷ [] ]

  -- ipWithDashes
  unfoldable pub ip_with_dashes : Text → Text
  unfolding is_v4 replace_all
  ip_with_dashes pod_ip = if is_empty pod_ip then [] else elim (parse_ip pod_ip) [
    | none ↦ []
    | some ip ↦ if is_v4 ip then replace_all b'.' b'-' pod_ip else replace_all b':' b'-' pod_ip
  ]

unfoldable pub pod_names : Text → Text → List Text
pod_names ip_dashes pod_namespace =
    if is_empty ip_dashes
    then []
    else if is_empty pod_namespace
    then []
    else (ip_dashes ++ bytes "." ++ pod_namespace ++ bytes ".pod.cluster.local") ∷ []

unfoldable pub service_names : Text → Text → List Text
service_names service_name pod_namespace =
    if is_empty service_name
    then []
    else if is_empty pod_namespace
    then []
    else service_name
      ∷ (service_name ++ bytes "." ++ pod_namespace)
      ∷ (service_name ++ bytes "." ++ pod_namespace ++ bytes ".svc")
      ∷ (service_name ++ bytes "." ++ pod_namespace ++ bytes ".svc.cluster.local")
      ∷ []

-- dnsNames, over the environment
unfoldable pub dns_names : (Text → Option Text) → (Text → Text) → List Text
unfolding ip_with_dashes pod_names service_names
dns_names parse_ip getenv =
    let pod_namespace = getenv (bytes "POD_NAMESPACE") in
    localhost
    ∷ (pod_names (ip_with_dashes parse_ip (getenv (bytes "POD_IP"))) pod_namespace
        ++ service_names (getenv (bytes "SERVICE_NAME")) pod_namespace)

unfoldable pub generate_self_signed_cert : (L : CertLibrary) → (Text → Text) → Result L.Certificate
unfolding subject_ips dns_names
generate_self_signed_cert L getenv =
    elim (L.generate_self_signed_cert_key localhost
      (subject_ips L.parse_ip (getenv (bytes "POD_IP"))) (dns_names L.parse_ip getenv)) [
        | err e ↦ err (errorf (bytes "failed to generate self-signed certificate: " ++ message e))
        | ok (cert, key) ↦ elim (L.x509_key_pair cert key) [
          | err e ↦ err (errorf (bytes "failed to create self-signed key pair: " ++ message e))
          | ok key_pair ↦ ok key_pair
        ]
      ]
