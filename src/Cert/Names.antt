-- ===== src/Cert/Names.antt =====
-- The name of the pod in the certificate.
use hostpath_provisioner.Base.{
  ℕ, ◌≡◌, refl, Text, bytes, nat_eq, nat_beq, text_eq, is_empty, contains, Bool, true, false, [],
  ◌∷◌, ◌++◌, Option, get_elem?, some, if◌then◌else◌, arith, ◌∙◌,
}
use hostpath_provisioner.Cert.{dns_names, pod_names, is_v4, replace_all, ip_with_dashes}

contains-replace_all_old :
    (old new : ℕ) (t : Text)
    → nat_beq new old ≡ false
    → contains (replace_all old new t) old ≡ false
unfolding replace_all contains
contains-replace_all_old old new [] h = refl
contains-replace_all_old old new (c ∷ t) h = ground (arith, contains-replace_all_old old new t h)

contains-replace_all_other :
    (old new c : ℕ) (t : Text)
    → nat_beq new c ≡ false
    → nat_beq old c ≡ false
    → contains (replace_all old new t) c ≡ contains t c
unfolding replace_all contains
contains-replace_all_other old new c [] h k = refl
contains-replace_all_other old new c (x ∷ t) h k =
    ground (arith, contains-replace_all_other old new c t h k)

-- Replacing back gives the text, where it had none of the new character.
replace_all_back :
    (old new : ℕ) (t : Text)
    → contains t new ≡ false
    → replace_all new old (replace_all old new t) ≡ t
unfolding replace_all contains
replace_all_back old new [] h = refl
replace_all_back old new (c ∷ t) h = ground (arith, replace_all_back old new t)

contains-nonempty : (t : Text) (c : ℕ) → contains t c ≡ true → is_empty t ≡ false
unfolding contains
contains-nonempty [] c h = cc
contains-nonempty (x ∷ t) c h = refl

contains-append : (t u : Text) (c : ℕ) → contains t c ≡ true → contains (t ++ u) c ≡ true
unfolding contains
contains-append [] u c h = cc
contains-append (x ∷ t) u c h = ground (arith, contains-append t u c)

-- A text with neither dots nor colons, from which the address is read back by putting the separator
-- in place of the dashes.
abbrev pub IsDashed : Text → ℕ → Text → Type 0
IsDashed label separator pod_ip =
    (contains label b'.' ≡ false)
    × (contains label b':' ≡ false)
    × (replace_all b'-' separator label ≡ pod_ip)

module _ (parse_ip : Text → Option Text) (pod_ip ip : Text) (nonempty : is_empty pod_ip ≡ false)
    (parsed : parse_ip pod_ip ≡ some ip) where
  -- Where POD_IP is an address with no dash in it, and with no colon if it counts as IPv4, which leaves
  -- out the mapped addresses, and no dot if it does not, which leaves out the dotted form of IPv6: its
  -- dashed form has neither dots nor colons, and with dots for the dashes, or colons if it does not
  -- count as IPv4, it is the address again.
  pub ip_with_dashes_lem :
      (v4 : Bool)
      → is_v4 ip ≡ v4
      → contains pod_ip b'-' ≡ false
      → contains pod_ip (if v4 then b':' else b'.') ≡ false
      → IsDashed (ip_with_dashes parse_ip pod_ip) (if v4 then b'.' else b':') pod_ip
  unfolding ip_with_dashes
  ip_with_dashes_lem true kind plain clean =
      rw (nonempty, parsed, kind)
        (
          contains-replace_all_old b'.' b'-' pod_ip refl,
          contains-replace_all_other b'.' b'-' b':' pod_ip refl refl ∙ clean,
          replace_all_back b'.' b'-' pod_ip plain,
        )
  ip_with_dashes_lem false kind plain clean =
      rw (nonempty, parsed, kind)
        (
          contains-replace_all_other b':' b'-' b'.' pod_ip refl refl ∙ clean,
          contains-replace_all_old b':' b'-' pod_ip refl,
          replace_all_back b':' b'-' pod_ip plain,
        )

  mapped_label : is_v4 ip ≡ true → ip_with_dashes parse_ip pod_ip ≡ replace_all b'.' b'-' pod_ip
  unfolding ip_with_dashes
  mapped_label kind = rw (nonempty, parsed, kind) refl

-- Where POD_IP is an address that counts as IPv4 and is written with a colon, as the mapped addresses
-- of IPv6 are, and there is a namespace, the certificate has a DNS name with a colon in it.
pub dns_names_mapped :
    (parse_ip : Text → Option Text) (getenv : Text → Text) (ip : Text)
    → is_empty (getenv (bytes "POD_IP")) ≡ false
    → parse_ip (getenv (bytes "POD_IP")) ≡ some ip
    → is_v4 ip ≡ true
    → contains (getenv (bytes "POD_IP")) b':' ≡ true
    → is_empty (getenv (bytes "POD_NAMESPACE")) ≡ false
    → (j : ℕ) × (name : Text) × (get_elem? (dns_names parse_ip getenv) j ≡ some name)
      × (contains name b':' ≡ true)
unfolding dns_names pod_names
dns_names_mapped parse_ip getenv ip nonempty parsed kind colon namespace =
    let pod_ip = getenv (bytes "POD_IP") in
    let dashed = replace_all b'.' b'-' pod_ip in
    let keeps = contains-replace_all_other b'.' b'-' b':' pod_ip refl refl ∙ colon in
    let present = contains-nonempty dashed b':' keeps in
    let namespace_text = getenv (bytes "POD_NAMESPACE") in
    let suffix = bytes ".pod.cluster.local" in
    (
      1,
      dashed ++ bytes "." ++ namespace_text ++ suffix,
      rw (mapped_label parse_ip pod_ip ip nonempty parsed kind, present, namespace) refl,
      contains-append (dashed ++ bytes "." ++ namespace_text) suffix b':' (
          contains-append (dashed ++ bytes ".") namespace_text b':'
            (contains-append dashed (bytes ".") b':' keeps)),
    )
