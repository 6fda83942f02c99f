-- ===== src/Health/Device.antt =====
-- checkVolumePathSharedWithOS (pkg/hostpath/utils.go): when a path is on the device of the socket's
-- directory.
use hostpath_provisioner.Base.{
  ◌≡◌, refl, ◌↔◌, ◌⊎◌, inl, inr, Text, bytes, nat_eq, text_beq_iff, true, false, List, [], ◌∷◌,
  ◌++◌, ok, contains, arith, Bool-cases, Result-cases, sym, ◌∙◌, ◌==◌, text_eq,
}
use hostpath_provisioner.Os.{Os, MountPointInfo}
use hostpath_provisioner.Health.{
  before_bracket, has_bracket, extract_device_from_mount_info_source, csi_socket_dir,
  get_mount_infos, same_device, check_volume_path_shared_with_os,
}

-- The source of a mount names a device: alone, or with a directory of it in brackets behind it.
abbrev pub IsDevice : Text → Text → Type 0
IsDevice source device =
    (contains device b'[' ≡ false)
    × ((source ≡ device) ⊎ ((rest : Text) × (source ≡ device ++ b'[' ∷ rest)))

has_bracket-contains : (source : Text) → has_bracket source ≡ contains source b'['
unfolding has_bracket contains
has_bracket-contains [] = refl
has_bracket-contains (c ∷ source) = ground (arith, has_bracket-contains source)

before_bracket-clean : (source : Text) → contains (before_bracket source) b'[' ≡ false
unfolding before_bracket contains
before_bracket-clean [] = refl
before_bracket-clean (c ∷ source) = ground (arith, before_bracket-clean source)

before_bracket-split :
    (source : Text)
    → has_bracket source ≡ true
    → (rest : Text) × (source ≡ before_bracket source ++ b'[' ∷ rest)
unfolding before_bracket has_bracket
before_bracket-split [] h = absurd (ground arith)
before_bracket-split (c ∷ source) h = elim (Bool-cases (c == b'[')) [
  | inl e ↦ (source, ground arith)
  | inr e ↦ let (rest, split) = before_bracket-split source (ground arith) in (rest, ground arith)
]

before_bracket-append :
    (device rest : Text)
    → contains device b'[' ≡ false
    → (has_bracket (device ++ b'[' ∷ rest) ≡ true)
      × (before_bracket (device ++ b'[' ∷ rest) ≡ device)
unfolding before_bracket has_bracket contains
before_bracket-append [] rest h = (refl, refl)
before_bracket-append (c ∷ device) rest h =
    let (k, l) = before_bracket-append device rest (ground arith) in (ground arith, ground arith)

-- The device of a source is what the code extracts, and no other.
extract-IsDevice : (source : Text) → IsDevice source (extract_device_from_mount_info_source source)
unfolding extract_device_from_mount_info_source
extract-IsDevice source = elim (Bool-cases (has_bracket source)) [
  | inl e ↦ rw e (before_bracket-clean source, inr (before_bracket-split source e))
  | inr e ↦ rw e (sym (has_bracket-contains source) ∙ e, inl refl)
]

extract_lem :
    (source device : Text)
    → IsDevice source device
    → extract_device_from_mount_info_source source ≡ device
unfolding extract_device_from_mount_info_source
extract_lem source device (clean, inl same) =
    let none_there : has_bracket source ≡ false = rw same (has_bracket-contains device ∙ clean) in
    rw none_there same
extract_lem source device (clean, inr (rest, split)) =
    let (there, before) = before_bracket-append device rest clean in rw (split, there) before

module _ (O : Os) (path : Text) (s : O.State) where
  -- findmnt reports one mount for the path and one for the socket's directory, and their sources
  -- name one device.
  abbrev pub OnSocketDevice : Type 0
  OnSocketDevice =
      (m : MountPointInfo) × (c : MountPointInfo) × (device : Text) × (get_mount_infos O
          (bytes "-T" ∷ path ∷ []) s
        ≡ ok (m ∷ []))
      × (get_mount_infos O (bytes "-T" ∷ csi_socket_dir ∷ []) s ≡ ok (c ∷ []))
      × IsDevice m.source device
      × IsDevice c.source device

  same_device_inv :
      (ms cs : List MountPointInfo)
      → get_mount_infos O (bytes "-T" ∷ path ∷ []) s ≡ ok ms
      → get_mount_infos O (bytes "-T" ∷ csi_socket_dir ∷ []) s ≡ ok cs
      → same_device O ms cs ≡ true
      → OnSocketDevice
  unfolding same_device
  same_device_inv [] cs p q h = absurd (ground arith)
  same_device_inv (m ∷ m' ∷ ms) cs p q h = absurd (ground arith)
  same_device_inv (m ∷ []) [] p q h = absurd (ground arith)
  same_device_inv (m ∷ []) (c ∷ c' ∷ cs) p q h = absurd (ground arith)
  same_device_inv (m ∷ []) (c ∷ []) p q h =
      let device = extract_device_from_mount_info_source m.source in
      let same = (text_beq_iff device (extract_device_from_mount_info_source c.source)).0 h in
      (m, c, device, p, q, extract-IsDevice m.source, rw same (extract-IsDevice c.source))

  pub check_volume_path_shared_with_os_iff :
      (check_volume_path_shared_with_os O path s ≡ true) ↔ OnSocketDevice
  unfolding check_volume_path_shared_with_os same_device
  check_volume_path_shared_with_os_iff = (
    λ h. elim (Result-cases (get_mount_infos O (bytes "-T" ∷ path ∷ []) s)) [
      | inr (e, p) ↦ absurd (ground arith)
      | inl (ms, p) ↦ elim (Result-cases (get_mount_infos O (bytes "-T" ∷ csi_socket_dir ∷ []) s)) [
        | inr (e, q) ↦ absurd (ground arith)
        | inl (cs, q) ↦ same_device_inv ms cs p q (ground arith)
      ]
    ],
    λ (m, c, device, p, q, d, f).
        let x = extract_lem m.source device d in
        let y = extract_lem c.source device f in
        let same = (text_beq_iff device device).1 refl in ground arith,
  )
