-- ===== src/Controller/Volumes/Checks.antt =====
-- What CreateVolume refuses before it touches the machine.
use hostpath_provisioner.Base.{
  ◌≡◌, refl, sym, ◌↔◌, ◌⊎◌, inl, inr, true, false, List, [], ◌∷◌, Option, none, some, Text, ◌==◌,
  text_eq, text_beq_iff, is_empty, ok, arith, Bool-cases, Option-cases,
}
use mathlib.Core.Path.{subst}
use hostpath_provisioner.Base.Dict.{value_or_empty}
use hostpath_provisioner.Csi.{
  CreateVolumeRequest, Topology, TopologyRequirement, VolumeCapability, mount_volume, MountVolume,
  block_volume, no_access_type,
}
use hostpath_provisioner.Pools.{Config}
use hostpath_provisioner.Controller.{topology_key_node}
use hostpath_provisioner.Controller.Volumes.{
  any_mount, names_node, validate_create_volume_request, validate_create_volume_request_topology,
}

-- One of the capabilities is a mount.
pub data HasMount : List VolumeCapability → Type 0 where
  here : {m : MountVolume} {caps : List VolumeCapability} → HasMount (mount_volume m ∷ caps)
  there :
      {c : VolumeCapability} {caps : List VolumeCapability} → HasMount caps → HasMount (c ∷ caps)

-- One of the topologies has the node's id under the driver's key.
pub data Names (node_id : Text) : List Topology → Type 0 where
  here :
      {t : Topology} {ts : List Topology}
      → value_or_empty topology_key_node t.segments ≡ node_id
      → Names node_id (t ∷ ts)
  there : {t : Topology} {ts : List Topology} → Names node_id ts → Names node_id (t ∷ ts)

HasMount-any_mount : {caps : List VolumeCapability} → HasMount caps → any_mount caps ≡ true
unfolding any_mount
HasMount-any_mount HasMount.here = refl
HasMount-any_mount (HasMount.there h) = ground (arith, HasMount-any_mount h)

any_mount-HasMount : (caps : List VolumeCapability) → any_mount caps ≡ true → HasMount caps
unfolding any_mount
any_mount-HasMount [] h = absurd (ground arith)
any_mount-HasMount (mount_volume m ∷ caps) h = HasMount.here
any_mount-HasMount (block_volume ∷ caps) h = HasMount.there (any_mount-HasMount caps h)
any_mount-HasMount (no_access_type ∷ caps) h = HasMount.there (any_mount-HasMount caps h)

Names-names_node :
    {node_id : Text} {ts : List Topology} → Names node_id ts → names_node node_id ts ≡ true
unfolding names_node
Names-names_node {node_id} (Names.here {t} e) =
    ground (arith, text_beq_iff (value_or_empty topology_key_node t.segments) node_id)
Names-names_node (Names.there h) = ground (arith, Names-names_node h)

names_node-Names :
    (node_id : Text) (ts : List Topology) → names_node node_id ts ≡ true → Names node_id ts
unfolding names_node
names_node-Names node_id [] h = absurd (ground arith)
names_node-Names node_id (t ∷ ts) h =
    elim (Bool-cases (value_or_empty topology_key_node t.segments == node_id)) [
      | inl e ↦
          Names.here ((text_beq_iff (value_or_empty topology_key_node t.segments) node_id).0 e)
      | inr e ↦ Names.there (names_node-Names node_id ts (ground arith))
    ]

-- Where the volume may be: anywhere, or on this node by one of the two lists.
abbrev pub IsHere : Text → Option TopologyRequirement → Type 0
IsHere node_id none = Unit {0}
IsHere node_id (some t) = Names node_id t.requisite ⊎ Names node_id t.preferred

-- The request can be served by this node.
pub record IsAcceptable (cfg : Config) (req : CreateVolumeRequest) : Type 0 where
  pub named : is_empty req.name ≡ false
  pub mounts :
      (caps : List VolumeCapability) × (req.volume_capabilities ≡ some caps) × HasMount caps
  pub here : IsHere cfg.node_id req.accessibility_requirements

abbrev pub Accepts : Config → CreateVolumeRequest → Type 0
Accepts cfg req =
    (validate_create_volume_request (some req) ≡ ok tt)
    × (validate_create_volume_request_topology cfg req ≡ ok tt)

IsHere-ok :
    (cfg : Config) (req : CreateVolumeRequest)
    → IsHere cfg.node_id req.accessibility_requirements
    → validate_create_volume_request_topology cfg req ≡ ok tt
unfolding validate_create_volume_request_topology
IsHere-ok cfg req h = elim (Option-cases req.accessibility_requirements) [
  | inl e ↦ ground arith
  | inr (t, e) ↦
      let h' : IsHere cfg.node_id (some t) = subst (IsHere cfg.node_id) e h in
      elim h' [
        | inl n ↦ ground (arith, Names-names_node n)
        | inr n ↦ ground (arith, Names-names_node n)
      ]
]

ok-IsHere :
    (cfg : Config) (req : CreateVolumeRequest)
    → validate_create_volume_request_topology cfg req ≡ ok tt
    → IsHere cfg.node_id req.accessibility_requirements
unfolding validate_create_volume_request_topology
ok-IsHere cfg req h = elim (Option-cases req.accessibility_requirements) [
  | inl e ↦ subst (IsHere cfg.node_id) (sym e) tt
  | inr (t, e) ↦
      subst (IsHere cfg.node_id) (sym e) (elim (Bool-cases (names_node cfg.node_id t.requisite)) [
        | inl n ↦ inl (names_node-Names cfg.node_id t.requisite n)
        | inr n ↦ inr (names_node-Names cfg.node_id t.preferred (ground arith))
      ])
]

-- The two checks of CreateVolume pass exactly for the requests that have a name, at least one
-- capability with a mount, and no topologies or one, required or preferred, that names this node.
pub Accepts-iff :
    (cfg : Config) (req : CreateVolumeRequest) → Accepts cfg req ↔ IsAcceptable cfg req
unfolding validate_create_volume_request
Accepts-iff cfg req = (
  λ (h, k). record {
    named = ground arith;
    mounts = elim (Option-cases req.volume_capabilities) [
      | inl e ↦ absurd (ground arith)
      | inr (caps, e) ↦ (caps, e, any_mount-HasMount caps (ground arith))
    ];
    here = ok-IsHere cfg req k;
  },
  λ a. (let m = HasMount-any_mount a.mounts.2 in ground arith, IsHere-ok cfg req a.here),
)
