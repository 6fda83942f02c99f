-- ===== src/Provisioner/Claims.antt =====
-- Which claims the legacy provisioner serves.
use hostpath_provisioner.Base.{
  ℤ, ltb_ℤ, ◌≡◌, ◌↔◌, ◌⊎◌, inl, inr, true, false, none, some, Text, text_eq, text_beq_iff, ok,
  arith, Option-cases, Result-cases,
}
use hostpath_provisioner.Base.Dict.{Dict, lookup}
use hostpath_provisioner.Os.{Os}
use hostpath_provisioner.Provisioner.{
  HostPathProvisioner, PersistentVolumeClaim, provision_on_node, selected_node,
  wait_for_first_consumer, is_correct_node, is_correct_node_by_binding_mode, calculate_pv_capacity,
  should_provision,
}

-- The claim is for this node: by its provisionOnNode annotation, or, where it has none and the
-- binding waits for the first consumer, by the node that the scheduler selected.
abbrev pub IsForNode : Dict Text → Text → Text → Type 0
IsForNode annotations node_name binding_mode =
    (lookup provision_on_node annotations ≡ some node_name)
    ⊎ ((lookup provision_on_node annotations ≡ none)
        × (binding_mode ≡ wait_for_first_consumer)
        × (lookup selected_node annotations ≡ some node_name))

is_correct_node_by_binding_mode_iff :
    (annotations : Dict Text) (node_name binding_mode : Text)
    → ((is_correct_node_by_binding_mode annotations node_name binding_mode).0 ≡ true)
      ↔ IsForNode annotations node_name binding_mode
unfolding is_correct_node_by_binding_mode is_correct_node
is_correct_node_by_binding_mode_iff annotations node_name binding_mode =
    elim (Option-cases (lookup provision_on_node annotations)) [
      | inl e ↦ elim (Option-cases (lookup selected_node annotations)) [
        | inl f ↦ (λ h. absurd (ground arith), λ h. ground arith)
        | inr (node, f) ↦ (
          λ h. inr (
            e,
            ground (arith, text_beq_iff binding_mode wait_for_first_consumer),
            ground (arith, text_beq_iff node node_name),
          ),
          λ h. ground (
            arith,
            text_beq_iff binding_mode wait_for_first_consumer,
            text_beq_iff node node_name,
          ),
        )
      ]
      | inr (node, e) ↦ (
        λ h. inl (ground (arith, text_beq_iff node node_name)),
        λ h. ground (arith, text_beq_iff node node_name),
      )
    ]

module _ (O : Os) (p : HostPathProvisioner) where
  -- ShouldProvision says yes exactly to the claims for this node whose request is at most the
  -- rounded capacity of the file system, where that can be read.
  pub should_provision_iff :
      (pvc : PersistentVolumeClaim) (binding_mode : Text) (s : O.State)
      → ((should_provision O p pvc binding_mode s).0 ≡ true) ↔ (
          IsForNode pvc.annotations p.node_name binding_mode
          × ((c : ℤ) × (calculate_pv_capacity O p p.pv_dir s ≡ ok c)
              × (ltb_ℤ c pvc.storage_request ≡ false)))
  unfolding should_provision
  should_provision_iff pvc binding_mode s =
      let right = is_correct_node_by_binding_mode_iff pvc.annotations p.node_name binding_mode in
      elim (Result-cases (calculate_pv_capacity O p p.pv_dir s)) [
        | inr (e, q) ↦ (λ h. absurd (ground arith), λ h. absurd (ground arith))
        | inl (c, q) ↦ (
          λ h. (right.0 (ground arith), (c, q, ground arith)),
          λ h. let yes_node = right.1 h.0 in ground arith,
        )
      ]
