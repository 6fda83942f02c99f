-- ===== src/Snapshots/Contract.antt =====
-- What the controller counts on when it deletes a snapshot, and that the providers that copy with cp
-- keep to it.
use hostpath_provisioner.Base.{
  ◌≡◌, false, true, [], ◌∷◌, none, Text, ok, err, Error, is_not_exist, returns, arith, Result-cases,
  inl, inr,
}
use mathlib.Core.Path.{subst}
use hostpath_provisioner.FilePath.{join}
use hostpath_provisioner.Os.{Os}
use hostpath_provisioner.Os.Laws.{IsLawful}
use hostpath_provisioner.Pools.{check_path_exist}
use hostpath_provisioner.Snapshots.{
  SnapshotProvider, Reflink, reflink_provider, get_source_volume_id, get_snapshot_by_id,
  delete_snapshot,
}
use hostpath_provisioner.Snapshots.Writes.{delete_snapshot_lem}

module _ {S : Type 0} where
  -- The provider answers that it has no snapshot of that id.
  abbrev pub Absent : SnapshotProvider S → Text → S → Type 0
  Absent p id s = p.get_snapshot_by_id id s ≡ (returns none, s)

  -- The contract of a family of providers on one machine.
  pub record IsContract (P : SnapshotProvider S → Type 0) : Type 0 where
    -- A snapshot that is deleted is gone.
    pub get-delete :
        (p : SnapshotProvider S)
        → P p
        → (id : Text) (s s' : S) → p.delete_snapshot id s ≡ (returns tt, s')
        → Absent p id s'
    -- A deletion by any provider brings back no snapshot of another.
    pub get-delete_other :
        (p q : SnapshotProvider S)
        → P p
        → P q
        → (id : Text) (s s' : S) → q.delete_snapshot id s ≡ (returns tt, s')
        → Absent p id s
        → Absent p id s'

module _ (O : Os) where
  -- The provider is one that copies with cp.
  abbrev pub IsReflink : SnapshotProvider O.State → Type 0
  IsReflink p = (r : Reflink) × (reflink_provider O r ≡ p)

  module _ (r : Reflink) where
    get_snapshot_by_id_missing :
        (id : Text) (s : O.State) (e : Error)
        → O.stat (join (r.path ∷ id ∷ [])) s ≡ err e
        → is_not_exist e ≡ true
        → get_snapshot_by_id O r id s ≡ (returns none, s)
    unfolding get_snapshot_by_id
    get_snapshot_by_id_missing id s e h k = ground arith

    pub get_snapshot_by_id_inv :
        (id : Text) (s : O.State)
        → get_snapshot_by_id O r id s ≡ (returns none, s)
        → (e : Error) × (O.stat (join (r.path ∷ id ∷ [])) s ≡ err e) × (is_not_exist e ≡ true)
    unfolding get_snapshot_by_id get_source_volume_id
    get_snapshot_by_id_inv id s h = elim (Result-cases (O.stat (join (r.path ∷ id ∷ [])) s)) [
      | inr (e, p) ↦ (e, p, ground arith)
      | inl (i, p) ↦ absurd (ground arith)
    ]

    check_path_exist_inv :
        (path : Text) (s : O.State)
        → check_path_exist O path s ≡ ok false
        → (e : Error) × (O.stat path s ≡ err e) × (is_not_exist e ≡ true)
    unfolding check_path_exist
    check_path_exist_inv path s h = elim (Result-cases (O.stat path s)) [
      | inr (e, p) ↦ (e, p, ground arith)
      | inl (i, p) ↦ absurd (ground arith)
    ]

    -- A deletion leaves the machine as it is, or calls os.RemoveAll.
    delete_snapshot_missing :
        IsLawful O
        → (q id : Text) (s s' : O.State) (e : Error) → delete_snapshot O r id s ≡ (returns tt, s')
        → O.stat q s ≡ err e
        → is_not_exist e ≡ true
        → (e' : Error) × (O.stat q s' ≡ err e') × (is_not_exist e' ≡ true)
    unfolding delete_snapshot
    delete_snapshot_missing L q id s s' e h k l =
        let path = join (r.path ∷ id ∷ []) in
        let call = O.remove_all path s in
        elim (Result-cases (check_path_exist O path s)) [
          | inr (x, p) ↦ absurd (ground arith)
          | inl (false, p) ↦ (e, ground arith, l)
          | inl (true, p) ↦
              let (e', a, b) = L.stat-remove_all_missing path q s e k l in (e', ground arith, b)
        ]

  get-delete_same :
      IsLawful O
      → (r : Reflink) (id : Text) (s s' : O.State) → delete_snapshot O r id s ≡ (returns tt, s')
      → get_snapshot_by_id O r id s' ≡ (returns none, s')
  get-delete_same L r id s s' h =
      let (gone, _) = delete_snapshot_lem O r L id s s' h in
      let (e, a, b) = check_path_exist_inv r (join (r.path ∷ id ∷ [])) s' gone in
      get_snapshot_by_id_missing r id s' e a b

  get-delete_missing :
      IsLawful O
      → (r q : Reflink) (id : Text) (s s' : O.State) → delete_snapshot O q id s ≡ (returns tt, s')
      → get_snapshot_by_id O r id s ≡ (returns none, s)
      → get_snapshot_by_id O r id s' ≡ (returns none, s')
  get-delete_missing L r q id s s' h k =
      let (e, a, b) = get_snapshot_by_id_inv r id s k in
      let (e', a', b') = delete_snapshot_missing q L (join (r.path ∷ id ∷ [])) id s s' e h a b in
      get_snapshot_by_id_missing r id s' e' a' b'

  -- The providers that copy with cp keep the contract, whatever their directories are.
  pub IsReflink-IsContract : IsLawful O → IsContract IsReflink
  IsReflink-IsContract L = record {
    get-delete = λ p h id s s'.
        subst (λ p. p.delete_snapshot id s ≡ (returns tt, s') → Absent p id s') h.1
          (get-delete_same L h.0 id s s');
    get-delete_other = λ p q h k id s s'.
        subst (λ p. q.delete_snapshot id s ≡ (returns tt, s') → Absent p id s → Absent p id s') h.1
          (subst
            (λ q.
              q.delete_snapshot id s ≡ (returns tt, s')
              → Absent (reflink_provider O h.0) id s
              → Absent (reflink_provider O h.0) id s')
            k.1 (get-delete_missing L h.0 k.0 id s s'));
  }
