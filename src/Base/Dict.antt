-- ===== src/Base/Dict.antt =====
-- Go maps with string keys: association lists, in any order of iteration.
use mathlib.Core.Path.{◌≡◌, refl}
use mathlib.Core.Option.{Option, none, some}
use mathlib.Core.List.{List, [], ◌∷◌}
use native.Mathlib.Omega.{arith}
use hostpath_provisioner.Base.Tests.{if◌then◌else◌}
use hostpath_provisioner.Base.Texts.{Text, text_beq_iff, text_eq, ◌==◌}

abbrev pub Dict {ℓ} : Type ℓ → Type ℓ
Dict V = List (Text × V)

module _ {ℓ} {V : Type ℓ} where
  -- v, ok := m[k]
  unfoldable pub lookup : Text → Dict V → Option V
  lookup k [] = none
  lookup k ((j, v) ∷ m) = if j == k then some v else lookup k m

  -- m[key] = value
  unfoldable pub insert : Text → V → Dict V → Dict V
  insert key value [] = (key, value) ∷ []
  insert key value ((first, old) ∷ rest) =
      let tail = insert key value rest in
      if first == key then (key, value) ∷ rest else (first, old) ∷ tail

  pub lookup-insert :
      (key other : Text) (value : V) (m : Dict V)
      → lookup other (insert key value m) ≡ (if key == other then some value else lookup other m)
  unfolding lookup insert
  lookup-insert key other value [] = refl
  lookup-insert key other value ((first, old) ∷ rest) = ground (
    arith,
    text_beq_iff first key,
    text_beq_iff first other,
    text_beq_iff key other,
    lookup-insert key other value rest,
  )

-- m[k], the empty string where the key is missing
unfoldable pub value_or_empty : Text → Dict Text → Text
value_or_empty k m = elim (lookup k m) [ none ↦ [] | some v ↦ v ]
