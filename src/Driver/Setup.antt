-- ===== src/Driver/Setup.antt =====
-- The pools that a driver starts with.
use hostpath_provisioner.Base.{
  ◌≡◌, refl, ◌∙◌, true, List, [], ◌∷◌, Option, none, some, Text, ◌==◌, text_eq, is_empty,
  Bool-cases, inl, inr, arith, if◌then◌else◌,
}
use hostpath_provisioner.Base.Dict.{lookup, insert, lookup-insert}
use hostpath_provisioner.Os.{StoragePoolInfo}
use hostpath_provisioner.Pools.{Config}
use hostpath_provisioner.Driver.{register_pools}

-- The last pool of that name in the list.
unfoldable pub last_named : Text → List StoragePoolInfo → Option StoragePoolInfo
last_named name [] = none
last_named name (pool ∷ pools) = elim (last_named name pools) [
  | some later ↦ some later
  | none ↦ if pool.name == name then some pool else none
]

-- The first name in the list that is not empty.
unfoldable pub first_name : List StoragePoolInfo → Text
first_name [] = []
first_name (pool ∷ pools) =
    let rest = first_name pools in if is_empty pool.name then rest else pool.name

is_empty-eq-nil : (t : Text) → is_empty t ≡ true → t ≡ []
is_empty-eq-nil [] h = refl
is_empty-eq-nil (c ∷ t) h = absurd (ground arith)

-- After NewHostPathDriver has read the list of pools, a name stands for the last pool of that name
-- in the list, or for what it stood for before where there is none.
pub lookup-register_pools :
    (pools : List StoragePoolInfo) (cfg : Config) (name : Text)
    → lookup name (register_pools pools cfg).storage_pool_info ≡ (elim (last_named name pools) [
      | some pool ↦ some pool
      | none ↦ lookup name cfg.storage_pool_info
    ])
unfolding register_pools last_named
lookup-register_pools [] cfg name = refl
lookup-register_pools (pool ∷ pools) cfg name =
    lookup-register_pools pools
      (record cfg {
        default_storage_pool_name =
            if is_empty cfg.default_storage_pool_name
            then pool.name
            else cfg.default_storage_pool_name;
        storage_pool_info = insert pool.name pool cfg.storage_pool_info;
      })
      name
    ∙ ground (arith, lookup-insert pool.name name pool cfg.storage_pool_info)

-- The default pool is the one that was given, or else the first with a name.
pub default-register_pools :
    (pools : List StoragePoolInfo) (cfg : Config)
    → (register_pools pools cfg).default_storage_pool_name ≡ (
        if is_empty cfg.default_storage_pool_name
        then first_name pools
        else cfg.default_storage_pool_name)
unfolding register_pools first_name
default-register_pools [] cfg = elim (Bool-cases (is_empty cfg.default_storage_pool_name)) [
  | inl e ↦ rw e (is_empty-eq-nil cfg.default_storage_pool_name e)
  | inr e ↦ rw e refl
]
default-register_pools (pool ∷ pools) cfg =
    default-register_pools pools (record cfg {
      default_storage_pool_name =
          if is_empty cfg.default_storage_pool_name
          then pool.name
          else cfg.default_storage_pool_name;
      storage_pool_info = insert pool.name pool cfg.storage_pool_info;
    })
    ∙ ground arith
