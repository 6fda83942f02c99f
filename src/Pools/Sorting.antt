-- ===== src/Pools/Sorting.antt =====
-- The list of volume directories does not depend on the order in which the map of the pools is
-- iterated, is sorted, and holds the entries of every pool.
use hostpath_provisioner.Base.{
  ◌≡◌, refl, sym, ap, ◌∙◌, true, false, List, [], ◌∷◌, ◌++◌, Text, text_leb, text_eq, arith, ok,
  Result-cases, Bool-cases, inl, inr,
}
use mathlib.Core.List.{Permᴰ, append_assoc}
use mathlib.Core.List.Permᴰ
use mathlib.Core.Path.{ap₂, subst, subst₂}
use hostpath_provisioner.Base.Dict.{Dict}
use hostpath_provisioner.Os.{Os, DirEntry, StoragePoolInfo}
use hostpath_provisioner.Pools.{
  insert_sorted, sort_strings, entry_directories, collect_directories,
  get_storage_pool_data_directories,
}

text_leb_total : (a b : Text) → text_leb a b ≡ false → text_leb b a ≡ true
unfolding text_leb
text_leb_total [] b h = cc
text_leb_total (x ∷ xs) [] h = refl
text_leb_total (x ∷ xs) (y ∷ ys) h = ground (arith, text_leb_total xs ys)

text_leb_antisym : (a b : Text) → text_leb a b ≡ true → text_leb b a ≡ true → a ≡ b
unfolding text_leb
text_leb_antisym [] [] h k = refl
text_leb_antisym [] (y ∷ ys) h k = cc
text_leb_antisym (x ∷ xs) [] h k = cc
text_leb_antisym (x ∷ xs) (y ∷ ys) h k = ground (arith, text_leb_antisym xs ys)

text_leb_trans : (a b c : Text) → text_leb a b ≡ true → text_leb b c ≡ true → text_leb a c ≡ true
unfolding text_leb
text_leb_trans [] b c h k = refl
text_leb_trans (x ∷ xs) [] c h k = cc
text_leb_trans (x ∷ xs) (y ∷ ys) [] h k = cc
text_leb_trans (x ∷ xs) (y ∷ ys) (z ∷ zs) h k = ground (arith, text_leb_trans xs ys zs)

-- Two insertions commute.
insert_sorted_comm :
    (x y : Text) (l : List Text)
    → insert_sorted x (insert_sorted y l) ≡ insert_sorted y (insert_sorted x l)
unfolding insert_sorted
insert_sorted_comm x y [] = ground (arith, text_leb_total x y, text_leb_antisym x y)
insert_sorted_comm x y (z ∷ l) = ground (
  arith,
  insert_sorted_comm x y l,
  text_leb_total x y,
  text_leb_antisym x y,
  text_leb_total x z,
  text_leb_total y z,
  text_leb_trans x y z,
  text_leb_trans y x z,
  text_leb_trans x z y,
  text_leb_trans y z x,
  text_leb_antisym x z,
  text_leb_antisym y z,
)

sort_strings-perm : {xs ys : List Text} → Permᴰ xs ys → sort_strings xs ≡ sort_strings ys
unfolding sort_strings
sort_strings-perm Permᴰ.nil = refl
sort_strings-perm (Permᴰ.cons e h) = ap₂ insert_sorted e (sort_strings-perm h)
sort_strings-perm (Permᴰ.swap {a} {b} {l} e f) =
    insert_sorted_comm a b (sort_strings l) ∙ rw (e, f) refl
sort_strings-perm (Permᴰ.trans h k) = sort_strings-perm h ∙ sort_strings-perm k

-- Each element is at most those behind it.
abbrev pub Below : Text → List Text → Type 0
Below x [] = Unit
Below x (y ∷ ys) = (text_leb x y ≡ true) × Below x ys

abbrev pub IsSorted : List Text → Type 0
IsSorted [] = Unit
IsSorted (x ∷ xs) = Below x xs × IsSorted xs

Below-trans : (x y : Text) (l : List Text) → text_leb x y ≡ true → Below y l → Below x l
Below-trans x y [] h _ = tt
Below-trans x y (z ∷ l) h (k, b) = (text_leb_trans x y z h k, Below-trans x y l h b)

Below-insert_sorted :
    (x y : Text) (l : List Text) → text_leb x y ≡ true → Below x l → Below x (insert_sorted y l)
unfolding insert_sorted
Below-insert_sorted x y [] h _ = (h, tt)
Below-insert_sorted x y (z ∷ l) h (k, b) = elim (Bool-cases (text_leb y z)) [
  | inl e ↦ rw e (h, (k, b))
  | inr e ↦ rw e (k, Below-insert_sorted x y l h b)
]

insert_sorted-IsSorted : (x : Text) (l : List Text) → IsSorted l → IsSorted (insert_sorted x l)
unfolding insert_sorted
insert_sorted-IsSorted x [] _ = (tt, tt)
insert_sorted-IsSorted x (y ∷ l) (b, h) = elim (Bool-cases (text_leb x y)) [
  | inl e ↦ rw e ((e, Below-trans x y l e b), (b, h))
  | inr e ↦ rw e (Below-insert_sorted y x l (text_leb_total x y e) b, insert_sorted-IsSorted x l h)
]

pub sort_strings-IsSorted : (l : List Text) → IsSorted (sort_strings l)
unfolding sort_strings
sort_strings-IsSorted [] = tt
sort_strings-IsSorted (x ∷ l) = insert_sorted-IsSorted x (sort_strings l) (sort_strings-IsSorted l)

perm_fronts : (xs ys zs : List Text) → Permᴰ (xs ++ (ys ++ zs)) (ys ++ (xs ++ zs))
perm_fronts xs ys zs =
    subst₂ Permᴰ (append_assoc xs ys zs) (append_assoc ys xs zs)
      (Permᴰ.append_right zs (Permᴰ.append_comm xs ys))

module _ (O : Os) where
  -- A collection that succeeds, taken apart at its first pool.
  pub collect_directories_inv :
      (k : Text) (info : StoragePoolInfo) (pools : Dict StoragePoolInfo) (s : O.State)
      (ds : List Text)
      → collect_directories O ((k, info) ∷ pools) s ≡ ok ds
      → (files : _) × (rest : List Text) × (O.read_dir info.path s ≡ ok files)
        × (collect_directories O pools s ≡ ok rest)
        × (ds ≡ entry_directories info.path files ++ rest)
  unfolding collect_directories
  collect_directories_inv k info pools s ds h = elim (Result-cases (O.read_dir info.path s)) [
    | inr (e, p) ↦ absurd (ground arith)
    | inl (files, p) ↦ elim (Result-cases (collect_directories O pools s)) [
      | inr (e, q) ↦ absurd (ground arith)
      | inl (rest, q) ↦ (files, rest, p, q, ground arith)
    ]
  ]

  collect_directories-cons :
      (k : Text) (info : StoragePoolInfo) (pools : Dict StoragePoolInfo) (s : O.State)
      (files : List DirEntry) (rest : List Text)
      → O.read_dir info.path s ≡ ok files
      → collect_directories O pools s ≡ ok rest
      → collect_directories O ((k, info) ∷ pools) s ≡ ok (entry_directories info.path files ++ rest)
  unfolding collect_directories
  collect_directories-cons k info pools s files rest p q = ground arith

  abbrev Collects : Dict StoragePoolInfo → O.State → List Text → Type 0
  Collects pools s ds = (ds' : List Text) × (collect_directories O pools s ≡ ok ds') × Permᴰ ds ds'

  collect_directories-perm :
      {pools pools' : Dict StoragePoolInfo} (s : O.State)
      → Permᴰ pools pools'
      → (ds : List Text) → collect_directories O pools s ≡ ok ds
      → Collects pools' s ds
  collect_directories-perm s Permᴰ.nil ds h = (ds, h, Permᴰ.refl ds)
  collect_directories-perm s (Permᴰ.cons {a} {b} {l₁} {l₂} e p) ds h =
      let (files, rest, read, collected, split) = collect_directories_inv a.0 a.1 l₁ s ds h in
      let (rest', collected', perm) = collect_directories-perm s p rest collected in
      subst (λ x. Collects (x ∷ l₂) s ds) e
        (
          entry_directories a.1.path files ++ rest',
          collect_directories-cons a.0 a.1 l₂ s files rest' read collected',
          subst (λ xs. Permᴰ xs (entry_directories a.1.path files ++ rest')) (sym split)
              (Permᴰ.append_left (entry_directories a.1.path files) perm),
        )
  collect_directories-perm s (Permᴰ.swap {a} {b} {a'} {b'} {l} e f) ds h =
      let (files, rest, read, collected, split) = collect_directories_inv a.0 a.1 (b ∷ l) s ds h in
      let (files', rest', read', collected', split') =
        collect_directories_inv b.0 b.1 l s rest collected in
      let front = entry_directories a.1.path files in
      let front' = entry_directories b.1.path files' in
      subst₂ (λ x y. Collects (x ∷ y ∷ l) s ds) f e
        (
          front' ++ (front ++ rest'),
          collect_directories-cons b.0 b.1 (a ∷ l) s files' (front ++ rest') read'
              (collect_directories-cons a.0 a.1 l s files rest' read collected'),
          subst (λ xs. Permᴰ xs (front' ++ (front ++ rest')))
              (sym (split ∙ ap (λ xs. front ++ xs) split')) (perm_fronts front front' rest'),
        )
  collect_directories-perm s (Permᴰ.trans p q) ds h =
      let (ds', collected, perm) = collect_directories-perm s p ds h in
      let (ds'', collected', perm') = collect_directories-perm s q ds' collected in
      (ds'', collected', Permᴰ.trans perm perm')

  -- Whatever the order in which the map of the pools is iterated, the directories listed are the
  -- same, in the same order; and they are in bytewise order.
  pub get_storage_pool_data_directories-perm :
      {pools pools' : Dict StoragePoolInfo} (s : O.State) (ds : List Text)
      → Permᴰ pools pools'
      → get_storage_pool_data_directories O pools s ≡ ok ds
      → (get_storage_pool_data_directories O pools' s ≡ ok ds) × IsSorted ds
  unfolding get_storage_pool_data_directories
  get_storage_pool_data_directories-perm {pools} {pools'} s ds p h =
      elim (Result-cases (collect_directories O pools s)) [
        | inr (e, q) ↦ absurd (ground arith)
        | inl (found, q) ↦
            let (found', collected, perm) = collect_directories-perm s p found q in
            let sorted : sort_strings found ≡ ds = ground arith in
            (
              ground (arith, sort_strings-perm perm),
              subst IsSorted sorted (sort_strings-IsSorted found),
            )
      ]
