-- ===== src/Os/Frame.antt =====
-- What a call on one path leaves of another.
use hostpath_provisioner.Base.{
  ℕ, ◌≡◌, refl, Text, bytes, ◌==◌, text_eq, text_beq_iff, has_prefix, contains, Bool, true, false,
  not, ◌||◌, List, [], ◌∷◌, ◌++◌, ok, arith, Bool-cases, inl, inr,
}
use hostpath_provisioner.FilePath.{join, slash, is_rooted}
use hostpath_provisioner.Os.{Os, FileInfo}
use hostpath_provisioner.Os.Memory.{memory, directory, without}

-- A path p may lie at or below a path q: it is equal to q or an extension of q by elements, q is the
-- root, or one of them is relative.
unfoldable pub covers : Text → Text → Bool
unfolding is_rooted has_prefix
covers q p =
    not (is_rooted q)
    || not (is_rooted p)
    || q == slash ∷ []
    || p == q
    || has_prefix p (q ++ slash ∷ [])

module _ (O : Os) where
  -- Something is at the path.
  abbrev pub Present : Text → O.State → Type 0
  Present p s = (i : FileInfo) × (O.stat p s ≡ ok i)

  -- Where no symbolic link gives a path a second name: os.MkdirAll and cp take away nothing that is
  -- there, whether they fail or not, and os.RemoveAll takes away only what its path may cover. The
  -- paths are those that filepath.Join returns.
  pub record IsFramed : Type 0 where
    pub keeps-mkdir_all :
        (ps : List Text) (path : Text) (mode : ℕ) (s : O.State)
        → Present (join ps) s
        → Present (join ps) (O.mkdir_all path mode s).1
    pub keeps-copy :
        (ps : List Text) (args : List Text) (s : O.State)
        → Present (join ps) s
        → Present (join ps) (O.run_command (bytes "cp") (bytes "-rp" ∷ args) s).1
    pub keeps-remove_all :
        (ps qs : List Text) (s : O.State)
        → covers (join qs) (join ps) ≡ false
        → Present (join ps) s
        → Present (join ps) (O.remove_all (join qs) s).1

contains-without_spared :
    (p q : Text) (s : List Text)
    → covers q p ≡ false
    → contains s p ≡ true
    → contains (without q s) p ≡ true
unfolding covers contains without
contains-without_spared p q [] h k = cc
contains-without_spared p q (r ∷ s) h k =
    ground
      (arith, contains-without_spared p q s h, text_beq_iff r p, text_beq_iff r q, text_beq_iff p q)

contains_more : (p q : Text) (s : List Text) → contains s p ≡ true → contains (q ∷ s) p ≡ true
unfolding contains
contains_more p q s h = ground arith

present :
    (blocks inodes : ℕ) (p : Text) (s : List Text)
    → contains s p ≡ true
    → Present (memory blocks inodes) p s
present blocks inodes p s h = (directory, rw h refl)

Present-contains :
    (blocks inodes : ℕ) (p : Text) (s : List Text)
    → Present (memory blocks inodes) p s
    → contains s p ≡ true
Present-contains blocks inodes p s (i, h) = elim (Bool-cases (contains s p)) [
  | inl e ↦ e
  | inr e ↦ absurd (ground arith)
]

pub memory-IsFramed : (blocks inodes : ℕ) → IsFramed (memory blocks inodes)
memory-IsFramed blocks inodes = record {
  keeps-mkdir_all = λ ps path mode s h.
      present blocks inodes (join ps) (path ∷ s)
        (contains_more (join ps) path s (Present-contains blocks inodes (join ps) s h));
  keeps-copy = λ ps args s h. h;
  keeps-remove_all = λ ps qs s h k. present blocks inodes (join ps) (without (join qs) s) (
      contains-without_spared (join ps) (join qs) s h
        (Present-contains blocks inodes (join ps) s k));
}
