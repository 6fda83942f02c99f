-- ===== src/Os/Memory.antt =====
-- A machine that meets the laws: the set of its directories, by their paths, with no faults. The
-- file system has as many free blocks and inodes as it is given.
use hostpath_provisioner.Base.{
  ℕ, pos, ◌≡◌, refl, Bool, true, false, not, ◌&&◌, List, [], ◌∷◌, ◌++◌, Text, bytes, ◌==◌, text_eq,
  text_beq, text_beq_iff, is_empty, contains, has_prefix, ok, err, Error, os_error, errorf,
  if◌then◌else◌, arith, Bool-cases, inl, inr,
}
use mathlib.Core.Path.{subst}
use hostpath_provisioner.FilePath.{join, base, slash, dots, has_slash}
use hostpath_provisioner.FilePath.Words.{IsName}
use hostpath_provisioner.FilePath.Join.{base-join}
use hostpath_provisioner.Os.{Os, FileInfo, DirEntry, eof}
use hostpath_provisioner.Os.Laws.{IsLawful, AllNames, has_directory}

unfoldable pub is_name : Text → Bool
unfolding has_slash text_beq
is_name w =
    if is_empty w
    then false
    else if w == bytes "."
    then false
    else if has_slash w
    then false
    else not (w == dots)

is_name-IsName : (w : Text) → is_name w ≡ true → IsName w
unfolding is_name
is_name-IsName w h = record {
  word = record { nonempty = ground arith; not_dot = ground arith; no_slash = ground arith };
  not_dots = ground arith;
}

IsName-is_name : (w : Text) → IsName w → is_name w ≡ true
unfolding is_name
IsName-is_name w h = rw (h.word.nonempty, h.word.not_dot, h.word.no_slash, h.not_dots) refl

abbrev not_there : Error
not_there = os_error true (bytes "no such file or directory")

abbrev pub directory : FileInfo
directory = record { is_dir = true; mode = bytes "drwxr-xr-x"; ctim_sec = pos 1; ctim_nsec = pos 0 }

-- The path itself and what lies below it.
unfoldable pub without : Text → List Text → List Text
unfolding has_prefix
without p [] = []
without p (q ∷ s) =
    let rest = without p s in
    if q == p then rest else if has_prefix q (p ++ slash ∷ []) then rest else q ∷ rest

unfoldable pub children : Text → List Text → List DirEntry
unfolding is_name
children p [] = []
children p (q ∷ s) =
    let rest = children p s in
    if is_name (base q) && join (p ∷ base q ∷ []) == q
    then record { name = base q; is_dir = true } ∷ rest
    else rest

abbrev pub memory : ℕ → ℕ → Os
memory blocks inodes = record {
  State = List Text;
  stat = λ p s. if contains s p then ok directory else err not_there;
  read_dir = λ p s. if contains s p then ok (children p s) else err not_there;
  open_file = λ p s. if contains s p then ok tt else err not_there;
  first_name = λ p s. eof;
  stat_ctim = λ p s. ok (pos 1);
  statfs = λ p s. ok (record {
    bavail = blocks;
    blocks = blocks;
    bfree = blocks;
    files = inodes;
    ffree = inodes;
    bsize = pos 4096;
  });
  mkdir = λ p mode s. (ok tt, p ∷ s);
  mkdir_all = λ p mode s. (ok tt, p ∷ s);
  remove = λ p s. (ok tt, without p s);
  remove_all = λ p s. (ok tt, without p s);
  look_path = λ name s. err not_there;
  combined_output = λ path args s. err not_there;
  run_command = λ name args s. (ok tt, s);
  is_not_mount_point = λ p s. if contains s p then ok true else err not_there;
  mount = λ source target fs_type options s. (ok tt, s);
  unmount = λ target s. (ok tt, s);
  unmarshal_mounts = λ out. err (errorf []);
  unmarshal_pools = λ text. ok [];
  quantity_int64 = λ v. v;
  listen = λ network addr s. (ok tt, s);
}

contains-without : (p : Text) (s : List Text) → contains (without p s) p ≡ false
unfolding contains without
contains-without p [] = refl
contains-without p (q ∷ s) = ground (arith, contains-without p s)

contains-without_missing :
    (p q : Text) (s : List Text) → contains s q ≡ false → contains (without p s) q ≡ false
unfolding contains without
contains-without_missing p q [] h = refl
contains-without_missing p q (r ∷ s) h = ground (arith, contains-without_missing p q s)

children-AllNames : (p : Text) (s : List Text) → AllNames (children p s)
unfolding children
children-AllNames p [] = tt
children-AllNames p (q ∷ s) = elim (Bool-cases (is_name (base q) && join (p ∷ base q ∷ []) == q)) [
  | inl e ↦ rw e (is_name-IsName (base q) (ground arith), children-AllNames p s)
  | inr e ↦ rw e (children-AllNames p s)
]

has_directory-children :
    (p n : Text) (s : List Text)
    → is_empty p ≡ false
    → IsName n
    → contains s (join (p ∷ n ∷ [])) ≡ true
    → has_directory n (children p s) ≡ true
unfolding contains children has_directory
has_directory-children p n [] h hn k = cc
has_directory-children p n (q ∷ s) h hn k = ground (
  arith,
  has_directory-children p n s h hn,
  text_beq_iff q (join (p ∷ n ∷ [])),
  text_beq_iff (join (p ∷ base q ∷ [])) q,
  text_beq_iff (base q) n,
  base-join p n h hn,
  IsName-is_name n hn,
)

contains_self : (p : Text) (s : List Text) → contains (p ∷ s) p ≡ true
unfolding contains
contains_self p s = ground (arith, text_beq_iff p p)

contains_more : (p q : Text) (s : List Text) → contains s q ≡ true → contains (p ∷ s) q ≡ true
unfolding contains
contains_more p q s h = ground arith

pub memory-IsLawful : (blocks inodes : ℕ) → IsLawful (memory blocks inodes)
memory-IsLawful blocks inodes = record {
  stat-mkdir_all = λ p mode s s' h. (directory, ground (arith, contains_self p s), refl);
  stat-remove_all = λ p s s' h. (not_there, ground (arith, contains-without p s), refl);
  stat-remove_all_missing = λ p q s e h k. elim (Bool-cases (contains s q)) [
    | inl there ↦ absurd (ground arith)
    | inr gone ↦ (not_there, ground (arith, contains-without_missing p q s gone), refl)
  ];
  read_dir-AllNames = λ p s files h. elim (Bool-cases (contains s p)) [
    | inl e ↦
        subst AllNames (let q : ok (children p s) ≡ ok files = ground arith in ground arith)
          (children-AllNames p s)
    | inr e ↦ absurd (ground arith)
  ];
  read_dir-mkdir_all =
      λ p q mode s s' files h k. (children q (p ∷ s), ground (arith, contains_more p q s));
  read_dir-mkdir_all_new = λ p n mode s s' files e h c hn k l m r.
      let there = contains_self (join (p ∷ n ∷ [])) s in
      ground (arith, has_directory-children p n (join (p ∷ n ∷ []) ∷ s) h hn there);
  quantity_int64_lem = λ v. refl;
}
