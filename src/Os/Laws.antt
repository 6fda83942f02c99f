-- ===== src/Os/Laws.antt =====
-- What the development assumes of the machine: documented behaviour of the calls, each a field.
use hostpath_provisioner.Base.{
  ℕ, ℤ, ◌≡◌, Bool, true, false, ◌&&◌, ◌||◌, List, [], ◌∷◌, Text, ◌==◌, text_eq, is_empty, Error, ok,
  err, is_not_exist,
}
use hostpath_provisioner.FilePath.{join, clean}
use hostpath_provisioner.FilePath.Words.{IsName}
use hostpath_provisioner.Os.{Os, FileInfo, DirEntry}

abbrev pub AllNames : List DirEntry → Type 0
AllNames [] = Unit
AllNames (f ∷ files) = IsName f.name × AllNames files

-- A directory of that name is among the entries.
unfoldable pub has_directory : Text → List DirEntry → Bool
has_directory n [] = false
has_directory n (f ∷ files) = (f.is_dir && f.name == n) || has_directory n files

pub record IsLawful (O : Os) : Type 0 where
  -- os.MkdirAll: on success the path is a directory.
  pub stat-mkdir_all :
      (p : Text) (mode : ℕ) (s s' : O.State)
      → O.mkdir_all p mode s ≡ (ok tt, s')
      → (i : FileInfo) × (O.stat p s' ≡ ok i) × (i.is_dir ≡ true)
  -- os.RemoveAll: on success nothing is at the path.
  pub stat-remove_all :
      (p : Text) (s s' : O.State)
      → O.remove_all p s ≡ (ok tt, s')
      → (e : Error) × (O.stat p s' ≡ err e) × (is_not_exist e ≡ true)
  -- os.RemoveAll makes nothing: what was not there before it is not there after it.
  pub stat-remove_all_missing :
      (p q : Text) (s : O.State) (e : Error)
      → O.stat q s ≡ err e
      → is_not_exist e ≡ true
      → (e' : Error) × (O.stat q (O.remove_all p s).1 ≡ err e') × (is_not_exist e' ≡ true)
  -- os.ReadDir: the entries are names of files, without "." and "..".
  pub read_dir-AllNames :
      (p : Text) (s : O.State) (files : List DirEntry) → O.read_dir p s ≡ ok files → AllNames files
  -- Directories that can be read can be read after an os.MkdirAll.
  pub read_dir-mkdir_all :
      (p q : Text) (mode : ℕ) (s s' : O.State) (files : List DirEntry)
      → O.mkdir_all p mode s ≡ (ok tt, s')
      → O.read_dir q s ≡ ok files
      → (files' : List DirEntry) × (O.read_dir q s' ≡ ok files')
  -- os.MkdirAll of a path where nothing was makes a directory there, not a link to one, and os.ReadDir
  -- of its parent lists it. The parent's path is clean, so that joining the name to it names the same
  -- directory.
  pub read_dir-mkdir_all_new :
      (p n : Text) (mode : ℕ) (s s' : O.State) (files : List DirEntry) (e : Error)
      → is_empty p ≡ false
      → clean p ≡ p
      → IsName n
      → O.stat (join (p ∷ n ∷ [])) s ≡ err e
      → is_not_exist e ≡ true
      → O.mkdir_all (join (p ∷ n ∷ [])) mode s ≡ (ok tt, s')
      → O.read_dir p s' ≡ ok files
      → has_directory n files ≡ true
  -- resource.Quantity keeps a number that fits in an int64.
  pub quantity_int64_lem : (v : ℤ) → O.quantity_int64 v ≡ v
