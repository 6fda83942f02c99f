-- ===== src/FilePath.antt =====
-- The part of Go's package path/filepath (on Linux) that the driver calls: Clean, Join, Base and
-- Dir, by what they return: the elements of a path between its slashes, reduced on a stack.
pub mod Words
pub mod Clean
pub mod Join
use hostpath_provisioner.Base.{Bool, true, false, ◌||◌, List, [], ◌∷◌, ◌++◌, Option, none, some}
use hostpath_provisioner.Base.{ℕ, Text, bytes, ◌==◌, nat_eq, text_eq, is_empty, if◌then◌else◌}
use mathlib.Core.List.{foldl, reverse}

abbrev pub slash : ℕ
slash = b'/'

-- strings.Split(path, "/")
pub cons_head : ℕ → List Text → List Text
cons_head c [] = (c ∷ []) ∷ []
cons_head c (w ∷ ws) = (c ∷ w) ∷ ws

unfoldable pub split : Text → List Text
unfolding cons_head
split [] = [] ∷ []
split (c ∷ s) = if c == slash then [] ∷ split s else cons_head c (split s)

-- strings.Join(elems, "/")
unfoldable pub join_slash : List Text → Text
join_slash [] = []
join_slash (w ∷ []) = w
join_slash (w ∷ v ∷ ws) = w ++ slash ∷ join_slash (v ∷ ws)

unfoldable pub is_rooted : Text → Bool
is_rooted [] = false
is_rooted (c ∷ s) = c == slash

abbrev pub dots : Text
dots = bytes ".."

-- One element of a path on the stack of those before it.
parent : Bool → List Text → List Text
parent rooted [] = if rooted then [] else dots ∷ []
parent rooted (t ∷ stack) = if t == dots then dots ∷ t ∷ stack else stack

unfoldable pub push : Bool → List Text → Text → List Text
unfolding parent
push rooted stack e =
    if is_empty e || e == bytes "."
    then stack
    else if e == dots
    then parent rooted stack
    else e ∷ stack

unfoldable pub reduce : Text → List Text
reduce path = foldl (push (is_rooted path)) [] (split path)

unfoldable pub render : Bool → List Text → Text
render true ws = slash ∷ join_slash ws
render false [] = bytes "."
render false (w ∷ ws) = join_slash (w ∷ ws)

-- filepath.Clean
unfoldable pub clean : Text → Text
unfolding reduce render join_slash push is_rooted split
clean path = render (is_rooted path) (reverse (reduce path))

-- filepath.Join
unfoldable pub join : List Text → Text
unfolding clean
join [] = []
join (e ∷ es) = if is_empty e then join es else clean (join_slash (e ∷ es))

unfoldable pub last_word : List Text → Option Text
last_word [] = none
last_word (w ∷ ws) = elim (last_word ws) [
  | none ↦ if is_empty w then none else some w
  | some v ↦ some v
]

-- filepath.Base
unfoldable pub base : Text → Text
unfolding last_word split
base path =
    if is_empty path
    then bytes "."
    else elim (last_word (split path)) [ none ↦ bytes "/" | some w ↦ w ]

unfoldable pub has_slash : Text → Bool
has_slash [] = false
has_slash (c ∷ s) = c == slash || has_slash s

-- path[:i+1] for the last slash i
unfoldable pub upto_slash : Text → Text
unfolding has_slash
upto_slash [] = []
upto_slash (c ∷ s) = if has_slash s then c ∷ upto_slash s else if c == slash then c ∷ [] else []

-- filepath.Dir
unfoldable pub dir : Text → Text
unfolding upto_slash clean
dir path = clean (upto_slash path)
