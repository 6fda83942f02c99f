-- ===== src/FilePath/Words.antt =====
-- Splitting a path at its slashes and joining the elements again.
use hostpath_provisioner.Base.{
  ◌≡◌, refl, ◌∙◌, ap, true, false, List, [], ◌∷◌, ◌++◌, some, arith, ℕ, Text, bytes, ◌==◌, nat_eq,
  text_eq, is_empty, Bool-cases, inl, inr,
}
use mathlib.Core.List.{append_assoc}
use hostpath_provisioner.FilePath.{
  slash, split, cons_head, join_slash, last_word, has_slash, dots, upto_slash,
}

-- An element that Clean keeps: not empty, not ".", and with no slash.
pub record IsWord (w : Text) : Type 0 where
  pub nonempty : is_empty w ≡ false
  pub not_dot : (w == bytes ".") ≡ false
  pub no_slash : has_slash w ≡ false

-- The name of a file: an element that is not ".." either.
pub record IsName (w : Text) : Type 0 where
  pub word : IsWord w
  pub not_dots : (w == dots) ≡ false

pub cons_head-append :
    (c : ℕ) (s : Text) (ws : List Text) → cons_head c (split s ++ ws) ≡ cons_head c (split s) ++ ws
unfolding split cons_head
cons_head-append c [] ws = refl
cons_head-append c (d ∷ s) ws = elim (Bool-cases (d == slash)) [
  | inl e ↦ rw e refl
  | inr e ↦ rw e (grow (split s))
]
  where
    grow :
        (vs : List Text) → cons_head c (cons_head d vs ++ ws) ≡ cons_head c (cons_head d vs) ++ ws
    grow [] = refl
    grow (v ∷ vs) = refl

pub split-append : (x y : Text) → split (x ++ slash ∷ y) ≡ split x ++ split y
unfolding split
split-append [] y = refl
split-append (c ∷ x) y = elim (Bool-cases (c == slash)) [
  | inl e ↦ rw e (ap (λ ws. [] ∷ ws) (split-append x y))
  | inr e ↦ rw e (ap (cons_head c) (split-append x y) ∙ cons_head-append c x (split y))
]

pub split_word : (w : Text) → has_slash w ≡ false → split w ≡ w ∷ []
unfolding split has_slash cons_head
split_word [] h = refl
split_word (c ∷ w) h = ground (arith, split_word w)

pub join_slash-append :
    (v : Text) (ws : List Text) (n : Text)
    → join_slash ((v ∷ ws) ++ n ∷ []) ≡ join_slash (v ∷ ws) ++ slash ∷ n
unfolding join_slash
join_slash-append v [] n = refl
join_slash-append v (w ∷ ws) n =
    rw (join_slash-append w ws n, append_assoc v (slash ∷ join_slash (w ∷ ws)) (slash ∷ n)) refl

pub last_word-append :
    (ws : List Text) (n : Text) → is_empty n ≡ false → last_word (ws ++ n ∷ []) ≡ some n
unfolding last_word
last_word-append [] n h = rw h refl
last_word-append (w ∷ ws) n h = rw (last_word-append ws n h) refl

pub has_slash-append : (x y : Text) → has_slash (x ++ slash ∷ y) ≡ true
unfolding has_slash
has_slash-append [] y = refl
has_slash-append (c ∷ x) y = ground (arith, has_slash-append x y)

pub upto_slash_word : (n : Text) → has_slash n ≡ false → upto_slash n ≡ []
unfolding upto_slash has_slash
upto_slash_word [] h = refl
upto_slash_word (c ∷ n) h = ground arith

pub upto_slash-append :
    (x n : Text) → has_slash n ≡ false → upto_slash (x ++ slash ∷ n) ≡ x ++ slash ∷ []
unfolding upto_slash
upto_slash-append [] n h = rw h refl
upto_slash-append (c ∷ x) n h =
    rw has_slash-append (ap (λ (t : Text). c ∷ t) (upto_slash-append x n h))

-- All elements of a list are kept by Clean.
abbrev pub AllWords : List Text → Type 0
AllWords [] = Unit
AllWords (w ∷ ws) = IsWord w × AllWords ws

pub split-join_slash :
    (w : Text) (ws : List Text) → AllWords (w ∷ ws) → split (join_slash (w ∷ ws)) ≡ w ∷ ws
unfolding join_slash
split-join_slash w [] (h, _) = split_word w h.no_slash
split-join_slash w (v ∷ ws) (h, hs) =
    split-append w (join_slash (v ∷ ws))
    ∙ rw (split_word w h.no_slash, split-join_slash v ws hs) refl
