-- ===== src/FilePath/Clean.antt =====
-- What Clean leaves on its stack, and that cleaning again changes nothing.
use hostpath_provisioner.Base.{
  ◌≡◌, refl, sym, ◌∙◌, ap, Bool, true, false, List, [], ◌∷◌, ◌++◌, arith, Text, bytes, ◌==◌, nat_eq,
  text_eq, text_beq, text_beq_iff, is_empty, Bool-cases, inl, inr,
}
use mathlib.Core.List.{append-nil, foldl, foldl-append, reverse, reverse-append}
use hostpath_provisioner.FilePath.{
  slash, split, cons_head, join_slash, has_slash, dots, push, parent, reduce, render, is_rooted,
  clean,
}
use hostpath_provisioner.FilePath.Words.{IsWord, AllWords, split-join_slash}

abbrev AllDots : List Text → Type 0
AllDots [] = Unit
AllDots (w ∷ stack) = ((w == dots) ≡ true) × AllDots stack

-- The stack holds words, and ".." only where there is nothing to go up from.
abbrev pub Reduced : Bool → List Text → Type 0
Reduced r [] = Unit
Reduced r (w ∷ stack) =
    IsWord w × (((w == dots) ≡ true) → (r ≡ false) × AllDots stack) × Reduced r stack

abbrev AllNoSlash : List Text → Type 0
AllNoSlash [] = Unit
AllNoSlash (w ∷ ws) = (has_slash w ≡ false) × AllNoSlash ws

cons_head-AllNoSlash :
    (c : _) (ws : List Text) → (c == slash) ≡ false → AllNoSlash ws → AllNoSlash (cons_head c ws)
unfolding cons_head has_slash
cons_head-AllNoSlash c [] h hs = (ground arith, tt)
cons_head-AllNoSlash c (w ∷ ws) h (hw, hs) = (ground arith, hs)

split-AllNoSlash : (s : Text) → AllNoSlash (split s)
unfolding split has_slash
split-AllNoSlash [] = (refl, tt)
split-AllNoSlash (c ∷ s) = elim (Bool-cases (c == slash)) [
  | inl e ↦ rw e (refl, split-AllNoSlash s)
  | inr e ↦ rw e (cons_head-AllNoSlash c (split s) e (split-AllNoSlash s))
]

dots-IsWord : IsWord dots
unfolding has_slash text_beq
dots-IsWord = record { nonempty = refl; not_dot = refl; no_slash = refl }

parent-Reduced : (r : Bool) (stack : List Text) → Reduced r stack → Reduced r (parent r stack)
unfolding parent text_beq
parent-Reduced true [] h = tt
parent-Reduced false [] h = (dots-IsWord, λ _. (refl, tt), tt)
parent-Reduced r (t ∷ stack) h = elim (Bool-cases (t == dots)) [
  | inl e ↦ rw e (dots-IsWord, λ _. ((h.1 e).0, (e, (h.1 e).1)), h)
  | inr e ↦ rw e h.2
]

push-Reduced :
    (r : Bool) (stack : List Text) (e : Text)
    → has_slash e ≡ false
    → Reduced r stack
    → Reduced r (push r stack e)
unfolding push
push-Reduced r stack [] h hs = hs
push-Reduced r stack (c ∷ e) h hs = elim (Bool-cases ((c ∷ e) == bytes ".")) [
  | inl dot ↦ rw dot hs
  | inr not_dot ↦ elim (Bool-cases ((c ∷ e) == dots)) [
    | inl up ↦ rw (not_dot, up) (parent-Reduced r stack hs)
    | inr word ↦
        rw (not_dot, word)
          (record { nonempty = refl; not_dot = not_dot; no_slash = h }, λ d. cc, hs)
  ]
]

foldl-Reduced :
    (r : Bool) (stack ws : List Text)
    → AllNoSlash ws
    → Reduced r stack
    → Reduced r (foldl (push r) stack ws)
foldl-Reduced r stack [] h hs = hs
foldl-Reduced r stack (w ∷ ws) (hw, h) hs =
    foldl-Reduced r (push r stack w) ws h (push-Reduced r stack w hw hs)

pub reduce-Reduced : (p : Text) → Reduced (is_rooted p) (reduce p)
unfolding reduce
reduce-Reduced p = foldl-Reduced (is_rooted p) [] (split p) (split-AllNoSlash p) tt

parent_self :
    (r : Bool) (stack : List Text) → r ≡ false → AllDots stack → parent r stack ≡ dots ∷ stack
unfolding parent
parent_self r [] h _ = rw h refl
parent_self r (t ∷ stack) h (d, _) = rw d refl

push_self :
    (r : Bool) (w : Text) (stack : List Text) → Reduced r (w ∷ stack) → push r stack w ≡ w ∷ stack
unfolding push
push_self r w stack (hw, up, hs) = elim (Bool-cases (w == dots)) [
  | inl d ↦
      rw (hw.nonempty, hw.not_dot, d)
        (parent_self r stack (up d).0 (up d).1
          ∙ ap (λ v. v ∷ stack) (sym ((text_beq_iff w dots).0 d)))
  | inr d ↦ rw (hw.nonempty, hw.not_dot, d) refl
]

-- Putting the elements of a reduced stack on an empty one gives it back.
foldl-push-reverse :
    (r : Bool) (stack : List Text) → Reduced r stack → foldl (push r) [] (reverse stack) ≡ stack
foldl-push-reverse r [] h = refl
foldl-push-reverse r (w ∷ stack) h =
    rw (reverse-append (w ∷ []) stack, foldl-append)
      (ap (λ st. push r st w) (foldl-push-reverse r stack h.2) ∙ push_self r w stack h)

AllWords-append : (ws : List Text) (w : Text) → AllWords ws → IsWord w → AllWords (ws ++ w ∷ [])
AllWords-append [] w h hw = (hw, tt)
AllWords-append (v ∷ ws) w (hv, h) hw = (hv, AllWords-append ws w h hw)

reverse-AllWords : (r : Bool) (stack : List Text) → Reduced r stack → AllWords (reverse stack)
reverse-AllWords r [] h = tt
reverse-AllWords r (w ∷ stack) h =
    rw (reverse-append (w ∷ []) stack)
      (AllWords-append (reverse stack) w (reverse-AllWords r stack h.2) h.0)

is_rooted_word : (w : Text) (rest : Text) → IsWord w → is_rooted (w ++ rest) ≡ false
unfolding is_rooted has_slash
is_rooted_word [] rest h = cc (h.nonempty)
is_rooted_word (c ∷ w) rest h = let n = h.no_slash in ground arith

is_rooted-join_slash :
    (w : Text) (ws : List Text) → IsWord w → is_rooted (join_slash (w ∷ ws)) ≡ false
unfolding join_slash
is_rooted-join_slash w [] h = rw (← append-nil w) (is_rooted_word w [] h)
is_rooted-join_slash w (v ∷ ws) h = is_rooted_word w _ h

pub is_rooted-render : (r : Bool) (ws : List Text) → AllWords ws → is_rooted (render r ws) ≡ r
unfolding render
is_rooted-render true ws h = unfold is_rooted in refl
is_rooted-render false [] h = unfold is_rooted in refl
is_rooted-render false (w ∷ ws) h = is_rooted-join_slash w ws h.0

-- Splitting a rendered path gives its elements back, beside elements that Clean drops.
pub foldl-split-render :
    (r : Bool) (ws : List Text)
    → AllWords ws
    → foldl (push r) [] (split (render r ws)) ≡ foldl (push r) [] ws
unfolding render push split
foldl-split-render true [] h = unfold join_slash cons_head in refl
foldl-split-render false [] h = unfold text_beq cons_head in refl
foldl-split-render true (w ∷ ws) h =
    ap (foldl (push true) []) (unfold render push in split-join_slash w ws h)
foldl-split-render false (w ∷ ws) h = ap (foldl (push false) []) (split-join_slash w ws h)

reduce_rooted : (q : Text) (r : Bool) → is_rooted q ≡ r → reduce q ≡ foldl (push r) [] (split q)
unfolding reduce
reduce_rooted q r h = rw h refl

module _ (p : Text) where
  pub reduced-AllWords : AllWords (reverse (reduce p))
  reduced-AllWords = reverse-AllWords (is_rooted p) (reduce p) (reduce-Reduced p)

  pub is_rooted-clean : is_rooted (clean p) ≡ is_rooted p
  unfolding clean
  is_rooted-clean = is_rooted-render (is_rooted p) (reverse (reduce p)) reduced-AllWords

  pub clean-eq-render : clean p ≡ render (is_rooted p) (reverse (reduce p))
  unfolding clean
  clean-eq-render = refl

  -- The elements that Clean keeps are those that it keeps of the cleaned path.
  pub reduce-clean : reduce (clean p) ≡ reduce p
  reduce-clean =
      reduce_rooted (clean p) (is_rooted p) is_rooted-clean
      ∙ ap (λ q. foldl (push (is_rooted p)) [] (split q)) clean-eq-render
      ∙ foldl-split-render (is_rooted p) (reverse (reduce p)) reduced-AllWords
      ∙ foldl-push-reverse (is_rooted p) (reduce p) (reduce-Reduced p)

pub render-nonempty : (r : Bool) (ws : List Text) → AllWords ws → is_empty (render r ws) ≡ false
unfolding render join_slash
render-nonempty true ws h = refl
render-nonempty false [] h = refl
render-nonempty false (w ∷ []) (h, _) = h.nonempty
render-nonempty false ([] ∷ v ∷ ws) (h, _) = refl
render-nonempty false ((c ∷ w) ∷ v ∷ ws) (h, _) = refl

pub clean-nonempty : (p : Text) → is_empty (clean p) ≡ false
clean-nonempty p =
    rw (clean-eq-render p) (render-nonempty (is_rooted p) (reverse (reduce p)) (reduced-AllWords p))

-- Clean depends on what it keeps of a path, and on whether the path is rooted.
pub clean_cong : (p q : Text) → is_rooted p ≡ is_rooted q → reduce p ≡ reduce q → clean p ≡ clean q
clean_cong p q h k = rw (clean-eq-render p, clean-eq-render q, h, k) refl

-- Clean is idempotent.
pub clean-clean : (p : Text) → clean (clean p) ≡ clean p
clean-clean p = clean_cong (clean p) p (is_rooted-clean p) (reduce-clean p)
