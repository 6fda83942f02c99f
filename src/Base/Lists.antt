-- ===== src/Base/Lists.antt =====
-- Lists measured and indexed by native numbers, under the library's names.
use Prim.Native.Nat.{ℕ, zero, suc, ◌+◌, ◌-◌, ◌≤◌, min}
use mathlib.Core.Path.{◌≡◌, refl, sym, ap, ◌∙◌}
use mathlib.Core.List.{List, [], ◌∷◌, ◌++◌}
use mathlib.Core.Option.{Option, none, some}
use native.Mathlib.Omega.{arith}

module _ {ℓ} {A : Type ℓ} where
  abbrev pub length : List A → ℕ
  length [] = 0
  length (x ∷ xs) = suc (length xs)

  abbrev pub get_elem? : List A → ℕ → Option A
  get_elem? [] i = none
  get_elem? (x ∷ xs) zero = some x
  get_elem? (x ∷ xs) (suc i) = get_elem? xs i

  abbrev pub take : ℕ → List A → List A
  take zero xs = []
  take (suc n) [] = []
  take (suc n) (x ∷ xs) = x ∷ take n xs

  abbrev pub drop : ℕ → List A → List A
  drop zero xs = xs
  drop (suc n) [] = []
  drop (suc n) (x ∷ xs) = drop n xs

  pub length-append : (xs ys : List A) → length (xs ++ ys) ≡ length xs + length ys
  length-append [] ys = omega arith
  length-append (x ∷ xs) ys = omega (arith, length-append xs ys)

  pub take-append-drop : (n : ℕ) (xs : List A) → take n xs ++ drop n xs ≡ xs
  take-append-drop zero xs = refl
  take-append-drop (suc n) [] = refl
  take-append-drop (suc n) (x ∷ xs) = rw (take-append-drop n xs)

  pub length-take : (n : ℕ) (xs : List A) → length (take n xs) ≡ min n (length xs)
  length-take zero xs = omega arith
  length-take (suc n) [] = omega arith
  length-take (suc n) (x ∷ xs) = omega (arith, length-take n xs)

  pub length-drop : (n : ℕ) (xs : List A) → length (drop n xs) ≡ length xs - n
  length-drop zero xs = omega arith
  length-drop (suc n) [] = omega arith
  length-drop (suc n) (x ∷ xs) = omega (arith, length-drop n xs)

  pub take_all : (n : ℕ) (xs : List A) → length xs ≡ n → take n xs ≡ xs
  take_all zero [] h = refl
  take_all zero (x ∷ xs) h = absurd (omega arith)
  take_all (suc n) [] h = refl
  take_all (suc n) (x ∷ xs) h = rw (take_all n xs (omega arith))

  take-nothing : (n : ℕ) → take n [] ≡ []
  take-nothing zero = refl
  take-nothing (suc n) = refl

  take-take : (a b : ℕ) (l : List A) → take a l ++ take b (drop a l) ≡ take (a + b) l
  take-take zero b l = ap (λ n. take n l) (omega arith)
  take-take (suc a) b [] = take-nothing b ∙ sym (take-nothing (suc a + b))
  take-take (suc a) b (x ∷ l) =
      let e : suc (a + b) ≡ suc a + b = omega arith in
      ap (λ r. x ∷ r) (take-take a b l) ∙ ap (λ n. take n (x ∷ l)) e

  drop-nothing : (n : ℕ) → drop n [] ≡ []
  drop-nothing zero = refl
  drop-nothing (suc n) = refl

  drop-drop : (a b : ℕ) (l : List A) → drop b (drop a l) ≡ drop (a + b) l
  drop-drop zero b l = ap (λ n. drop n l) (omega arith)
  drop-drop (suc a) b [] = drop-nothing b ∙ sym (drop-nothing (suc a + b))
  drop-drop (suc a) b (x ∷ l) =
      let e : suc (a + b) ≡ suc a + b = omega arith in drop-drop a b l ∙ ap (λ n. drop n (x ∷ l)) e

  -- Two stretches of a list in a row are one.
  pub pages_meet :
      (j e k : ℕ) (l : List A)
      → j ≤ e
      → e ≤ k
      → take (e - j) (drop j l) ++ take (k - e) (drop e l) ≡ take (k - j) (drop j l)
  pages_meet j e k l h h' =
      ap (λ n. take (e - j) (drop j l) ++ take (k - e) (drop n l)) (omega arith)
      ∙ ap (λ r. take (e - j) (drop j l) ++ take (k - e) r) (sym (drop-drop j (e - j) l))
      ∙ take-take (e - j) (k - e) (drop j l)
      ∙ ap (λ n. take n (drop j l)) (omega arith)
