-- ===== src/FilePath/Join.antt =====
-- Base and Dir of a path that Join made.
use hostpath_provisioner.Base.{
  ◌≡◌, refl, sym, ◌∙◌, ap, Bool, true, false, List, [], ◌∷◌, ◌++◌, Text, nat_eq, text_eq, text_beq,
  is_empty,
}
use mathlib.Core.List.{foldl, foldl-append, reverse, reverse-append}
use hostpath_provisioner.FilePath.{
  slash, split, cons_head, join_slash, last_word, has_slash, push, reduce, render, is_rooted, clean,
  join, base, dir,
}
use hostpath_provisioner.FilePath.Words.{
  AllWords, IsName, split-append, split_word, join_slash-append, last_word-append, upto_slash_word,
  upto_slash-append,
}
use hostpath_provisioner.FilePath.Clean.{
  clean_cong, is_rooted-clean, reduce-clean, clean-eq-render, clean-clean, clean-nonempty,
  render-nonempty, reduced-AllWords,
}

is_rooted-append : (p rest : Text) → is_empty p ≡ false → is_rooted (p ++ rest) ≡ is_rooted p
unfolding is_rooted
is_rooted-append [] rest h = cc
is_rooted-append (c ∷ p) rest h = refl

push_name : (r : Bool) (stack : List Text) (n : Text) → IsName n → push r stack n ≡ n ∷ stack
unfolding push
push_name r stack n h = rw (h.word.nonempty, h.word.not_dot, h.not_dots) refl

reduce-append_name :
    (p n : Text) → is_empty p ≡ false → IsName n → reduce (p ++ slash ∷ n) ≡ n ∷ reduce p
unfolding reduce
reduce-append_name p n h hn =
    rw
      (
        is_rooted-append p (slash ∷ n) h,
        split-append p n,
        split_word n hn.word.no_slash,
        foldl-append,
      )
      (push_name (is_rooted p) (foldl (push (is_rooted p)) [] (split p)) n hn)

join_lem : (p n : Text) → is_empty p ≡ false → join (p ∷ n ∷ []) ≡ clean (p ++ slash ∷ n)
unfolding join join_slash
join_lem p n h = rw h refl

-- Joining a name to a path puts it behind the elements of the path.
join-eq-render :
    (p n : Text)
    → is_empty p ≡ false
    → IsName n
    → join (p ∷ n ∷ []) ≡ render (is_rooted p) (reverse (reduce p) ++ n ∷ [])
join-eq-render p n h hn =
    join_lem p n h
    ∙ clean-eq-render (p ++ slash ∷ n)
    ∙ rw
        (
          is_rooted-append p (slash ∷ n) h,
          reduce-append_name p n h hn,
          reverse-append (n ∷ []) (reduce p),
        )
        refl

base_of_word : (x n : Text) → is_empty n ≡ false → has_slash n ≡ false → base (x ++ slash ∷ n) ≡ n
unfolding base
base_of_word [] n h k = rw (split_word n k) (unfold last_word in rw h refl)
base_of_word (c ∷ x) n h k =
    rw (split-append (c ∷ x) n, split_word n k, last_word-append (split (c ∷ x)) n h) refl

base_alone : (n : Text) → is_empty n ≡ false → has_slash n ≡ false → base n ≡ n
unfolding base
base_alone n h k = rw (h, split_word n k) (unfold last_word in rw h refl)

base-render :
    (r : Bool) (ws : List Text) (n : Text)
    → is_empty n ≡ false
    → has_slash n ≡ false
    → base (render r (ws ++ n ∷ [])) ≡ n
unfolding render
base-render true [] n h k = unfold join_slash in base_of_word [] n h k
base-render false [] n h k = unfold join_slash in base_alone n h k
base-render true (w ∷ ws) n h k =
    ap (λ (t : Text). base (slash ∷ t)) (join_slash-append w ws n)
    ∙ base_of_word (slash ∷ join_slash (w ∷ ws)) n h k
base-render false (w ∷ ws) n h k =
    ap base (join_slash-append w ws n) ∙ base_of_word (join_slash (w ∷ ws)) n h k

push_empty : (r : Bool) (stack : List Text) → push r stack [] ≡ stack
unfolding push
push_empty r stack = refl

clean-append_slash : (x : Text) → is_empty x ≡ false → clean (x ++ slash ∷ []) ≡ clean x
unfolding has_slash
clean-append_slash x h = clean_cong (x ++ slash ∷ []) x (is_rooted-append x (slash ∷ []) h) (
    unfold reduce in
    rw (is_rooted-append x (slash ∷ []) h, split-append x [], split_word [] refl, foldl-append)
      (push_empty (is_rooted x) (foldl (push (is_rooted x)) [] (split x))))

dir_of_word :
    (x n : Text) → is_empty x ≡ false → has_slash n ≡ false → dir (x ++ slash ∷ n) ≡ clean x
unfolding dir
dir_of_word x n h k = rw (upto_slash-append x n k) (clean-append_slash x h)

dir-render :
    (r : Bool) (ws : List Text) (n : Text)
    → has_slash n ≡ false
    → AllWords ws
    → dir (render r (ws ++ n ∷ [])) ≡ clean (render r ws)
unfolding render
dir-render true [] n k _ = unfold join_slash dir in ap clean (upto_slash-append [] n k)
dir-render false [] n k _ =
    unfold join_slash dir in
    ap clean (upto_slash_word n k) ∙ (unfold clean text_beq cons_head in refl)
dir-render true (w ∷ ws) n k _ =
    ap (λ (t : Text). dir (slash ∷ t)) (join_slash-append w ws n)
    ∙ dir_of_word (slash ∷ join_slash (w ∷ ws)) n refl k
dir-render false (w ∷ ws) n k h =
    ap dir (join_slash-append w ws n)
    ∙ dir_of_word (join_slash (w ∷ ws)) n (unfold render in render-nonempty false (w ∷ ws) h) k

module _ (p n : Text) (h : is_empty p ≡ false) (hn : IsName n) where
  -- The last element of a path that ends in a name is the name.
  pub base-join : base (join (p ∷ n ∷ [])) ≡ n
  base-join =
      ap base (join-eq-render p n h hn)
      ∙ base-render (is_rooted p) (reverse (reduce p)) n hn.word.nonempty hn.word.no_slash

  -- Joining to the cleaned path is joining to the path.
  pub join-clean : join (clean p ∷ n ∷ []) ≡ join (p ∷ n ∷ [])
  join-clean =
      join-eq-render (clean p) n (clean-nonempty p) hn
      ∙ rw (is_rooted-clean p, reduce-clean p) (sym (join-eq-render p n h hn))

  -- The rest of the path is the cleaned path that the name was joined to.
  pub dir-join : dir (join (p ∷ n ∷ [])) ≡ clean p
  dir-join =
      ap dir (join-eq-render p n h hn)
      ∙ dir-render (is_rooted p) (reverse (reduce p)) n hn.word.no_slash (reduced-AllWords p)
      ∙ ap clean (sym (clean-eq-render p))
      ∙ clean-clean p
