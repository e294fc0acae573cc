-- ===== src/LinkedList/Bypasses.antt =====
-- Taking a node out of a list.
use obelix.Prelude.{
  ◌-◌, ◌≡◌, sym, ◌∙◌, true, false, some, List, [], ◌∷◌, ◌++◌, ◌==◌, arith, length-append, subst,
}
use obelix.LinkedList.{Ptr, Heap, LinkedList}
use obelix.LinkedList.Chains.{mem, last_of, Forward, Backward, Distinct}
use obelix.LinkedList.Updates
use obelix.LinkedList.Updates.{
  behind-ne, inner_apart, head-Distinct, ne_symm, not-mem-cons, mem-insert, mem-remove, mem-inner,
  mem-ne,
}
use obelix.LinkedList.Paths.{
  next_in, after_next, path_split, path_insert, last_ne, mem-tail, mem-behind, mem-before,
  without_once, mem-inserted,
}
use obelix.LinkedList.Linked.{IsLinked, contents, contents-same, contents-append}

module _ {ℓ} {A : Type ℓ} where
  -- The node `n` between `a` and `b` is bypassed and freed in `h'`.
  pub record Bypassed (h : Heap A) (a n b : Ptr) (h' : Heap A) : Type ℓ where
    pub next_a : h'.next a ≡ some b
    pub next_else : (p : Ptr) → (p == a) ≡ false → h'.next p ≡ h.next p
    pub prev_b : h'.prev b ≡ some a
    pub prev_else : (p : Ptr) → (p == b) ≡ false → h'.prev p ≡ h.prev p
    pub content_else : (p : Ptr) → (p == n) ≡ false → h'.content p ≡ h.content p
    pub live_else : (p : Ptr) → (p == n) ≡ false → h'.live p ≡ h.live p
    pub top : h'.top ≡ h.top

  module _ (h h' : Heap A) (l : LinkedList) (pre post : List Ptr) (n : Ptr)
      (k : IsLinked h l (pre ++ n ∷ post))
      (i : Bypassed h (last_of l.head pre) n (next_in post l.tail) h') where
    b₂ : Ptr
    b₂ = next_in post l.tail

    rest₂ : List Ptr
    rest₂ = after_next post l.tail

    whole : (pre ++ n ∷ post) ++ l.tail ∷ [] ≡ pre ++ n ∷ b₂ ∷ rest₂
    unfolding b₂ rest₂
    whole = path_insert pre post n l.tail

    without : (pre ++ post) ++ l.tail ∷ [] ≡ pre ++ b₂ ∷ rest₂
    unfolding b₂ rest₂
    without = path_split pre post l.tail

    no_repeats : Distinct l.head (pre ++ n ∷ b₂ ∷ rest₂)
    no_repeats = subst (λ ps. Distinct l.head ps) whole k.distinct

    still_there :
        (p : Ptr)
        → mem p (l.head ∷ (pre ++ post) ++ l.tail ∷ []) ≡ true
        → mem p (l.head ∷ (pre ++ n ∷ post) ++ l.tail ∷ []) ≡ true
    still_there p there =
        let old : mem p (l.head ∷ pre ++ b₂ ∷ rest₂) ≡ true =
          subst (λ ps. mem p (l.head ∷ ps) ≡ true) without there in
        let new : mem p (l.head ∷ pre ++ n ∷ b₂ ∷ rest₂) ≡ true =
          ground (arith, mem-inserted p n pre (b₂ ∷ rest₂)) in
        subst (λ ps. mem p (l.head ∷ ps) ≡ true) (sym whole) new

    n_gone : mem n (l.head ∷ pre ++ b₂ ∷ rest₂) ≡ false
    n_gone = without_once n b₂ rest₂ l.head pre no_repeats

    not_n : (p : Ptr) → mem p (l.head ∷ (pre ++ post) ++ l.tail ∷ []) ≡ true → (p == n) ≡ false
    not_n p there =
        mem-ne p n (l.head ∷ pre ++ b₂ ∷ rest₂)
          (subst (λ ps. mem p (l.head ∷ ps) ≡ true) without there) n_gone

    pub bypassed-IsLinked : IsLinked h' (record l { size = l.size - 1 }) (pre ++ post)
    unfolding b₂ rest₂
    bypassed-IsLinked = record {
      forward =
          subst (λ ps. Forward h'.next l.head ps) (sym without)
            (Updates.remove-Forward h.next h'.next n b₂ rest₂ l.head pre
              (subst (λ ps. Forward h.next l.head ps) whole k.forward) no_repeats i.next_a
              i.next_else);
      backward =
          subst (λ ps. Backward h'.prev l.head ps) (sym without)
            (Updates.remove-Backward h.prev h'.prev n b₂ rest₂ l.head pre
              (subst (λ ps. Backward h.prev l.head ps) whole k.backward) no_repeats i.prev_b
              i.prev_else);
      starts =
          i.prev_else l.head (
            inner_apart l.head b₂ pre rest₂ (
              mem-remove n b₂ rest₂ l.head pre
                (head-Distinct l.head n pre (b₂ ∷ rest₂) no_repeats)))
          ∙ k.starts;
      ends =
          i.next_else l.tail (
            last_ne l.head pre (n ∷ b₂ ∷ rest₂) l.tail no_repeats
              (mem-behind l.tail (n ∷ []) (b₂ ∷ rest₂) (mem-tail post l.tail)))
          ∙ k.ends;
      distinct =
          subst (λ ps. Distinct l.head ps) (sym without)
            (Updates.remove-Distinct h.next h'.next n b₂ rest₂ l.head pre no_repeats);
      alive = λ p there. i.live_else p (not_n p there) ∙ k.alive p (still_there p there);
      used =
          λ p there. let below = k.used p (still_there p there) in let same = i.top in omega arith;
      sized = omega (arith, k.sized, length-append pre post, length-append pre (n ∷ post));
    }

    -- The other contents stay.
    pub bypassed-contents : contents h' (pre ++ post) ≡ contents h pre ++ contents h post
    bypassed-contents =
        contents-same h h' (pre ++ post) (λ p there. i.content_else p (
          not_n p (
            mem-behind p (l.head ∷ []) ((pre ++ post) ++ l.tail ∷ [])
              (mem-before p (pre ++ post) (l.tail ∷ []) there))))
        ∙ contents-append h pre post
