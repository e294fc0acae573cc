-- ===== src/LinkedList/Inserts.antt =====
-- Linking a node into a list.
use obelix.Prelude.{
  suc, ◌≡◌, sym, ap, ap₂, ◌∙◌, true, false, Option, some, List, [], ◌∷◌, ◌++◌, ◌==◌, arith,
  Bool-cases, inl, inr, length-append, subst,
}
use obelix.LinkedList.{Ptr, Heap, LinkedList}
use obelix.LinkedList.Chains.{mem, last_of, Forward, Backward, Distinct}
use obelix.LinkedList.Updates
use obelix.LinkedList.Updates.{
  behind-ne, inner_apart, head-Distinct, ne_symm, not-mem-cons, mem-insert, mem-remove, mem-inner,
  mem-ne,
}
use obelix.LinkedList.Paths.{
  next_in, after_next, path_split, path_insert, last_ne, mem-tail, mem-behind, mem-before, mem-post,
  mem-inserted,
}
use obelix.LinkedList.Linked.{IsLinked, contents, contents-same, contents-append}

module _ {ℓ} {A : Type ℓ} where
  -- The node `n` is new in `h'`, between `a` and `b`.
  pub record Inserted (h : Heap A) (a n b : Ptr) (x : Option A) (h' : Heap A) : Type ℓ where
    pub next_a : h'.next a ≡ some n
    pub next_n : h'.next n ≡ some b
    pub next_else : (p : Ptr) → (p == a) ≡ false → (p == n) ≡ false → h'.next p ≡ h.next p
    pub prev_n : h'.prev n ≡ some a
    pub prev_b : h'.prev b ≡ some n
    pub prev_else : (p : Ptr) → (p == n) ≡ false → (p == b) ≡ false → h'.prev p ≡ h.prev p
    pub content_n : h'.content n ≡ x
    pub content_else : (p : Ptr) → (p == n) ≡ false → h'.content p ≡ h.content p
    pub live_n : h'.live n ≡ true
    pub live_else : (p : Ptr) → (p == n) ≡ false → h'.live p ≡ h.live p
    pub new : n ≡ h.top
    pub top : h'.top ≡ suc h.top
    pub same_freed : h'.freed ≡ h.freed

  -- A new node behind the nodes `pre` makes a list with that node.
  module _ (h h' : Heap A) (l : LinkedList) (pre post : List Ptr) (n : Ptr) (x : Option A)
      (k : IsLinked h l (pre ++ post))
      (i : Inserted h (last_of l.head pre) n (next_in post l.tail) x h') where
    b : Ptr
    b = next_in post l.tail

    rest : List Ptr
    rest = after_next post l.tail

    split : (pre ++ post) ++ l.tail ∷ [] ≡ pre ++ b ∷ rest
    unfolding b rest
    split = path_split pre post l.tail

    joined : (pre ++ n ∷ post) ++ l.tail ∷ [] ≡ pre ++ n ∷ b ∷ rest
    unfolding b rest
    joined = path_insert pre post n l.tail

    no_repeats_before : Distinct l.head (pre ++ b ∷ rest)
    no_repeats_before = subst (λ ps. Distinct l.head ps) split k.distinct

    unused : mem n (l.head ∷ pre ++ b ∷ rest) ≡ false
    unused = elim (Bool-cases (mem n (l.head ∷ pre ++ b ∷ rest))) [
      | inl there ↦
          let below = k.used n (subst (λ ps. mem n (l.head ∷ ps) ≡ true) (sym split) there) in
          let same = i.new in absurd (omega arith)
      | inr away ↦ away
    ]

    head_apart : ((l.head == n) ≡ false) × ((l.head == b) ≡ false)
    unfolding b rest
    head_apart = (
      (not-mem-cons n l.head (pre ++ b ∷ rest) unused).0,
      inner_apart l.head b pre rest (head-Distinct l.head b pre rest no_repeats_before),
    )

    tail_apart : ((l.tail == last_of l.head pre) ≡ false) × ((l.tail == n) ≡ false)
    unfolding b rest
    tail_apart = (
      last_ne l.head pre (b ∷ rest) l.tail no_repeats_before (mem-tail post l.tail),
      mem-ne l.tail n (pre ++ b ∷ rest) (mem-behind l.tail pre (b ∷ rest) (mem-tail post l.tail))
          (not-mem-cons n l.head (pre ++ b ∷ rest) unused).1,
    )

    on_path :
        (p : Ptr)
        → mem p (l.head ∷ (pre ++ n ∷ post) ++ l.tail ∷ []) ≡ true
        → (p == n) ≡ false
        → mem p (l.head ∷ (pre ++ post) ++ l.tail ∷ []) ≡ true
    on_path p there other =
        let new : mem p (l.head ∷ pre ++ n ∷ b ∷ rest) ≡ true =
          subst (λ ps. mem p (l.head ∷ ps) ≡ true) joined there in
        let flipped = ne_symm p n other in
        let old : mem p (l.head ∷ pre ++ b ∷ rest) ≡ true =
          ground (arith, mem-inserted p n pre (b ∷ rest)) in
        subst (λ ps. mem p (l.head ∷ ps) ≡ true) (sym split) old

    pub inserted-IsLinked : IsLinked h' (record l { size = suc l.size }) (pre ++ n ∷ post)
    unfolding b rest
    inserted-IsLinked = record {
      forward =
          subst (λ ps. Forward h'.next l.head ps) (sym joined)
            (Updates.insert-Forward h.next h'.next n b rest l.head pre
              (subst (λ ps. Forward h.next l.head ps) split k.forward) no_repeats_before unused
              i.next_a i.next_n i.next_else);
      backward =
          subst (λ ps. Backward h'.prev l.head ps) (sym joined)
            (Updates.insert-Backward h.prev h'.prev n b rest l.head pre
              (subst (λ ps. Backward h.prev l.head ps) split k.backward) no_repeats_before unused
              i.prev_n i.prev_b i.prev_else);
      starts = i.prev_else l.head head_apart.0 head_apart.1 ∙ k.starts;
      ends = i.next_else l.tail tail_apart.0 tail_apart.1 ∙ k.ends;
      distinct =
          subst (λ ps. Distinct l.head ps) (sym joined)
            (Updates.insert-Distinct h.next h'.next n b rest l.head pre no_repeats_before unused);
      alive = λ p there. elim (Bool-cases (p == n)) [
        | inl same ↦ let e : p ≡ n = ground arith in ap h'.live e ∙ i.live_n
        | inr other ↦ i.live_else p other ∙ k.alive p (on_path p there other)
      ];
      used = λ p there. elim (Bool-cases (p == n)) [
        | inl same ↦ let grown = i.top in let fresh = i.new in ground arith
        | inr other ↦
            let below = k.used p (on_path p there other) in let grown = i.top in omega arith
      ];
      sized = omega (arith, k.sized, length-append pre post, length-append pre (n ∷ post));
    }

    -- Its content stands among the others, which stay.
    pub inserted-contents : contents h' (pre ++ n ∷ post) ≡ contents h pre ++ x ∷ contents h post
    unfolding b rest
    inserted-contents =
        let (_, fresh) = not-mem-cons n l.head (pre ++ b ∷ rest) unused in
        contents-append h' pre (n ∷ post)
        ∙ ap₂ (λ xs ys. xs ++ ys)
            (contents-same h h' pre (λ p there.
              i.content_else p
                (mem-ne p n (pre ++ b ∷ rest) (mem-before p pre (b ∷ rest) there) fresh)))
            (ap₂ (λ y ys. y ∷ ys) i.content_n
              (contents-same h h' post (λ p there. i.content_else p (
                mem-ne p n (pre ++ b ∷ rest)
                  (mem-behind p pre (b ∷ rest) (mem-post p post l.tail there)) fresh))))
