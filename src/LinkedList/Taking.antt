-- ===== src/LinkedList/Taking.antt =====
-- Taking elements off the ends of the list of lib/list.c.
use obelix.Prelude.{
  ◌-◌, ◌≡◌, refl, sym, ap, ◌∙◌, true, false, Option, none, some, List, [], ◌∷◌, ◌++◌, ◌⊎◌, arith,
  Bool-cases, inl, inr, subst, ◌>>=◌, append-nil,
}
use obelix.LinkedList.{
  Ptr, Heap, LinkedList, ln_free, bypass, take_out, is_datanode, datanode, pop_node, pop,
}
use obelix.LinkedList.Chains.{last_of}
use obelix.LinkedList.Linked.{IsLinked, contents, contents-append}
use obelix.LinkedList.Bypasses.{bypassed-IsLinked, bypassed-contents}
use obelix.LinkedList.Places.{
  deref-some, linked-Around, linked-Within, take_out-Bypassed, head_sentinel,
}
use obelix.LinkedList.Ends.{Holds}

snoc-cases : (ns : List Ptr) → (ns ≡ []) ⊎ ((ms : List Ptr) × (n : Ptr) × (ns ≡ ms ++ n ∷ []))
snoc-cases [] = inl refl
snoc-cases (x ∷ ns) = elim (snoc-cases ns) [
  | inl none_left ↦ inr ([], x, ap (λ ms. x ∷ ms) none_left)
  | inr (ms, n, e) ↦ inr (x ∷ ms, n, ap (λ ks. x ∷ ks) e)
]

module _ {ℓ} {A : Type ℓ} where
  pub datanode-some :
      (h : Heap A) (o : Option Ptr) (p : Ptr)
      → o ≡ some p
      → is_datanode h (some p) ≡ true
      → datanode h o ≡ some p
  datanode-some h o p e node = ap (datanode h) e ∙ rw node refl

  pub datanode-none :
      (h : Heap A) (o : Option Ptr) (p : Ptr)
      → o ≡ some p
      → is_datanode h (some p) ≡ false
      → datanode h o ≡ none
  datanode-none h o p e node = ap (datanode h) e ∙ rw node refl

  take_out-freed : (h : Heap A) (l : LinkedList) (n : Ptr) → (take_out h l n).freed ≡ h.freed
  unfolding ln_free
  take_out-freed h l n = elim (Bool-cases l.owns) [
    | inl owns ↦ rw owns (ground arith)
    | inr lends ↦ rw lends refl
  ]

  -- What taking an element off an end leaves: the others, and nothing freed but the node.
  pub record Took (h : Heap A) (xs : List (Option A)) (x : Option A)
      (r : Option A × Heap A × LinkedList) : Type ℓ where
    pub gives : r.0 ≡ x
    pub holds : Holds r.1 r.2 xs
    pub same_freed : r.1.freed ≡ h.freed

  -- An element off an end of a sequence, NULL off an empty one, and what is left.
  abbrev pub first_off : List (Option A) → Option A × List (Option A)
  first_off [] = (none, [])
  first_off (x ∷ xs) = (x, xs)

  abbrev pub last_off : List (Option A) → Option A × List (Option A)
  last_off [] = (none, [])
  last_off (x ∷ []) = (x, [])
  last_off (x ∷ y ∷ ys) = ((last_off (y ∷ ys)).0, x ∷ (last_off (y ∷ ys)).1)

  last_off-snoc : (xs : List (Option A)) (x : Option A) → last_off (xs ++ x ∷ []) ≡ (x, xs)
  last_off-snoc [] x = refl
  last_off-snoc (y ∷ []) x = refl
  last_off-snoc (y ∷ z ∷ zs) x = ap (λ r. (r.0, y ∷ r.1)) (last_off-snoc (z ∷ zs) x)

  pop_node-Took :
      (h : Heap A) (l : LinkedList) (ns : List Ptr) (n : Ptr)
      → IsLinked h l (ns ++ n ∷ [])
      → (r : Option A × Heap A × LinkedList) × (pop_node h l (some n) ≡ some r)
        × Took h (contents h ns) (h.content n) r
  unfolding pop_node
  pop_node-Took h l ns n k =
      let s = linked-Within h l ns [] n k in
      let a = last_of l.head ns in
      let h' = bypass (take_out h l n) a l.tail in
      let i = take_out-Bypassed h l a n l.tail in
      (
        (h.content n, h', record l { size = l.size - 1 }),
        ap
            (λ o. o >>= λ before.
              some (
                h.content n,
                bypass (take_out h l n) before l.tail,
                record l { size = l.size - 1 },
              ))
            (deref-some h (h.prev n) a s.before.prev_b s.before.live_a),
        record {
          gives = refl;
          holds = record {
            nodes = ns ++ [];
            linked = bypassed-IsLinked h h' l ns [] n k i;
            reads = bypassed-contents h h' l ns [] n k i ∙ append-nil (contents h ns);
          };
          same_freed = (unfold bypass in take_out-freed h l n);
        },
      )

  -- What a pop of a list that holds `xs` gives.
  Pops : Heap A → LinkedList → List (Option A) → Type ℓ
  Pops h l xs =
      (r : Option A × Heap A × LinkedList) × (pop h l ≡ some r)
      × Took h (last_off xs).1 (last_off xs).0 r

  pop_nodes :
      (h : Heap A) (l : LinkedList) (ns : List Ptr) → IsLinked h l ns → Pops h l (contents h ns)
  unfolding Pops pop
  pop_nodes h l ns k = elim (snoc-cases ns) [
    | inl none_left ↦
        let k₀ = subst (λ ms. IsLinked h l ms) none_left k in
        let s = linked-Around h l [] [] k₀ in
        subst (λ ms. Pops h l (contents h ms)) (sym none_left)
          (
            (none, h, l),
            ap (pop_node h l)
                  (datanode-none h (h.prev l.tail) l.head s.prev_b (head_sentinel h l [] k₀))
                ∙ (unfold pop_node in refl),
            record {
              gives = refl;
              holds = record { nodes = []; linked = k₀; reads = refl };
              same_freed = refl;
            },
          )
    | inr (ms, n, e) ↦
        let k₁ = subst (λ is. IsLinked h l is) e k in
        let s = linked-Within h l ms [] n k₁ in
        let (r, eq, took) = pop_node-Took h l ms n k₁ in
        let whole : last_off (contents h (ms ++ n ∷ [])) ≡ (h.content n, contents h ms) =
          ap last_off (contents-append h ms (n ∷ []))
          ∙ last_off-snoc (contents h ms) (h.content n) in
        subst (λ is. Pops h l (contents h is)) (sym e)
          (
            r,
            ap (pop_node h l) (datanode-some h (h.prev l.tail) n s.after.prev_b s.is_node) ∙ eq,
            subst (λ p. Took h p.1 p.0 r) (sym whole) took,
          )
  ]

  -- `list_pop` takes the last element off, without a call of the free function; on an empty list it
  -- answers NULL and changes nothing.
  pub pop-Took :
      (h : Heap A) (l : LinkedList) (xs : List (Option A))
      → Holds h l xs
      → (r : Option A × Heap A × LinkedList) × (pop h l ≡ some r)
        × Took h (last_off xs).1 (last_off xs).0 r
  unfolding Pops
  pop-Took h l xs k = subst (λ ys. Pops h l ys) k.reads (pop_nodes h l k.nodes k.linked)
