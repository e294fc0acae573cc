-- ===== src/LinkedList/Linked.antt =====
-- What it is to be a list in the heap, and what it holds.
use obelix.Prelude.{
  ◌≡◌, ◌<◌, refl, ap, ap₂, true, Option, none, List, [], ◌∷◌, ◌++◌, arith, map, length,
}
use obelix.LinkedList.{Ptr, Heap, LinkedList}
use obelix.LinkedList.Chains.{mem, Forward, Backward, Distinct}

module _ {ℓ} {A : Type ℓ} where
  -- `ns` are the addresses of the nodes of the list, between its sentinels.
  pub record IsLinked (h : Heap A) (l : LinkedList) (ns : List Ptr) : Type ℓ where
    pub forward : Forward h.next l.head (ns ++ l.tail ∷ [])
    pub backward : Backward h.prev l.head (ns ++ l.tail ∷ [])
    pub starts : h.prev l.head ≡ none
    pub ends : h.next l.tail ≡ none
    pub distinct : Distinct l.head (ns ++ l.tail ∷ [])
    pub alive : (p : Ptr) → mem p (l.head ∷ ns ++ l.tail ∷ []) ≡ true → h.live p ≡ true
    pub used : (p : Ptr) → mem p (l.head ∷ ns ++ l.tail ∷ []) ≡ true → p < h.top
    pub sized : l.size ≡ length ns

  -- What stands in the nodes.
  abbrev pub contents : Heap A → List Ptr → List (Option A)
  contents h ns = map h.content ns

  pub contents-same :
      (h h' : Heap A) (ns : List Ptr)
      → ((p : Ptr) → mem p ns ≡ true → h'.content p ≡ h.content p)
      → contents h' ns ≡ contents h ns
  contents-same h h' [] same = refl
  contents-same h h' (n ∷ ns) same =
      ap₂ (λ x xs. x ∷ xs) (same n (ground arith))
        (contents-same h h' ns (λ p there. same p (ground (arith, there))))

  pub contents-append :
      (h : Heap A) (xs ys : List Ptr) → contents h (xs ++ ys) ≡ contents h xs ++ contents h ys
  contents-append h [] ys = refl
  contents-append h (x ∷ xs) ys = ap (λ zs. h.content x ∷ zs) (contents-append h xs ys)
