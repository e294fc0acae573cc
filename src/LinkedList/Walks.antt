-- ===== src/LinkedList/Walks.antt =====
-- `__list_reduce` of lib/list.c, the loop along a whole list.
use obelix.Prelude.{
  ℕ, zero, suc, ◌≡◌, ◌<◌, refl, ap, ◌∙◌, true, Option, none, some, List, [], ◌∷◌, ◌++◌,
  if◌then◌else◌, arith, ◌>>=◌, length,
}
use obelix.LinkedList.{Ptr, Heap, LinkedList, deref, is_datanode, list_head_pointer}
use obelix.LinkedList.Chains.{mem, Forward, Backward}
use obelix.LinkedList.Paths.{next_in}
use obelix.LinkedList.Linked.{IsLinked, contents}
use obelix.LinkedList.Ends.{Holds}
use obelix.LinkedList.Places.{linked-Around, linked-Within, tail_sentinel}
use obelix.LinkedList.Taking.{datanode-some, datanode-none}

pub first_link :
    (f : Ptr → Option Ptr) (x t : Ptr) (ns : List Ptr)
    → Forward f x (ns ++ t ∷ [])
    → f x ≡ some (next_in ns t)
unfolding Forward
first_link f x t [] c = c.0
first_link f x t (y ∷ ns) c = c.0

module _ {ℓ} {A : Type ℓ} where
  pub head_pointer-nodes :
      (h : Heap A) (l : LinkedList) (n : Ptr) (ns : List Ptr)
      → IsLinked h l (n ∷ ns)
      → list_head_pointer h l ≡ some n
  unfolding list_head_pointer
  head_pointer-nodes h l n ns k =
      let s = linked-Within h l [] ns n k in
      datanode-some h (h.next l.head) n s.before.next_a s.is_node

  pub head_pointer-empty :
      (h : Heap A) (l : LinkedList) → IsLinked h l [] → list_head_pointer h l ≡ none
  unfolding list_head_pointer
  head_pointer-empty h l k =
      let s = linked-Around h l [] [] k in
      datanode-none h (h.next l.head) l.tail s.next_a (tail_sentinel h l [] k)

  module _ {κ} {B : Type κ} (reducer : Option A → B → B) where
    -- The loop of `__list_reduce` on the elements themselves; `none` is a crash, or too little fuel.
    unfoldable pub reduce_nodes : ℕ → Heap A → Option Ptr → B → Option B
    reduce_nodes zero h at data_ = none
    reduce_nodes (suc n) h none data_ = some data_
    reduce_nodes (suc n) h (some p) data_ = deref h (some p) >>= λ node.
        (if is_datanode h (some node)
          then reduce_nodes n h (h.next node) (reducer (h.content node) data_)
          else some data_)

    unfoldable pub reduce : ℕ → Heap A → LinkedList → B → Option B
    unfolding reduce_nodes
    reduce fuel h l data_ = reduce_nodes fuel h (list_head_pointer h l) data_

    abbrev pub fold : List (Option A) → B → B
    fold [] b = b
    fold (x ∷ xs) b = fold xs (reducer x b)

    reduce_rest :
        (n : ℕ) (h : Heap A) (x t : Ptr) (ns : List Ptr) (b : B)
        → length ns < n
        → Forward h.next x (ns ++ t ∷ [])
        → Backward h.prev x (ns ++ t ∷ [])
        → h.next t ≡ none
        → ((p : Ptr) → mem p (ns ++ t ∷ []) ≡ true → h.live p ≡ true)
        → reduce_nodes n h (some (next_in ns t)) b ≡ some (fold (contents h ns) b)
    unfolding reduce_nodes Forward Backward
    reduce_rest zero h x t ns b few f g e alive = absurd (omega arith)
    reduce_rest (suc n) h x t [] b few f g e alive = rw (alive t (ground arith), e) refl
    reduce_rest (suc n) h x t (p ∷ []) b few f g e alive =
        rw (alive p (ground arith), f.1.0, g.0)
          (reduce_rest n h p t [] (reducer (h.content p) b) (omega arith) f.1 g.1 e
            (λ r m. alive r (ground (arith, m))))
    reduce_rest (suc n) h x t (p ∷ q ∷ ns) b few f g e alive =
        rw (alive p (ground arith), f.1.0, g.0)
          (reduce_rest n h p t (q ∷ ns) (reducer (h.content p) b) (omega arith) f.1 g.1 e
            (λ r m. alive r (ground (arith, m))))

    reduce-nodes :
        (fuel : ℕ) (h : Heap A) (l : LinkedList) (ns : List Ptr) (b : B)
        → IsLinked h l ns
        → length ns < fuel
        → reduce fuel h l b ≡ some (fold (contents h ns) b)
    unfolding reduce
    reduce-nodes zero h l ns b k few = absurd (omega arith)
    reduce-nodes (suc fuel) h l [] b k few =
        ap (λ o. reduce_nodes (suc fuel) h o b) (head_pointer-empty h l k)
        ∙ (unfold reduce_nodes in refl)
    reduce-nodes (suc fuel) h l (n ∷ ns) b k few =
        ap (λ o. reduce_nodes (suc fuel) h o b) (head_pointer-nodes h l n ns k)
        ∙ reduce_rest (suc fuel) h l.head l.tail (n ∷ ns) b few k.forward k.backward k.ends
            (λ p there. k.alive p (ground (arith, there)))

    -- `list_reduce` ends, after one round for each node, and folds the reducer over the elements from
    -- the first to the last.
    pub reduce-Holds :
        (h : Heap A) (l : LinkedList) (xs : List (Option A)) (b : B)
        → Holds h l xs
        → reduce (suc l.size) h l b ≡ some (fold xs b)
    reduce-Holds h l xs b k =
        let few = k.linked.sized in
        reduce-nodes (suc l.size) h l k.nodes b k.linked (omega arith)
        ∙ ap (λ ys. some (fold ys b)) k.reads
