-- ===== src/LinkedList/Ends.antt =====
-- Adding at the ends of the list of lib/list.c.
use obelix.Prelude.{
  suc, ◌≡◌, sym, ap, ◌∙◌, true, Option, some, List, [], ◌∷◌, ◌++◌, subst, ◌>>=◌, append-nil,
}
use obelix.LinkedList.{Ptr, Heap, LinkedList, ln_create, link, append, unshift}
use obelix.LinkedList.Chains.{last_of}
use obelix.LinkedList.Paths.{next_in}
use obelix.LinkedList.Linked.{IsLinked, contents}
use obelix.LinkedList.Inserts.{inserted-IsLinked, inserted-contents}
use obelix.LinkedList.Places.{Around, deref-some, linked-Around, link-Inserted}

module _ {ℓ} {A : Type ℓ} where
  -- The list holds the elements `xs`, in order.
  pub record Holds (h : Heap A) (l : LinkedList) (xs : List (Option A)) : Type ℓ where
    pub nodes : List Ptr
    pub linked : IsLinked h l nodes
    pub reads : contents h nodes ≡ xs

  linked_end :
      (h : Heap A) (l : LinkedList) (ns : List Ptr) → IsLinked h l ns → IsLinked h l (ns ++ [])
  linked_end h l ns k = subst (λ ms. IsLinked h l ms) (sym (append-nil ns)) k

  append_here :
      (h : Heap A) (l : LinkedList) (x : Option A) (a : Ptr)
      → Around h a l.tail
      → append h l x ≡ some (link (ln_create h x) a h.top l.tail, record l { size = suc l.size })
  unfolding append ln_create
  append_here h l x a s =
      let old_a = s.old_a in
      let old_b = s.old_b in
      let read : (ln_create h x).prev l.tail ≡ some a = rw old_b s.prev_b in
      let alive : (ln_create h x).live a ≡ true = rw old_a s.live_a in
      ap
        (λ o. o >>= λ before.
          some (link (ln_create h x) before h.top l.tail, record l { size = suc l.size }))
        (deref-some (ln_create h x) ((ln_create h x).prev l.tail) a read alive)

  -- `list_append` succeeds and puts an element at the end.
  pub append-Holds :
      (h : Heap A) (l : LinkedList) (x : Option A) (xs : List (Option A))
      → Holds h l xs
      → (h' : Heap A) × (l' : LinkedList) × (append h l x ≡ some (h', l'))
        × Holds h' l' (xs ++ x ∷ [])
        × (h'.freed ≡ h.freed)
  append-Holds h l x xs k =
      let at_end = linked_end h l k.nodes k.linked in
      let s = linked-Around h l k.nodes [] at_end in
      let a = last_of l.head k.nodes in
      let h' = link (ln_create h x) a h.top l.tail in
      let i = link-Inserted h a l.tail x s in
      (
        h',
        record l { size = suc l.size },
        append_here h l x a s,
        record {
          nodes = k.nodes ++ h.top ∷ [];
          linked = inserted-IsLinked h h' l k.nodes [] h.top x at_end i;
          reads =
              inserted-contents h h' l k.nodes [] h.top x at_end i
              ∙ ap (λ ys. ys ++ x ∷ []) k.reads;
        },
        i.same_freed,
      )

  unshift_here :
      (h : Heap A) (l : LinkedList) (x : Option A) (b : Ptr)
      → Around h l.head b
      → unshift h l x ≡ some (link (ln_create h x) l.head h.top b, record l { size = suc l.size })
  unfolding unshift ln_create
  unshift_here h l x b s =
      let old_a = s.old_a in
      let old_b = s.old_b in
      let read : (ln_create h x).next l.head ≡ some b = rw old_a s.next_a in
      let alive : (ln_create h x).live b ≡ true = rw old_b s.live_b in
      ap
        (λ o. o >>= λ after.
          some (link (ln_create h x) l.head h.top after, record l { size = suc l.size }))
        (deref-some (ln_create h x) ((ln_create h x).next l.head) b read alive)

  -- `list_unshift` succeeds and puts an element in front.
  pub unshift-Holds :
      (h : Heap A) (l : LinkedList) (x : Option A) (xs : List (Option A))
      → Holds h l xs
      → (h' : Heap A) × (l' : LinkedList) × (unshift h l x ≡ some (h', l'))
        × Holds h' l' (x ∷ xs)
        × (h'.freed ≡ h.freed)
  unshift-Holds h l x xs k =
      let s = linked-Around h l [] k.nodes k.linked in
      let b = next_in k.nodes l.tail in
      let h' = link (ln_create h x) l.head h.top b in
      let i = link-Inserted h l.head b x s in
      (
        h',
        record l { size = suc l.size },
        unshift_here h l x b s,
        record {
          nodes = h.top ∷ k.nodes;
          linked = inserted-IsLinked h h' l [] k.nodes h.top x k.linked i;
          reads =
              inserted-contents h h' l [] k.nodes h.top x k.linked i ∙ ap (λ ys. x ∷ ys) k.reads;
        },
        i.same_freed,
      )
