-- ===== src/LinkedList/Reads.antt =====
-- The list of lib/list.c when it is new, and reading its elements by their index.
use obelix.Prelude.{
  ℕ, zero, suc, ◌≡◌, ◌<◌, refl, sym, ap, ◌∙◌, Bool, true, Option, none, some, List, [], ◌∷◌, ◌++◌,
  ◌>>=◌, arith, Bool-cases, inl, inr, length, length-map, get_or, get_or-past, ltb,
}
use obelix.Prelude.Int.{pos}
use obelix.LinkedList.{Ptr, Heap, LinkedList, ln_create, create, datanode, content_of, steps, get}
use obelix.LinkedList.Chains.{mem, Forward, Backward, Distinct}
use obelix.LinkedList.Paths.{next_in}
use obelix.LinkedList.Linked.{contents}
use obelix.LinkedList.Ends.{Holds}
use obelix.LinkedList.Walks.{first_link}

module _ {ℓ} {A : Type ℓ} where
  -- `list_create` makes a list that holds nothing, whatever the heap holds.
  pub create-Holds : (h : Heap A) (owns : Bool) → Holds (create h owns).0 (create h owns).1 []
  unfolding create ln_create
  create-Holds h owns = record {
    nodes = [];
    linked = record {
      forward = (unfold Forward in (ground arith, refl));
      backward = (unfold Backward in (ground arith, refl));
      starts = ground arith;
      ends = ground arith;
      distinct = (unfold Distinct in (ground arith, refl));
      alive = λ p there. ground arith;
      used = λ p there. ground arith;
      sized = refl;
    };
    reads = refl;
  }

  get_rest :
      (ix : ℕ) (h : Heap A) (x t : Ptr) (ns : List Ptr)
      → ix < length ns
      → Forward h.next x (ns ++ t ∷ [])
      → Backward h.prev x (ns ++ t ∷ [])
      → ((p : Ptr) → mem p (ns ++ t ∷ []) ≡ true → h.live p ≡ true)
      → (steps ix h (some (next_in ns t)) >>= λ p. some (content_of h (datanode h p)))
        ≡ some (get_or (contents h ns) ix none)
  unfolding steps Forward Backward
  get_rest ix h x t [] few f g alive = absurd (omega arith)
  get_rest zero h x t (p ∷ ns) few f g alive =
      let next_p = first_link h.next p t ns f.1 in rw (next_p, g.0) refl
  get_rest (suc ix) h x t (p ∷ ns) few f g alive =
      let next_p = first_link h.next p t ns f.1 in
      rw (alive p (ground arith), next_p)
        (get_rest ix h p t ns (omega arith) f.1 g.1 (λ r m. alive r (ground (arith, m))))

  -- `list_get` answers the element at an index of the list, and NULL at any other index.
  pub get-Holds :
      (h : Heap A) (l : LinkedList) (xs : List (Option A)) (ix : ℕ)
      → Holds h l xs
      → get h l (pos ix) ≡ some (get_or xs ix none)
  unfolding get
  get-Holds h l xs ix k =
      let linked = k.linked in
      let same : l.size ≡ length k.nodes = linked.sized in
      elim (Bool-cases (ltb ix l.size)) [
        | inl inside ↦ rw inside (
            ap (λ o. steps ix h o >>= λ p. some (content_of h (datanode h p)))
              (first_link h.next l.head l.tail k.nodes linked.forward)
            ∙ get_rest ix h l.head l.tail k.nodes (ground arith) linked.forward linked.backward
                (λ p there. linked.alive p (ground (arith, there)))
            ∙ ap (λ ys. some (get_or ys ix none)) k.reads)
        | inr outside ↦
            let whole = ap length k.reads in
            rw outside (
              ap some (
                sym (
                  get_or-past xs ix none
                    (ground (arith, same, whole, length-map k.nodes h.content)))))
      ]
