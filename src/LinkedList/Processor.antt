-- ===== src/LinkedList/Processor.antt =====
-- The list processor of lib/list.c: a loop over a list in which the function that is called for each
-- element may say where to go on.
use obelix.Prelude.{
  ℕ, zero, suc, ◌≡◌, ◌<◌, refl, ap, ◌∙◌, Bool, true, false, not, Option, none, some, List, [], ◌∷◌,
  ◌++◌, if◌then◌else◌, ◌>>=◌, arith, length, length-map, subst,
}
use obelix.LinkedList.{Ptr, Heap, LinkedList, deref, is_datanode, list_head_pointer}
use obelix.LinkedList.Chains.{mem, Forward, Backward}
use obelix.LinkedList.Paths.{next_in}
use obelix.LinkedList.Linked.{IsLinked, contents}
use obelix.LinkedList.Ends.{Holds}
use obelix.LinkedList.Walks.{first_link, fold, head_pointer-nodes, head_pointer-empty}

-- What the function answers: NULL, `ProcessEnd`, or a node.
pub data Answer : Type 0 where
  go_on : Answer
  process_end : Answer
  jump : Ptr → Answer

-- Where a processor is, NULL at the start.
pub data Place : Type 0 where
  at_start : Place
  at_end : Place
  at_node : Ptr → Place

-- `listprocessor_t`: its place, and what `data` points to.
pub record Processor {ℓ} (D : Type ℓ) : Type ℓ where
  pub place : Place
  pub data_ : D

abbrev pub place_of : Option Ptr → Place
place_of none = at_start
place_of (some p) = at_node p

unfoldable pub lp_atstart {κ} : {D : Type κ} → Processor D → Bool
lp_atstart lp = elim lp.place [ at_start ↦ true | at_end ↦ false | at_node p ↦ false ]

module _ {ℓ κ} {A : Type ℓ} {D : Type κ} where
  unfoldable pub lp_atend : Heap A → Processor D → Bool
  lp_atend h lp = elim lp.place [
    | at_start ↦ false
    | at_end ↦ true
    | at_node p ↦ not (is_datanode h (some p))
  ]

  -- The function on the element of a node: what it answers, and what it leaves in `data`.
  module _ (processor : Option A → D → Answer × D) where
    abbrev pub go_to : Heap A → Ptr → Answer → Option Place
    go_to h p go_on = some (place_of (h.next p))
    go_to h p process_end = some at_end
    go_to h p (jump q) = some (at_node q)

    -- A step at a node; `some none` is the NULL that ends the loop, `none` a crash.
    unfoldable pub step_at : Heap A → Processor D → Option (Option (Processor D))
    unfolding lp_atend
    step_at h lp = if lp_atend h lp then some none else elim lp.place [
      | at_start ↦ none
      | at_end ↦ none
      | at_node p ↦ deref h (some p) >>= λ node.
          go_to h node (processor (h.content node) lp.data_).0 >>= λ place.
          some (some (record { place = place; data_ = (processor (h.content node) lp.data_).1 }))
    ]

    unfoldable pub lp_step : Heap A → LinkedList → Processor D → Option (Option (Processor D))
    unfolding step_at lp_atstart
    lp_step h l lp =
        step_at h
          (if lp_atstart lp then record lp { place = place_of (list_head_pointer h l) } else lp)

    -- The loop of `lp_run`; `none` is a crash, or too little fuel.
    unfoldable pub run_from : ℕ → Heap A → LinkedList → Processor D → Option D
    unfolding lp_step
    run_from zero h l lp = none
    run_from (suc n) h l lp =
        lp_step h l lp >>= λ r. elim r [ none ↦ some lp.data_ | some lp' ↦ run_from n h l lp' ]

    unfoldable pub lp_run : ℕ → Heap A → LinkedList → Processor D → Option D
    unfolding run_from
    lp_run fuel h l lp = run_from fuel h l (record lp { place = at_start })

    -- What the function makes of the data, its answer left out.
    unfoldable pub fold_data : Option A → D → D
    fold_data x d = (processor x d).1

    module _ (goes_on : (x : Option A) (d : D) → (processor x d).0 ≡ go_on) where
      run_rest :
          (n : ℕ) (h : Heap A) (l : LinkedList) (x t : Ptr) (ns : List Ptr) (d : D)
          → length ns < n
          → Forward h.next x (ns ++ t ∷ [])
          → Backward h.prev x (ns ++ t ∷ [])
          → h.next t ≡ none
          → ((p : Ptr) → mem p (ns ++ t ∷ []) ≡ true → h.live p ≡ true)
          → run_from n h l (record { place = at_node (next_in ns t); data_ = d })
            ≡ some (fold fold_data (contents h ns) d)
      unfolding run_from lp_step step_at lp_atend lp_atstart fold_data Forward Backward
      run_rest zero h l x t ns d few f g e alive = absurd (omega arith)
      run_rest (suc n) h l x t [] d few f g e alive = rw e refl
      run_rest (suc n) h l x t (p ∷ ns) d few f g e alive =
          let next_p = first_link h.next p t ns f.1 in
          rw (next_p, g.0, alive p (ground arith), goes_on (h.content p) d, next_p)
            (run_rest n h l p t ns (fold_data (h.content p) d) (omega arith) f.1 g.1 e
              (λ r m. alive r (ground (arith, m))))

      first_step :
          (h : Heap A) (l : LinkedList) (lp : Processor D) (p : Ptr) (m : ℕ)
          → list_head_pointer h l ≡ some p
          → lp_run (suc m) h l lp
            ≡ run_from (suc m) h l (record { place = at_node p; data_ = lp.data_ })
      unfolding lp_run run_from lp_step lp_atstart
      first_step h l lp p m e =
          ap
            (λ o. step_at h (record { place = place_of o; data_ = lp.data_ }) >>= λ r. elim r [
              | none ↦ some lp.data_
              | some lp' ↦ run_from m h l lp'
            ])
            e

      run_nodes :
          (h : Heap A) (l : LinkedList) (ns : List Ptr) (lp : Processor D)
          → IsLinked h l ns
          → 0 < length ns
          → lp_run (suc (length ns)) h l lp ≡ some (fold fold_data (contents h ns) lp.data_)
      run_nodes h l [] lp k full = absurd (omega arith)
      run_nodes h l (n ∷ ns) lp k full =
          first_step h l lp n (suc (length ns)) (head_pointer-nodes h l n ns k)
          ∙ run_rest (suc (suc (length ns))) h l l.head l.tail (n ∷ ns) lp.data_ (omega arith)
              k.forward k.backward k.ends (λ p there. k.alive p (ground (arith, there)))

      -- On a list that is not empty, `list_process` with a function that always answers NULL ends,
      -- and does what `list_reduce` does.
      pub run-Holds :
          (h : Heap A) (l : LinkedList) (lp : Processor D) (x : Option A) (xs : List (Option A))
          → Holds h l (x ∷ xs)
          → lp_run (suc l.size) h l lp ≡ some (fold fold_data (x ∷ xs) lp.data_)
      run-Holds h l lp x xs k =
          let same = k.linked.sized in
          let long = ap length k.reads in
          ap (λ n. lp_run (suc n) h l lp) same
          ∙ run_nodes h l k.nodes lp k.linked (omega (arith, length-map k.nodes h.content))
          ∙ ap (λ ys. some (fold fold_data ys lp.data_)) k.reads

    no_nodes : (h : Heap A) (ns : List Ptr) → contents h ns ≡ [] → ns ≡ []
    no_nodes h [] e = refl
    no_nodes h (n ∷ ns) e = let short = ap length e in absurd (omega arith)

    -- `lp_step` at the start of an empty list follows NULL, so that `list_process` crashes there.
    pub lp_step-empty :
        (h : Heap A) (l : LinkedList) (lp : Processor D)
        → Holds h l []
        → lp_atstart lp ≡ true
        → lp_step h l lp ≡ none
    unfolding lp_step step_at lp_atend
    lp_step-empty h l lp k start =
        let bare = subst (λ ns. IsLinked h l ns) (no_nodes h k.nodes k.reads) k.linked in
        rw (start, head_pointer-empty h l bare) refl
