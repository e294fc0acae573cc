-- ===== src/LinkedList/Clears.antt =====
-- `list_clear` of lib/list.c.
use obelix.Prelude.{
  ℕ, zero, suc, ◌≡◌, ◌<◌, refl, ap, ◌∙◌, Bool, true, false, Option, none, some, List, [], ◌∷◌, ◌++◌,
  ◌==◌, if◌then◌else◌, arith, ◌>>=◌, Bool-cases, inl, inr, length,
}
use obelix.LinkedList.{Ptr, Heap, LinkedList, upd, log_content, ln_free, deref, is_datanode}
use obelix.LinkedList.Chains.{mem, mem-append, Forward, Backward, Distinct}
use obelix.LinkedList.Updates.{
  ne_symm, behind-ne, not-mem-cons, head-Distinct, mem-inner, inner_apart,
}
use obelix.LinkedList.Paths.{next_in}
use obelix.LinkedList.Linked.{contents}
use obelix.LinkedList.Ends.{Holds}
use obelix.LinkedList.Walks.{first_link}

last_once : (x t : Ptr) (ns : List Ptr) → Distinct x (ns ++ t ∷ []) → mem t (x ∷ ns) ≡ false
unfolding Distinct
last_once x t [] d = ground (arith, d.0)
last_once x t (y ∷ ns) d =
    let apart = inner_apart x t (y ∷ ns) [] d.0 in ground (arith, last_once y t ns d.1)

module _ {ℓ} {A : Type ℓ} where
  -- The loop of `list_clear`.
  unfoldable pub free_nodes : ℕ → Heap A → Bool → Option Ptr → Option (Heap A)
  unfolding ln_free
  free_nodes zero h owns o = none
  free_nodes (suc n) h owns none = some h
  free_nodes (suc n) h owns (some p) = deref h (some p) >>= λ node.
      (if is_datanode h (some node)
        then free_nodes n (ln_free h owns node) owns (h.next node)
        else some h)

  -- `list_clear`, with fuel for its loop; the iterator is left where it stood.
  unfoldable pub clear : ℕ → Heap A → LinkedList → Option (Heap A × LinkedList)
  unfolding free_nodes
  clear fuel h l = free_nodes fuel h l.owns (h.next l.head) >>= λ h'. some (
    record h' { next = upd h'.next l.head (some l.tail); prev = upd h'.prev l.tail (some l.head) },
    record l { size = 0 },
  )

  abbrev pub log_all : Bool → List (Option A) → List A → List A
  log_all owns [] log = log
  log_all owns (x ∷ xs) log = log_all owns xs (log_content owns x log)

  -- What freeing the nodes `ns` does to the heap.
  record Freed (h : Heap A) (owns : Bool) (ns : List Ptr) (h' : Heap A) : Type ℓ where
    same_next : h'.next ≡ h.next
    same_prev : h'.prev ≡ h.prev
    same_top : h'.top ≡ h.top
    logged : h'.freed ≡ log_all owns (contents h ns) h.freed
    live_else : (p : Ptr) → mem p ns ≡ false → h'.live p ≡ h.live p

  free_rest :
      (n : ℕ) (h : Heap A) (owns : Bool) (x t : Ptr) (ns : List Ptr)
      → length ns < n
      → Forward h.next x (ns ++ t ∷ [])
      → Backward h.prev x (ns ++ t ∷ [])
      → Distinct x (ns ++ t ∷ [])
      → h.next t ≡ none
      → ((p : Ptr) → mem p (ns ++ t ∷ []) ≡ true → h.live p ≡ true)
      → (h' : Heap A) × (free_nodes n h owns (some (next_in ns t)) ≡ some h') × Freed h owns ns h'
  unfolding free_nodes Forward Backward Distinct
  free_rest zero h owns x t ns few f g d e alive = absurd (omega arith)
  free_rest (suc n) h owns x t [] few f g d e alive = (
    h,
    rw (alive t (ground arith), e) refl,
    record {
      same_next = refl;
      same_prev = refl;
      same_top = refl;
      logged = refl;
      live_else = λ p u. refl;
    },
  )
  free_rest (suc n) h owns x t (p ∷ ns) few f g d e alive =
      let h₁ = ln_free h owns p in
      let (h', runs, freed) = free_rest n h₁ owns p t ns (omega arith) f.1 g.1 d.1 e (λ r m.
        let apart = behind-ne p (ns ++ t ∷ []) d.1 r m in
        let lives = alive r (ground (arith, m)) in (unfold ln_free in ground arith)) in
      let next_p = first_link h.next p t ns f.1 in
      (
        h',
        rw (alive p (ground arith), next_p, g.0) runs,
        record {
          same_next = freed.same_next;
          same_prev = freed.same_prev;
          same_top = freed.same_top;
          logged = freed.logged;
          live_else = λ r m.
              let apart = not-mem-cons r p ns m in
              freed.live_else r apart.1 ∙ (unfold ln_free in ground arith);
        },
      )

  -- `list_clear` ends, calls the free function for every element that is not NULL, in order, and
  -- leaves an empty list.
  pub clear-Holds :
      (h : Heap A) (l : LinkedList) (xs : List (Option A))
      → Holds h l xs
      → (h' : Heap A) × (l' : LinkedList) × (clear (suc l.size) h l ≡ some (h', l'))
        × Holds h' l' []
        × (h'.freed ≡ log_all l.owns xs h.freed)
  unfolding clear
  clear-Holds h l xs k =
      let linked = k.linked in
      let few = linked.sized in
      let next_head = first_link h.next l.head l.tail k.nodes linked.forward in
      let (h', runs, freed) =
        free_rest (suc l.size) h l.owns l.head l.tail k.nodes (omega arith) linked.forward
          linked.backward linked.distinct linked.ends
          (λ p there. linked.alive p (ground (arith, there))) in
      let head_away = head-Distinct l.head l.tail k.nodes [] linked.distinct in
      let head_tail = inner_apart l.head l.tail k.nodes [] head_away in
      let tail_away = last_once l.head l.tail k.nodes linked.distinct in
      let split = mem-append l.head k.nodes (l.tail ∷ []) in
      let head_in : mem l.head k.nodes ≡ false = ground arith in
      let tail_in : mem l.tail k.nodes ≡ false = ground arith in
      let kept = freed.live_else in
      let same_top = freed.same_top in
      (
        record h' {
          next = upd h'.next l.head (some l.tail);
          prev = upd h'.prev l.tail (some l.head);
        },
        record l { size = 0 },
        ap
            (λ o. o >>= λ h'. some (
              record h' {
                next = upd h'.next l.head (some l.tail);
                prev = upd h'.prev l.tail (some l.head);
              },
              record l { size = 0 },
            ))
            (ap (λ o. free_nodes (suc l.size) h l.owns o) next_head ∙ runs),
        record {
          nodes = [];
          linked = record {
            forward = (unfold Forward in (ground arith, refl));
            backward = (unfold Backward in (ground arith, refl));
            starts = rw head_tail (ap (λ f. f l.head) freed.same_prev ∙ linked.starts);
            ends =
                rw (ne_symm l.head l.tail head_tail)
                  (ap (λ f. f l.tail) freed.same_next ∙ linked.ends);
            distinct = (unfold Distinct in (ground arith, refl));
            alive = λ p there.
                let lives_head = kept l.head head_in ∙ linked.alive l.head (ground arith) in
                let lives_tail =
                  kept l.tail tail_in
                  ∙ linked.alive l.tail (ground (arith, mem-inner l.tail k.nodes [])) in
                elim (Bool-cases (p == l.head)) [
                  | inl same ↦ let e : p ≡ l.head = ground arith in ap h'.live e ∙ lives_head
                  | inr other ↦ let e : p ≡ l.tail = ground arith in ap h'.live e ∙ lives_tail
                ];
            used = λ p there. elim (Bool-cases (p == l.head)) [
              | inl same ↦ let below = linked.used l.head (ground arith) in ground arith
              | inr other ↦
                  let below = linked.used l.tail (ground (arith, mem-inner l.tail k.nodes [])) in
                  ground arith
            ];
            sized = refl;
          };
          reads = refl;
        },
        freed.logged ∙ ap (λ ys. log_all l.owns ys h.freed) k.reads,
      )
