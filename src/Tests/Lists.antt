-- ===== src/Tests/Lists.antt =====
-- lib/list.c on a list of two elements.
use obelix.Prelude.{
  ℕ, suc, ◌+◌, ◌≡◌, refl, true, false, Option, none, some, List, [], ◌∷◌, arith, ltb, ◌==◌,
  if◌then◌else◌,
}
use obelix.Prelude.Int.{pos}
use obelix.LinkedList.{Heap, LinkedList, append, unshift, pop, get}
use obelix.LinkedList.Chains.{Forward, Backward, Distinct}
use obelix.LinkedList.Linked.{IsLinked, contents}
use obelix.LinkedList.Ends.{Holds, append-Holds, unshift-Holds}
use obelix.LinkedList.Taking.{Took, pop-Took}
use obelix.LinkedList.Reads.{get-Holds}
use obelix.LinkedList.Walks.{reduce, reduce-Holds}
use obelix.LinkedList.Clears.{clear, clear-Holds, log_all}
use obelix.LinkedList.Iterator.{IsAt, remove, remove-IsLinked, next, next-IsAt, moved}
use obelix.LinkedList.Processor.{Processor, Answer, at_start, fold_data, lp_run, run-Holds, go_on}

abbrev bare : Heap ℕ
bare = record {
  next = λ p. none;
  prev = λ p. none;
  content = λ p. none;
  live = λ p. false;
  top = 0;
  freed = [];
}

-- Sentinels at 0 and 1, and between them the nodes 2 and 3.
abbrev heap : Heap ℕ
heap = record {
  next = λ p. if p == 0 then some 2 else if p == 2 then some 3 else if p == 3 then some 1 else none;
  prev = λ p. if p == 1 then some 3 else if p == 3 then some 2 else if p == 2 then some 0 else none;
  content = λ p. if p == 2 then some 5 else if p == 3 then some 7 else none;
  live = λ p. ltb p 4;
  top = 4;
  freed = [];
}

-- The iterator is at the head.
abbrev list : LinkedList
list = record { head = 0; tail = 1; size = 2; current = 0; owns = true }

abbrev elements : List (Option ℕ)
elements = some 5 ∷ some 7 ∷ []

linked : IsLinked heap list (2 ∷ 3 ∷ [])
unfolding Forward Backward Distinct
linked = record {
  forward = (refl, (refl, (refl, refl)));
  backward = (refl, (refl, (refl, refl)));
  starts = refl;
  ends = refl;
  distinct = (refl, (refl, (refl, refl)));
  alive = λ p there. ground arith;
  used = λ p there. ground arith;
  sized = refl;
}

holds : Holds heap list elements
holds = record { nodes = 2 ∷ 3 ∷ []; linked = linked; reads = refl }

iterator_start : IsAt heap list [] (2 ∷ 3 ∷ [])
iterator_start = record { linked = linked; stands = refl }

append-Holds_example :
    (h' : Heap ℕ) × (l' : LinkedList) × (append heap list (some 9) ≡ some (h', l'))
    × Holds h' l' (some 5 ∷ some 7 ∷ some 9 ∷ [])
    × (h'.freed ≡ heap.freed)
append-Holds_example = append-Holds heap list (some 9) elements holds

unshift-Holds_example :
    (h' : Heap ℕ) × (l' : LinkedList) × (unshift heap list (some 9) ≡ some (h', l'))
    × Holds h' l' (some 9 ∷ elements)
    × (h'.freed ≡ heap.freed)
unshift-Holds_example = unshift-Holds heap list (some 9) elements holds

pop-Took_example :
    (r : Option ℕ × Heap ℕ × LinkedList) × (pop heap list ≡ some r)
    × Took heap (some 5 ∷ []) (some 7) r
pop-Took_example = pop-Took heap list elements holds

get-Holds_example : get heap list (pos 1) ≡ some (some 7)
get-Holds_example = get-Holds heap list elements 1 holds

abbrev number : Option ℕ → ℕ
number none = 0
number (some n) = n

reduce-Holds_example : reduce (λ x n. n + number x) (suc list.size) heap list 0 ≡ some 12
reduce-Holds_example = reduce-Holds (λ x n. n + number x) heap list elements 0 holds

clear-Holds_example :
    (h' : Heap ℕ) × (l' : LinkedList) × (clear (suc list.size) heap list ≡ some (h', l'))
    × Holds h' l' []
    × (h'.freed ≡ log_all list.owns elements heap.freed)
clear-Holds_example = clear-Holds heap list elements holds

remove-IsLinked_example :
    (h' : Heap ℕ) × (l' : LinkedList) × (remove heap (record list { current = 3 }) ≡ some (h', l'))
    × IsLinked h' l' (2 ∷ [])
    × (contents h' (2 ∷ []) ≡ some 5 ∷ [])
    × (l'.current ≡ 1)
    × (h'.freed ≡ 7 ∷ [])
remove-IsLinked_example =
    remove-IsLinked heap (record list { current = 3 }) (2 ∷ []) [] 3 (moved list 3 linked) refl

next-IsAt_example :
    (next heap list ≡ some (some 5, record list { current = 2 }))
    × IsAt heap (record list { current = 2 }) (2 ∷ []) (3 ∷ [])
next-IsAt_example = next-IsAt heap list [] (3 ∷ []) 2 iterator_start

-- A function that adds the elements up and goes on.
abbrev adder : Option ℕ → ℕ → Answer × ℕ
adder x n = (go_on, n + number x)

abbrev fresh : Processor ℕ
fresh = record { place = at_start; data_ = 0 }

run-Holds_example : lp_run adder 3 heap list fresh ≡ some 12
unfolding fold_data
run-Holds_example = run-Holds adder (λ x d. refl) heap list fresh (some 5) (some 7 ∷ []) holds
