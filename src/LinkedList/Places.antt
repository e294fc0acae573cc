-- ===== src/LinkedList/Places.antt =====
-- What stands around a place of a list, and the two edits of list.c there.
use obelix.Prelude.{
  ◌≡◌, refl, sym, ap, ◌∙◌, true, false, Option, some, List, [], ◌∷◌, ◌++◌, ◌==◌, arith, inl, inr,
  subst, append_assoc, Option-cases,
}
use obelix.LinkedList.{
  Ptr, Heap, LinkedList, ln_create, ln_free, link, bypass, deref, take_out, is_datanode,
}
use obelix.LinkedList.Chains.{mem, last_of, Forward, Backward}
use obelix.LinkedList.Updates.{last_of-mem}
use obelix.LinkedList.Paths.{next_in, after_next, path_split, mem-behind}
use obelix.LinkedList.Linked.{IsLinked}
use obelix.LinkedList.Inserts.{Inserted}
use obelix.LinkedList.Bypasses.{Bypassed}

chain_next :
    (f : Ptr → Option Ptr) (x b : Ptr) (pre rest : List Ptr)
    → Forward f x (pre ++ b ∷ rest)
    → f (last_of x pre) ≡ some b
unfolding Forward
chain_next f x b [] rest c = c.0
chain_next f x b (y ∷ pre) rest c = chain_next f y b pre rest c.1

chain_prev :
    (g : Ptr → Option Ptr) (x b : Ptr) (pre rest : List Ptr)
    → Backward g x (pre ++ b ∷ rest)
    → g b ≡ some (last_of x pre)
unfolding Backward
chain_prev g x b [] rest c = c.0
chain_prev g x b (y ∷ pre) rest c = chain_prev g y b pre rest c.1

pub last_of-snoc : (x n : Ptr) (pre : List Ptr) → last_of x (pre ++ n ∷ []) ≡ n
last_of-snoc x n [] = refl
last_of-snoc x n (y ∷ pre) = last_of-snoc y n pre

module _ {ℓ} {A : Type ℓ} where
  pub deref-some :
      (h : Heap A) (o : Option Ptr) (p : Ptr) → o ≡ some p → h.live p ≡ true → deref h o ≡ some p
  deref-some h o p e alive = ap (deref h) e ∙ rw alive refl

  -- The neighbours at the place between the nodes `pre` and `post`.
  pub record Around (h : Heap A) (a b : Ptr) : Type ℓ where
    pub next_a : h.next a ≡ some b
    pub prev_b : h.prev b ≡ some a
    pub live_a : h.live a ≡ true
    pub live_b : h.live b ≡ true
    pub old_a : (a == h.top) ≡ false
    pub old_b : (b == h.top) ≡ false

  module _ (h : Heap A) (l : LinkedList) (pre post : List Ptr)
      (k : IsLinked h l (pre ++ post)) where
    here : Ptr
    here = last_of l.head pre

    there : Ptr
    there = next_in post l.tail

    tails : List Ptr
    tails = after_next post l.tail

    split : (pre ++ post) ++ l.tail ∷ [] ≡ pre ++ there ∷ tails
    unfolding there tails
    split = path_split pre post l.tail

    on_path :
        (p : Ptr)
        → mem p (l.head ∷ pre ++ there ∷ tails) ≡ true
        → (h.live p ≡ true) × ((p == h.top) ≡ false)
    on_path p m =
        let old = subst (λ ps. mem p (l.head ∷ ps) ≡ true) (sym split) m in
        let below = k.used p old in (k.alive p old, ground arith)

    pub linked-Around : Around h (last_of l.head pre) (next_in post l.tail)
    unfolding there tails
    linked-Around =
        let (live_a, old_a) =
          on_path (last_of l.head pre) (last_of-mem l.head pre (there ∷ tails)) in
        let (live_b, old_b) =
          on_path there (mem-behind there (l.head ∷ pre) (there ∷ tails) (ground arith)) in
        record {
          next_a =
              chain_next h.next l.head there pre tails
                (subst (λ ps. Forward h.next l.head ps) split k.forward);
          prev_b =
              chain_prev h.prev l.head there pre tails
                (subst (λ ps. Backward h.prev l.head ps) split k.backward);
          live_a = live_a;
          live_b = live_b;
          old_a = old_a;
          old_b = old_b;
        }

  pub link-Inserted :
      (h : Heap A) (a b : Ptr) (x : Option A)
      → Around h a b
      → Inserted h a h.top b x (link (ln_create h x) a h.top b)
  unfolding link ln_create
  link-Inserted h a b x s =
      let apart_a = s.old_a in
      let apart_b = s.old_b in
      record {
        next_a = ground arith;
        next_n = ground arith;
        next_else = λ p u v. ground arith;
        prev_n = ground arith;
        prev_b = ground arith;
        prev_else = λ p u v. ground arith;
        content_n = ground arith;
        content_else = λ p u. ground arith;
        live_n = ground arith;
        live_else = λ p u. ground arith;
        new = refl;
        top = refl;
        same_freed = refl;
      }

  pub take_out-Bypassed :
      (h : Heap A) (l : LinkedList) (a n b : Ptr) → Bypassed h a n b (bypass (take_out h l n) a b)
  unfolding bypass ln_free
  take_out-Bypassed h l a n b = record {
    next_a = ground arith;
    next_else = λ p u. ground arith;
    prev_b = ground arith;
    prev_else = λ p u. ground arith;
    content_else = λ p u. ground arith;
    live_else = λ p u. ground arith;
    top = refl;
  }

  pub ln_free-Bypassed :
      (h : Heap A) (l : LinkedList) (a n b : Ptr)
      → Bypassed h a n b (ln_free (bypass h a b) l.owns n)
  unfolding bypass ln_free
  ln_free-Bypassed h l a n b = record {
    next_a = ground arith;
    next_else = λ p u. ground arith;
    prev_b = ground arith;
    prev_else = λ p u. ground arith;
    content_else = λ p u. refl;
    live_else = λ p u. ground arith;
    top = refl;
  }

  -- A node of the list, with its neighbours.
  pub record Within (h : Heap A) (a n b : Ptr) : Type ℓ where
    pub before : Around h a n
    pub after : Around h n b
    pub is_node : is_datanode h (some n) ≡ true

  pub linked-Within :
      (h : Heap A) (l : LinkedList) (pre post : List Ptr) (n : Ptr)
      → IsLinked h l (pre ++ n ∷ post)
      → Within h (last_of l.head pre) n (next_in post l.tail)
  linked-Within h l pre post n k =
      let before = linked-Around h l pre (n ∷ post) k in
      let moved = subst (λ ns. IsLinked h l ns) (sym (append_assoc pre (n ∷ []) post)) k in
      let after =
        subst (λ a. Around h a (next_in post l.tail)) (last_of-snoc l.head n pre)
          (linked-Around h l (pre ++ n ∷ []) post moved) in
      record { before = before; after = after; is_node = rw (after.next_a, before.prev_b) refl }

  pub tail_sentinel :
      (h : Heap A) (l : LinkedList) (ns : List Ptr)
      → IsLinked h l ns
      → is_datanode h (some l.tail) ≡ false
  tail_sentinel h l ns k = rw k.ends refl

  pub head_sentinel :
      (h : Heap A) (l : LinkedList) (ns : List Ptr)
      → IsLinked h l ns
      → is_datanode h (some l.head) ≡ false
  head_sentinel h l ns k = elim (Option-cases (h.next l.head)) [
    | inl alone ↦ rw alone refl
    | inr (q, there) ↦ rw (there, k.starts) refl
  ]
