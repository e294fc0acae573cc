-- ===== src/LinkedList/Iterator.antt =====
-- The iterator that stands in each list of lib/list.c: between its sentinels, at a node or at one of
-- them.
use obelix.Prelude.{
  suc, ◌-◌, ◌≡◌, refl, sym, ap, ◌∙◌, Bool, true, false, Option, none, some, List, [], ◌∷◌, ◌++◌,
  if◌then◌else◌, subst, ◌>>=◌, append_assoc,
}
use obelix.LinkedList.{
  Ptr, Heap, LinkedList, log_content, ln_create, ln_free, link, bypass, deref, is_datanode,
  datanode, content_of, is_there,
}
use obelix.LinkedList.Chains.{last_of}
use obelix.LinkedList.Paths.{next_in}
use obelix.LinkedList.Linked.{IsLinked, contents}
use obelix.LinkedList.Bypasses.{bypassed-IsLinked, bypassed-contents}
use obelix.LinkedList.Places.{
  Around, deref-some, linked-Around, linked-Within, ln_free-Bypassed, tail_sentinel, last_of-snoc,
}
use obelix.LinkedList.Taking.{datanode-some, datanode-none}

-- `list_start`, `list_end`
unfoldable pub start : LinkedList → LinkedList
start l = record l { current = l.head }

unfoldable pub finish : LinkedList → LinkedList
finish l = record l { current = l.tail }

module _ {ℓ} {A : Type ℓ} where
  unfoldable pub current : Heap A → LinkedList → Option A
  current h l = content_of h (datanode h (some l.current))

  unfoldable pub has_next : Heap A → LinkedList → Option Bool
  has_next h l = deref h (some l.current) >>= λ p. some (is_datanode h (h.next p))

  unfoldable pub has_prev : Heap A → LinkedList → Option Bool
  has_prev h l = deref h (some l.current) >>= λ p. some (is_datanode h (h.prev p))

  unfoldable pub move_to : Heap A → LinkedList → Option Ptr → Option A × LinkedList
  move_to h l none = (none, l)
  move_to h l (some p) = (h.content p, record l { current = p })

  unfoldable pub next : Heap A → LinkedList → Option (Option A × LinkedList)
  unfolding move_to
  next h l = deref h (some l.current) >>= λ p. some (move_to h l (datanode h (h.next p)))

  unfoldable pub prev : Heap A → LinkedList → Option (Option A × LinkedList)
  unfolding move_to
  prev h l = deref h (some l.current) >>= λ p. some (move_to h l (datanode h (h.prev p)))

  unfoldable pub atstart : Heap A → LinkedList → Option Bool
  atstart h l = deref h (some l.current) >>= λ p. some (if is_there (h.prev p) then false else true)

  unfoldable pub atend : Heap A → LinkedList → Option Bool
  atend h l = deref h (some l.current) >>= λ p. some (if is_there (h.next p) then false else true)

  -- Nothing is inserted behind the sentinel at the end.
  unfoldable pub insert_before :
      Heap A → LinkedList → Option A → Option Ptr → Option (Bool × Heap A × LinkedList)
  unfolding ln_create link
  insert_before h l x none = some (false, h, l)
  insert_before h l x (some q) = deref (ln_create h x) (some q) >>= λ after. some (
    true,
    link (ln_create h x) l.current h.top after,
    record l { size = suc l.size; current = h.top },
  )

  unfoldable pub insert : Heap A → LinkedList → Option A → Option (Bool × Heap A × LinkedList)
  unfolding insert_before
  insert h l x = deref h (some l.current) >>= λ p. insert_before h l x (h.next p)

  -- The iterator goes on to the node behind.
  unfoldable pub remove : Heap A → LinkedList → Option (Heap A × LinkedList)
  unfolding bypass ln_free
  remove h l =
      if is_datanode h (some l.current)
      then (deref h (h.prev l.current) >>= λ before. deref h (h.next l.current) >>= λ after. some (
        ln_free (bypass h before after) l.owns l.current,
        record l { size = l.size - 1; current = after },
      ))
      else some (h, l)

  -- Where the iterator stands is nothing to the nodes.
  pub moved :
      {h : Heap A}
      → {ns : List Ptr} → (l : LinkedList) (c : Ptr) → IsLinked h l ns
      → IsLinked h (record l { current = c }) ns
  moved l c k = record {
    forward = k.forward;
    backward = k.backward;
    starts = k.starts;
    ends = k.ends;
    distinct = k.distinct;
    alive = k.alive;
    used = k.used;
    sized = k.sized;
  }

  -- The iterator stands behind the nodes `pre` and before `post`.
  pub record IsAt (h : Heap A) (l : LinkedList) (pre post : List Ptr) : Type ℓ where
    pub linked : IsLinked h l (pre ++ post)
    pub stands : l.current ≡ last_of l.head pre

  module _ (h : Heap A) (l : LinkedList) (pre post : List Ptr) (k : IsAt h l pre post) where
    pub around : Around h l.current (next_in post l.tail)
    around =
        subst (λ a. Around h a (next_in post l.tail)) (sym k.stands)
          (linked-Around h l pre post k.linked)

    pub deref-current : deref h (some l.current) ≡ some l.current
    deref-current = deref-some h (some l.current) l.current refl around.live_a

  -- `li_remove` takes out the node the iterator stands at, calls the free function for what it held,
  -- and puts the iterator at the next node, or at the sentinel at the end.
  pub remove-IsLinked :
      (h : Heap A) (l : LinkedList) (pre post : List Ptr) (n : Ptr)
      → IsLinked h l (pre ++ n ∷ post)
      → l.current ≡ n
      → (h' : Heap A) × (l' : LinkedList) × (remove h l ≡ some (h', l'))
        × IsLinked h' l' (pre ++ post)
        × (contents h' (pre ++ post) ≡ contents h pre ++ contents h post)
        × (l'.current ≡ next_in post l.tail)
        × (h'.freed ≡ log_content l.owns (h.content n) h.freed)
  unfolding remove
  remove-IsLinked h l pre post n k here =
      let s = linked-Within h l pre post n k in
      let a = last_of l.head pre in
      let b = next_in post l.tail in
      let h' = ln_free (bypass h a b) l.owns n in
      let i = ln_free-Bypassed h l a n b in
      let l' = record l { size = l.size - 1; current = b } in
      (
        h',
        l',
        ap
              (λ c.
                if is_datanode h (some c)
                then (deref h (h.prev c) >>= λ before. deref h (h.next c) >>= λ after. some (
                  ln_free (bypass h before after) l.owns c,
                  record l { size = l.size - 1; current = after },
                ))
                else some (h, l))
              here
            ∙ rw s.is_node refl
            ∙ ap
                (λ o. o >>= λ before. deref h (h.next n) >>= λ after. some (
                  ln_free (bypass h before after) l.owns n,
                  record l { size = l.size - 1; current = after },
                ))
                (deref-some h (h.prev n) a s.before.prev_b s.before.live_a)
            ∙ ap
                (λ o. o >>= λ after. some (
                  ln_free (bypass h a after) l.owns n,
                  record l { size = l.size - 1; current = after },
                ))
                (deref-some h (h.next n) b s.after.next_a s.after.live_b),
        moved (record l { size = l.size - 1 }) b (bypassed-IsLinked h h' l pre post n k i),
        bypassed-contents h h' l pre post n k i,
        refl,
        (unfold bypass ln_free in refl),
      )

  -- `li_next` goes one node on and answers its element; behind the last node it stays and answers
  -- NULL.
  pub next-IsAt :
      (h : Heap A) (l : LinkedList) (pre post : List Ptr) (q : Ptr)
      → IsAt h l pre (q ∷ post)
      → (next h l ≡ some (h.content q, record l { current = q }))
        × IsAt h (record l { current = q }) (pre ++ q ∷ []) post
  unfolding next
  next-IsAt h l pre post q k =
      let s = around h l pre (q ∷ post) k in
      let w = linked-Within h l pre post q k.linked in
      (
        ap (λ o. o >>= λ p. some (move_to h l (datanode h (h.next p))))
              (deref-current h l pre (q ∷ post) k)
            ∙ ap (λ o. some (move_to h l o))
                (datanode-some h (h.next l.current) q s.next_a w.is_node)
            ∙ (unfold move_to in refl),
        record {
          linked =
              moved l q
                (subst (λ ns. IsLinked h l ns) (sym (append_assoc pre (q ∷ []) post)) k.linked);
          stands = sym (last_of-snoc l.head q pre);
        },
      )

  pub next-IsAt_end :
      (h : Heap A) (l : LinkedList) (pre : List Ptr) → IsAt h l pre [] → next h l ≡ some (none, l)
  unfolding next
  next-IsAt_end h l pre k =
      let s = around h l pre [] k in
      ap (λ o. o >>= λ p. some (move_to h l (datanode h (h.next p)))) (deref-current h l pre [] k)
      ∙ ap (λ o. some (move_to h l o))
          (datanode-none h (h.next l.current) l.tail s.next_a
            (tail_sentinel h l (pre ++ []) k.linked))
      ∙ (unfold move_to in refl)
