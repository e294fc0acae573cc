-- ===== src/LinkedList.antt =====
-- The doubly linked list of lib/list.c, with its nodes in a heap. A `none` around a result is a
-- crash: NULL, or a node that was freed, was followed. The lists are others than `EmptyList`. A
-- node's pointer to its list is left out: a check of the iterator compares it, and `_ln_free` reads
-- the free function of the content through it. Every node here is made for the list that it stands
-- in and stays in it, so that `ln_free` is given the flag `owns` of the list in hand.
pub mod Chains
pub mod Updates
pub mod Paths
pub mod Linked
pub mod Inserts
pub mod Bypasses
pub mod Places
pub mod Ends
pub mod Taking
pub mod Iterator
pub mod Walks
pub mod Clears
pub mod Reads
pub mod Processor
use obelix.Prelude.{
  ℕ, zero, suc, ◌-◌, Bool, true, false, ◌&&◌, Option, none, some, List, [], ◌∷◌, ltb, ◌==◌,
  if◌then◌else◌, ◌>>=◌,
}
use obelix.Prelude.Int.{ℤ, pos, negsuc}

abbrev pub Ptr : Type 0
Ptr = ℕ

-- The fields of `listnode_t` at every address, `live` where a node is allocated. Addresses from
-- `top` on were never used; `freed` records the calls of the free functions, the latest first.
pub record Heap {ℓ} (A : Type ℓ) : Type ℓ where
  pub next : Ptr → Option Ptr
  pub prev : Ptr → Option Ptr
  pub content : Ptr → Option A
  pub live : Ptr → Bool
  pub top : Ptr
  pub freed : List A

-- `list_t`: the addresses of its two sentinels, its size, and where its iterator stands.
pub record LinkedList : Type 0 where
  pub head : Ptr
  pub tail : Ptr
  pub size : ℕ
  pub current : Ptr
  pub owns : Bool

abbrev pub upd {ℓ} : {B : Type ℓ} → (Ptr → B) → Ptr → B → Ptr → B
upd f p v q = if q == p then v else f q

abbrev pub is_there {ℓ} : {B : Type ℓ} → Option B → Bool
is_there none = false
is_there (some b) = true

module _ {ℓ} {A : Type ℓ} where
  -- A pointer that is about to be followed.
  abbrev pub deref : Heap A → Option Ptr → Option Ptr
  deref h none = none
  deref h (some p) = if h.live p then some p else none

  -- `_ln_datanode`: a node that is not a sentinel.
  abbrev pub is_datanode : Heap A → Option Ptr → Bool
  is_datanode h none = false
  is_datanode h (some p) = is_there (h.next p) && is_there (h.prev p)

  -- `_ln_create`; memory does not run out.
  unfoldable pub ln_create : Heap A → Option A → Heap A
  ln_create h x = record h {
    next = upd h.next h.top none;
    prev = upd h.prev h.top none;
    content = upd h.content h.top x;
    live = upd h.live h.top true;
    top = suc h.top;
  }

  abbrev pub log_content : Bool → Option A → List A → List A
  log_content true (some x) log = x ∷ log
  log_content true none log = log
  log_content false o log = log

  -- `_ln_free`
  unfoldable pub ln_free : Heap A → Bool → Ptr → Heap A
  ln_free h owns p = record h {
    live = upd h.live p false;
    freed = log_content owns (h.content p) h.freed;
  }

  -- The four assignments that put `n` between `a` and `b`.
  unfoldable pub link : Heap A → Ptr → Ptr → Ptr → Heap A
  link h a n b = record h {
    next = upd (upd h.next n (some b)) a (some n);
    prev = upd (upd h.prev n (some a)) b (some n);
  }

  -- The two assignments that make `a` and `b` neighbours.
  unfoldable pub bypass : Heap A → Ptr → Ptr → Heap A
  bypass h a b = record h { next = upd h.next a (some b); prev = upd h.prev b (some a) }

  unfoldable pub create : Heap A → Bool → Heap A × LinkedList
  unfolding ln_create
  create h owns =
      let head = h.top in
      let h₁ = ln_create h none in
      let tail = h₁.top in
      let h₂ = ln_create h₁ none in
      (
        record h₂ { next = upd h₂.next head (some tail); prev = upd h₂.prev tail (some head) },
        record { head = head; tail = tail; size = 0; current = head; owns = owns },
      )

  unfoldable pub append : Heap A → LinkedList → Option A → Option (Heap A × LinkedList)
  unfolding ln_create link
  append h l x =
      let h₁ = ln_create h x in
      do
        before ← deref h₁ (h₁.prev l.tail)
        some (link h₁ before h.top l.tail, record l { size = suc l.size })

  unfoldable pub unshift : Heap A → LinkedList → Option A → Option (Heap A × LinkedList)
  unfolding ln_create link
  unshift h l x =
      let h₁ = ln_create h x in
      do
        after ← deref h₁ (h₁.next l.head)
        some (link h₁ l.head h.top after, record l { size = suc l.size })

  -- The pointer, if it is to a node that is not a sentinel.
  abbrev pub datanode : Heap A → Option Ptr → Option Ptr
  datanode h p = if is_datanode h p then p else none

  unfoldable pub list_head_pointer : Heap A → LinkedList → Option Ptr
  list_head_pointer h l = datanode h (h.next l.head)

  unfoldable pub list_tail_pointer : Heap A → LinkedList → Option Ptr
  list_tail_pointer h l = datanode h (h.prev l.tail)

  -- What a node holds, NULL for none.
  abbrev pub content_of : Heap A → Option Ptr → Option A
  content_of h none = none
  content_of h (some p) = h.content p

  unfoldable pub list_head : Heap A → LinkedList → Option A
  list_head h l = content_of h (datanode h (h.next l.head))

  unfoldable pub list_tail : Heap A → LinkedList → Option A
  list_tail h l = content_of h (datanode h (h.prev l.tail))

  -- The node's content is set to NULL first, so that it is not freed.
  abbrev pub take_out : Heap A → LinkedList → Ptr → Heap A
  take_out h l node = ln_free (record h { content = upd h.content node none }) l.owns node

  unfoldable pub shift_node :
      Heap A → LinkedList → Option Ptr → Option (Option A × Heap A × LinkedList)
  unfolding ln_free bypass
  shift_node h l none = some (none, h, l)
  shift_node h l (some node) = deref h (h.next node) >>= λ after.
      some (h.content node, bypass (take_out h l node) l.head after, record l { size = l.size - 1 })

  unfoldable pub shift : Heap A → LinkedList → Option (Option A × Heap A × LinkedList)
  unfolding shift_node
  shift h l = shift_node h l (datanode h (h.next l.head))

  unfoldable pub pop_node :
      Heap A → LinkedList → Option Ptr → Option (Option A × Heap A × LinkedList)
  unfolding ln_free bypass
  pop_node h l none = some (none, h, l)
  pop_node h l (some node) = deref h (h.prev node) >>= λ before.
      some
        (h.content node, bypass (take_out h l node) before l.tail, record l { size = l.size - 1 })

  unfoldable pub pop : Heap A → LinkedList → Option (Option A × Heap A × LinkedList)
  unfolding pop_node
  pop h l = pop_node h l (datanode h (h.prev l.tail))

  -- The loop of `list_get`, `n` steps along the list.
  unfoldable pub steps : ℕ → Heap A → Option Ptr → Option (Option Ptr)
  steps zero h p = some p
  steps (suc n) h p = deref h p >>= λ q. steps n h (h.next q)

  unfoldable pub get : Heap A → LinkedList → ℤ → Option (Option A)
  unfolding steps
  get h l (negsuc n) = some none
  get h l (pos ix) =
      if ltb ix l.size
      then (steps ix h (h.next l.head) >>= λ p. some (content_of h (datanode h p)))
      else some none
