-- ===== src/DataStack.antt =====
-- The evaluation stack of lib/datastack.c, on top of the array. A bookmark and a counter are the
-- numbers that their structs hold. `released` records the calls of `data_free`, the latest first.
pub mod Access
pub mod Rollup
pub mod Frames
pub mod Counters
use obelix.Prelude.{
  ℕ, zero, suc, ◌-◌, Bool, true, false, Option, none, some, List, [], ◌==◌, leb, if◌then◌else◌,
  set as set_slot,
}
use obelix.Prelude.Int.{ℤ, pos, negsuc}
use obelix.Array
use obelix.Array.{Array, Errno, slot, free_slot}
use obelix.Array.Bulk.{clear_all}

-- `datastack_t`, without its name and the debug flag; `none` is a NULL array.
pub record DataStack {ℓ} (A : Type ℓ) : Type ℓ where
  pub list : Array A
  pub bookmarks : Option (Array ℕ)
  pub counters : Option (Array ℕ)
  pub released : List A

-- What `datastack_rollup` answers: NULL, a failed assertion, or an array.
pub data Rolled {ℓ} (A : Type ℓ) : Type ℓ where
  null aborted : Rolled A
  rolled : Array A → Rolled A

module _ {ℓ} {A : Type ℓ} where
  -- `data_array_create`: the array frees its elements.
  unfoldable pub data_array_create : ℤ → Array A
  unfolding Array.create Array.set_free
  data_array_create n = Array.set_free (Array.create n) true

  -- An array of bookmarks or counters is made when the first one is needed.
  unfoldable pub made : Option (Array A) → Array A
  unfolding data_array_create
  made none = data_array_create (pos 4)
  made (some a) = a

-- The number that the last bookmark or counter holds.
abbrev pub number : Option ℕ → ℕ
number none = 0
number (some n) = n

-- The increment of the struct that the last slot of the array points to.
unfoldable pub bump_last : Array ℕ → Array ℕ
unfolding Array.get
bump_last a = record a {
  contents = set_slot a.contents (a.size - 1) (some (suc (number (Array.get a (negsuc 0)).1)));
}

module _ {ℓ} {A : Type ℓ} where
  unfoldable pub create : DataStack A
  unfolding data_array_create
  create = record {
    list = data_array_create (pos 4);
    bookmarks = none;
    counters = none;
    released = [];
  }

  abbrev pub depth : DataStack A → ℕ
  depth s = s.list.size

  unfoldable pub pop : DataStack A → Option A × DataStack A
  unfolding Array.pop
  pop s = ((Array.pop s.list).0, record s { list = (Array.pop s.list).1 })

  unfoldable pub peek_deep : DataStack A → ℕ → Option A
  unfolding Array.get
  peek_deep s n = (Array.get s.list (negsuc n)).1

  unfoldable pub peek : DataStack A → Option A
  unfolding peek_deep
  peek s = peek_deep s 0

  unfoldable pub push : DataStack A → Option A → DataStack A
  unfolding Array.push
  push s x = record s { list = Array.push s.list x }

  -- The loop from the index below `n` down to 0.
  unfoldable pub find_below : ℕ → DataStack A → (Option A → Bool) → Option A
  unfolding Array.get
  find_below zero s matches = none
  find_below (suc ix) s matches =
      let x = (Array.get s.list (pos ix)).1 in
      let rest = find_below ix s matches in if matches x then x else rest

  unfoldable pub find : DataStack A → (Option A → Bool) → Option A
  unfolding find_below
  find s matches = find_below s.list.size s matches

  unfoldable pub clear : DataStack A → DataStack A
  unfolding clear_all
  clear s = record s { list = clear_all s.list }

  unfoldable pub bookmark : DataStack A → DataStack A
  unfolding made Array.push
  bookmark s = record s { bookmarks = some (Array.push (made s.bookmarks) (some (depth s))) }

  -- `data_free`
  abbrev pub release : DataStack A → Option A → DataStack A
  release s x = record s { released = free_slot true x s.released }

  -- The loop of `datastack_rollup`, `ix` running from `n - 1` down to 0.
  unfoldable pub unload : (Option A → Option A) → ℕ → DataStack A → Array A → Array A × DataStack A
  unfolding pop Array.set
  unload deserialize zero s ret = (ret, s)
  unload deserialize (suc ix) s ret =
      unload deserialize ix (release (pop s).1 (pop s).0)
        (Array.set ret (pos ix) (deserialize (pop s).0))

  unfoldable pub roll_to : (Option A → Option A) → ℕ → DataStack A → Rolled A × DataStack A
  unfolding unload data_array_create
  roll_to deserialize mark s =
      let num = depth s - mark in
      let r = unload deserialize num s (data_array_create (pos num)) in
      if leb mark (depth s) then (rolled r.0, r.1) else (aborted, s)

  -- `deserialize` is the dispatch of `data_deserialize` to the type of what it is given.
  unfoldable pub rollup : (Option A → Option A) → DataStack A → Rolled A × DataStack A
  unfolding roll_to Array.pop
  rollup deserialize s = elim s.bookmarks [
    | none ↦ (null, s)
    | some marks ↦
        if marks.size == 0
        then (null, s)
        else roll_to deserialize (number (Array.pop marks).0)
            (record s { bookmarks = some (Array.pop marks).1 })
  ]

  unfoldable pub new_counter : DataStack A → DataStack A
  unfolding made Array.push
  new_counter s = record s { counters = some (Array.push (made s.counters) (some 0)) }

  -- `none` for NULL
  unfoldable pub increment : DataStack A → Option (DataStack A)
  unfolding bump_last
  increment s = elim s.counters [
    | none ↦ none
    | some a ↦ if a.size == 0 then none else some (record s { counters = some (bump_last a) })
  ]

  unfoldable pub count : DataStack A → ℤ × DataStack A
  unfolding Array.pop
  count s = elim s.counters [
    | none ↦ (negsuc 0, s)
    | some a ↦
        if a.size == 0
        then (negsuc 0, s)
        else (pos (number (Array.pop a).0), record s { counters = some (Array.pop a).1 })
  ]

  unfoldable pub current_count : DataStack A → ℤ
  unfolding Array.get
  current_count s = elim s.counters [
    | none ↦ negsuc 0
    | some a ↦ if a.size == 0 then negsuc 0 else pos (number (Array.get a (negsuc 0)).1)
  ]
