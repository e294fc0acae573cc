-- ===== src/Array.antt =====
-- The growable array of lib/array.c and include/array.h. A slot holds a pointer, `none` for NULL.
-- `freed` records the calls of the array's free function, the latest first.
pub mod Growth
pub mod Overflow
pub mod Contents
pub mod Access
pub mod Removal
pub mod Shift
pub mod Bulk
pub mod Slice
pub mod Cursor
pub mod Lifo
use obelix.Prelude.{
  ℕ, zero, suc, ◌+◌, ◌-◌, ◌*◌, ◌%◌, ◌^◌, Bool, true, false, ◌||◌, Option, none, some, List, [], ◌∷◌,
  ◌++◌, ltb, leb, ◌==◌, if◌then◌else◌, length, get_or, replicate, set as set_slot,
}
use obelix.Prelude.Int.{ℤ, pos, negsuc, sub_ℕ, ◌+ℤ◌, ◌-ℤ◌}

-- `array_t`, without the fields that only printing, hashing and comparing use.
pub record Array {ℓ} (A : Type ℓ) : Type ℓ where
  pub contents : List (Option A)
  pub capacity : ℕ
  pub size : ℕ
  pub curix : ℤ
  pub refs : ℕ
  pub owns : Bool
  pub freed : List A

-- What the code leaves in `errno`; `clear` where it reports no error.
pub data Errno : Type 0 where
  clear efault : Errno

-- What `array_free` leaves: an array with other owners, or the frees that emptied it.
pub data Release {ℓ} (A : Type ℓ) : Type ℓ where
  kept : Array A → Release A
  released : List A → Release A

abbrev pub default_capacity : ℕ
default_capacity = 8

-- An `int` of 32 bits is below `mincap`, which is not negative; the pattern of a negative one is
-- 2 ^ 31 or more.
abbrev pub int_below : ℕ → ℕ → Bool
int_below newcap mincap = leb (2 ^ 31) newcap || ltb newcap mincap

-- `while (newcap < mincap) newcap *= 2` on an `int`, whose doubling is taken to wrap around, though
-- the overflow is undefined in C; `none` is too little fuel.
unfoldable pub double_until : ℕ → ℕ → ℕ → Option ℕ
double_until zero newcap mincap = if int_below newcap mincap then none else some newcap
double_until (suc fuel) newcap mincap =
    let rest = double_until fuel (newcap * 2 % 2 ^ 32) mincap in
    if int_below newcap mincap then rest else some newcap

-- The capacity that `_array_resize` leaves, its loop run on `int`s.
unfoldable pub resized_capacity : ℕ → ℕ → ℕ → Option ℕ
unfolding double_until
resized_capacity fuel cap mincap =
    if leb mincap cap then some cap else double_until fuel (if cap == 0 then mincap else cap) mincap

-- The same loop where no doubling wraps around, which is so for up to 2 ^ 30 slots (Array.Overflow):
-- the rest of the model asks for no more than these.
unfoldable pub double_within : ℕ → ℕ → ℕ → ℕ
double_within zero newcap mincap = newcap
double_within (suc fuel) newcap mincap =
    let rest = double_within fuel (newcap * 2) mincap in if ltb newcap mincap then rest else newcap

unfoldable pub new_capacity : ℕ → ℕ → ℕ
unfolding double_within
new_capacity cap mincap = double_within mincap (if cap == 0 then mincap else cap) mincap

-- `mincap` after the default has been put in for what is not positive.
abbrev pub min_capacity : ℤ → ℕ
min_capacity (pos zero) = default_capacity
min_capacity (pos (suc n)) = suc n
min_capacity (negsuc n) = default_capacity

module _ {ℓ} {A : Type ℓ} where
  abbrev pub slot : List (Option A) → ℕ → Option A
  slot xs i = get_or xs i none

  -- A call of the free function on a slot that it is due on.
  abbrev pub free_slot : Bool → Option A → List A → List A
  free_slot true (some x) log = x ∷ log
  free_slot true none log = log
  free_slot false o log = log

  -- `resize_ptrarray` aborts the process where no memory is left, so this always succeeds.
  unfoldable pub grow_to : Array A → ℕ → Array A
  unfolding new_capacity
  grow_to a mincap =
      if leb mincap a.capacity
      then a
      else let newcap = new_capacity a.capacity mincap in
        record a {
          contents = a.contents ++ replicate (newcap - a.capacity) none;
          capacity = newcap;
        }

  unfoldable pub resize : Array A → ℤ → Array A
  unfolding grow_to
  resize a mincap = grow_to a (min_capacity mincap)

  unfoldable pub create : ℤ → Array A
  unfolding resize
  create capacity =
      resize
        (record {
          contents = [];
          capacity = 0;
          size = 0;
          curix = pos 0;
          refs = 1;
          owns = false;
          freed = [];
        })
        capacity

  unfoldable pub set_free : Array A → Bool → Array A
  set_free a owns = record a { owns = owns }

  unfoldable pub set_at : Array A → ℕ → Option A → Array A
  unfolding resize
  set_at a ix x =
      let r = resize a (pos (suc ix)) in
      record r {
        contents = set_slot r.contents ix x;
        size = if leb r.size ix then suc ix else r.size;
        freed = free_slot r.owns (slot r.contents ix) r.freed;
      }

  -- A negative index appends.
  unfoldable pub set : Array A → ℤ → Option A → Array A
  unfolding set_at
  set a (pos ix) x = set_at a ix x
  set a (negsuc _) x = set_at a a.size x

  unfoldable pub push : Array A → Option A → Array A
  unfolding set
  push a x = set a (negsuc 0) x

  get_at : Array A → ℤ → Errno × Option A
  get_at a (pos ix) = if ltb ix a.size then (clear, slot a.contents ix) else (efault, none)
  get_at a (negsuc _) = (efault, none)

  -- A negative index counts from the end.
  unfoldable pub get : Array A → ℤ → Errno × Option A
  unfolding get_at
  get a (pos ix) = get_at a (pos ix)
  get a (negsuc n) = get_at a (sub_ℕ a.size (suc n))

  unfoldable pub pop : Array A → Option A × Array A
  pop a =
      if a.size == 0
      then (none, a)
      else let last = a.size - 1 in
        (slot a.contents last, record a { contents = set_slot a.contents last none; size = last })

  -- The `memmove` of `array_remove`: the slots above `i` move down, the last one stays behind too.
  unfoldable pub shift_down : List (Option A) → ℕ → List (Option A)
  shift_down [] i = []
  shift_down (x ∷ xs) (suc i) = x ∷ shift_down xs i
  shift_down (x ∷ []) zero = x ∷ []
  shift_down (x ∷ y ∷ ys) zero = y ∷ shift_down (y ∷ ys) zero

  pub remove_at : Array A → ℕ → Option A × Array A
  unfolding pop shift_down
  remove_at a ix =
      if ix == a.size - 1
      then pop a
      else (slot a.contents ix, record a { contents = shift_down a.contents ix; size = a.size - 1 })

  -- The slot's pointer goes back to the caller, without a call of the free function.
  unfoldable pub remove : Array A → ℤ → Errno × Option A × Array A
  unfolding remove_at
  remove a (negsuc _) = (efault, none, a)
  remove a (pos ix) =
      if ltb ix a.size then (clear, (remove_at a ix).0, (remove_at a ix).1) else (efault, none, a)
