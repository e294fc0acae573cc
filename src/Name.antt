-- ===== src/Name.antt =====
-- The dotted names of lib/name.c, on top of the array. The string that `name_tostring` keeps and its
-- separator are left out.
pub mod Parts
use obelix.Prelude.{
  ℕ, zero, suc, ◌-◌, Bool, true, false, Option, none, some, ltb, leb, ◌==◌, if◌then◌else◌,
}
use obelix.Prelude.Int.{ℤ, pos, negsuc, ◌-ℤ◌}
use obelix.Array
use obelix.Array.{Array}
use obelix.Array.Slice.{slice}

-- `name_t`
pub record Name {ℓ} (A : Type ℓ) : Type ℓ where
  pub name : Array A

module _ {ℓ} {A : Type ℓ} where
  unfoldable pub str_array_create : ℤ → Array A
  unfolding Array.create Array.set_free
  str_array_create n = Array.set_free (Array.create n) true

  abbrev pub size : Name A → ℕ
  size n = n.name.size

  unfoldable pub create : Name A
  unfolding str_array_create
  create = record { name = str_array_create (pos 0) }

  unfoldable pub extend : Name A → Option A → Name A
  unfolding Array.push
  extend n component = record { name = Array.push n.name component }

  -- The loop of `name_append_array` from the index `ix` on, by the rounds left.
  unfoldable pub append_from : ℕ → ℕ → Name A → Array A → Name A
  unfolding extend Array.get
  append_from zero ix n additions = n
  append_from (suc rounds) ix n additions =
      append_from rounds (suc ix) (extend n (Array.get additions (pos ix)).1) additions

  unfoldable pub append_array : Name A → Array A → Name A
  unfolding append_from
  append_array n additions = append_from additions.size 0 n additions

  unfoldable pub append : Name A → Name A → Name A
  unfolding append_array
  append n additions = append_array n additions.name

  unfoldable pub deepcopy : Name A → Name A
  unfolding append str_array_create
  deepcopy src =
      if size src == 0
      then record { name = str_array_create (pos 0) }
      else append (record { name = str_array_create (pos (size src)) }) src

  unfoldable pub first : Name A → Option A
  unfolding Array.get
  first n = if ltb 0 (size n) then (Array.get n.name (pos 0)).1 else none

  unfoldable pub last : Name A → Option A
  unfolding Array.get
  last n = if ltb 0 (size n) then (Array.get n.name (negsuc 0)).1 else none

  unfoldable pub tail : Name A → Name A
  unfolding append_array slice str_array_create ◌-ℤ◌
  tail n =
      append_array (record { name = str_array_create (pos (size n) -ℤ pos 1) })
        (slice n.name (pos 1) (negsuc 0))

  unfoldable pub head : Name A → Name A
  unfolding append_array slice str_array_create ◌-ℤ◌
  head n =
      append_array (record { name = str_array_create (pos (size n) -ℤ pos 1) })
        (slice n.name (pos 0) (negsuc 1))
