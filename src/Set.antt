-- ===== src/Set.antt =====
-- The set of lib/set.c: a dictionary whose keys are the elements and whose values are all NULL.
-- `copy` is the copy function of the elements' type, the identity where it has none.
pub mod Members
pub mod Sifting
pub mod Algebra
pub mod Relations
use obelix.Prelude.{
  ℕ, Bool, true, false, not, ◌&&◌, Option, none, some, List, [], ◌∷◌, ◌==◌, if◌then◌else◌,
}
use obelix.Prelude.Int.{ℤ, pos, ◌-ℤ◌}
use obelix.KeyType.{KeyType}
use obelix.Dict
use obelix.Dict.{Dict}
use obelix.Dict.Walk

-- `set_t`; the values are NULL, so that their type does not matter.
pub record Set {ℓ} (K : Type ℓ) : Type ℓ where
  pub dict : Dict K K

module _ {ℓ} {K : Type ℓ} where
  unfoldable pub create : Set K
  unfolding Dict.create
  create = record { dict = Dict.create }

  -- A clone is empty, and its type is what `set_create` gave it, not that of the original.
  unfoldable pub clone : Set K → Set K
  unfolding create
  clone src = create

  abbrev pub size : Set K → ℕ
  size s = s.dict.size

  unfoldable pub clear : Set K → Set K
  unfolding Walk.clear
  clear s = record { dict = Walk.clear s.dict }

  unfoldable pub reduce {κ} : {S : Type κ} → Set K → (K → S → S) → S → S
  unfolding Walk.reduce
  reduce s reducer start = Walk.reduce s.dict (λ e acc. reducer e.key acc) start

  -- The last match, NULL without one.
  unfoldable pub find : Set K → (K → Bool) → Option K
  unfolding reduce
  find haystack matches =
      reduce haystack (λ element hit. if matches element then some element else hit) none

  abbrev pub or_self : Option (Set K) → Set K → Set K
  or_self none s = s
  or_self (some r) s = r

module _ {ℓ} {K : Type ℓ} ⦃t : KeyType K⦄ where
  unfoldable pub add : Set K → K → Set K
  unfolding Dict.put
  add s elem = record { dict = Dict.put s.dict elem none }

  unfoldable pub has : Set K → K → Bool
  unfolding Dict.has_key
  has s elem = Dict.has_key s.dict elem

  -- `none` for NULL: there was no such element.
  unfoldable pub remove : Set K → K → Option (Set K)
  unfolding has Dict.remove
  remove s elem =
      if has s elem
      then elim (Dict.remove s.dict elem) [ none ↦ none | some d ↦ some (record { dict = d }) ]
      else none

  -- `_set_remover`: the set, whatever `set_remove` answered.
  unfoldable pub remover : K → Set K → Set K
  unfolding remove
  remover elem s = or_self (remove s elem) s

  -- For `other` another set than `s`.
  unfoldable pub union : (K → K) → Set K → Set K → Set K
  unfolding reduce add
  union copy s other = reduce other (λ elem acc. add acc (copy elem)) s

  unfoldable pub disjoint : Set K → Set K → Bool
  unfolding reduce has
  disjoint s₁ s₂ = reduce s₁ (λ elem flag. flag && not (has s₂ elem)) true

  unfoldable pub subsetof : Set K → Set K → Bool
  unfolding reduce has
  subsetof s₁ s₂ = reduce s₁ (λ elem flag. flag && has s₂ elem) true

  unfoldable pub cmp : Set K → Set K → ℤ
  unfolding subsetof ◌-ℤ◌
  cmp s₁ s₂ =
      if size s₁ == size s₂
      then if subsetof s₁ s₂ then pos 0 else pos 1
      else pos (size s₁) -ℤ pos (size s₂)

module _ {ℓ} {K : Type ℓ} ⦃t : KeyType K⦄ where
  -- The set of what goes is a clone, which compares and hashes its elements as `identity` does.
  unfoldable pub intersect : KeyType K → Set K → Set K → Set K
  unfolding reduce add has remover clone
  intersect identity s other =
      let gone =
        reduce s (λ elem r. if not (has other elem) then add ⦃t = identity⦄ r elem else r)
          (clone s) in
      reduce gone remover s

  unfoldable pub minus : KeyType K → (K → K) → Set K → Set K → Set K
  unfolding reduce add has remover clone
  minus identity copy s other =
      let gone =
        reduce s (λ elem r. if has other elem then add ⦃t = identity⦄ r (copy elem) else r)
          (clone s) in
      reduce gone remover s

-- `set_copy`, whose clone compares as `identity` does and has no copy function.
unfoldable pub copy_of {ℓ} : {K : Type ℓ} → KeyType K → Set K → Set K
unfolding union clone
copy_of identity src = union ⦃t = identity⦄ (λ elem. elem) (clone src) src
