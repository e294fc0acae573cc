-- ===== src/Tests/Sets.antt =====
-- lib/set.c with numbers of which the remainder modulo 100 counts.
use Prim.Native.Nat.{ℕ, ◌+◌}
use obelix.Prelude.{◌≡◌, refl, true, false, not, ◌&&◌, ◌||◌, arith, ◌==◌}
use obelix.KeyType.{KeyType}
use obelix.Tests.Dicts.{residue}
use obelix.Set.{Set, create, add, has, remove, remover, union, intersect, minus, copy_of}
use obelix.Set.Members.{IsProper, elements, listed, create-IsProper, add_lem, remover_lem}
use obelix.Set.Algebra.{union_lem, intersect_lem, minus_lem, copy_of_lem}
use obelix.Dict.Puts.{is_some}

-- The comparison of a set without a type.
abbrev plain : KeyType ℕ
plain = record {
  same = λ a b. a == b;
  hash = λ a. a;
  same_refl = ground arith;
  same_symm = ground arith;
  same_trans = ground arith;
  hash-same = ground arith;
}

plain-residue : (a b : ℕ) → plain.same a b ≡ true → residue.same a b ≡ true
plain-residue a b h = let e : a ≡ b = ground arith in rw e (ground arith)

-- A copy that counts as the same.
abbrev moved : ℕ → ℕ
moved n = n + 100

abbrev low : Set ℕ
low = add create 3

abbrev both : Set ℕ
both = add low 7

low_ok : IsProper low
low_ok = (add_lem create 3 create-IsProper.0).0

both_ok : IsProper both
both_ok = (add_lem low 7 low_ok).0

intersect_run :
    (has (intersect plain both low) 103 ≡ true) × (has (intersect plain both low) 7 ≡ false)
unfolding create add has intersect
intersect_run = (refl, refl)

remover_lem_example :
    IsProper (remover 3 both)
    × ((q : ℕ) → has (remover 3 both) q ≡ (has both q && not (residue.same 3 q)))
    × (is_some (remove both 3) ≡ has both 3)
remover_lem_example = remover_lem both 3 both_ok

union_lem_example :
    IsProper (union moved low both)
    × ((q : ℕ) → has (union moved low both) q ≡ (has both q || has low q))
union_lem_example = union_lem moved low both (ground arith) low_ok both_ok

intersect_lem_example :
    IsProper (intersect plain both low)
    × ((q : ℕ) → has (intersect plain both low) q ≡ (has both q && has low q))
intersect_lem_example = intersect_lem plain plain-residue both low both_ok low_ok

minus_lem_example :
    IsProper (minus plain moved both low)
    × ((q : ℕ) → has (minus plain moved both low) q ≡ (has both q && not (has low q)))
minus_lem_example = minus_lem plain plain-residue moved both low (ground arith) both_ok low_ok

copy_of_lem_example :
    IsProper ⦃t = plain⦄ (copy_of plain both)
    × ((q : ℕ) → has ⦃t = plain⦄ (copy_of plain both) q ≡ listed ⦃t = plain⦄ q (elements both))
copy_of_lem_example = copy_of_lem ⦃t = plain⦄ both
