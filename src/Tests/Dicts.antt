-- ===== src/Tests/Dicts.antt =====
-- lib/dict.c with numbers for keys, hashed by themselves.
use Prim.Native.Nat.{ℕ, ◌%◌}
use obelix.Prelude.{◌<◌, ◌≡◌, refl, none, some, length, arith, ◌==◌}
use obelix.KeyType.{KeyType}
use obelix.Dict
use obelix.Dict.{Dict, Entry, wider, num_buckets}
use obelix.Dict.Chains.{lookup}
use obelix.Dict.Placement.{all_entries, view, Holds}
use obelix.Dict.Valid.{IsValid, rehash-Holds, create-IsValid}
use obelix.Dict.Puts.{Puts, put-Puts, get-put}
use obelix.Dict.Iterator
use obelix.Dict.Iterator.{collect-all_entries}
use obelix.Dict.Removal.{Removes, remove-present}
use obelix.Dict.Pop.{Pops, pop-present}

-- Keys of which only the remainder modulo 100 counts.
instance abbrev pub residue : KeyType ℕ
residue = record {
  same = λ a b. a % 100 == b % 100;
  hash = λ a. a % 100;
  same_refl = ground arith;
  same_symm = ground arith;
  same_trans = ground arith;
  hash-same = ground arith;
}

abbrev bare : Dict ℕ ℕ
bare = Dict.create

abbrev one : Dict ℕ ℕ
one = Dict.put bare 3 (some 30)

one_put : Puts bare 3 (some 30) one
one_put = put-Puts bare 3 (some 30) create-IsValid.0

abbrev two : Dict ℕ ℕ
two = Dict.put one 7 (some 70)

put-Puts_example : Puts one 7 (some 70) two
put-Puts_example = put-Puts one 7 (some 70) one_put.valid

abbrev two_ok : IsValid two
two_ok = (put-Puts one 7 (some 70) one_put.valid).valid

two_runs :
    (two.size ≡ 2)
    × (length two.buckets ≡ 4)
    × (Dict.get two 107 ≡ some (some 70))
    × (Dict.get two 4 ≡ some none)
unfolding Dict.create Dict.put Dict.get
two_runs = (refl, refl, refl, refl)

two-view : view two.buckets 7 ≡ some (some 70)
unfolding Dict.create Dict.put lookup
two-view = refl

two-view_absent : view two.buckets 4 ≡ none
unfolding Dict.create Dict.put lookup
two-view_absent = refl

rehash-Holds_example :
    Holds
      (wider (length two.buckets))
      (length (all_entries two.buckets))
      (view two.buckets)
      (Dict.rehash two).buckets
rehash-Holds_example = rehash-Holds two two_ok.placed

get-put_example :
    (Dict.get (Dict.put bare 3 (some 30)) 3 ≡ some (some 30)) × ¬ (Dict.get bare 3 ≡ none)
get-put_example = get-put bare 3 (some 30) 3 create-IsValid.0

remove-present_example :
    (e : Entry ℕ ℕ) × (r : Dict ℕ ℕ) × (Dict.remove two 7 ≡ some r)
    × (Dict.find_in_bucket two 7 ≡ some e)
    × (e.value ≡ some 70)
    × Removes two 7 e r
remove-present_example = remove-present two 7 (some 70) two_ok two-view

pop-present_example : ((Dict.pop two 7).0 ≡ some 70) × Pops two 7 (Dict.pop two 7).1
pop-present_example = pop-present two 7 (some 70) two_ok two-view

two_short : length (all_entries two.buckets) < 9
unfolding Dict.create Dict.put all_entries
two_short = omega arith

collect-all_entries_example : Iterator.collect 9 (Iterator.head two) ≡ all_entries two.buckets
collect-all_entries_example = collect-all_entries two 9 two_short
