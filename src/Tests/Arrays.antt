-- ===== src/Tests/Arrays.antt =====
-- lib/array.c on small inputs.
use obelix.Prelude.{ℕ, suc, ◌-◌, ◌^◌, ◌≡◌, refl, true, none, some, [], ◌∷◌, ◌++◌, drop, arith}
use mathlib.Core.List.{reverse}
use obelix.Prelude.Int.{pos}
use obelix.Array
use obelix.Array.{
  Array, Errno, clear, efault, slot, new_capacity, double_until, double_within, resized_capacity,
}
use obelix.Array.Growth.{IsValid, IsClean, items, Grown}
use obelix.Array.Overflow.{resize-within, resized_capacity-stuck}
use obelix.Array.Contents.{Wrote}
use obelix.Array.Access.{set-Wrote, items-push, write_index}
use obelix.Array.Shift.{Removed, remove_lem, remove_full-push}
use obelix.Array.Bulk.{reduce, fold, reduce-fold, push-IsValid}
use obelix.Array.Slice.{create_lem}
use obelix.Array.Cursor
use obelix.Array.Lifo.{pop-push}

abbrev vacant : Array ℕ
vacant = Array.create (pos 2)

abbrev vacant_ok : IsValid vacant × IsClean vacant
vacant_ok = ((create_lem (pos 2)).0, (create_lem (pos 2)).1)

-- Three elements, one of them NULL, in room for four.
abbrev pub three : Array ℕ
three = Array.push (Array.push (Array.push vacant (some 5)) none) (some 7)

abbrev one_ok : IsValid (Array.push vacant (some 5)) × IsClean (Array.push vacant (some 5))
one_ok = push-IsValid vacant (some 5) vacant_ok.0 vacant_ok.1

abbrev two_ok :
    IsValid (Array.push (Array.push vacant (some 5)) none)
    × IsClean (Array.push (Array.push vacant (some 5)) none)
two_ok = push-IsValid (Array.push vacant (some 5)) none one_ok.0 one_ok.1

abbrev pub three_ok : IsValid three × IsClean three
three_ok = push-IsValid (Array.push (Array.push vacant (some 5)) none) (some 7) two_ok.0 two_ok.1

three_run : (items three ≡ some 5 ∷ none ∷ some 7 ∷ []) × (three.capacity ≡ 4)
unfolding Array.create Array.push
three_run = (refl, refl)

-- An array that owns its two elements and is full.
abbrev full : Array ℕ
full = record {
  contents = some 5 ∷ some 7 ∷ [];
  capacity = 2;
  size = 2;
  curix = pos 0;
  refs = 1;
  owns = true;
  freed = [];
}

abbrev full_ok : IsValid full
full_ok = record { filled = refl; fits = omega arith }

resize-within_example :
    (resized_capacity 5 full.capacity 5 ≡ some (Array.resize full (pos 5)).capacity)
    × Grown full 5 (Array.resize full (pos 5))
resize-within_example = resize-within full (pos 5) full_ok (omega arith)

resized_capacity-stuck_example : resized_capacity 100 (2 ^ 30) 1073741825 ≡ none
resized_capacity-stuck_example = resized_capacity-stuck 100 1073741825 (omega arith) (omega arith)

set-Wrote_example :
    Wrote three (write_index three (pos 5)) (some 9) (Array.set three (pos 5) (some 9))
set-Wrote_example = set-Wrote three (pos 5) (some 9) three_ok.0 three_ok.1

items-push_example :
    (items (Array.push three (some 9)) ≡ items three ++ some 9 ∷ [])
    × ((Array.push three (some 9)).size ≡ suc three.size)
    × ((Array.push three (some 9)).freed ≡ three.freed)
items-push_example = items-push three (some 9) three_ok.0 three_ok.1

remove_lem_example : Removed full 0 (Array.remove full (pos 0))
remove_lem_example = remove_lem full 0 full_ok (omega arith)

-- Removing 5 leaves the pointer to 7 in the last slot, and the next push frees it.
remove_full-push_example :
    let b = (Array.remove full (pos 0)).2 in
    (slot (items b) (b.size - 1) ≡ some 7) × ((Array.push b (some 9)).freed ≡ 7 ∷ [])
remove_full-push_example = remove_full-push full 0 (some 9) 7 full_ok refl refl (omega arith) refl

reduce-fold_example : reduce full (λ o n. suc n) 0 ≡ fold (items full) (λ o n. suc n) 0
reduce-fold_example = reduce-fold full (λ o n. suc n) 0 full_ok

walk_prev-end_example :
    Cursor.walk_prev (suc full.size) (Cursor.end full) ≡ reverse (drop 1 (items full))
walk_prev-end_example = Cursor.walk_prev-end full full_ok (omega arith)

pop-push_example :
    ((Array.pop (Array.push three (some 9))).0 ≡ some 9)
    × (items (Array.pop (Array.push three (some 9))).1 ≡ items three)
    × IsValid (Array.pop (Array.push three (some 9))).1
    × IsClean (Array.pop (Array.push three (some 9))).1
    × ((Array.pop (Array.push three (some 9))).1.size ≡ three.size)
    × ((Array.pop (Array.push three (some 9))).1.freed ≡ three.freed)
pop-push_example = pop-push three (some 9) three_ok.0 three_ok.1
