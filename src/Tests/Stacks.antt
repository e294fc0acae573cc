-- ===== src/Tests/Stacks.antt =====
-- lib/datastack.c with numbers for the data.
use obelix.Prelude.{ℕ, suc, ◌≡◌, refl, Bool, false, Option, none, some, [], ◌∷◌, ◌==◌}
use obelix.Prelude.Int.{pos}
use obelix.Array.{Array}
use obelix.Array.Growth.{items}
use obelix.DataStack
use obelix.DataStack.{DataStack, rolled, made}
use obelix.DataStack.Rollup.{IsSteady, push-IsSteady, fresh_lem}
use obelix.DataStack.Frames.{IsOrderly, none-IsOrderly, push_all, Framed, rollup-push_all-bookmark}

abbrev empty : DataStack ℕ
empty = DataStack.create

empty_ok : IsSteady empty
unfolding DataStack.create
empty_ok = let (v, c, _) = fresh_lem {A = ℕ} (pos 4) in record { valid = v; clean = c }

empty_unmarked : IsOrderly empty.bookmarks
unfolding DataStack.create
empty_unmarked = none-IsOrderly

empty_uncounted : IsOrderly empty.counters
unfolding DataStack.create
empty_uncounted = none-IsOrderly

abbrev five : DataStack ℕ
five = DataStack.push empty (some 5)

five_ok : IsSteady five
five_ok = push-IsSteady empty (some 5) empty_ok

-- A data type whose deserialization adds one.
abbrev added : Option ℕ → Option ℕ
added none = none
added (some n) = some (suc n)

abbrev is_five : Option ℕ → Bool
is_five none = false
is_five (some n) = n == 5

rollup_run :
    items (DataStack.rollup added (push_all (some 7 ∷ none ∷ []) (DataStack.bookmark five))).1.list
    ≡ some 5 ∷ []
unfolding DataStack.create DataStack.push DataStack.bookmark DataStack.rollup
rollup_run = refl

five_unmarked : IsOrderly five.bookmarks
unfolding DataStack.create DataStack.push
five_unmarked = none-IsOrderly

rollup-push_all-bookmark_example :
    (ret : Array ℕ) × (r : DataStack ℕ) × (DataStack.rollup added
        (push_all (some 7 ∷ none ∷ []) (DataStack.bookmark five))
      ≡ (rolled ret, r))
    × Framed added five (some 7 ∷ none ∷ []) ret r
rollup-push_all-bookmark_example =
    rollup-push_all-bookmark added five (some 7 ∷ none ∷ []) five_ok five_unmarked
