-- ===== src/Tests/Buffers.antt =====
-- lib/str.c on short strings.
use obelix.Prelude.{
  ℕ, ◌+◌, ◌-◌, ◌*◌, ◌/◌, ◌≡◌, ◌≤◌, ◌<◌, refl, true, Option, none, some, List, [], ◌∷◌, arith,
}
use obelix.Prelude.Int.{negsuc}
use obelix.Strutils.{String}
use obelix.Str.{Str, chars, str_copy_chars, grow, expand, append_char, lchop, slice, str_set}
use obelix.Str.Contents.{HasText}
use obelix.Str.Growth.{grow-stuck, expand-HasText}
use obelix.Str.Cuts.{lchop-HasText}
use obelix.Str.Search.{indexof_chars, indexof_chars-First, First, index, rindexof_chars}
use obelix.Str.Backwards.{rindexof_chars-LastBut0, LastBut0}
use obelix.Str.Joins.{join}
use obelix.Str.Splits.{split, join-split, texts}
use obelix.Str.Reading.{read, read-HasText}
use obelix.Str.Edits.{append_char-str_set, forcecase}

-- "ab,ab"
abbrev word : String
word = 97 ∷ 98 ∷ 44 ∷ 97 ∷ 98 ∷ []

abbrev buffer : Str
buffer = record { buffer = 97 ∷ 98 ∷ 44 ∷ 97 ∷ 98 ∷ 0 ∷ []; pos = 0; len = 5; bufsize = 6 }

holds : HasText buffer word
holds = record {
  zeros = 1;
  bytes = refl;
  ended = omega arith;
  long = refl;
  sized = refl;
  clean = refl;
}

copy_run : str_copy_chars word ≡ buffer
unfolding str_copy_chars
copy_run = refl

slice_run : chars (slice buffer 1 4).buffer ≡ 98 ∷ 44 ∷ 97 ∷ []
unfolding slice
slice_run = refl

forcecase_run : chars (forcecase buffer true).buffer ≡ 65 ∷ 66 ∷ 44 ∷ 65 ∷ 66 ∷ []
unfolding forcecase
forcecase_run = refl

grow-stuck_example : grow 100 (1 * 8 / 5) 7 ≡ none
grow-stuck_example = grow-stuck 100 1 7 (omega arith) (omega arith)

expand-HasText_example :
    (t : Str) × (expand buffer 20 ≡ some t)
    × HasText t word
    × (20 < t.bufsize)
    × (2 ≤ t.bufsize)
    × (t.pos ≡ 0)
expand-HasText_example = expand-HasText buffer word 20 holds (omega arith) (omega arith)

lchop-HasText_example :
    (t : Str) × (lchop buffer 3 ≡ (true, t)) × HasText t (97 ∷ 98 ∷ []) × (t.pos ≡ 0 - 3)
lchop-HasText_example = lchop-HasText buffer word 3 holds (omega arith)

indexof_chars-First_example :
    (r : Option ℕ) × (indexof_chars buffer (98 ∷ []) ≡ index r) × First word (98 ∷ []) r
indexof_chars-First_example = indexof_chars-First buffer word (98 ∷ []) holds

rindexof_chars-LastBut0_example :
    LastBut0 5 word (97 ∷ 98 ∷ []) (rindexof_chars buffer (97 ∷ 98 ∷ []))
rindexof_chars-LastBut0_example = rindexof_chars-LastBut0 buffer word (97 ∷ 98 ∷ []) holds

rindexof_run : rindexof_chars buffer word ≡ negsuc 0
unfolding rindexof_chars
rindexof_run = refl

join-split_example :
    (rs : List Str) × (t : Str) × (split buffer (44 ∷ []) ≡ some rs)
    × (join (44 ∷ []) (texts rs) ≡ some t)
    × HasText t word
join-split_example = join-split buffer word (44 ∷ []) holds refl (omega arith)

read-HasText_example :
    (t : Str) × (read buffer 3 ≡ some (97 ∷ 98 ∷ 44 ∷ [], t))
    × HasText t word
    × (t.pos ≡ 0 + 3)
    × (t.pos ≤ t.len)
read-HasText_example = read-HasText buffer word 3 holds (omega arith)

append_char-str_set_example :
    (t : Str) × ((str_set buffer 1 0).1.len ≡ 1)
    × (append_char (str_set buffer 1 0).1 120 ≡ some (true, t))
    × (t.len ≡ 2)
    × (chars t.buffer ≡ 97 ∷ 120 ∷ 44 ∷ 97 ∷ 98 ∷ [])
append_char-str_set_example =
    append_char-str_set buffer word 1 120 holds (omega arith) (omega arith)
