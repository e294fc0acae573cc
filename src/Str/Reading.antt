-- ===== src/Str/Reading.antt =====
-- Reading from a string buffer of lib/str.c at its position.
use obelix.Prelude.{
  ℕ, zero, suc, ◌+◌, ◌-◌, ◌≡◌, ◌≤◌, ◌<◌, refl, sym, ap, ◌∙◌, Bool, true, false, List, map, Option,
  none, some, ◌>>=◌, [], ◌∷◌, ltb, lt→ltb, ◌==◌, if◌then◌else◌, Bool-cases, inl, inr, arith, length,
  take, take-past, drop, drop-past, get_or, replicate, subst, length-take, length-drop,
}
use obelix.Prelude.Int.{ℤ, pos, negsuc, ◌-ℤ◌}
use obelix.Strutils.{String}
use obelix.Str.{Str, lchop}
use obelix.Str.Bytes.{take-append_le, get_or-front, drop-append_le, no_zero}
use obelix.Str.Contents.{HasText}
use obelix.Str.Cuts.{placed, lchop-HasText}

unfoldable pub rewind : Str → Str
rewind s = record s { pos = 0 }

-- A `char` as an `int`: negative for a byte from 128 on.
abbrev pub char_int : ℕ → ℤ
char_int c = if ltb c 128 then pos c else negsuc (255 - c)

unfoldable pub peek : Str → ℤ
peek s = if ltb s.pos s.len then char_int (get_or s.buffer s.pos 0) else pos 0

unfoldable pub readchar : Str → ℤ × Str
unfolding peek
readchar s = (peek s, record s { pos = suc s.pos })

abbrev pub read_to : Str → ℕ → String × Str
read_to s num = (take num (drop s.pos s.buffer), record s { pos = s.pos + num })

-- `str_read`, with the characters that it copies; `none` is a count below 0, which wraps around and
-- leads out of the buffer.
unfoldable pub read : Str → ℕ → Option (String × Str)
read s num =
    if ltb s.len (s.pos + num)
    then (if ltb s.len s.pos then none else some (read_to s (s.len - s.pos)))
    else some (read_to s num)

-- `str_skip` of a count that is not negative.
unfoldable pub skip : Str → ℕ → ℤ × Str
unfolding ◌-ℤ◌
skip s num =
    if ltb s.len (s.pos + num)
    then (pos s.len -ℤ pos s.pos, record s { pos = s.len })
    else (pos num, record s { pos = s.pos + num })

unfoldable pub pushback : Str → ℕ → ℕ × Str
pushback s num = let n = if ltb s.pos num then s.pos else num in (n, record s { pos = s.pos - n })

unfoldable pub reset : Str → Str
unfolding lchop
reset s = if ltb 0 s.pos then (lchop s s.pos).1 else s

unfoldable pub at : Str → ℤ → ℤ
at s (pos i) = if ltb i s.len then char_int (get_or s.buffer i 0) else negsuc 0
at s (negsuc n) = if ltb n s.len then char_int (get_or s.buffer (s.len - suc n) 0) else negsuc 0

within_text :
    (s : Str) (xs : String) (m : ℕ)
    → HasText s xs
    → s.pos + m ≤ length xs
    → take m (drop s.pos s.buffer) ≡ take m (drop s.pos xs)
within_text s xs m k fits =
    ap (λ b. take m (drop s.pos b)) k.bytes
    ∙ ap (take m) (drop-append_le s.pos xs (replicate k.zeros 0) (omega arith))
    ∙ take-append_le m (drop s.pos xs) (replicate k.zeros 0) (omega (arith, length-drop s.pos xs))

-- `str_read` hands out the next characters of the text, as many as there are, and moves the
-- position behind them.
pub read-HasText :
    (s : Str) (xs : String) (num : ℕ)
    → HasText s xs
    → s.pos ≤ s.len
    → (t : Str) × (read s num ≡ some (take num (drop s.pos xs), t))
      × HasText t xs
      × (t.pos ≡ s.pos + length (take num (drop s.pos xs)))
      × (t.pos ≤ t.len)
unfolding read
read-HasText s xs num k within =
    let long = k.long in
    let ys = drop s.pos xs in
    let m = s.len - s.pos in
    elim (Bool-cases (ltb s.len (s.pos + num))) [
      | inl short ↦
          let inside : ltb s.len s.pos ≡ false = ground arith in
          let all : take num ys ≡ ys = take-past ys num (ground (arith, length-drop s.pos xs)) in
          let same : take m (drop s.pos s.buffer) ≡ take num ys =
            within_text s xs m k (omega arith)
            ∙ take-past ys m (omega (arith, length-drop s.pos xs))
            ∙ sym all in
          (
            record s { pos = s.pos + m },
            rw (short, inside) (ap (λ cs. some (cs, record s { pos = s.pos + m })) same),
            placed (s.pos + m) k,
            (let whole = ap length all in omega (arith, length-drop s.pos xs)),
            omega arith,
          )
      | inr long_enough ↦
          let room : s.pos + num ≤ length xs = ground arith in
          (
            record s { pos = s.pos + num },
            rw long_enough (
                ap (λ cs. some (cs, record s { pos = s.pos + num })) (within_text s xs num k room)),
            placed (s.pos + num) k,
            omega (arith, length-take num ys, length-drop s.pos xs),
            omega arith,
          )
    ]

-- Having read past the end with `str_readchar`, `str_read` leads out of the buffer.
pub read-readchar_past : (s : Str) (num : ℕ) → s.pos ≡ s.len → read (readchar s).1 num ≡ none
unfolding read readchar
read-readchar_past s num at_end = ground arith

abbrev is_zero : ℤ → Bool
is_zero (pos zero) = true
is_zero (pos (suc n)) = false
is_zero (negsuc n) = false

is_zero-char_int : (c : ℕ) → (c == 0) ≡ false → is_zero (char_int c) ≡ false
is_zero-char_int zero some_char = cc some_char
is_zero-char_int (suc c) some_char = elim (Bool-cases (ltb (suc c) 128)) [
  | inl ascii ↦ rw ascii refl
  | inr other ↦ rw other refl
]

-- The characters that a client reads with `str_readchar` until it answers 0; `none` is too little
-- fuel.
unfoldable pub read_chars : ℕ → Str → Option (List ℤ)
unfolding readchar
read_chars zero s = none
read_chars (suc n) s =
    let rest = read_chars n (readchar s).1 in
    if is_zero (readchar s).0 then some [] else (rest >>= λ cs. some ((readchar s).0 ∷ cs))

-- `str_reset` takes off what was read.
pub reset-HasText :
    (s : Str) (xs : String)
    → HasText s xs
    → s.pos ≤ s.len
    → HasText (reset s) (drop s.pos xs) × ((reset s).pos ≡ 0)
unfolding reset
reset-HasText s xs k within = elim (Bool-cases (ltb 0 s.pos)) [
  | inl moved ↦
      let (t, e, text, place) = lchop-HasText s xs s.pos k within in
      let cut : reset s ≡ t =
        ap (λ b. if b then (lchop s s.pos).1 else s) moved ∙ ap (λ r. r.1) e in
      subst (λ r. HasText r (drop s.pos xs) × (r.pos ≡ 0)) (sym cut) (text, omega arith)
  | inr still ↦
      let zero_pos : 0 ≡ s.pos = ground arith in
      let stays : reset s ≡ s = ap (λ b. if b then (lchop s s.pos).1 else s) still in
      subst (λ r. HasText r (drop s.pos xs) × (r.pos ≡ 0)) (sym stays)
        (subst (λ n. HasText s (drop n xs)) zero_pos k, sym zero_pos)
]

-- `str_at` answers the character at an index as an `int`, the index counting from the end if it is
-- negative, and -1 out of bounds.
pub at-HasText :
    (s : Str) (xs : String)
    → HasText s xs
    → ((i : ℕ) → i < length xs → at s (pos i) ≡ char_int (get_or xs i 0))
      × ((n : ℕ) → n < length xs → at s (negsuc n) ≡ char_int (get_or xs (length xs - suc n) 0))
      × ((i : ℕ) → length xs ≤ i → (at s (pos i) ≡ negsuc 0) × (at s (negsuc i) ≡ negsuc 0))
unfolding at
at-HasText s xs k =
    let long = k.long in
    let same : (i : ℕ) → i < length xs → get_or s.buffer i 0 ≡ get_or xs i 0 = λ i inside.
      ap (λ b. get_or b i 0) k.bytes ∙ get_or-front xs (replicate k.zeros 0) i 0 inside in
    (
      λ i inside. rw (lt→ltb i s.len (omega arith)) (ap char_int (same i inside)),
      λ n inside. rw (lt→ltb n s.len (omega arith)) (
          ap (λ m. char_int (get_or s.buffer (m - suc n) 0)) long
          ∙ ap char_int (same (length xs - suc n) (omega arith))),
      λ i outside. (ground arith, ground arith),
    )

-- `str_pushback` of what was read takes the position back.
pub pushback-read :
    (s : Str) (xs : String) (num : ℕ)
    → HasText s xs
    → s.pos ≤ s.len
    → (cs : String) × (t : Str) × (read s num ≡ some (cs, t))
      × ((pushback t (length cs)).1.pos ≡ s.pos)
unfolding pushback
pushback-read s xs num k within =
    let (t, runs, _, place, _) = read-HasText s xs num k within in
    (take num (drop s.pos xs), t, runs, ground arith)

rest_of : (xs : String) (i : ℕ) → i < length xs → drop i xs ≡ get_or xs i 0 ∷ drop (suc i) xs
rest_of [] i inside = absurd (omega arith)
rest_of (x ∷ xs) zero inside = refl
rest_of (x ∷ xs) (suc i) inside = rest_of xs i (omega arith)

nonzero_at :
    (xs : String) (i : ℕ) → no_zero xs ≡ true → i < length xs → (get_or xs i 0 == 0) ≡ false
nonzero_at [] i clean inside = absurd (omega arith)
nonzero_at (x ∷ xs) zero clean inside = ground arith
nonzero_at (x ∷ xs) (suc i) clean inside = nonzero_at xs i (ground arith) (omega arith)

peek-HasText :
    (s : Str) (xs : String)
    → HasText s xs
    → s.pos < length xs
    → peek s ≡ char_int (get_or xs s.pos 0)
unfolding peek
peek-HasText s xs k inside =
    let long = k.long in
    rw (lt→ltb s.pos s.len (omega arith)) (
      ap char_int
        (ap (λ b. get_or b s.pos 0) k.bytes ∙ get_or-front xs (replicate k.zeros 0) s.pos 0 inside))

peek_end : (s : Str) → s.len ≤ s.pos → peek s ≡ pos 0
unfolding peek
peek_end s past = ground arith

-- A client that reads with `str_readchar` until it answers 0 is handed the rest of the text, each
-- character as an `int`.
pub read_chars-HasText :
    (fuel : ℕ) (s : Str) (xs : String)
    → HasText s xs
    → s.pos ≤ s.len
    → s.len < s.pos + fuel
    → read_chars fuel s ≡ some (map char_int (drop s.pos xs))
unfolding read_chars readchar
read_chars-HasText zero s xs k within few = absurd (omega arith)
read_chars-HasText (suc n) s xs k within few =
    let long = k.long in
    elim (Bool-cases (ltb s.pos s.len)) [
      | inl inside ↦
          let here : s.pos < length xs = ground arith in
          let seen = peek-HasText s xs k here in
          let rest =
            read_chars-HasText n (record s { pos = suc s.pos }) xs (placed (suc s.pos) k)
              (omega arith) (omega arith) in
          rw (seen, is_zero-char_int (get_or xs s.pos 0) (nonzero_at xs s.pos k.clean here), rest)
            (ap (λ cs. some (map char_int cs)) (sym (rest_of xs s.pos here)))
      | inr past ↦
          rw (peek_end s (ground arith))
            (ap (λ cs. some (map char_int cs)) (sym (drop-past xs s.pos (ground arith))))
    ]
