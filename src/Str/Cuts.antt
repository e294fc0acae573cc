-- ===== src/Str/Cuts.antt =====
-- Taking characters off a string buffer of lib/str.c, at either end.
use obelix.Prelude.{
  ℕ, ◌+◌, ◌-◌, ◌≡◌, ◌≤◌, ◌<◌, refl, sym, ap, ap₂, ◌∙◌, true, [], ◌++◌, ltb, lt→ltb, leb,
  if◌then◌else◌, Bool-cases, inl, inr, arith, length, take, take-past, drop-past, take-append-drop,
  subst, drop, replicate, length-take, length-drop,
}
use obelix.Strutils.{String}
use obelix.Str.{
  Str, memmove, clear_bytes, erase, chop, lchop, cut_tail, pull_pos, cut_front, push_pos,
}
use obelix.Str.Bytes.{no_zero-take, no_zero-drop}
use obelix.Str.Contents.{HasText}
use obelix.Str.Moves.{clear_tail, move_front, more_zeros}

pub erased-HasText : (s : Str) → 0 < s.bufsize → HasText (erase s).1 []
unfolding erase
erased-HasText s own = rw (lt→ltb 0 s.bufsize own) (record {
  zeros = s.bufsize;
  bytes = refl;
  ended = own;
  long = refl;
  sized = omega arith;
  clean = refl;
})

owned : (s : Str) (xs : String) → HasText s xs → 0 < s.bufsize
owned s xs k = let ended = k.ended in let sized = k.sized in omega arith

-- `str_erase` leaves the empty text.
pub erase-HasText :
    (s : Str) (xs : String) → HasText s xs → (t : Str) × (erase s ≡ (true, t)) × HasText t []
unfolding erase
erase-HasText s xs k =
    let own = owned s xs k in ((erase s).1, rw (lt→ltb 0 s.bufsize own) refl, erased-HasText s own)

-- A text is its first and its last part.
module _ (s : Str) (xs : String) (m num : ℕ) (k : HasText s xs) (e : m + num ≡ length xs) where
  parts : s.buffer ≡ (take m xs ++ drop m xs) ++ replicate k.zeros 0
  parts = k.bytes ∙ ap (λ c. c ++ replicate k.zeros 0) (sym (take-append-drop m xs))

  length-front : length (take m xs) ≡ m
  length-front = omega (arith, length-take m xs)

  length-back : length (drop m xs) ≡ num
  length-back = omega (arith, length-drop m xs)

  tail_cut : HasText (record s { buffer = clear_bytes s.buffer m num; len = m }) (take m xs)
  tail_cut = record {
    zeros = num + k.zeros;
    bytes =
        ap₂ (λ i n. clear_bytes s.buffer i n) (sym length-front) (sym length-back)
        ∙ ap (λ b. clear_bytes b (length (take m xs)) (length (drop m xs))) parts
        ∙ clear_tail (take m xs) (drop m xs) (replicate k.zeros 0)
        ∙ more_zeros (take m xs) (length (drop m xs)) k.zeros
        ∙ ap (λ n. take m xs ++ replicate (n + k.zeros) 0) length-back;
    ended = let ended = k.ended in omega arith;
    long = sym length-front;
    sized = let sized = k.sized in omega (arith, length-front);
    clean = no_zero-take m xs k.clean;
  }

  front_cut :
      HasText
        (record s {
          buffer = clear_bytes (memmove s.buffer 0 (take num (drop m s.buffer))) num m;
          len = num;
        })
        (drop m xs)
  front_cut = record {
    zeros = m + k.zeros;
    bytes =
        ap₂ (λ i n. clear_bytes (memmove s.buffer 0 (take n (drop i s.buffer))) n i)
          (sym length-front) (sym length-back)
        ∙ ap
            (λ b.
              clear_bytes (memmove b 0 (take (length (drop m xs)) (drop (length (take m xs)) b)))
                (length (drop m xs)) (length (take m xs)))
            parts
        ∙ move_front (take m xs) (drop m xs) (replicate k.zeros 0)
        ∙ more_zeros (drop m xs) (length (take m xs)) k.zeros
        ∙ ap (λ n. drop m xs ++ replicate (n + k.zeros) 0) length-front;
    ended = let ended = k.ended in omega arith;
    long = sym length-back;
    sized = let sized = k.sized in omega (arith, length-back);
    clean = no_zero-drop m xs k.clean;
  }

cut_tail-HasText :
    (s : Str) (xs : String) (num : ℕ)
    → HasText s xs
    → HasText (cut_tail s num) (take (length xs - num) xs)
unfolding cut_tail
cut_tail-HasText s xs num k =
    let long = k.long in
    elim (Bool-cases (leb s.len num)) [
      | inl all ↦
          let rest : 0 ≡ length xs - num = ground arith in
          rw all
            (subst (λ n. HasText (erase s).1 (take n xs)) rest (erased-HasText s (owned s xs k)))
      | inr some_left ↦ elim (Bool-cases (ltb 0 num)) [
        | inl cuts ↦
            let e : (s.len - num) + num ≡ length xs = ground arith in
            rw (some_left, cuts)
              (subst
                (λ n.
                  HasText
                    (record s {
                      buffer = clear_bytes s.buffer (s.len - num) num;
                      len = s.len - num;
                    })
                    (take (n - num) xs))
                long (tail_cut s xs (s.len - num) num k e))
        | inr stays ↦
            let rest : take (length xs - num) xs ≡ xs =
              take-past xs (length xs - num) (ground arith) in
            rw (some_left, stays) (subst (λ ys. HasText s ys) (sym rest) k)
      ]
    ]

cut_front-HasText :
    (s : Str) (xs : String) (num : ℕ) → HasText s xs → HasText (cut_front s num) (drop num xs)
unfolding cut_front
cut_front-HasText s xs num k =
    let long = k.long in
    elim (Bool-cases (leb s.len num)) [
      | inl all ↦ rw all (
          subst (λ ys. HasText (erase s).1 ys) (sym (drop-past xs num (ground arith)))
            (erased-HasText s (owned s xs k)))
      | inr some_left ↦ elim (Bool-cases (ltb 0 num)) [
        | inl cuts ↦ rw (some_left, cuts) (front_cut s xs num (s.len - num) k (ground arith))
        | inr stays ↦
            let none_cut : 0 ≡ num = ground arith in
            rw (some_left, stays) (subst (λ n. HasText s (drop n xs)) none_cut k)
      ]
    ]

-- Where the buffer is read is nothing to the text.
pub placed : {s : Str} → {xs : String} → (p : ℕ) → HasText s xs → HasText (record s { pos = p }) xs
placed p k = record {
  zeros = k.zeros;
  bytes = k.bytes;
  ended = k.ended;
  long = k.long;
  sized = k.sized;
  clean = k.clean;
}

-- `str_chop` takes characters off the end, all of them at most, and leaves the read position within
-- the text.
pub chop-HasText :
    (s : Str) (xs : String) (num : ℕ)
    → HasText s xs
    → (t : Str) × (chop s num ≡ (true, t)) × HasText t (take (length xs - num) xs) × (t.pos ≤ t.len)
unfolding chop
chop-HasText s xs num k = (
  pull_pos (cut_tail s num),
  rw (lt→ltb 0 s.bufsize (owned s xs k)) refl,
  placed
      (if ltb (cut_tail s num).len (cut_tail s num).pos
        then (cut_tail s num).len
        else (cut_tail s num).pos)
      (cut_tail-HasText s xs num k),
  ground arith,
)

cut_front-pos :
    (s : Str) (num : ℕ)
    → 0 < s.bufsize
    → s.pos ≤ s.len
    → (push_pos (cut_front s num) num).pos ≡ s.pos - num
unfolding cut_front erase
cut_front-pos s num own within = elim (Bool-cases (leb s.len num)) [
  | inl all ↦ rw (all, lt→ltb 0 s.bufsize own) (ground arith)
  | inr some_left ↦ elim (Bool-cases (ltb 0 num)) [
    | inl cuts ↦ rw (some_left, cuts) (ground arith)
    | inr stays ↦ rw (some_left, stays) (ground arith)
  ]
]

-- `str_lchop` takes characters off the front, all of them at most, and leaves the read position at
-- the same character, or at the start where that is gone.
pub lchop-HasText :
    (s : Str) (xs : String) (num : ℕ)
    → HasText s xs
    → s.pos ≤ s.len
    → (t : Str) × (lchop s num ≡ (true, t)) × HasText t (drop num xs) × (t.pos ≡ s.pos - num)
unfolding lchop
lchop-HasText s xs num k within = (
  push_pos (cut_front s num) num,
  rw (lt→ltb 0 s.bufsize (owned s xs k)) refl,
  placed (if ltb (cut_front s num).pos num then 0 else (cut_front s num).pos - num)
      (cut_front-HasText s xs num k),
  cut_front-pos s num (owned s xs k) within,
)
