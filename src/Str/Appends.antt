-- ===== src/Str/Appends.antt =====
-- Appending to a string buffer of lib/str.c.
use obelix.Prelude.{
  ℕ, zero, suc, ◌+◌, ◌%◌, ◌-◌, ◌≡◌, ◌<◌, refl, sym, ap, ap₂, ◌∙◌, true, some, [], ◌∷◌, ◌++◌, ltb,
  lt→ltb, if◌then◌else◌, arith, length, set, take, take-past, subst, drop, replicate, length-append,
  length-take, append_assoc,
}
use obelix.Strutils.{String}
use obelix.Str.{
  Str, chars, memmove, strncat, put_char, append_char, put_nchars, append_nchars, append_chars,
  put_str, append,
}
use obelix.Str.Bytes.{
  take-front, drop-front, drop-drop, drop-replicate, set-front, no_zero, no_zero-append,
  no_zero-take,
}
use obelix.Str.Contents.{HasText, IsGrowable, chars-HasText, chars-padded}
use obelix.Str.Growth.{expand-HasText}

-- Bytes written behind a text, over the zeros.
pub memmove-end :
    (xs ys : String) (z : ℕ)
    → memmove (xs ++ replicate z 0) (length xs) ys ≡ (xs ++ ys) ++ replicate (z - length ys) 0
memmove-end xs ys z =
    ap₂ (λ front back. front ++ ys ++ back) (take-front xs (replicate z 0))
      (sym (drop-drop (length ys) (length xs) (xs ++ replicate z 0))
        ∙ ap (drop (length ys)) (drop-front xs (replicate z 0))
        ∙ drop-replicate (length ys) z 0)

pub zero_end : (xs : String) (n : ℕ) → (xs ++ 0 ∷ []) ++ replicate n 0 ≡ xs ++ replicate (suc n) 0
zero_end xs n = append_assoc xs (0 ∷ []) (replicate n 0)

pub strncat_bytes :
    (b xs other : String) (n z : ℕ)
    → b ≡ xs ++ replicate z 0
    → no_zero xs ≡ true
    → length (take n other) < z
    → strncat b other n ≡ (xs ++ take n other) ++ replicate (z - length (take n other)) 0
strncat_bytes b xs other n z e clean fits =
    let ys = take n other in
    ap₂ (λ c m. memmove c m (ys ++ 0 ∷ [])) e
      (ap (λ c. length (chars c)) e ∙ ap length (chars-padded xs z clean (omega arith)))
    ∙ memmove-end xs (ys ++ 0 ∷ []) z
    ∙ ap (λ c. c ++ replicate (z - length (ys ++ 0 ∷ [])) 0) (sym (append_assoc xs ys (0 ∷ [])))
    ∙ zero_end (xs ++ ys) (z - length (ys ++ 0 ∷ []))
    ∙ ap (λ m. (xs ++ ys) ++ replicate m 0)
        (let e : suc (z - length (ys ++ 0 ∷ [])) ≡ z - length ys =
            omega (arith, length-append ys (0 ∷ [])) in
          e)

set_end :
    (xs : String) (z ch : ℕ)
    → 0 < z
    → set (xs ++ replicate z 0) (length xs) ch ≡ (xs ++ ch ∷ []) ++ replicate (z - 1) 0
set_end xs zero ch some_zero = absurd (omega arith)
set_end xs (suc z) ch some_zero =
    set-front xs (replicate z 0) 0 ch
    ∙ sym (append_assoc xs (ch ∷ []) (replicate z 0))
    ∙ ap (λ m. (xs ++ ch ∷ []) ++ replicate m 0) (let e : z ≡ suc z - 1 = omega arith in e)

put_char-HasText :
    (t : Str) (xs : String) (ch : ℕ)
    → HasText t xs
    → length xs + 1 < t.bufsize
    → 0 < ch
    → ch < 256
    → HasText (put_char t ch) (xs ++ ch ∷ [])
put_char-HasText t xs ch k fits some_char byte =
    let long = k.long in
    let sized = k.sized in
    let clean = k.clean in
    let ended = k.ended in
    record {
      zeros = k.zeros - 1;
      bytes =
          ap (λ c. set t.buffer t.len c) (let e : ch % 256 ≡ ch = omega arith in e)
          ∙ ap₂ (λ b m. set b m ch) k.bytes long
          ∙ set_end xs k.zeros ch ended;
      ended = omega arith;
      long = omega (arith, length-append xs (ch ∷ []));
      sized = omega (arith, length-append xs (ch ∷ []));
      clean = ground (arith, no_zero-append xs (ch ∷ []), lt→ltb 0 ch);
    }

-- `str_append_char` succeeds and puts a character other than 0 at the end.
pub append_char-HasText :
    (s : Str) (xs : String) (ch : ℕ)
    → IsGrowable s xs
    → 0 < ch
    → ch < 256
    → (t : Str) × (append_char s ch ≡ some (true, t)) × IsGrowable t (xs ++ ch ∷ [])
unfolding append_char
append_char-HasText s xs ch g some_char byte =
    let k = g.text in
    let long = k.long in
    let two = g.two in
    let (t, runs, text, large, more, _) = expand-HasText s xs (s.len + 1) k two (omega arith) in
    (
      put_char t ch,
      rw (lt→ltb 0 s.bufsize (omega arith), lt→ltb 0 ch some_char, runs) refl,
      record { text = put_char-HasText t xs ch text (omega arith) some_char byte; two = more },
    )

put_nchars-HasText :
    (t : Str) (xs other : String) (n : ℕ)
    → HasText t xs
    → length xs + n + 1 < t.bufsize
    → no_zero other ≡ true
    → HasText (put_nchars t other n) (xs ++ take n other)
unfolding put_nchars
put_nchars-HasText t xs other n k fits whole =
    let long = k.long in
    let sized = k.sized in
    let clean = k.clean in
    let ys = take n other in
    let shorter = length-take n other in
    let count : t.len + (if ltb n (length other) then n else length other) ≡ length (xs ++ ys) =
      ground (arith, length-append xs ys, length-take n other) in
    record {
      zeros = k.zeros - length ys;
      bytes =
          ap₂ (λ b m. set b m 0)
            (strncat_bytes t.buffer xs other n k.zeros k.bytes clean (omega arith)) count
          ∙ set_end (xs ++ ys) (k.zeros - length ys) 0 (omega arith)
          ∙ zero_end (xs ++ ys) (k.zeros - length ys - 1)
          ∙ ap (λ m. (xs ++ ys) ++ replicate m 0)
              (let e : suc (k.zeros - length ys - 1) ≡ k.zeros - length ys = omega arith in e);
      ended = omega arith;
      long = count;
      sized = omega (arith, length-append xs ys);
      clean = ground (arith, no_zero-append xs ys, no_zero-take n other);
    }

-- `str_append_nchars` succeeds and puts the first characters of a string at the end.
pub append_nchars-HasText :
    (s : Str) (xs other : String) (n : ℕ)
    → IsGrowable s xs
    → no_zero other ≡ true
    → (t : Str) × (append_nchars s other n ≡ some (true, t)) × IsGrowable t (xs ++ take n other)
unfolding append_nchars
append_nchars-HasText s xs other n g whole =
    let k = g.text in
    let long = k.long in
    let two = g.two in
    let (t, runs, text, large, more, _) = expand-HasText s xs (s.len + n + 1) k two (omega arith) in
    (
      put_nchars t other n,
      rw runs refl,
      record { text = put_nchars-HasText t xs other n text (omega arith) whole; two = more },
    )

-- `str_append_chars` succeeds and puts a string at the end.
pub append_chars-HasText :
    (s : Str) (xs other : String)
    → IsGrowable s xs
    → no_zero other ≡ true
    → (t : Str) × (append_chars s other ≡ some (true, t)) × IsGrowable t (xs ++ other)
unfolding append_chars
append_chars-HasText s xs other g whole =
    let (t, runs, open_) = append_nchars-HasText s xs other (length other) g whole in
    (
      t,
      runs,
      subst (λ ys. IsGrowable t (xs ++ ys)) (take-past other (length other) (omega arith)) open_,
    )

put_str-HasText :
    (t other : Str) (xs ys : String)
    → HasText t xs
    → HasText other ys
    → length xs + length ys + 1 < t.bufsize
    → HasText (put_str t other) (xs ++ ys)
unfolding put_str
put_str-HasText t other xs ys k o fits =
    let long = k.long in
    let sized = k.sized in
    let clean = k.clean in
    let long_other = o.long in
    let clean_other = o.clean in
    let whole = take-past ys (length ys) (omega arith) in
    record {
      zeros = k.zeros - length ys;
      bytes =
          ap (λ c. strncat t.buffer c (length c)) (chars-HasText other ys o)
          ∙ strncat_bytes t.buffer xs ys (length ys) k.zeros k.bytes clean
              (let short = ap length whole in omega arith)
          ∙ ap (λ zs. (xs ++ zs) ++ replicate (k.zeros - length zs) 0) whole;
      ended = omega arith;
      long = omega (arith, length-append xs ys);
      sized = omega (arith, length-append xs ys);
      clean = ground (arith, no_zero-append xs ys);
    }

-- `str_append` succeeds and puts the text of another buffer at the end.
pub append-HasText :
    (s other : Str) (xs ys : String)
    → IsGrowable s xs
    → HasText other ys
    → (t : Str) × (append s other ≡ some (true, t)) × IsGrowable t (xs ++ ys)
unfolding append
append-HasText s other xs ys g o =
    let k = g.text in
    let long = k.long in
    let long_other = o.long in
    let two = g.two in
    let (t, runs, text, large, more, _) =
      expand-HasText s xs (s.len + other.len + 1) k two (omega arith) in
    (
      put_str t other,
      rw (lt→ltb 0 s.bufsize (omega arith), runs) refl,
      record { text = put_str-HasText t other xs ys text o (omega arith); two = more },
    )
