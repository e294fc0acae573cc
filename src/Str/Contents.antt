-- ===== src/Str/Contents.antt =====
-- What a string buffer of lib/str.c holds: a text, and zeros behind it up to the end.
use obelix.Prelude.{
  ℕ, zero, suc, ◌+◌, ◌≡◌, ◌≤◌, ◌<◌, refl, ap, ◌∙◌, true, [], ◌∷◌, ◌++◌, leb, ◌==◌, if◌then◌else◌,
  arith, length, take, take-past, subst, replicate, length-take,
}
use obelix.Strutils.{String}
use obelix.Str.{
  Str, chars, str_create, str_copy_nchars, str_copy_chars, str_duplicate, default_size,
}
use obelix.Str.Bytes.{no_zero, no_zero-take, take-length-take, chars-text}

pub record HasText (s : Str) (xs : String) : Type 0 where
  pub zeros : ℕ
  pub bytes : s.buffer ≡ xs ++ replicate zeros 0
  pub ended : 0 < zeros
  pub long : s.len ≡ length xs
  pub sized : s.bufsize ≡ length xs + zeros
  pub clean : no_zero xs ≡ true

pub chars-padded :
    (xs : String) (n : ℕ) → no_zero xs ≡ true → 0 < n → chars (xs ++ replicate n 0) ≡ xs
chars-padded xs zero clean some_zero = absurd (omega arith)
chars-padded xs (suc n) clean some_zero = chars-text xs (replicate n 0) clean

-- What `str_chars` hands out is the text.
pub chars-HasText : (s : Str) (xs : String) → HasText s xs → chars s.buffer ≡ xs
chars-HasText s xs k = ap chars k.bytes ∙ chars-padded xs k.zeros k.clean k.ended

pub create-HasText : (size : ℕ) → HasText (str_create size) []
unfolding str_create
create-HasText size = record {
  zeros = if size == 0 then default_size else size;
  bytes = refl;
  ended = ground arith;
  long = refl;
  sized = omega arith;
  clean = refl;
}

-- `str_copy_nchars` makes a buffer with the first characters of a string.
pub copy_nchars-HasText :
    (xs : String) (n : ℕ) → no_zero xs ≡ true → HasText (str_copy_nchars xs n) (take n xs)
unfolding str_copy_nchars
copy_nchars-HasText xs n clean =
    let count : (if leb n (length xs) then n else length xs) ≡ length (take n xs) =
      ground (arith, length-take n xs) in
    record {
      zeros = 1;
      bytes = ap (λ m. take m xs ++ 0 ∷ []) count ∙ ap (λ ys. ys ++ 0 ∷ []) (take-length-take n xs);
      ended = omega arith;
      long = count;
      sized = omega arith;
      clean = no_zero-take n xs clean;
    }

pub copy_chars-HasText : (xs : String) → no_zero xs ≡ true → HasText (str_copy_chars xs) xs
unfolding str_copy_chars
copy_chars-HasText xs clean =
    subst (λ ys. HasText (str_copy_nchars xs (length xs)) ys)
      (take-past xs (length xs) (omega arith)) (copy_nchars-HasText xs (length xs) clean)

-- `str_duplicate` makes a buffer of the same text, which is read from its start.
pub duplicate-HasText : (s : Str) (xs : String) → HasText s xs → HasText (str_duplicate s) xs
unfolding str_duplicate
duplicate-HasText s xs k =
    let same = chars-HasText s xs k in
    record {
      zeros = 1;
      bytes = ap (λ ys. ys ++ 0 ∷ []) same;
      ended = omega arith;
      long = ap length same;
      sized = ap (λ ys. suc (length ys)) same ∙ omega arith;
      clean = k.clean;
    }

-- A buffer of at least 2 bytes, which `_str_expand` can make larger.
pub record IsGrowable (s : Str) (xs : String) : Type 0 where
  pub text : HasText s xs
  pub two : 2 ≤ s.bufsize
