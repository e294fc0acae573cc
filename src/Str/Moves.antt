-- ===== src/Str/Moves.antt =====
-- What `memmove` and `memset` make of a text with zeros behind it, when a part of the text goes.
use obelix.Prelude.{
  ℕ, ◌+◌, ◌≡◌, sym, ap, ap₂, ◌∙◌, List, ◌++◌, arith, length, take, drop, replicate, length-append,
  length-replicate, append_assoc,
}
use obelix.Str.{memmove, clear_bytes}
use obelix.Str.Bytes.{take-front, drop-front, drop-drop, replicate-append}

module _ {ℓ} {A : Type ℓ} where
  overwrite_front : (ys zs rest : List A) → take (length ys) ((ys ++ zs) ++ rest) ≡ ys
  overwrite_front ys zs rest =
      ap (take (length ys)) (append_assoc ys zs rest) ∙ take-front ys (zs ++ rest)

  overwrite_back : (ys zs rest : List A) → drop (length ys + length zs) ((ys ++ zs) ++ rest) ≡ rest
  overwrite_back ys zs rest =
      ap (λ n. drop n ((ys ++ zs) ++ rest)) (sym (length-append ys zs)) ∙ drop-front (ys ++ zs) rest

-- The last bytes of a text become zeros.
pub clear_tail :
    (ys zs rest : List ℕ)
    → clear_bytes ((ys ++ zs) ++ rest) (length ys) (length zs)
      ≡ (ys ++ replicate (length zs) 0) ++ rest
clear_tail ys zs rest =
    ap₂ (λ front back. (front ++ replicate (length zs) 0) ++ back) (overwrite_front ys zs rest)
      (ap (λ n. drop (length ys + n) ((ys ++ zs) ++ rest)) (length-replicate (length zs) 0)
        ∙ overwrite_back ys zs rest)

-- The last bytes move to the front, and zeros follow them.
pub move_front :
    (ys zs rest : List ℕ)
    → clear_bytes
        (memmove ((ys ++ zs) ++ rest) 0 (take (length zs) (drop (length ys) ((ys ++ zs) ++ rest))))
        (length zs)
        (length ys)
      ≡ (zs ++ replicate (length ys) 0) ++ rest
move_front ys zs rest =
    let b = (ys ++ zs) ++ rest in
    let moved : take (length zs) (drop (length ys) b) ≡ zs =
      ap (λ c. take (length zs) (drop (length ys) c)) (append_assoc ys zs rest)
      ∙ ap (take (length zs)) (drop-front ys (zs ++ rest))
      ∙ take-front zs rest in
    let behind : drop (0 + length zs) b ≡ drop (length zs) b = ap (λ n. drop n b) (omega arith) in
    let first : memmove b 0 (take (length zs) (drop (length ys) b)) ≡ zs ++ drop (length zs) b =
      ap (memmove b 0) moved ∙ ap (λ c. zs ++ c) behind in
    let last : drop (length zs + length (replicate (length ys) 0)) (zs ++ drop (length zs) b)
        ≡ rest =
      sym (drop-drop (length (replicate (length ys) 0)) (length zs) (zs ++ drop (length zs) b))
      ∙ ap₂ (λ n c. drop n c) (length-replicate (length ys) 0) (drop-front zs (drop (length zs) b))
      ∙ drop-drop (length ys) (length zs) b
      ∙ ap (λ n. drop n b)
          (let e : length zs + length ys ≡ length ys + length zs = omega arith in e)
      ∙ overwrite_back ys zs rest in
    ap (λ c. clear_bytes c (length zs) (length ys)) first
    ∙ ap₂ (λ front back. (front ++ replicate (length ys) 0) ++ back)
        (take-front zs (drop (length zs) b)) last

pub more_zeros :
    (xs : List ℕ) (m n : ℕ) → (xs ++ replicate m 0) ++ replicate n 0 ≡ xs ++ replicate (m + n) 0
more_zeros xs m n =
    append_assoc xs (replicate m 0) (replicate n 0) ∙ ap (λ zs. xs ++ zs) (replicate-append m n 0)
