-- ===== src/Str/Bytes.antt =====
-- Lemmas on bytes: a text and zeros behind it.
use obelix.Prelude.{
  ℕ, zero, suc, ◌+◌, ◌-◌, ◌≡◌, ◌≤◌, ◌<◌, refl, sym, ap, ◌∙◌, Bool, true, ◌&&◌, List, [], ◌∷◌, ◌++◌,
  ltb, arith, length, get_or, set, take, drop, drop-past, replicate,
}
use obelix.Str.{chars}

module _ {ℓ} {A : Type ℓ} where
  pub take-front : (xs ys : List A) → take (length xs) (xs ++ ys) ≡ xs
  take-front [] ys = refl
  take-front (x ∷ xs) ys = ap (λ zs. x ∷ zs) (take-front xs ys)

  pub drop-front : (xs ys : List A) → drop (length xs) (xs ++ ys) ≡ ys
  drop-front [] ys = refl
  drop-front (x ∷ xs) ys = drop-front xs ys

  pub get_or-front :
      (xs ys : List A) (i : ℕ) (d : A) → i < length xs → get_or (xs ++ ys) i d ≡ get_or xs i d
  get_or-front [] ys i d h = absurd (omega arith)
  get_or-front (x ∷ xs) ys zero d h = refl
  get_or-front (x ∷ xs) ys (suc i) d h = get_or-front xs ys i d (omega arith)

  pub take-length-take : (n : ℕ) (xs : List A) → take (length (take n xs)) xs ≡ take n xs
  take-length-take zero xs = refl
  take-length-take (suc n) [] = refl
  take-length-take (suc n) (x ∷ xs) = ap (λ zs. x ∷ zs) (take-length-take n xs)

  pub take-append_le : (n : ℕ) (xs ys : List A) → n ≤ length xs → take n (xs ++ ys) ≡ take n xs
  take-append_le zero xs ys h = refl
  take-append_le (suc n) [] ys h = absurd (omega arith)
  take-append_le (suc n) (x ∷ xs) ys h = ap (λ zs. x ∷ zs) (take-append_le n xs ys (omega arith))

  pub drop-append_le :
      (n : ℕ) (xs ys : List A) → n ≤ length xs → drop n (xs ++ ys) ≡ drop n xs ++ ys
  drop-append_le zero xs ys h = refl
  drop-append_le (suc n) [] ys h = absurd (omega arith)
  drop-append_le (suc n) (x ∷ xs) ys h = drop-append_le n xs ys (omega arith)

  pub drop-drop : (m n : ℕ) (xs : List A) → drop m (drop n xs) ≡ drop (n + m) xs
  drop-drop m zero xs = ap (λ k. drop k xs) (omega arith)
  drop-drop zero (suc n) [] = sym (drop-past [] (suc n + zero) (omega arith))
  drop-drop (suc m) (suc n) [] = sym (drop-past [] (suc n + suc m) (omega arith))
  drop-drop m (suc n) (x ∷ xs) =
      drop-drop m n xs
      ∙ ap (λ k. drop k (x ∷ xs)) (let e : suc (n + m) ≡ suc n + m = omega arith in e)

  pub replicate-append : (m n : ℕ) (a : A) → replicate m a ++ replicate n a ≡ replicate (m + n) a
  replicate-append zero n a = ap (λ k. replicate k a) (omega arith)
  replicate-append (suc m) n a =
      ap (λ zs. a ∷ zs) (replicate-append m n a)
      ∙ ap (λ k. replicate k a) (let e : suc (m + n) ≡ suc m + n = omega arith in e)

  pub drop-replicate : (m n : ℕ) (a : A) → drop m (replicate n a) ≡ replicate (n - m) a
  drop-replicate zero n a = ap (λ k. replicate k a) (omega arith)
  drop-replicate (suc m) zero a = ap (λ k. replicate k a) (let e : 0 ≡ 0 - suc m = omega arith in e)
  drop-replicate (suc m) (suc n) a = drop-replicate m n a ∙ ap (λ k. replicate k a) (omega arith)

  pub set-front : (xs ys : List A) (y v : A) → set (xs ++ y ∷ ys) (length xs) v ≡ xs ++ v ∷ ys
  set-front [] ys y v = refl
  set-front (x ∷ xs) ys y v = ap (λ zs. x ∷ zs) (set-front xs ys y v)

-- No character is the zero that ends a string.
abbrev pub no_zero : List ℕ → Bool
no_zero [] = true
no_zero (c ∷ cs) = ltb 0 c && no_zero cs

pub no_zero-append : (xs ys : List ℕ) → no_zero (xs ++ ys) ≡ (no_zero xs && no_zero ys)
no_zero-append [] ys = refl
no_zero-append (x ∷ xs) ys = ground (arith, no_zero-append xs ys)

pub no_zero-take : (n : ℕ) (xs : List ℕ) → no_zero xs ≡ true → no_zero (take n xs) ≡ true
no_zero-take zero xs h = refl
no_zero-take (suc n) [] h = refl
no_zero-take (suc n) (x ∷ xs) h = ground (arith, no_zero-take n xs)

pub no_zero-drop : (n : ℕ) (xs : List ℕ) → no_zero xs ≡ true → no_zero (drop n xs) ≡ true
no_zero-drop zero xs h = h
no_zero-drop (suc n) [] h = refl
no_zero-drop (suc n) (x ∷ xs) h = ground (arith, no_zero-drop n xs)

pub chars-text : (xs rest : List ℕ) → no_zero xs ≡ true → chars (xs ++ 0 ∷ rest) ≡ xs
chars-text [] rest h = refl
chars-text (zero ∷ xs) rest h = cc h
chars-text (suc c ∷ xs) rest h = ap (λ zs. suc c ∷ zs) (chars-text xs rest (ground arith))
