-- ===== src/Str/Edits.antt =====
-- Writing into a string buffer of lib/str.c: `str_set`, `str_forcecase`, and one round of
-- `str_replace`.
use obelix.Prelude.{
  ℕ, zero, suc, ◌+◌, ◌%◌, ◌≡◌, ◌<◌, refl, sym, ap, ◌∙◌, Bool, true, false, ◌&&◌, some, List, [],
  ◌∷◌, ◌++◌, map, ltb, lt→ltb, leb, ◌==◌, if◌then◌else◌, arith, length, length-set, set, get_or,
  replicate, subst, length-append, append_assoc,
}
use obelix.Strutils.{String, toupper}
use obelix.Str.{Str, chars, str_set, expand, append_char}
use obelix.Str.Bytes.{no_zero, no_zero-append, get_or-front, set-front}
use obelix.Str.Contents.{HasText}

abbrev pub tolower : ℕ → ℕ
tolower c = if leb 65 c && leb c 90 then c + 32 else c

abbrev all_ascii : String → Bool
all_ascii [] = true
all_ascii (c ∷ cs) = ltb c 128 && all_ascii cs

abbrev pub cased : Bool → ℕ → ℕ
cased upper c = if upper then toupper c else tolower c

-- The loop of `str_forcecase`, which reads with `str_at` within bounds. A byte from 128 on, a
-- negative `int` there, is put back as it was.
unfoldable pub force_from : ℕ → ℕ → Str → Bool → Str
unfolding str_set
force_from zero ix s upper = s
force_from (suc n) ix s upper =
    force_from n (suc ix) (str_set s ix (cased upper (get_or s.buffer ix 0))).1 upper

unfoldable pub forcecase : Str → Bool → Str
unfolding force_from
forcecase s upper = force_from s.len 0 s upper

set-append : (xs ys : List ℕ) (i c : ℕ) → i < length xs → set (xs ++ ys) i c ≡ set xs i c ++ ys
set-append [] ys i c inside = absurd (omega arith)
set-append (x ∷ xs) ys zero c inside = refl
set-append (x ∷ xs) ys (suc i) c inside = ap (λ zs. x ∷ zs) (set-append xs ys i c (omega arith))

no_zero-set : (xs : List ℕ) (i c : ℕ) → no_zero xs ≡ true → 0 < c → no_zero (set xs i c) ≡ true
no_zero-set [] i c clean some_char = refl
no_zero-set (x ∷ xs) zero c clean some_char = ground arith
no_zero-set (x ∷ xs) (suc i) c clean some_char = ground (arith, no_zero-set xs i c)

-- `str_set` writes a character, not 0, over the one at an index of the text.
pub str_set-HasText :
    (s : Str) (xs : String) (i c : ℕ)
    → HasText s xs
    → i < length xs
    → 0 < c
    → c < 256
    → HasText (str_set s i c).1 (set xs i c) × ((str_set s i c).0 ≡ true)
unfolding str_set
str_set-HasText s xs i c k inside some_char byte =
    let long = k.long in
    let sized = k.sized in
    let ended = k.ended in
    let not_zero : (c == 0) ≡ false = ground arith in
    rw (lt→ltb 0 s.bufsize (omega arith), lt→ltb i s.len (omega arith), not_zero)
      (
        record {
          zeros = k.zeros;
          bytes =
              ap (λ d. set s.buffer i d) (let e : c % 256 ≡ c = omega arith in e)
              ∙ ap (λ b. set b i c) k.bytes
              ∙ set-append xs (replicate k.zeros 0) i c inside;
          ended = ended;
          long = omega (arith, length-set xs i c);
          sized = omega (arith, length-set xs i c);
          clean = no_zero-set xs i c k.clean some_char;
        },
        refl,
      )

get_or-middle : (ys zs : List ℕ) (z : ℕ) → get_or (ys ++ z ∷ zs) (length ys) 0 ≡ z
get_or-middle [] zs z = refl
get_or-middle (y ∷ ys) zs z = get_or-middle ys zs z

cased_ascii : (upper : Bool) (c : ℕ) → c < 128 → cased upper c < 256
cased_ascii upper c ascii = ground arith

cased_nonzero : (upper : Bool) (c : ℕ) → 0 < c → 0 < cased upper c
cased_nonzero upper c some_char = ground arith

force_from-HasText :
    (zs ys : String) (s : Str) (upper : Bool)
    → HasText s (ys ++ zs)
    → all_ascii zs ≡ true
    → HasText (force_from (length zs) (length ys) s upper) (ys ++ map (cased upper) zs)
unfolding force_from
force_from-HasText [] ys s upper k ascii = k
force_from-HasText (z ∷ zs) ys s upper k ascii =
    let c = cased upper z in
    let clean = k.clean in
    let split = no_zero-append ys (z ∷ zs) in
    let some_char : 0 < z = ground arith in
    let inside : length ys < length (ys ++ z ∷ zs) = omega (arith, length-append ys (z ∷ zs)) in
    let (text, _) =
      str_set-HasText s (ys ++ z ∷ zs) (length ys) c k inside (cased_nonzero upper z some_char)
        (cased_ascii upper z (ground arith)) in
    let next : HasText (str_set s (length ys) c).1 ((ys ++ c ∷ []) ++ zs) =
      subst (λ xs. HasText (str_set s (length ys) c).1 xs)
        (set-front ys zs z c ∙ sym (append_assoc ys (c ∷ []) zs)) text in
    let seen : get_or s.buffer (length ys) 0 ≡ z =
      ap (λ b. get_or b (length ys) 0) k.bytes
      ∙ get_or-front (ys ++ z ∷ zs) (replicate k.zeros 0) (length ys) 0 inside
      ∙ get_or-middle ys zs z in
    let longer : suc (length ys) ≡ length (ys ++ c ∷ []) =
      omega (arith, length-append ys (c ∷ [])) in
    subst (λ t. HasText t (ys ++ c ∷ map (cased upper) zs))
      (ap (λ i. force_from (length zs) i (str_set s (length ys) c).1 upper) (sym longer)
        ∙ ap
            (λ d.
              force_from (length zs) (suc (length ys)) (str_set s (length ys) (cased upper d)).1
                upper)
            (sym seen))
      (subst
        (λ xs.
          HasText (force_from (length zs) (length (ys ++ c ∷ [])) (str_set s (length ys) c).1 upper)
            xs)
        (append_assoc ys (c ∷ []) (map (cased upper) zs))
        (force_from-HasText zs (ys ++ c ∷ []) (str_set s (length ys) c).1 upper next
          (ground arith)))

-- `str_forcecase` puts every character of an ASCII text in the upper or in the lower case.
pub forcecase-HasText :
    (s : Str) (xs : String) (upper : Bool)
    → HasText s xs
    → all_ascii xs ≡ true
    → HasText (forcecase s upper) (map (cased upper) xs)
unfolding forcecase
forcecase-HasText s xs upper k ascii =
    subst (λ n. HasText (force_from n 0 s upper) (map (cased upper) xs)) (sym k.long)
      (force_from-HasText xs [] s upper k ascii)

set-set : (xs : List ℕ) (i c d : ℕ) → set (set xs i c) i d ≡ set xs i d
set-set [] i c d = refl
set-set (x ∷ xs) zero c d = refl
set-set (x ∷ xs) (suc i) c d = ap (λ zs. x ∷ zs) (set-set xs i c d)

chars-zeros : (xs : List ℕ) (n : ℕ) → chars (xs ++ replicate n 0) ≡ chars xs
chars-zeros [] zero = refl
chars-zeros [] (suc n) = refl
chars-zeros (zero ∷ xs) n = refl
chars-zeros (suc x ∷ xs) n = ap (λ ys. suc x ∷ ys) (chars-zeros xs n)

-- A 0 that `str_set` writes into the text makes it end there, but an `int` above 0 that is appended
-- then takes the place of that 0 with its lowest 8 bits, and `str_chars` hands out the old characters
-- behind it again, up to the next 0.
pub append_char-str_set :
    (s : Str) (xs : String) (i c : ℕ)
    → HasText s xs
    → i < length xs
    → 0 < c
    → (t : Str) × ((str_set s i 0).1.len ≡ i)
      × (append_char (str_set s i 0).1 c ≡ some (true, t))
      × (t.len ≡ suc i)
      × (chars t.buffer ≡ chars (set xs i (c % 256)))
unfolding append_char str_set expand
append_char-str_set s xs i c k inside some_char =
    let long = k.long in
    let sized = k.sized in
    let ended = k.ended in
    let own = lt→ltb 0 s.bufsize (omega arith) in
    let here = lt→ltb i s.len (omega arith) in
    let some_target : (i + 1 == 0) ≡ false = ground arith in
    let fits : ltb s.bufsize (suc (i + 1)) ≡ false = ground arith in
    (
      record s { buffer = set (set s.buffer i 0) i (c % 256); pos = 0; len = suc i },
      rw (own, here) refl,
      rw (own, here, own, lt→ltb 0 c some_char, some_target, fits) refl,
      refl,
      ap chars (
            set-set s.buffer i 0 (c % 256)
            ∙ ap (λ b. set b i (c % 256)) k.bytes
            ∙ set-append xs (replicate k.zeros 0) i (c % 256) inside)
          ∙ chars-zeros (set xs i (c % 256)) k.zeros,
    )
