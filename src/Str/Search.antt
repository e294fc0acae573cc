-- ===== src/Str/Search.antt =====
-- Looking for one string in another: `str_indexof_chars` and `str_rindexof_chars` of lib/str.c, and
-- the methods `has`, `startswith` and `endswith`.
use obelix.Prelude.{
  ℕ, zero, suc, ◌-◌, ◌≡◌, ◌≤◌, ◌<◌, refl, ap, Bool, true, false, ◌&&◌, Option, none, some, List, [],
  ◌∷◌, ◌++◌, ltb, ◌==◌, if◌then◌else◌, Bool-cases, inl, inr, arith, length, drop, length-drop,
}
use obelix.Prelude.Int.{ℤ, pos, negsuc}
use obelix.Strutils.{String}
use obelix.Str.{Str, chars}
use obelix.Str.Contents.{HasText, chars-HasText}

-- `!strncmp(ptr, pattern, strlen(pattern))`
abbrev pub is_prefix : String → String → Bool
is_prefix [] xs = true
is_prefix (p ∷ ps) [] = false
is_prefix (p ∷ ps) (x ∷ xs) = p == x && is_prefix ps xs

abbrev pub one_on : Option ℕ → Option ℕ
one_on none = none
one_on (some i) = some (suc i)

-- `strstr`, with the index in place of the pointer.
unfoldable pub strstr : String → String → Option ℕ
strstr [] pattern = if is_prefix pattern [] then some 0 else none
strstr (c ∷ cs) pattern =
    let rest = strstr cs pattern in if is_prefix pattern (c ∷ cs) then some 0 else one_on rest

abbrev pub index : Option ℕ → ℤ
index none = negsuc 0
index (some i) = pos i

unfoldable pub indexof_chars : Str → String → ℤ
unfolding strstr
indexof_chars s pattern =
    if ltb s.len (length pattern) then negsuc 0 else index (strstr (chars s.buffer) pattern)

unfoldable pub indexof : Str → Str → ℤ
unfolding indexof_chars
indexof s pattern =
    if ltb s.len pattern.len then negsuc 0 else indexof_chars s (chars pattern.buffer)

-- The loop of `str_rindexof_chars`, downwards; it ends before it looks at index 0.
unfoldable pub rfind : ℕ → List ℕ → String → ℤ
rfind zero buffer pattern = negsuc 0
rfind (suc i) buffer pattern =
    let rest = rfind i buffer pattern in
    if is_prefix pattern (drop (suc i) buffer) then pos (suc i) else rest

unfoldable pub rindexof_chars : Str → String → ℤ
unfolding rfind
rindexof_chars s pattern =
    if ltb s.len (length pattern) then negsuc 0 else rfind (s.len - length pattern) s.buffer pattern

unfoldable pub startswith : Str → String → Bool
startswith s prefix = if ltb s.len (length prefix) then false else is_prefix prefix (chars s.buffer)

unfoldable pub endswith : Str → String → Bool
endswith s suffix =
    if ltb s.len (length suffix)
    then false
    else is_prefix suffix (chars (drop (s.len - length suffix) s.buffer))

unfoldable pub has : Str → String → Bool
unfolding indexof_chars
has s needle = elim (indexof_chars s needle) [ pos i ↦ true | negsuc i ↦ false ]

-- `i` is where the pattern comes first.
abbrev pub First : String → String → Option ℕ → Type 0
First xs pattern none = (i : ℕ) → i ≤ length xs → is_prefix pattern (drop i xs) ≡ false
First xs pattern (some i) =
    (i ≤ length xs)
    × (is_prefix pattern (drop i xs) ≡ true)
    × ((j : ℕ) → j < i → is_prefix pattern (drop j xs) ≡ false)

nowhere-cons :
    (c : ℕ) (cs pattern : String)
    → is_prefix pattern (c ∷ cs) ≡ false
    → ((i : ℕ) → i ≤ length cs → is_prefix pattern (drop i cs) ≡ false)
    → (i : ℕ) → i ≤ suc (length cs)
    → is_prefix pattern (drop i (c ∷ cs)) ≡ false
nowhere-cons c cs pattern e f zero inside = e
nowhere-cons c cs pattern e f (suc i) inside = f i (omega arith)

not_before-cons :
    (c : ℕ) (cs pattern : String) (i : ℕ)
    → is_prefix pattern (c ∷ cs) ≡ false
    → ((j : ℕ) → j < i → is_prefix pattern (drop j cs) ≡ false)
    → (j : ℕ) → j < suc i
    → is_prefix pattern (drop j (c ∷ cs)) ≡ false
not_before-cons c cs pattern i e f zero below = e
not_before-cons c cs pattern i e f (suc j) below = f j (omega arith)

First-one_on :
    (c : ℕ) (cs pattern : String) (r : Option ℕ)
    → is_prefix pattern (c ∷ cs) ≡ false
    → First cs pattern r
    → First (c ∷ cs) pattern (one_on r)
First-one_on c cs pattern none e f = nowhere-cons c cs pattern e f
First-one_on c cs pattern (some i) e (inside, there, others) =
    (omega arith, there, not_before-cons c cs pattern i e others)

at_start : (xs pattern : String) → is_prefix pattern xs ≡ true → First xs pattern (some 0)
at_start xs pattern e = (omega arith, e, λ j below. absurd (omega arith))

not_at_end :
    (pattern : String)
    → is_prefix pattern [] ≡ false
    → (i : ℕ) → i ≤ 0
    → is_prefix pattern (drop i []) ≡ false
not_at_end pattern e zero inside = e
not_at_end pattern e (suc i) inside = absurd (omega arith)

pub strstr-First : (xs pattern : String) → First xs pattern (strstr xs pattern)
unfolding strstr
strstr-First [] pattern = elim (Bool-cases (is_prefix pattern [])) [
  | inl there ↦ rw there (at_start [] pattern there)
  | inr away ↦ rw away (not_at_end pattern away)
]
strstr-First (c ∷ cs) pattern = elim (Bool-cases (is_prefix pattern (c ∷ cs))) [
  | inl there ↦ rw there (at_start (c ∷ cs) pattern there)
  | inr away ↦
      rw away (First-one_on c cs pattern (strstr cs pattern) away (strstr-First cs pattern))
]

pub is_prefix-length : (ps xs : String) → is_prefix ps xs ≡ true → length ps ≤ length xs
is_prefix-length [] xs h = omega arith
is_prefix-length (p ∷ ps) [] h = cc h
is_prefix-length (p ∷ ps) (x ∷ xs) h =
    let rest = is_prefix-length ps xs (ground arith) in omega arith

pub too_short : (ps xs : String) (i : ℕ) → length xs < length ps → is_prefix ps (drop i xs) ≡ false
too_short ps xs i short = elim (Bool-cases (is_prefix ps (drop i xs))) [
  | inl there ↦
      let fits = is_prefix-length ps (drop i xs) there in absurd (omega (arith, length-drop i xs))
  | inr away ↦ away
]

-- `str_indexof_chars` answers the first index at which the pattern stands in the text, -1 where it
-- stands nowhere.
pub indexof_chars-First :
    (s : Str) (xs pattern : String)
    → HasText s xs
    → (r : Option ℕ) × (indexof_chars s pattern ≡ index r) × First xs pattern r
unfolding indexof_chars
indexof_chars-First s xs pattern k =
    let long = k.long in
    elim (Bool-cases (ltb s.len (length pattern))) [
      | inl short ↦ (none, rw short refl, λ i inside. too_short pattern xs i (ground arith))
      | inr fits ↦ (
        strstr xs pattern,
        rw fits (ap (λ cs. index (strstr cs pattern)) (chars-HasText s xs k)),
        strstr-First xs pattern,
      )
    ]

-- A pattern that fits within a text is not affected by what stands behind it.
pub is_prefix-within :
    (ps xs rest : String) → length ps ≤ length xs → is_prefix ps (xs ++ rest) ≡ is_prefix ps xs
is_prefix-within [] xs rest fits = refl
is_prefix-within (p ∷ ps) [] rest fits = absurd (omega arith)
is_prefix-within (p ∷ ps) (x ∷ xs) rest fits =
    ap (λ b. p == x && b) (is_prefix-within ps xs rest (omega arith))
