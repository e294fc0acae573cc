-- ===== src/Str/Backwards.antt =====
-- `str_rindexof_chars` of lib/str.c, and the methods that look at the start and the end of a string.
use obelix.Prelude.{
  ℕ, zero, suc, ◌+◌, ◌-◌, ◌≡◌, ◌≤◌, ◌<◌, ◌↔◌, refl, sym, ap, ap₂, ◌∙◌, true, false, [], ◌∷◌, ◌++◌,
  ltb, lt→ltb, leb, ◌==◌, if◌then◌else◌, Bool-cases, inl, inr, arith, length, take, drop, replicate,
  subst, length-append, length-drop, take-append-drop, append-nil, drop-past, ltb→lt,
}
use obelix.Prelude.Int.{ℤ, pos, negsuc}
use obelix.Strutils.{String}
use obelix.Str.{Str, chars}
use obelix.Str.Bytes.{drop-append_le, drop-front}
use obelix.Str.Contents.{HasText, chars-HasText}
use obelix.Str.Pieces.{chars-drop}
use obelix.Str.Search.{
  is_prefix, rfind, rindexof_chars, startswith, endswith, is_prefix-within, too_short,
  is_prefix-length,
}

-- `i` is the last index up to `n`, but not 0, where the pattern stands.
abbrev pub LastBut0 : ℕ → String → String → ℤ → Type 0
LastBut0 n xs pattern (negsuc m) = (j : ℕ) → 0 < j → j ≤ n → is_prefix pattern (drop j xs) ≡ false
LastBut0 n xs pattern (pos i) =
    (0 < i)
    × (i ≤ n)
    × (is_prefix pattern (drop i xs) ≡ true)
    × ((j : ℕ) → i < j → j ≤ n → is_prefix pattern (drop j xs) ≡ false)

one_more :
    (n : ℕ) (xs pattern : String) (r : ℤ)
    → is_prefix pattern (drop (suc n) xs) ≡ false
    → LastBut0 n xs pattern r
    → LastBut0 (suc n) xs pattern r
one_more n xs pattern (pos i) away (some_i, inside, there, later) = (
  some_i,
  omega arith,
  there,
  λ j behind below. elim (Bool-cases (j == suc n)) [
    | inl last ↦
        let e : suc n ≡ j = ground arith in
        subst (λ m. is_prefix pattern (drop m xs) ≡ false) e away
    | inr other ↦ later j behind (ground arith)
  ],
)
one_more n xs pattern (negsuc m) away nowhere = λ j some_j below. elim (Bool-cases (j == suc n)) [
  | inl last ↦
      let e : suc n ≡ j = ground arith in subst (λ m. is_prefix pattern (drop m xs) ≡ false) e away
  | inr other ↦ nowhere j some_j (ground arith)
]

rfind_lem : (n : ℕ) (xs pattern : String) → LastBut0 n xs pattern (rfind n xs pattern)
unfolding rfind
rfind_lem zero xs pattern = λ j some_j inside. absurd (omega arith)
rfind_lem (suc n) xs pattern = elim (Bool-cases (is_prefix pattern (drop (suc n) xs))) [
  | inl there ↦ rw there (omega arith, omega arith, there, λ j behind below. absurd (omega arith))
  | inr away ↦ rw away (one_more n xs pattern (rfind n xs pattern) away (rfind_lem n xs pattern))
]

rfind-text :
    (n : ℕ) (xs rest pattern : String)
    → n + length pattern ≤ length xs
    → rfind n (xs ++ rest) pattern ≡ rfind n xs pattern
unfolding rfind
rfind-text zero xs rest pattern fits = refl
rfind-text (suc n) xs rest pattern fits =
    ap₂ (λ b z. if b then pos (suc n) else z)
      (ap (is_prefix pattern) (drop-append_le (suc n) xs rest (omega arith))
        ∙ is_prefix-within pattern (drop (suc n) xs) rest (omega (arith, length-drop (suc n) xs)))
      (rfind-text n xs rest pattern (omega arith))

widen :
    (m n : ℕ) (xs pattern : String) (r : ℤ)
    → m ≤ n
    → ((j : ℕ) → m < j → j ≤ n → is_prefix pattern (drop j xs) ≡ false)
    → LastBut0 m xs pattern r
    → LastBut0 n xs pattern r
widen m n xs pattern (pos i) wider past (some_i, inside, there, later) = (
  some_i,
  omega arith,
  there,
  λ j behind below. elim (Bool-cases (leb j m)) [
    | inl near ↦ later j behind (ground arith)
    | inr far ↦ past j (ground arith) below
  ],
)
widen m n xs pattern (negsuc a) wider past nowhere = λ j some_j below. elim (Bool-cases (leb j m)) [
  | inl near ↦ nowhere j some_j (ground arith)
  | inr far ↦ past j (ground arith) below
]

-- `str_rindexof_chars` answers the last index, but for index 0, at which the pattern stands in the
-- text, and -1 where there is none: also where the pattern stands at index 0.
pub rindexof_chars-LastBut0 :
    (s : Str) (xs pattern : String)
    → HasText s xs
    → LastBut0 (length xs) xs pattern (rindexof_chars s pattern)
unfolding rindexof_chars
rindexof_chars-LastBut0 s xs pattern k =
    let long = k.long in
    elim (Bool-cases (ltb s.len (length pattern))) [
      | inl short ↦ rw short (λ j some_j inside. too_short pattern xs j (ground arith))
      | inr fits ↦
          let m = length xs - length pattern in
          let same : rfind (s.len - length pattern) s.buffer pattern ≡ rfind m xs pattern =
            ap₂ (λ n b. rfind (n - length pattern) b pattern) long k.bytes
            ∙ rfind-text m xs (replicate k.zeros 0) pattern (ground arith) in
          rw (fits, same)
            (widen m (length xs) xs pattern (rfind m xs pattern) (omega arith)
              (λ j far below. elim (Bool-cases (is_prefix pattern (drop j xs))) [
                | inl there ↦
                    let room = is_prefix-length pattern (drop j xs) there in
                    absurd (ground (arith, length-drop j xs))
                | inr away ↦ away
              ])
              (rfind_lem m xs pattern))
    ]

pub prefix_split : (ps xs : String) → is_prefix ps xs ≡ true → xs ≡ ps ++ drop (length ps) xs
prefix_split [] xs h = refl
prefix_split (p ∷ ps) [] h = cc h
prefix_split (p ∷ ps) (x ∷ xs) h =
    let same : x ≡ p = ground arith in ap₂ (λ y ys. y ∷ ys) same (prefix_split ps xs (ground arith))

is_prefix-append : (ps xs : String) → is_prefix ps (ps ++ xs) ≡ true
is_prefix-append [] xs = refl
is_prefix-append (p ∷ ps) xs = ground (arith, is_prefix-append ps xs)

startswith-is_prefix :
    (s : Str) (xs prefix : String) → HasText s xs → startswith s prefix ≡ is_prefix prefix xs
unfolding startswith
startswith-is_prefix s xs prefix k =
    let long = k.long in
    let same = chars-HasText s xs k in
    elim (Bool-cases (ltb s.len (length prefix))) [
      | inl short ↦ rw short (sym (too_short prefix xs 0 (ground arith)))
      | inr fits ↦ rw fits (ap (is_prefix prefix) same)
    ]

-- `startswith` answers whether the text is the prefix and something behind it.
pub startswith_iff :
    (s : Str) (xs prefix : String)
    → HasText s xs
    → (startswith s prefix ≡ true) ↔ ((rest : String) × (xs ≡ prefix ++ rest))
startswith_iff s xs prefix k =
    let e = startswith-is_prefix s xs prefix k in
    (
      λ h. (drop (length prefix) xs, prefix_split prefix xs (sym e ∙ h)),
      λ (rest, split). e ∙ ap (is_prefix prefix) split ∙ is_prefix-append prefix rest,
    )

endswith-is_prefix :
    (s : Str) (xs suffix : String)
    → HasText s xs
    → length suffix ≤ length xs
    → endswith s suffix ≡ is_prefix suffix (drop (length xs - length suffix) xs)
unfolding endswith
endswith-is_prefix s xs suffix k fits =
    let long = k.long in
    rw (let e : ltb s.len (length suffix) ≡ false = ground arith in e) (
      ap (λ n. is_prefix suffix (chars (drop (n - length suffix) s.buffer))) long
      ∙ ap (is_prefix suffix) (chars-drop s xs (length xs - length suffix) k (omega arith)))

endswith-short : (s : Str) (suffix : String) → s.len < length suffix → endswith s suffix ≡ false
unfolding endswith
endswith-short s suffix short = rw (lt→ltb s.len (length suffix) short) refl

-- `endswith` answers whether the text is the suffix with something in front of it.
pub endswith_iff :
    (s : Str) (xs suffix : String)
    → HasText s xs
    → (endswith s suffix ≡ true) ↔ ((front : String) × (xs ≡ front ++ suffix))
endswith_iff s xs suffix k =
    let long = k.long in
    let n = length xs - length suffix in
    (
      λ h. elim (Bool-cases (ltb s.len (length suffix))) [
        | inl short ↦ cc (h, endswith-short s suffix (ltb→lt s.len (length suffix) short))
        | inr fits ↦
            let e = endswith-is_prefix s xs suffix k (ground arith) in
            let split = prefix_split suffix (drop n xs) (sym e ∙ h) in
            let nothing : drop (length suffix) (drop n xs) ≡ [] =
              drop-past (drop n xs) (length suffix) (omega (arith, length-drop n xs)) in
            (
              take n xs,
              sym (take-append-drop n xs)
                  ∙ ap (λ ys. take n xs ++ ys)
                      (split ∙ ap (λ ys. suffix ++ ys) nothing ∙ append-nil suffix),
            )
      ],
      λ (front, split).
          let whole = ap length split ∙ length-append front suffix in
          let at : n ≡ length front = omega arith in
          endswith-is_prefix s xs suffix k (omega arith)
          ∙ ap₂ (λ m ys. is_prefix suffix (drop m ys)) at split
          ∙ ap (is_prefix suffix) (drop-front front suffix)
          ∙ ap (is_prefix suffix) (sym (append-nil suffix))
          ∙ is_prefix-append suffix [],
    )
