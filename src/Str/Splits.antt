-- ===== src/Str/Splits.antt =====
-- `str_split` of lib/str.c, and how `str_join` takes it back.
use obelix.Prelude.{
  ℕ, zero, suc, ◌+◌, ◌≡◌, ◌<◌, refl, sym, ap, ap₂, ◌∙◌, true, ◌&&◌, Option, none, some,
  Option-cases, ◌>>=◌, List, [], ◌∷◌, ◌++◌, map, ltb, if◌then◌else◌, Bool-cases, inl, inr, arith,
  length, take, drop, subst, length-drop, take-append-drop, append_assoc,
}
use obelix.Strutils.{String}
use obelix.Str.{Str, chars, str_copy_chars, str_copy_nchars}
use obelix.Str.Bytes.{no_zero, no_zero-drop, drop-drop}
use obelix.Str.Contents.{HasText, chars-HasText, copy_chars-HasText, copy_nchars-HasText}
use obelix.Str.Search.{is_prefix, is_prefix-length, strstr, strstr-First, First}
use obelix.Str.Backwards.{prefix_split}
use obelix.Str.Joins.{intercalate, join, join-HasText, all_no_zero, no_length}

-- The loop of `str_split` from `ptr` on; `none` is too little fuel.
unfoldable pub split_from : ℕ → String → String → Option (List Str)
unfolding strstr str_copy_chars str_copy_nchars
split_from zero ptr sep = none
split_from (suc n) ptr sep = elim (strstr ptr sep) [
  | none ↦ some (str_copy_chars ptr ∷ [])
  | some i ↦
      split_from n (drop (i + length sep) ptr) sep >>= λ rest. some (str_copy_nchars ptr i ∷ rest)
]

unfoldable pub split : Str → String → Option (List Str)
unfolding split_from
split s sep = if ltb 0 s.len then split_from (suc s.len) (chars s.buffer) sep else some []

abbrev pub texts : List Str → List String
texts rs = map (λ r. chars r.buffer) rs

-- What a split of `ptr` gives: strings that make it again.
record Parts (ptr sep : String) (rs : List Str) : Type 0 where
  whole : intercalate sep (texts rs) ≡ ptr
  clean : all_no_zero (texts rs) ≡ true
  some_part : 0 < length rs

around :
    (ptr sep : String) (i : ℕ)
    → is_prefix sep (drop i ptr) ≡ true
    → take i ptr ++ sep ++ drop (i + length sep) ptr ≡ ptr
around ptr sep i there =
    append_assoc (take i ptr) sep (drop (i + length sep) ptr)
    ∙ ap (λ ys. take i ptr ++ ys)
        (ap (λ ys. sep ++ ys) (sym (drop-drop (length sep) i ptr))
          ∙ sym (prefix_split sep (drop i ptr) there))
    ∙ take-append-drop i ptr

one_more :
    (ptr sep : String) (i : ℕ) (rs : List Str)
    → no_zero ptr ≡ true
    → is_prefix sep (drop i ptr) ≡ true
    → Parts (drop (i + length sep) ptr) sep rs
    → Parts ptr sep (str_copy_nchars ptr i ∷ rs)
one_more ptr sep i [] clean there k = absurd (let h = k.some_part in omega arith)
one_more ptr sep i (r ∷ rs) clean there k =
    let k₀ = copy_nchars-HasText ptr i clean in
    let first = chars-HasText (str_copy_nchars ptr i) (take i ptr) k₀ in
    let clean_first = k₀.clean in
    let clean_rest = k.clean in
    record {
      whole = ap₂ (λ x ys. x ++ sep ++ ys) first k.whole ∙ around ptr sep i there;
      clean = ap (λ x. no_zero x && all_no_zero (texts (r ∷ rs))) first ∙ ground arith;
      some_part = omega arith;
    }

split_from-Parts :
    (n : ℕ) (ptr sep : String)
    → no_zero ptr ≡ true
    → 0 < length sep
    → length ptr < n
    → (rs : List Str) × (split_from n ptr sep ≡ some rs) × Parts ptr sep rs
unfolding split_from
split_from-Parts zero ptr sep clean some_sep few = absurd (omega arith)
split_from-Parts (suc n) ptr sep clean some_sep few = elim (Option-cases (strstr ptr sep)) [
  | inl away ↦
      let k = copy_chars-HasText ptr clean in
      let same = chars-HasText (str_copy_chars ptr) ptr k in
      (
        str_copy_chars ptr ∷ [],
        rw (away, split_from) refl,
        record {
          whole = same;
          clean = ap (λ x. no_zero x && true) same ∙ ground arith;
          some_part = omega arith;
        },
      )
  | inr (i, found) ↦
      let (inside, there, _) : First ptr sep (some i) =
        subst (λ r. First ptr sep r) found (strstr-First ptr sep) in
      let (rs, runs, k) =
        split_from-Parts n (drop (i + length sep) ptr) sep (no_zero-drop (i + length sep) ptr clean)
          some_sep
          (let fits = is_prefix-length sep (drop i ptr) there in
            omega (arith, length-drop i ptr, length-drop (i + length sep) ptr)) in
      (
        str_copy_nchars ptr i ∷ rs,
        rw (found, split_from) (rw runs refl),
        one_more ptr sep i rs clean there k,
      )
]

-- `str_split` ends for a separator that is not empty, and `str_join` with the separator makes the
-- text again of what it gives.
pub join-split :
    (s : Str) (xs sep : String)
    → HasText s xs
    → no_zero sep ≡ true
    → 0 < length sep
    → (rs : List Str) × (t : Str) × (split s sep ≡ some rs)
      × (join sep (texts rs) ≡ some t)
      × HasText t xs
unfolding split
join-split s xs sep k clean_sep some_sep =
    let long = k.long in
    elim (Bool-cases (ltb 0 s.len)) [
      | inl full ↦
          let (rs, runs, parts) =
            split_from-Parts (suc (length xs)) xs sep k.clean some_sep (omega arith) in
          let (t, joins, text) = join-HasText sep (texts rs) clean_sep parts.clean in
          (
            rs,
            t,
            rw full (ap₂ (λ n ys. split_from (suc n) ys sep) long (chars-HasText s xs k) ∙ runs),
            joins,
            subst (λ ys. HasText t ys) parts.whole text,
          )
      | inr empty ↦
          let (t, joins, text) = join-HasText sep [] clean_sep refl in
          (
            [],
            t,
            rw empty refl,
            joins,
            subst (λ ys. HasText t ys) (sym (no_length xs (ground arith))) text,
          )
    ]
