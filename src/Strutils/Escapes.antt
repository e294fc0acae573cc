-- ===== src/Strutils/Escapes.antt =====
-- The round trip of `escape` and `unescape` in lib/strutils.c.
use obelix.Prelude.{
  ℕ, ◌≡◌, inl, inr, refl, ap, ◌∙◌, true, false, Option, List, [], ◌∷◌, ◌==◌, arith, Bool-cases,
}
use obelix.Strutils.{
  String, one_of, escapes, escape_with, escape_from, escape, unescape_from, unescape,
}

unescape_from-hit :
    (ch d : ℕ) (ds : String) → unescape_from ch (ch ∷ d ∷ ds) ≡ d ∷ unescape_from ch ds
unfolding unescape_from
unescape_from-hit ch d ds = let e : (ch == ch) ≡ true = ground arith in rw e refl

unescape_from-miss :
    (ch c : ℕ) (cs : String)
    → (c == ch) ≡ false
    → unescape_from ch (c ∷ cs) ≡ c ∷ unescape_from ch cs
unfolding unescape_from
unescape_from-miss ch c [] h = refl
unescape_from-miss ch c (d ∷ ds) h = rw h refl

missed : (set : List ℕ) (ch c : ℕ) → one_of set ch ≡ true → one_of set c ≡ false → (c == ch) ≡ false
missed set ch c hit miss = elim (Bool-cases (c == ch)) [
  | inl same ↦ let e : c ≡ ch = ground arith in cc (ap (one_of set) e, hit, miss)
  | inr apart ↦ apart
]

unescape_from-escape_from :
    (set : List ℕ) (ch : ℕ) (str : String)
    → one_of set ch ≡ true
    → unescape_from ch (escape_from set ch str) ≡ str
unfolding escape_from
unescape_from-escape_from set ch [] h = unfold unescape_from in refl
unescape_from-escape_from set ch (c ∷ cs) h =
    let rest = unescape_from-escape_from set ch cs h in
    elim (Bool-cases (one_of set c)) [
      | inl hit ↦ rw hit (unescape_from-hit ch c (escape_from set ch cs) ∙ ap (λ l. c ∷ l) rest)
      | inr miss ↦ rw miss (
          unescape_from-miss ch c (escape_from set ch cs) (missed set ch c h miss)
          ∙ ap (λ l. c ∷ l) rest)
    ]

-- `unescape` takes back what `escape` did, if the escape character is among those that are escaped.
pub unescape-escape :
    (str : String) (escapeable : Option (List ℕ)) (escape_char : ℕ)
    → one_of (escapes escapeable) (escape_with escape_char) ≡ true
    → unescape (escape str escapeable escape_char) escape_char ≡ str
unfolding unescape escape
unescape-escape str escapeable escape_char h =
    unescape_from-escape_from (escapes escapeable) (escape_with escape_char) str h
