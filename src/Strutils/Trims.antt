-- ===== src/Strutils/Trims.antt =====
-- `strtrim` of lib/strutils.c.
use obelix.Prelude.{
  ℕ, zero, suc, ◌≡◌, ◌⊎◌, inl, inr, refl, sym, ap, ◌∙◌, Bool, true, false, ◌&&◌, [], ◌∷◌, ◌++◌,
  length, get_or, take, length-take, append_assoc, append-nil, arith, Bool-cases,
}
use obelix.Strutils.{String, isspace, strltrim, cut_back, strrtrim, strtrim, char_at}

abbrev pub all_space : String → Bool
all_space [] = true
all_space (c ∷ cs) = isspace c && all_space cs

-- `t` is `str` without the space at its end.
pub record EndsTrimmed (str t : String) : Type 0 where
  pub trail : String
  pub parts : str ≡ t ++ trail
  pub blank : all_space trail ≡ true
  pub solid : (t ≡ []) ⊎ ((front : String) × (c : ℕ) × (t ≡ front ++ c ∷ []) × (isspace c ≡ false))

split_last : (str : String) (n : ℕ) → length str ≡ suc n → str ≡ take n str ++ get_or str n 0 ∷ []
split_last [] n h = absurd (omega arith)
split_last (c ∷ []) zero h = refl
split_last (c ∷ d ∷ ds) zero h = absurd (omega arith)
split_last (c ∷ cs) (suc n) h = ap (λ l. c ∷ l) (split_last cs n (omega arith))

and_true : (a b : Bool) → (a && b) ≡ true → (a ≡ true) × (b ≡ true)
and_true true b h = (refl, h)
and_true false b h = cc

all_space-snoc :
    (s : String) (c : ℕ) → all_space s ≡ true → isspace c ≡ true → all_space (s ++ c ∷ []) ≡ true
all_space-snoc [] c h k = rw k refl
all_space-snoc (d ∷ s) c h k =
    let (space, rest) = and_true (isspace d) (all_space s) h in
    rw (space, all_space-snoc s c rest k) refl

cut_back-EndsTrimmed : (ix : ℕ) (str : String) → length str ≡ ix → EndsTrimmed str (cut_back ix str)
unfolding cut_back
cut_back-EndsTrimmed zero [] h = record { trail = []; parts = refl; blank = refl; solid = inl refl }
cut_back-EndsTrimmed zero (c ∷ cs) h = absurd (omega arith)
cut_back-EndsTrimmed (suc ix) str h =
    let whole = split_last str ix h in
    elim (Bool-cases (isspace (get_or str ix 0))) [
      | inl space ↦
          let rest = cut_back-EndsTrimmed ix (take ix str) (omega (arith, length-take ix str)) in
          rw space (record {
            trail = rest.trail ++ get_or str ix 0 ∷ [];
            parts =
                whole
                ∙ ap (λ l. l ++ get_or str ix 0 ∷ []) rest.parts
                ∙ append_assoc (cut_back ix (take ix str)) rest.trail (get_or str ix 0 ∷ []);
            blank = all_space-snoc rest.trail (get_or str ix 0) rest.blank space;
            solid = rest.solid;
          })
      | inr solid ↦ rw solid (record {
        trail = [];
        parts = sym (append-nil str);
        blank = refl;
        solid = inr (take ix str, get_or str ix 0, whole, solid);
      })
    ]

-- `t` is `str` without the space in front.
record StartsTrimmed (str t : String) : Type 0 where
  lead : String
  parts : str ≡ lead ++ t
  blank : all_space lead ≡ true
  solid : (t ≡ []) ⊎ (isspace (char_at t) ≡ false)

strltrim-StartsTrimmed : (str : String) → StartsTrimmed str (strltrim str)
unfolding strltrim
strltrim-StartsTrimmed [] = record { lead = []; parts = refl; blank = refl; solid = inl refl }
strltrim-StartsTrimmed (c ∷ cs) = elim (Bool-cases (isspace c)) [
  | inl space ↦
      let rest = strltrim-StartsTrimmed cs in
      rw space (record {
        lead = c ∷ rest.lead;
        parts = ap (λ l. c ∷ l) rest.parts;
        blank = rw (space, rest.blank) refl;
        solid = rest.solid;
      })
  | inr solid ↦ rw solid (record { lead = []; parts = refl; blank = refl; solid = inr solid })
]

-- `t` is what is left of `str` between space in front and space behind; it neither starts nor ends
-- with space.
pub record Trimmed (str t : String) : Type 0 where
  pub lead : String
  pub trail : String
  pub parts : str ≡ lead ++ (t ++ trail)
  pub blank_lead : all_space lead ≡ true
  pub blank_trail : all_space trail ≡ true
  pub first_solid : (t ≡ []) ⊎ (isspace (char_at t) ≡ false)
  pub last_solid :
      (t ≡ []) ⊎ ((front : String) × (c : ℕ) × (t ≡ front ++ c ∷ []) × (isspace c ≡ false))

first_kept :
    (t u trail : String)
    → t ≡ u ++ trail
    → (t ≡ []) ⊎ (isspace (char_at t) ≡ false)
    → (u ≡ []) ⊎ (isspace (char_at u) ≡ false)
first_kept t [] trail e h = inl refl
first_kept t (c ∷ u) trail e (inl none_left) = cc
first_kept t (c ∷ u) trail e (inr solid) = inr (ap (λ l. isspace (char_at l)) (sym e) ∙ solid)

-- `strtrim` takes away exactly the space at both ends.
pub strtrim-Trimmed : (str : String) → Trimmed str (strtrim str)
unfolding strtrim strrtrim
strtrim-Trimmed str =
    let l = strltrim-StartsTrimmed str in
    let r = cut_back-EndsTrimmed (length (strltrim str)) (strltrim str) refl in
    record {
      lead = l.lead;
      trail = r.trail;
      parts = l.parts ∙ ap (λ t. l.lead ++ t) r.parts;
      blank_lead = l.blank;
      blank_trail = r.blank;
      first_solid = first_kept (strltrim str) (strtrim str) r.trail r.parts l.solid;
      last_solid = r.solid;
    }
