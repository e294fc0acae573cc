-- ===== src/Str/Joins.antt =====
-- `_str_join` of lib/str.c, on the strings that a collection hands out.
use obelix.Prelude.{
  ◌-◌, ◌≡◌, ◌≤◌, refl, sym, ap, ◌∙◌, Bool, true, false, ◌&&◌, Option, some, ◌>>=◌, List, [], ◌∷◌,
  ◌++◌, ltb, if◌then◌else◌, Bool-cases, inl, inr, arith, length, take, subst, length-append,
  append_assoc, append-nil,
}
use obelix.Strutils.{String}
use obelix.Str.{Str, str_create, append_chars, chop}
use obelix.Str.Bytes.{no_zero, take-front}
use obelix.Str.Contents.{HasText, IsGrowable, create-HasText}
use obelix.Str.Appends.{append_chars-HasText}
use obelix.Str.Cuts.{chop-HasText}

-- `_str_join_reducer`
unfoldable pub join_reducer : String → String → Str → Option Str
unfolding append_chars
join_reducer elem glue target =
    append_chars target elem >>= λ r. append_chars r.1 glue >>= λ q. some q.1

unfoldable pub join_from : String → List String → Str → Option Str
unfolding join_reducer
join_from glue [] target = some target
join_from glue (elem ∷ elems) target = join_reducer elem glue target >>= λ t. join_from glue elems t

-- `_str_join` over the strings that the reducer of a collection hands out.
unfoldable pub join : String → List String → Option Str
unfolding join_from str_create chop
join glue elems = join_from glue elems (str_create 0) >>= λ t.
    some (if ltb 0 t.len then (chop t (length glue)).1 else t)

abbrev pub all_no_zero : List String → Bool
all_no_zero [] = true
all_no_zero (x ∷ xs) = no_zero x && all_no_zero xs

-- The strings with the glue between them.
abbrev pub intercalate : String → List String → String
intercalate glue [] = []
intercalate glue (x ∷ []) = x
intercalate glue (x ∷ y ∷ ys) = x ++ glue ++ intercalate glue (y ∷ ys)

-- The strings with the glue behind each.
abbrev spread : String → List String → String
spread glue [] = []
spread glue (x ∷ xs) = x ++ glue ++ spread glue xs

spread-intercalate :
    (glue x : String) (xs : List String) → spread glue (x ∷ xs) ≡ intercalate glue (x ∷ xs) ++ glue
spread-intercalate glue x [] = append-nil (x ++ glue)
spread-intercalate glue x (y ∷ ys) =
    ap (λ zs. x ++ glue ++ zs) (spread-intercalate glue y ys)
    ∙ sym (append_assoc (x ++ glue) (intercalate glue (y ∷ ys)) glue)

join_from-HasText :
    (glue : String) (elems : List String) (s : Str) (xs : String)
    → no_zero glue ≡ true
    → all_no_zero elems ≡ true
    → IsGrowable s xs
    → (t : Str) × (join_from glue elems s ≡ some t) × IsGrowable t (xs ++ spread glue elems)
unfolding join_from join_reducer
join_from-HasText glue [] s xs whole all g =
    (s, refl, subst (λ ys. IsGrowable s ys) (sym (append-nil xs)) g)
join_from-HasText glue (elem ∷ elems) s xs whole all g =
    let (s₁, runs₁, g₁) = append_chars-HasText s xs elem g (ground arith) in
    let (s₂, runs₂, g₂) = append_chars-HasText s₁ (xs ++ elem) glue g₁ whole in
    let (t, runs, g₃) =
      join_from-HasText glue elems s₂ (xs ++ elem ++ glue) whole (ground arith) g₂ in
    (
      t,
      rw (runs₁, runs₂) runs,
      subst (λ ys. IsGrowable t ys)
          (ap (λ ys. ys ++ spread glue elems) (append_assoc xs elem glue)
            ∙ append_assoc xs (elem ++ glue) (spread glue elems))
          g₃,
    )

pub no_length : (xs : String) → length xs ≤ 0 → xs ≡ []
no_length [] h = refl
no_length (x ∷ xs) h = absurd (omega arith)

joined :
    (glue : String) (elems : List String) (t : Str)
    → HasText t (spread glue elems)
    → HasText (if ltb 0 t.len then (chop t (length glue)).1 else t) (intercalate glue elems)
joined glue [] t k = let long = k.long in rw (let e : ltb 0 t.len ≡ false = ground arith in e) k
joined glue (x ∷ xs) t k =
    let long = k.long in
    let ys = intercalate glue (x ∷ xs) in
    let split = spread-intercalate glue x xs in
    let (u, e, text, _) = chop-HasText t (spread glue (x ∷ xs)) (length glue) k in
    elim (Bool-cases (ltb 0 t.len)) [
      | inl full ↦
          let kept : take (length (spread glue (x ∷ xs)) - length glue) (spread glue (x ∷ xs))
              ≡ ys =
            ap (λ zs. take (length zs - length glue) zs) split
            ∙ ap (λ n. take n (ys ++ glue))
                (let e : length (ys ++ glue) - length glue ≡ length ys =
                    omega (arith, length-append ys glue) in
                  e)
            ∙ take-front ys glue in
          rw full (
            subst (λ zs. HasText (chop t (length glue)).1 zs) kept
              (subst
                (λ r.
                  HasText r.1
                    (take (length (spread glue (x ∷ xs)) - length glue) (spread glue (x ∷ xs))))
                (sym e) text))
      | inr empty ↦
          let none_spread : length (spread glue (x ∷ xs)) ≤ 0 = ground arith in
          let whole = ap length split in
          let none_between : length ys ≤ 0 = omega (arith, length-append ys glue) in
          rw empty (
            subst (λ zs. HasText t zs)
              (no_length (spread glue (x ∷ xs)) none_spread ∙ sym (no_length ys none_between)) k)
    ]

-- `_str_join` makes the strings with the glue between them.
pub join-HasText :
    (glue : String) (elems : List String)
    → no_zero glue ≡ true
    → all_no_zero elems ≡ true
    → (t : Str) × (join glue elems ≡ some t) × HasText t (intercalate glue elems)
unfolding join
join-HasText glue elems whole all =
    let (t, runs, g) =
      join_from-HasText glue elems (str_create 0) [] whole all
        (record { text = create-HasText 0; two = (unfold str_create in omega arith) }) in
    (
      (if ltb 0 t.len then (chop t (length glue)).1 else t),
      rw runs refl,
      joined glue elems t g.text,
    )
