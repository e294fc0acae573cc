-- ===== src/Str/Methods.antt =====
-- The methods `concat` and `repeat` of strings in lib/str.c.
use obelix.Prelude.{
  ℕ, zero, suc, ◌+◌, ◌*◌, ◌%◌, ◌^◌, ◌≡◌, ◌<◌, refl, sym, ap, ◌∙◌, true, Option, none, some, leb,
  if◌then◌else◌, ◌>>=◌, List, [], ◌∷◌, ◌++◌, arith, length, subst, append_assoc, append-nil,
}
use obelix.Strutils.{String}
use obelix.Str.{Str, str_copy_chars, expand, expand_to, erase, append_chars}
use obelix.Str.Bytes.{no_zero}
use obelix.Str.Contents.{HasText, IsGrowable, copy_chars-HasText}
use obelix.Str.Growth.{expand-HasText, expand-stuck}
use obelix.Str.Appends.{append_chars-HasText}
use obelix.Str.Joins.{all_no_zero}

-- The first loop of `_string_concat`.
abbrev pub total : ℕ → List String → ℕ
total len [] = len
total len (x ∷ xs) = total (len + length x) xs

unfoldable pub append_all : Str → List String → Option Str
unfolding append_chars
append_all s [] = some s
append_all s (x ∷ xs) = append_chars s x >>= λ r. append_all r.1 xs

-- `_string_concat`, on the strings of its arguments.
unfoldable pub concat : String → List String → Option Str
unfolding append_all str_copy_chars expand
concat self args =
    expand (str_copy_chars self) (total (str_copy_chars self).len args) >>= λ t. append_all t args

unfoldable pub append_times : ℕ → Str → String → Option Str
unfolding append_chars
append_times zero ret s = some ret
append_times (suc n) ret s = append_chars ret s >>= λ r. append_times n r.1 s

-- `_string_repeat` with a count that is not negative; a length whose lowest 32 bits are a negative
-- `int` empties the result.
unfoldable pub repeat : String → ℕ → Option Str
unfolding append_times str_copy_chars expand erase
repeat self numval =
    let ret = str_copy_chars self in
    let len = ret.len * numval % 2 ^ 64 in
    if leb (2 ^ 31) (len % 2 ^ 32)
    then some (erase ret).1
    else (expand ret len >>= λ t. append_times numval t self)

abbrev pub all : List String → String
all [] = []
all (x ∷ xs) = x ++ all xs

abbrev pub times : ℕ → String → String
times zero xs = []
times (suc n) xs = xs ++ times n xs

append_all-HasText :
    (args : List String) (s : Str) (xs : String)
    → all_no_zero args ≡ true
    → IsGrowable s xs
    → (t : Str) × (append_all s args ≡ some t) × IsGrowable t (xs ++ all args)
unfolding append_all
append_all-HasText [] s xs whole g =
    (s, refl, subst (λ ys. IsGrowable s ys) (sym (append-nil xs)) g)
append_all-HasText (arg ∷ args) s xs whole g =
    let (s₁, runs₁, g₁) = append_chars-HasText s xs arg g (ground arith) in
    let (t, runs, g₂) = append_all-HasText args s₁ (xs ++ arg) (ground arith) g₁ in
    (t, rw runs₁ runs, subst (λ ys. IsGrowable t ys) (append_assoc xs arg (all args)) g₂)

copied :
    (c : ℕ) (cs : String) → no_zero (c ∷ cs) ≡ true → IsGrowable (str_copy_chars (c ∷ cs)) (c ∷ cs)
copied c cs whole =
    let k = copy_chars-HasText (c ∷ cs) whole in
    let sized = k.sized in let ended = k.ended in record { text = k; two = omega arith }

-- Without a length, `_str_expand` goes beyond the size there is.
expand-default : (s : Str) → 0 < s.bufsize → expand s 0 ≡ expand s s.bufsize
unfolding expand
expand-default s own = ap (expand_to s) (ground arith)

-- A string that is not empty is expanded, whatever the length.
expanded :
    (s : Str) (xs : String) (target : ℕ)
    → IsGrowable s xs
    → (t : Str) × (expand s target ≡ some t) × IsGrowable t xs
expanded s xs zero g =
    let two = g.two in
    let (t, runs, text, _, more, _) = expand-HasText s xs s.bufsize g.text two (omega arith) in
    (t, expand-default s (omega arith) ∙ runs, record { text = text; two = more })
expanded s xs (suc n) g =
    let (t, runs, text, _, more, _) = expand-HasText s xs (suc n) g.text g.two (omega arith) in
    (t, runs, record { text = text; two = more })

-- `concat` of a string that is not empty makes that string with its arguments behind it.
pub concat-HasText :
    (c : ℕ) (cs : String) (args : List String)
    → no_zero (c ∷ cs) ≡ true
    → all_no_zero args ≡ true
    → (t : Str) × (concat (c ∷ cs) args ≡ some t) × HasText t ((c ∷ cs) ++ all args)
unfolding concat
concat-HasText c cs args whole all_whole =
    let s = str_copy_chars (c ∷ cs) in
    let (s₁, runs₁, g₁) = expanded s (c ∷ cs) (total s.len args) (copied c cs whole) in
    let (t, runs, g₂) = append_all-HasText args s₁ (c ∷ cs) all_whole g₁ in
    (t, rw runs₁ runs, g₂.text)

-- The buffer of an empty string has 1 byte: `concat` and `repeat` of it never end.
pub concat-stuck : (args : List String) (n : ℕ) → (concat [] args ≡ none) × (repeat [] n ≡ none)
unfolding concat repeat
concat-stuck args n =
    let s = str_copy_chars [] in
    let one : s.bufsize ≡ 1 = (unfold str_copy_chars in refl) in
    let empty : s.len ≡ 0 = (unfold str_copy_chars in refl) in
    let none_asked : s.len * n % 2 ^ 64 ≡ 0 = rw empty (omega arith) in
    (
      ap (λ o. o >>= λ t. append_all t args) (expand-stuck s (total s.len args) one),
      rw (none_asked, expand-stuck s 0 one) refl,
    )
