-- ===== src/LinkedList/Paths.antt =====
-- The addresses along a list and what stands around one place.
use obelix.Prelude.{◌≡◌, refl, true, false, ◌||◌, List, [], ◌∷◌, ◌++◌, ◌==◌, arith, append_assoc}
use obelix.LinkedList.{Ptr}
use obelix.LinkedList.Chains.{mem, last_of, Distinct}
use obelix.LinkedList.Updates.{behind-ne, inner_apart, mem-inner}

-- What follows the nodes before `post` on the way to the sentinel `t`.
abbrev pub next_in : List Ptr → Ptr → Ptr
next_in [] t = t
next_in (q ∷ qs) t = q

abbrev pub after_next : List Ptr → Ptr → List Ptr
after_next [] t = []
after_next (q ∷ qs) t = qs ++ t ∷ []

pub path_split :
    (pre post : List Ptr) (t : Ptr)
    → (pre ++ post) ++ t ∷ [] ≡ pre ++ next_in post t ∷ after_next post t
path_split pre [] t = append_assoc pre [] (t ∷ [])
path_split pre (q ∷ qs) t = append_assoc pre (q ∷ qs) (t ∷ [])

pub path_insert :
    (pre post : List Ptr) (n t : Ptr)
    → (pre ++ n ∷ post) ++ t ∷ [] ≡ pre ++ n ∷ next_in post t ∷ after_next post t
path_insert pre [] n t = append_assoc pre (n ∷ []) (t ∷ [])
path_insert pre (q ∷ qs) n t = append_assoc pre (n ∷ q ∷ qs) (t ∷ [])

pub last_ne :
    (x : Ptr) (pre ys : List Ptr) (p : Ptr)
    → Distinct x (pre ++ ys)
    → mem p ys ≡ true
    → (p == last_of x pre) ≡ false
unfolding Distinct
last_ne x [] ys p d there = behind-ne x ys d p there
last_ne x (y ∷ pre) ys p d there = last_ne y pre ys p d.1 there

pub mem-tail : (post : List Ptr) (t : Ptr) → mem t (next_in post t ∷ after_next post t) ≡ true
mem-tail [] t = ground arith
mem-tail (q ∷ qs) t = ground (arith, mem-inner t qs [])

pub mem-behind : (p : Ptr) (xs ys : List Ptr) → mem p ys ≡ true → mem p (xs ++ ys) ≡ true
mem-behind p [] ys there = there
mem-behind p (x ∷ xs) ys there = ground (arith, mem-behind p xs ys there)

pub mem-before : (p : Ptr) (xs ys : List Ptr) → mem p xs ≡ true → mem p (xs ++ ys) ≡ true
mem-before p [] ys there = cc
mem-before p (x ∷ xs) ys there = ground (arith, mem-before p xs ys)

pub mem-post :
    (p : Ptr) (post : List Ptr) (t : Ptr)
    → mem p post ≡ true
    → mem p (next_in post t ∷ after_next post t) ≡ true
mem-post p [] t there = cc
mem-post p (q ∷ qs) t there = mem-before p (q ∷ qs) (t ∷ []) there

pub without_once :
    (n b : Ptr) (rest : List Ptr) (x : Ptr) (pre : List Ptr)
    → Distinct x (pre ++ n ∷ b ∷ rest)
    → mem n (x ∷ pre ++ b ∷ rest) ≡ false
unfolding Distinct
without_once n b rest x [] d = ground (arith, d.0, d.1.0)
without_once n b rest x (y ∷ pre) d =
    let apart = inner_apart x n (y ∷ pre) (b ∷ rest) d.0 in
    ground (arith, without_once n b rest y pre d.1)

pub mem-inserted :
    (p n : Ptr) (pre rest : List Ptr) → mem p (pre ++ n ∷ rest) ≡ (n == p || mem p (pre ++ rest))
mem-inserted p n [] rest = refl
mem-inserted p n (x ∷ pre) rest = ground (arith, mem-inserted p n pre rest)
