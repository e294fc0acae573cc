-- ===== src/LinkedList/Updates.antt =====
-- What an insertion into a chain and a removal from it take.
use obelix.Prelude.{
  ◌≡◌, refl, ap, ◌∙◌, true, false, Option, some, List, [], ◌∷◌, ◌++◌, ◌==◌, arith, Bool-cases, inl,
  inr,
}
use obelix.LinkedList.{Ptr}
use obelix.LinkedList.Chains.{mem, last_of, Forward, Backward, Distinct}

pub mem-ne : (p x : Ptr) (ys : List Ptr) → mem p ys ≡ true → mem x ys ≡ false → (p == x) ≡ false
mem-ne p x ys there not_there = elim (Bool-cases (p == x)) [
  | inl same ↦ let e : p ≡ x = ground arith in cc (ap (λ q. mem q ys) e, there, not_there)
  | inr apart ↦ apart
]

pub last_of-mem : (x : Ptr) (ys zs : List Ptr) → mem (last_of x ys) (x ∷ ys ++ zs) ≡ true
last_of-mem x [] zs = ground arith
last_of-mem x (y ∷ ys) zs = ground (arith, last_of-mem y ys zs)

-- An address found before a place is found in the whole.
pub not-mem-cons :
    (p x : Ptr) (xs : List Ptr) → mem p (x ∷ xs) ≡ false → ((x == p) ≡ false) × (mem p xs ≡ false)
not-mem-cons p x xs h = ground arith

pub frame-Forward :
    (f g : Ptr → Option Ptr) (x : Ptr) (ys : List Ptr)
    → Forward f x ys
    → ((p : Ptr) → mem p (x ∷ ys) ≡ true → g p ≡ f p)
    → Forward g x ys
unfolding Forward
frame-Forward f g x [] c same = refl
frame-Forward f g x (y ∷ ys) c same = (
  same x (ground arith) ∙ c.0,
  frame-Forward f g y ys c.1 (λ p there. same p (ground (arith, there))),
)

pub frame-Backward :
    (f g : Ptr → Option Ptr) (x : Ptr) (ys : List Ptr)
    → Backward f x ys
    → ((p : Ptr) → mem p ys ≡ true → g p ≡ f p)
    → Backward g x ys
unfolding Backward
frame-Backward f g x [] c same = refl
frame-Backward f g x (y ∷ ys) c same = (
  same y (ground arith) ∙ c.0,
  frame-Backward f g y ys c.1 (λ p there. same p (ground (arith, there))),
)

pub ne_symm : (p x : Ptr) → (p == x) ≡ false → (x == p) ≡ false
ne_symm p x h = ground arith

last_apart :
    (x y : Ptr) (ys zs : List Ptr) → mem x (y ∷ ys ++ zs) ≡ false → (x == last_of y ys) ≡ false
last_apart x y ys zs out =
    ne_symm (last_of y ys) x (mem-ne (last_of y ys) x (y ∷ ys ++ zs) (last_of-mem y ys zs) out)

pub mem-inner : (b : Ptr) (ys post : List Ptr) → mem b (ys ++ b ∷ post) ≡ true
mem-inner b [] post = ground arith
mem-inner b (y ∷ ys) post = ground (arith, mem-inner b ys post)

pub inner_apart :
    (y b : Ptr) (ys post : List Ptr) → mem y (ys ++ b ∷ post) ≡ false → (y == b) ≡ false
inner_apart y b ys post out = ne_symm b y (mem-ne b y (ys ++ b ∷ post) (mem-inner b ys post) out)

pub behind-ne :
    (b : Ptr) (post : List Ptr) → Distinct b post → (p : Ptr) → mem p post ≡ true → (p == b) ≡ false
unfolding Distinct
behind-ne b [] d p there = cc
behind-ne b (y ∷ ys) d p there = mem-ne p b (y ∷ ys) there d.0

pub head-Distinct :
    (y b : Ptr) (ys post : List Ptr) → Distinct y (ys ++ b ∷ post) → mem y (ys ++ b ∷ post) ≡ false
unfolding Distinct
head-Distinct y b [] post d = d.0
head-Distinct y b (z ∷ zs) post d = d.0

pub mem-insert :
    (n b : Ptr) (post : List Ptr) (x : Ptr) (ys : List Ptr)
    → mem x (ys ++ b ∷ post) ≡ false
    → (x == n) ≡ false
    → mem x (ys ++ n ∷ b ∷ post) ≡ false
mem-insert n b post x [] h new = ground arith
mem-insert n b post x (y ∷ ys) h new = ground (arith, mem-insert n b post x ys)

pub mem-remove :
    (n b : Ptr) (post : List Ptr) (x : Ptr) (ys : List Ptr)
    → mem x (ys ++ n ∷ b ∷ post) ≡ false
    → mem x (ys ++ b ∷ post) ≡ false
mem-remove n b post x [] h = ground arith
mem-remove n b post x (y ∷ ys) h = ground (arith, mem-remove n b post x ys)

module _ (f g : Ptr → Option Ptr) (n b : Ptr) (post : List Ptr) where
  pub insert-Forward :
      (x : Ptr) (pre : List Ptr)
      → Forward f x (pre ++ b ∷ post)
      → Distinct x (pre ++ b ∷ post)
      → mem n (x ∷ pre ++ b ∷ post) ≡ false
      → g (last_of x pre) ≡ some n
      → g n ≡ some b
      → ((p : Ptr) → (p == last_of x pre) ≡ false → (p == n) ≡ false → g p ≡ f p)
      → Forward g x (pre ++ n ∷ b ∷ post)
  unfolding Forward Distinct
  insert-Forward x [] c d out ga gn same = (
    ga,
    (
      gn,
      frame-Forward f g b post c.1 (λ p there.
          same p (mem-ne p x (b ∷ post) there d.0)
            (mem-ne p n (b ∷ post) there (not-mem-cons n x (b ∷ post) out).1)),
    ),
  )
  insert-Forward x (y ∷ ys) c d out ga gn same =
      let (new, rest) = not-mem-cons n x (y ∷ ys ++ b ∷ post) out in
      (
        same x (last_apart x y ys (b ∷ post) d.0) new ∙ c.0,
        insert-Forward y ys c.1 d.1 rest ga gn same,
      )

  pub insert-Backward :
      (x : Ptr) (pre : List Ptr)
      → Backward f x (pre ++ b ∷ post)
      → Distinct x (pre ++ b ∷ post)
      → mem n (x ∷ pre ++ b ∷ post) ≡ false
      → g n ≡ some (last_of x pre)
      → g b ≡ some n
      → ((p : Ptr) → (p == n) ≡ false → (p == b) ≡ false → g p ≡ f p)
      → Backward g x (pre ++ n ∷ b ∷ post)
  unfolding Backward Distinct
  insert-Backward x [] c d out gn gb same =
      let (_, rest) = not-mem-cons n x (b ∷ post) out in
      let (_, later) = not-mem-cons n b post rest in
      (
        gn,
        (
          gb,
          frame-Backward f g b post c.1
              (λ p there. same p (mem-ne p n post there later) (behind-ne b post d.1 p there)),
        ),
      )
  insert-Backward x (y ∷ ys) c d out gn gb same =
      let (_, rest) = not-mem-cons n x (y ∷ ys ++ b ∷ post) out in
      let (new, _) = not-mem-cons n y (ys ++ b ∷ post) rest in
      (
        same y new (inner_apart y b ys post (head-Distinct y b ys post d.1)) ∙ c.0,
        insert-Backward y ys c.1 d.1 rest gn gb same,
      )

  pub insert-Distinct :
      (x : Ptr) (pre : List Ptr)
      → Distinct x (pre ++ b ∷ post)
      → mem n (x ∷ pre ++ b ∷ post) ≡ false
      → Distinct x (pre ++ n ∷ b ∷ post)
  unfolding Distinct
  insert-Distinct x [] d out =
      let (new, rest) = not-mem-cons n x (b ∷ post) out in (ground (arith, d.0), (rest, d.1))
  insert-Distinct x (y ∷ ys) d out =
      let (new, rest) = not-mem-cons n x (y ∷ ys ++ b ∷ post) out in
      (mem-insert n b post x (y ∷ ys) d.0 new, insert-Distinct y ys d.1 rest)

  pub remove-Forward :
      (x : Ptr) (pre : List Ptr)
      → Forward f x (pre ++ n ∷ b ∷ post)
      → Distinct x (pre ++ n ∷ b ∷ post)
      → g (last_of x pre) ≡ some b
      → ((p : Ptr) → (p == last_of x pre) ≡ false → g p ≡ f p)
      → Forward g x (pre ++ b ∷ post)
  unfolding Forward Distinct
  remove-Forward x [] c d ga same = (
    ga,
    frame-Forward f g b post c.1.1
        (λ p there. same p (mem-ne p x (b ∷ post) there (not-mem-cons x n (b ∷ post) d.0).1)),
  )
  remove-Forward x (y ∷ ys) c d ga same =
      (same x (last_apart x y ys (n ∷ b ∷ post) d.0) ∙ c.0, remove-Forward y ys c.1 d.1 ga same)

  pub remove-Backward :
      (x : Ptr) (pre : List Ptr)
      → Backward f x (pre ++ n ∷ b ∷ post)
      → Distinct x (pre ++ n ∷ b ∷ post)
      → g b ≡ some (last_of x pre)
      → ((p : Ptr) → (p == b) ≡ false → g p ≡ f p)
      → Backward g x (pre ++ b ∷ post)
  unfolding Backward Distinct
  remove-Backward x [] c d gb same =
      (gb, frame-Backward f g b post c.1.1 (λ p there. same p (behind-ne b post d.1.1 p there)))
  remove-Backward x (y ∷ ys) c d gb same = (
    same y
          (inner_apart y b ys post (mem-remove n b post y ys (head-Distinct y n ys (b ∷ post) d.1)))
        ∙ c.0,
    remove-Backward y ys c.1 d.1 gb same,
  )

  pub remove-Distinct :
      (x : Ptr) (pre : List Ptr) → Distinct x (pre ++ n ∷ b ∷ post) → Distinct x (pre ++ b ∷ post)
  unfolding Distinct
  remove-Distinct x [] d = ((not-mem-cons x n (b ∷ post) d.0).1, d.1.1)
  remove-Distinct x (y ∷ ys) d = (mem-remove n b post x (y ∷ ys) d.0, remove-Distinct y ys d.1)
