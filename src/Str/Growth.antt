-- ===== src/Str/Growth.antt =====
-- `_str_expand` of lib/str.c: its loop multiplies the size by 1.6 until it is large enough.
use obelix.Prelude.{
  ℕ, zero, suc, ◌+◌, ◌-◌, ◌*◌, ◌/◌, ◌≡◌, ◌≤◌, ◌<◌, refl, ap, ◌∙◌, false, none, some, ◌++◌, ltb,
  lt→ltb, ◌==◌, if◌then◌else◌, Bool-cases, inl, inr, arith, length, take, replicate,
}
use obelix.Strutils.{String}
use obelix.Str.{Str, grow, expand_to, expand}
use obelix.Str.Contents.{HasText}
use obelix.Str.Bytes.{take-front}

-- From 2 on, each round adds at least 1; the last one makes at most 1.6 times what was too little.
pub grow_lem :
    (fuel newsize target : ℕ)
    → 2 ≤ newsize
    → target < newsize + fuel
    → (n : ℕ) × (grow fuel newsize target ≡ some n) × (target < n) × (newsize ≤ n)
unfolding grow
grow_lem zero newsize target two enough = elim (Bool-cases (ltb newsize (suc target))) [
  | inl short ↦ absurd (ground arith)
  | inr long ↦ (newsize, rw long refl, ground arith, ground arith)
]
grow_lem (suc fuel) newsize target two enough = elim (Bool-cases (ltb newsize (suc target))) [
  | inl short ↦
      let (n, runs, large, more) =
        grow_lem fuel (newsize * 8 / 5) target (omega arith) (omega arith) in
      (n, rw short runs, large, omega arith)
  | inr long ↦ (newsize, rw long refl, ground arith, ground arith)
]

-- `_str_expand` never ends on a buffer of at most 1 byte that is to hold a character, as
-- `str_copy_chars` makes for the empty string: 1.6 times 1 is 1 again.
pub grow-stuck :
    (fuel newsize target : ℕ) → newsize ≤ 1 → 0 < target → grow fuel (newsize * 8 / 5) target ≡ none
unfolding grow
grow-stuck zero newsize target tiny some_target =
    rw (lt→ltb (newsize * 8 / 5) (suc target) (omega arith)) refl
grow-stuck (suc fuel) newsize target tiny some_target =
    rw (lt→ltb (newsize * 8 / 5) (suc target) (omega arith))
      (grow-stuck fuel (newsize * 8 / 5) target (omega arith) some_target)

-- So a buffer of 1 byte is never expanded.
pub expand-stuck : (s : Str) (target : ℕ) → s.bufsize ≡ 1 → expand s target ≡ none
unfolding expand expand_to
expand-stuck s target one =
    let m = if target == 0 then s.bufsize else target in
    let some_target : 0 < m = ground arith in
    rw (lt→ltb s.bufsize (suc m) (omega arith), grow-stuck m s.bufsize m (omega arith) some_target)
      refl

-- `_str_expand` of a buffer of at least 2 bytes ends, keeps the text, and leaves more than the
-- length it is asked for.
pub expand-HasText :
    (s : Str) (xs : String) (target : ℕ)
    → HasText s xs
    → 2 ≤ s.bufsize
    → 0 < target
    → (t : Str) × (expand s target ≡ some t)
      × HasText t xs
      × (target < t.bufsize)
      × (2 ≤ t.bufsize)
      × (t.pos ≡ s.pos)
unfolding expand expand_to
expand-HasText s xs target k two asked =
    let not_none : (target == 0) ≡ false = ground arith in
    elim (Bool-cases (ltb s.bufsize (suc target))) [
      | inl short ↦
          let (n, runs, large, more) =
            grow_lem target (s.bufsize * 8 / 5) target (omega arith) (omega arith) in
          let long = k.long in
          let sized = k.sized in
          let ended = k.ended in
          (
            record s { buffer = take s.len s.buffer ++ replicate (n - s.len) 0; bufsize = n },
            rw (not_none, short, runs) refl,
            record {
              zeros = n - s.len;
              bytes =
                  ap (λ bs. bs ++ replicate (n - s.len) 0)
                    (ap (λ m. take m s.buffer) long
                      ∙ ap (take (length xs)) k.bytes
                      ∙ take-front xs (replicate k.zeros 0));
              ended = omega arith;
              long = long;
              sized = omega arith;
              clean = k.clean;
            },
            large,
            omega arith,
            refl,
          )
      | inr long ↦ (s, rw (not_none, long) refl, k, ground arith, two, refl)
    ]
