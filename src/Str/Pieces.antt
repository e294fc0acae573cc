-- ===== src/Str/Pieces.antt =====
-- `str_slice` of lib/str.c.
use obelix.Prelude.{
  ℕ, ◌-◌, ◌≡◌, ◌≤◌, sym, ap, ◌∙◌, true, ltb, leb, if◌then◌else◌, Bool-cases, inl, inr, arith,
  length, take, take-past, drop, replicate, subst,
}
use obelix.Strutils.{String}
use obelix.Str.{Str, chars, chop, slice, str_copy_chars}
use obelix.Str.Bytes.{drop-append_le, no_zero-drop}
use obelix.Str.Contents.{HasText, copy_chars-HasText, chars-padded}
use obelix.Str.Cuts.{chop-HasText}

pub chars-drop :
    (s : Str) (xs : String) (n : ℕ)
    → HasText s xs
    → n ≤ length xs
    → chars (drop n s.buffer) ≡ drop n xs
chars-drop s xs n k inside =
    ap (λ b. chars (drop n b)) k.bytes
    ∙ ap chars (drop-append_le n xs (replicate k.zeros 0) inside)
    ∙ chars-padded (drop n xs) k.zeros (no_zero-drop n xs k.clean) k.ended

abbrev pub shorter : ℕ → ℕ → ℕ
shorter m n = if ltb m n then m else n

-- `str_slice` makes a buffer of the characters from one index up to another, or up to the end.
pub slice-HasText :
    (s : Str) (xs : String) (start upto : ℕ)
    → HasText s xs
    → start ≤ shorter (length xs) upto
    → HasText (slice s start upto) (take (shorter (length xs) upto - start) (drop start xs))
unfolding slice
slice-HasText s xs start upto k ordered =
    let m = shorter s.len upto in
    let long = k.long in
    let same : m ≡ shorter (length xs) upto = ap (λ n. shorter n upto) long in
    let inside : start ≤ length xs = ground arith in
    let ret = str_copy_chars (chars (drop start s.buffer)) in
    let rest = chars-drop s xs start k inside in
    let whole : HasText ret (drop start xs) =
      subst (λ ys. HasText (str_copy_chars ys) (drop start xs)) (sym rest)
        (copy_chars-HasText (drop start xs) (no_zero-drop start xs k.clean)) in
    let long_ret = whole.long in
    let ys = drop start xs in
    elim (Bool-cases (ltb (m - start) ret.len)) [
      | inl cuts ↦
          let (t, e, text, _) = chop-HasText ret ys (ret.len - (m - start)) whole in
          let kept : length ys - (ret.len - (m - start)) ≡ shorter (length xs) upto - start =
            ground arith in
          rw (let le : leb start m ≡ true = ground arith in le, cuts)
            (subst (λ n. HasText (chop ret (ret.len - (m - start))).1 (take n ys)) kept
              (subst (λ r. HasText r.1 (take (length ys - (ret.len - (m - start))) ys)) (sym e)
                text))
      | inr stays ↦
          let kept : take (shorter (length xs) upto - start) ys ≡ ys =
            take-past ys (shorter (length xs) upto - start) (ground arith) in
          rw (let le : leb start m ≡ true = ground arith in le, stays)
            (subst (λ zs. HasText ret zs) (sym kept) whole)
    ]
