-- ===== src/Lexer/Scans.antt =====
-- What the scanner of lexer/number.c makes of a text.
use obelix.Prelude.{
  ℕ, zero, suc, ◌+◌, ◌≡◌, ◌≤◌, refl, ap, ◌∙◌, Bool, true, false, some, if◌then◌else◌, Bool-cases,
  inl, inr, arith, length, get_or-past,
}
use obelix.Str.Edits.{tolower}
use obelix.Lexer.{TokenCode, Lexer, get_char, push, push_as}
use obelix.Lexer.Number.{
  NumScannerState, NumConfig, start, plus_minus, zero_seen, number, period, float, sci_float,
  sci_float_exp_sign, sci_float_exp, hex_integer, done, error, step, is_over, chop_one, process,
  scan, settle, num_match,
}

-- Every state ends at the 0 behind the text.
step_end :
    (config : NumConfig) (len : ℕ) (s : NumScannerState) → is_over (step config len s 0).0 ≡ true
unfolding step
step_end config len start = ground arith
step_end config len plus_minus = ground arith
step_end config len zero_seen = ground arith
step_end config len number = ground arith
step_end config len period = ground arith
step_end config len float = ground arith
step_end config len sci_float = ground arith
step_end config len sci_float_exp_sign = ground arith
step_end config len sci_float_exp = ground arith
step_end config len hex_integer = ground arith
step_end config len done = refl
step_end config len error = refl

same_place :
    (over chops : Bool) (l : Lexer)
    → ((if over
          then (if chops then chop_one l else l)
          else push (if chops then chop_one l else l)).buffer
        ≡ l.buffer)
      × ((if over
            then (if chops then chop_one l else l)
            else push (if chops then chop_one l else l)).pos
          ≡ l.pos)
unfolding push push_as
same_place true true l = (refl, refl)
same_place true false l = (refl, refl)
same_place false true l = (refl, refl)
same_place false false l = (refl, refl)

-- One round of the loop.
unfoldable pub round : NumConfig → NumScannerState → Lexer → NumScannerState × TokenCode × Lexer
round config s l = process config s (get_char l).1 (tolower (get_char l).0)

pub scan_stop :
    (n : ℕ) (config : NumConfig) (s : NumScannerState) (l : Lexer)
    (r : NumScannerState × TokenCode × Lexer)
    → round config s l ≡ r
    → is_over r.0 ≡ true
    → scan (suc n) config s l ≡ some r
unfolding scan round
scan_stop n config s l r e over =
    ap (λ q. if is_over q.0 then some q else scan n config q.0 q.2) e
    ∙ ap (λ b. if b then some r else scan n config r.0 r.2) over

pub scan_on :
    (n : ℕ) (config : NumConfig) (s : NumScannerState) (l : Lexer)
    (r : NumScannerState × TokenCode × Lexer)
    → round config s l ≡ r
    → is_over r.0 ≡ false
    → scan (suc n) config s l ≡ scan n config r.0 r.2
unfolding scan round
scan_on n config s l r e goes_on =
    ap (λ q. if is_over q.0 then some q else scan n config q.0 q.2) e
    ∙ ap (λ b. if b then some r else scan n config r.0 r.2) goes_on

round-place :
    (config : NumConfig) (s : NumScannerState) (l : Lexer)
    → ((round config s l).2.buffer ≡ l.buffer) × ((round config s l).2.pos ≡ suc l.pos)
unfolding round process get_char
round-place config s l =
    same_place (is_over (round config s l).0)
      (step config (length (get_char l).1.token) s (tolower (get_char l).0)).2 (get_char l).1

round_end :
    (config : NumConfig) (s : NumScannerState) (l : Lexer)
    → length l.buffer ≤ l.pos
    → is_over (round config s l).0 ≡ true
unfolding round process get_char
round_end config s l past =
    ap (λ c. is_over (step config (length (get_char l).1.token) s (tolower c)).0)
      (get_or-past l.buffer l.pos 0 past)
    ∙ step_end config (length (get_char l).1.token) s

scan_end :
    (n : ℕ) (config : NumConfig) (s : NumScannerState) (l : Lexer)
    → length l.buffer ≤ l.pos + n
    → (r : NumScannerState × TokenCode × Lexer) × (scan (suc n) config s l ≡ some r)
      × (is_over r.0 ≡ true)
scan_end zero config s l past =
    let over = round_end config s l (omega arith) in
    (round config s l, scan_stop zero config s l (round config s l) refl over, over)
scan_end (suc n) config s l past =
    let r = round config s l in
    elim (Bool-cases (is_over r.0)) [
      | inl over ↦ (r, scan_stop (suc n) config s l r refl over, over)
      | inr goes_on ↦
          let (same_buffer, same_pos) = round-place config s l in
          let shorter = ap length same_buffer in
          let (q, runs, over) = scan_end n config r.0 r.2 (omega arith) in
          (q, scan_on (suc n) config s l r refl goes_on ∙ runs, over)
    ]

-- The loop of `_num_match` ends, at the latest with the 0 behind the text.
pub num_match_end :
    (config : NumConfig) (l : Lexer)
    → (t : Lexer) × (num_match (suc (length l.buffer)) config l ≡ some t)
unfolding num_match
num_match_end config l =
    let (r, runs, _) = scan_end (length l.buffer) config start l (omega arith) in
    (settle r, rw runs refl)
