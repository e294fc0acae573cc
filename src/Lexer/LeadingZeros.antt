-- ===== src/Lexer/LeadingZeros.antt =====
-- Zeros in front of an integer, which the scanner of lexer/number.c leaves out, and the token that
-- it gives.
use obelix.Prelude.{
  ℕ, zero, suc, ◌+◌, ◌≡◌, ◌<◌, refl, ap, ◌∙◌, Bool, true, false, ◌&&◌, some, ◌>>=◌, [], ◌∷◌, ◌++◌,
  lt→ltb, leb, arith, length, replicate,
}
use obelix.Strutils.{String, char_at}
use obelix.Str.Edits.{tolower}
use obelix.Lexer.{
  TokenCode, Lexer, code_none, code_integer, get_char, push, accept, accept_token, skip, rewind,
}
use obelix.Lexer.Number.{
  NumConfig, start, zero_seen, number, step, chop_one, scan, settle, num_match,
}
use obelix.Lexer.Scans.{scan_on}
use obelix.Lexer.Integers.{
  Scanned, round_lem, seen_char, pushed, all_digits, ends_integer, Ends, scan-digits,
}

-- A digit but 0.
abbrev pub counts_up : ℕ → Bool
counts_up c = leb 49 c && leb c 57

zero-step :
    (config : NumConfig) (len : ℕ)
    → step config len zero_seen (tolower 48) ≡ (zero_seen, code_none, true)
unfolding step
zero-step config len = refl

nonzero-step :
    (config : NumConfig) (len c : ℕ)
    → counts_up c ≡ true
    → step config len zero_seen (tolower c) ≡ (number, code_none, true)
unfolding step
nonzero-step config len c digit = ground arith

scan-zeros :
    (k fuel : ℕ) (config : NumConfig) (l : Lexer) (d : ℕ) (ds after : String) (n : ℕ)
    → Scanned l (48 ∷ []) n (replicate k 48 ++ ((d ∷ ds) ++ after))
    → counts_up d ≡ true
    → all_digits ds ≡ true
    → ends_integer (char_at after) ≡ true
    → k + suc (length ds) < fuel
    → Ends (scan fuel config zero_seen l) (d ∷ ds) (n + k + suc (length ds))
unfolding Ends
scan-zeros k zero config l d ds after n s digit digits stops few = absurd (omega arith)
scan-zeros zero (suc fuel) config l d ds after n s digit digits stops few =
    let e =
      round_lem config zero_seen l d number code_none true
        (seen_char l (48 ∷ []) ((d ∷ ds) ++ after) n s)
        (nonzero-step config (length l.token) d digit) in
    let next = pushed true l (48 ∷ []) (ds ++ after) n d s (ground arith) (ground arith) in
    let (t, runs, reads, counts, fresh) =
      scan-digits fuel config (push (chop_one (get_char l).1)) (d ∷ []) ds after (suc n) next digits
        stops (omega arith) in
    (
      t,
      scan_on fuel config zero_seen l (number, code_none, push (chop_one (get_char l).1)) e refl
          ∙ runs,
      reads,
      counts ∙ omega arith,
      fresh,
    )
scan-zeros (suc k) (suc fuel) config l d ds after n s digit digits stops few =
    let ahead = replicate k 48 ++ ((d ∷ ds) ++ after) in
    let e =
      round_lem config zero_seen l 48 zero_seen code_none true
        (seen_char l (48 ∷ []) (48 ∷ ahead) n s) (zero-step config (length l.token)) in
    let next = pushed true l (48 ∷ []) ahead n 48 s (omega arith) (omega arith) in
    let (t, runs, reads, counts, fresh) =
      scan-zeros k fuel config (push (chop_one (get_char l).1)) d ds after (suc n) next digit digits
        stops (omega arith) in
    (
      t,
      scan_on fuel config zero_seen l (zero_seen, code_none, push (chop_one (get_char l).1)) e refl
          ∙ runs,
      reads,
      counts ∙ omega arith,
      fresh,
    )

start-step :
    (config : NumConfig) (len c : ℕ)
    → counts_up c ≡ true
    → step config len start (tolower c) ≡ (number, code_none, false)
unfolding step
start-step config len c digit = ground arith

start_zero-step :
    (config : NumConfig) (len : ℕ)
    → step config len start (tolower 48) ≡ (zero_seen, code_none, false)
unfolding step
start_zero-step config len = ground arith

scan-integer :
    (k fuel : ℕ) (config : NumConfig) (l : Lexer) (d : ℕ) (ds after : String)
    → Scanned l [] 0 (replicate k 48 ++ ((d ∷ ds) ++ after))
    → counts_up d ≡ true
    → all_digits ds ≡ true
    → ends_integer (char_at after) ≡ true
    → k + suc (length ds) < fuel
    → Ends (scan fuel config start l) (d ∷ ds) (k + suc (length ds))
unfolding Ends
scan-integer k zero config l d ds after s digit digits stops few = absurd (omega arith)
scan-integer zero (suc fuel) config l d ds after s digit digits stops few =
    let e =
      round_lem config start l d number code_none false (seen_char l [] ((d ∷ ds) ++ after) 0 s)
        (start-step config (length l.token) d digit) in
    let next = pushed false l [] (ds ++ after) 0 d s (ground arith) (ground arith) in
    let (t, runs, reads, counts, fresh) =
      scan-digits fuel config (push (get_char l).1) (d ∷ []) ds after 1 next digits stops
        (omega arith) in
    (
      t,
      scan_on fuel config start l (number, code_none, push (get_char l).1) e refl ∙ runs,
      reads,
      counts ∙ omega arith,
      fresh,
    )
scan-integer (suc k) (suc fuel) config l d ds after s digit digits stops few =
    let ahead = replicate k 48 ++ ((d ∷ ds) ++ after) in
    let e =
      round_lem config start l 48 zero_seen code_none false (seen_char l [] (48 ∷ ahead) 0 s)
        (start_zero-step config (length l.token)) in
    let next = pushed false l [] ahead 0 48 s (omega arith) (omega arith) in
    let (t, runs, reads, counts, fresh) =
      scan-zeros k fuel config (push (get_char l).1) d ds after 1 next digit digits stops
        (omega arith) in
    (
      t,
      scan_on fuel config start l (zero_seen, code_none, push (get_char l).1) e refl ∙ runs,
      reads,
      counts ∙ omega arith,
      fresh,
    )

pub accepted :
    (u : Lexer) (code : TokenCode)
    → 0 < u.scan_count
    → u.scanned ≡ 0
    → (accept u code).last_token ≡ some (record { code = code; text = u.token })
unfolding accept accept_token skip rewind
accepted u code some_count fresh = rw (lt→ltb 0 u.scan_count some_count, fresh) refl

pub accepted_place :
    (u : Lexer) (code : TokenCode)
    → 0 < u.scan_count
    → u.scanned ≡ 0
    → ((accept u code).scanned ≡ u.scan_count)
      × ((accept u code).pos ≡ 0)
      × ((accept u code).token ≡ [])
unfolding accept accept_token skip rewind
accepted_place u code some_count fresh =
    rw (lt→ltb 0 u.scan_count some_count, fresh) (refl, refl, refl)

-- A digit other than 0 and any digits behind it, followed by no digit, no point and no e or E, with
-- any number of zeros in front, give one integer token, without these zeros; the lexer is back at
-- the start and is to skip all these characters, the zeros included.
pub num_match-integer :
    (k fuel : ℕ) (config : NumConfig) (l : Lexer) (d : ℕ) (ds after : String)
    → Scanned l [] 0 (replicate k 48 ++ ((d ∷ ds) ++ after))
    → counts_up d ≡ true
    → all_digits ds ≡ true
    → ends_integer (char_at after) ≡ true
    → k + suc (length ds) < fuel
    → (t : Lexer) × (num_match fuel config l ≡ some t)
      × (t.last_token ≡ some (record { code = code_integer; text = d ∷ ds }))
      × (t.scanned ≡ k + suc (length ds))
      × (t.pos ≡ 0)
      × (t.token ≡ [])
unfolding num_match settle Ends
num_match-integer k fuel config l d ds after s digit digits stops few =
    let (u, runs, reads, counts, fresh) =
      scan-integer k fuel config l d ds after s digit digits stops few in
    let some_count : 0 < u.scan_count = omega arith in
    let (same_scanned, same_pos, same_token) = accepted_place u code_integer some_count fresh in
    (
      accept u code_integer,
      ap (λ o. o >>= λ r. some (settle r)) runs,
      accepted u code_integer some_count fresh
          ∙ ap (λ xs. some (record { code = code_integer; text = xs })) reads,
      same_scanned ∙ counts,
      same_pos,
      same_token,
    )
