-- ===== src/Lexer/Integers.antt =====
-- Integers in the scanner of lexer/number.c: which token a run of digits gives.
use obelix.Prelude.{
  ℕ, zero, suc, ◌+◌, ◌-◌, ◌≡◌, ◌<◌, refl, sym, ap, ap₂, ◌∙◌, Bool, true, false, not, ◌&&◌, Option,
  some, List, [], ◌∷◌, ◌++◌, ltb, ◌==◌, if◌then◌else◌, arith, length, get_or, take, drop,
  append_assoc, append-nil,
}
use obelix.Strutils.{String, char_at}
use obelix.Str.Edits.{tolower}
use obelix.Lexer.{TokenCode, Lexer, code_none, code_integer, get_char, push, push_as}
use obelix.Lexer.Number.{
  NumScannerState, NumConfig, number, done, step, is_over, chop_one, process, scan, isdigit,
}
use obelix.Lexer.Scans.{round, scan_stop, scan_on}

head_at : (xs : List ℕ) (i : ℕ) → get_or xs i 0 ≡ char_at (drop i xs)
head_at [] zero = refl
head_at [] (suc i) = refl
head_at (x ∷ xs) zero = refl
head_at (x ∷ xs) (suc i) = head_at xs i

tail_at : (xs : List ℕ) (i : ℕ) → drop (suc i) xs ≡ drop 1 (drop i xs)
tail_at [] zero = refl
tail_at [] (suc i) = refl
tail_at (x ∷ xs) zero = refl
tail_at (x ∷ xs) (suc i) = tail_at xs i

-- A lexer that has scanned a token, before anything is accepted, with what lies ahead.
pub record Scanned (l : Lexer) (token : String) (n : ℕ) (ahead : String) : Type 0 where
  pub reads : l.token ≡ token
  pub counts : l.scan_count ≡ n
  pub fresh : l.scanned ≡ 0
  pub rest : drop l.pos l.buffer ≡ ahead

abbrev pub acted : Bool → Lexer → Lexer
acted chops l = if chops then chop_one l else l

pub round_lem :
    (config : NumConfig) (s : NumScannerState) (l : Lexer) (c : ℕ) (s' : NumScannerState)
    (code : TokenCode) (chops : Bool)
    → (get_char l).0 ≡ c
    → step config (length l.token) s (tolower c) ≡ (s', code, chops)
    → round config s l ≡ (
      s',
      code,
      if is_over s' then acted chops (get_char l).1 else push (acted chops (get_char l).1),
    )
unfolding round process get_char
round_lem config s l c s' code chops seen e =
    ap
      (λ r. (
        r.0,
        r.1,
        if is_over r.0 then acted r.2 (get_char l).1 else push (acted r.2 (get_char l).1),
      ))
      (ap (λ d. step config (length l.token) s (tolower d)) seen ∙ e)

pub seen_char :
    (l : Lexer) (token ahead : String) (n : ℕ)
    → Scanned l token n ahead
    → (get_char l).0 ≡ char_at ahead
unfolding get_char
seen_char l token ahead n k = head_at l.buffer l.pos ∙ ap char_at k.rest

-- An ASCII character is pushed, the one before it chopped off or not.
pub pushed :
    (chops : Bool) (l : Lexer) (token ahead : String) (n c : ℕ)
    → Scanned l token n (c ∷ ahead)
    → 0 < c
    → c < 128
    → Scanned
        (push (acted chops (get_char l).1))
        ((if chops then take (length token - 1) token else token) ++ c ∷ [])
        (suc n)
        ahead
unfolding push push_as get_char
pushed true l token ahead n c k some_char ascii =
    let kept_char : (ltb 0 c && ltb c 128) ≡ true = ground arith in
    let kept = take (length token - 1) token in
    record {
      reads =
          ap₂
            (λ d t.
              if ltb 0 d && ltb d 128
              then take (length t - 1) t ++ d ∷ []
              else take (length t - 1) t)
            (seen_char l token (c ∷ ahead) n k) k.reads
          ∙ ap (λ b. if b then kept ++ c ∷ [] else kept) kept_char;
      counts = ap suc k.counts;
      fresh = k.fresh;
      rest = tail_at l.buffer l.pos ∙ ap (drop 1) k.rest;
    }
pushed false l token ahead n c k some_char ascii =
    let kept_char : (ltb 0 c && ltb c 128) ≡ true = ground arith in
    record {
      reads =
          ap₂ (λ d t. if ltb 0 d && ltb d 128 then t ++ d ∷ [] else t)
            (seen_char l token (c ∷ ahead) n k) k.reads
          ∙ ap (λ b. if b then token ++ c ∷ [] else token) kept_char;
      counts = ap suc k.counts;
      fresh = k.fresh;
      rest = tail_at l.buffer l.pos ∙ ap (drop 1) k.rest;
    }

abbrev pub all_digits : String → Bool
all_digits [] = true
all_digits (c ∷ cs) = isdigit c && all_digits cs

-- A character that goes on with no number.
abbrev pub ends_integer : ℕ → Bool
ends_integer c = not (isdigit c) && not (c == 46) && not (tolower c == 101)

digit-step :
    (config : NumConfig) (len c : ℕ)
    → isdigit c ≡ true
    → step config len number (tolower c) ≡ (number, code_none, false)
unfolding step
digit-step config len c digit = ground arith

stop-step :
    (config : NumConfig) (len c : ℕ)
    → ends_integer c ≡ true
    → step config len number (tolower c) ≡ (done, code_integer, false)
unfolding step
stop-step config len c stops = ground arith

-- What the loop of `_num_match` ends with.
unfoldable pub Ends : Option (NumScannerState × TokenCode × Lexer) → String → ℕ → Type 0
Ends r token n =
    (t : Lexer) × (r ≡ some (done, code_integer, t))
    × (t.token ≡ token)
    × (t.scan_count ≡ n)
    × (t.scanned ≡ 0)

pub scan-digits :
    (fuel : ℕ) (config : NumConfig) (l : Lexer) (token ds after : String) (n : ℕ)
    → Scanned l token n (ds ++ after)
    → all_digits ds ≡ true
    → ends_integer (char_at after) ≡ true
    → length ds < fuel
    → Ends (scan fuel config number l) (token ++ ds) (n + length ds)
unfolding Ends
scan-digits zero config l token ds after n k digits stops few = absurd (omega arith)
scan-digits (suc fuel) config l token [] after n k digits stops few =
    let c = char_at after in
    let e =
      round_lem config number l c done code_integer false (seen_char l token after n k)
        (stop-step config (length l.token) c stops) in
    let same_token : (get_char l).1.token ≡ l.token = (unfold get_char in refl) in
    let same_count : (get_char l).1.scan_count ≡ l.scan_count = (unfold get_char in refl) in
    let counts = k.counts in
    (
      (get_char l).1,
      scan_stop fuel config number l (done, code_integer, (get_char l).1) e refl,
      same_token ∙ k.reads ∙ sym (append-nil token),
      omega arith,
      (unfold get_char in k.fresh),
    )
scan-digits (suc fuel) config l token (d ∷ ds) after n k digits stops few =
    let digit : isdigit d ≡ true = ground arith in
    let e =
      round_lem config number l d number code_none false (seen_char l token (d ∷ ds ++ after) n k)
        (digit-step config (length l.token) d digit) in
    let next = pushed false l token (ds ++ after) n d k (ground arith) (ground arith) in
    let (t, runs, reads, counts, fresh) =
      scan-digits fuel config (push (get_char l).1) (token ++ d ∷ []) ds after (suc n) next
        (ground arith) stops (omega arith) in
    (
      t,
      scan_on fuel config number l (number, code_none, push (get_char l).1) e refl ∙ runs,
      reads ∙ append_assoc token (d ∷ []) ds,
      counts ∙ omega arith,
      fresh,
    )
