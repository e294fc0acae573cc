-- ===== src/Lexer/Words.antt =====
-- What the scanner of lexer/identifier.c makes of a text.
use obelix.Prelude.{
  ℕ, zero, suc, ◌+◌, ◌≡◌, ◌≤◌, ◌<◌, refl, sym, ap, ap₂, ◌∙◌, Bool, true, false, ◌&&◌, some, ◌>>=◌,
  [], ◌∷◌, ◌++◌, ltb, if◌then◌else◌, Bool-cases, inl, inr, arith, length, get_or-past, append_assoc,
  append-nil,
}
use obelix.Strutils.{String, char_at}
use obelix.Lexer.{TokenCode, Lexer, get_char, push, accept, accept_token}
use obelix.Lexer.Integers.{Scanned, seen_char, pushed}
use obelix.Lexer.LeadingZeros.{accepted, accepted_place}
use obelix.Lexer.Identifier.{
  IdCharclass, IdConfig, case_sensitive, fold_to_lower, only_lower, fold_to_upper, only_upper,
  no_alpha, config_filter, push_folded, scan, id_match,
}

scan_on :
    (n : ℕ) (config : IdConfig) (l : Lexer)
    → config_filter config l.token (get_char l).0 ≡ true
    → scan (suc n) config l ≡ scan n config (push_folded config.alpha (get_char l).1 (get_char l).0)
unfolding scan
scan_on n config l passes =
    ap
      (λ b.
        if b
        then scan n config (push_folded config.alpha (get_char l).1 (get_char l).0)
        else some (get_char l).1)
      passes

scan_stop :
    (n : ℕ) (config : IdConfig) (l : Lexer)
    → config_filter config l.token (get_char l).0 ≡ false
    → scan (suc n) config l ≡ some (get_char l).1
unfolding scan
scan_stop n config l fails =
    ap
      (λ b.
        if b
        then scan n config (push_folded config.alpha (get_char l).1 (get_char l).0)
        else some (get_char l).1)
      fails

-- Letters are kept as they are.
abbrev pub keeps_case : IdCharclass → Bool
keeps_case case_sensitive = true
keeps_case only_lower = true
keeps_case only_upper = true
keeps_case fold_to_upper = false
keeps_case fold_to_lower = false
keeps_case no_alpha = false

push_folded-keeps :
    (alpha : IdCharclass) (l : Lexer) (ch : ℕ)
    → keeps_case alpha ≡ true
    → push_folded alpha l ch ≡ push l
unfolding push_folded
push_folded-keeps case_sensitive l ch keeps = refl
push_folded-keeps only_lower l ch keeps = refl
push_folded-keeps only_upper l ch keeps = refl
push_folded-keeps fold_to_upper l ch keeps = cc keeps
push_folded-keeps fold_to_lower l ch keeps = cc keeps
push_folded-keeps no_alpha l ch keeps = cc keeps

-- The characters of `xs` are ASCII and pass one after the other, behind those of `token`.
abbrev pub all_pass : IdConfig → String → String → Bool
all_pass config token [] = true
all_pass config token (c ∷ cs) =
    ltb c 128 && config_filter config token c && all_pass config (token ++ c ∷ []) cs

passes-some :
    (config : IdConfig) (token : String) (c : ℕ) → config_filter config token c ≡ true → 0 < c
unfolding config_filter
passes-some config token zero passes = cc passes
passes-some config token (suc c) passes = omega arith

scan-word :
    (fuel : ℕ) (config : IdConfig) (l : Lexer) (token xs after : String) (n : ℕ)
    → keeps_case config.alpha ≡ true
    → Scanned l token n (xs ++ after)
    → all_pass config token xs ≡ true
    → config_filter config (token ++ xs) (char_at after) ≡ false
    → length xs < fuel
    → (t : Lexer) × (scan fuel config l ≡ some t)
      × (t.token ≡ token ++ xs)
      × (t.scan_count ≡ n + length xs)
      × (t.scanned ≡ 0)
scan-word zero config l token xs after n keeps k passes stops few = absurd (omega arith)
scan-word (suc fuel) config l token [] after n keeps k passes stops few =
    let same_token : (get_char l).1.token ≡ l.token = (unfold get_char in refl) in
    let same_count : (get_char l).1.scan_count ≡ l.scan_count = (unfold get_char in refl) in
    let same_scanned : (get_char l).1.scanned ≡ l.scanned = (unfold get_char in refl) in
    let counts = k.counts in
    (
      (get_char l).1,
      scan_stop fuel config l (
          ap₂ (λ ts c. config_filter config ts c) (k.reads ∙ sym (append-nil token))
            (seen_char l token after n k)
          ∙ stops),
      same_token ∙ k.reads ∙ sym (append-nil token),
      omega arith,
      same_scanned ∙ k.fresh,
    )
scan-word (suc fuel) config l token (c ∷ xs) after n keeps k passes stops few =
    let pass : config_filter config token c ≡ true = ground arith in
    let some_char : 0 < c = passes-some config token c pass in
    let next = pushed false l token (xs ++ after) n c k some_char (ground arith) in
    let (t, runs, reads, counts, fresh) =
      scan-word fuel config (push (get_char l).1) (token ++ c ∷ []) xs after (suc n) keeps next
        (ground arith)
        (ap (λ ts. config_filter config ts (char_at after)) (append_assoc token (c ∷ []) xs)
          ∙ stops)
        (omega arith) in
    (
      t,
      scan_on fuel config l (
            ap₂ (λ ts d. config_filter config ts d) k.reads
              (seen_char l token (c ∷ xs ++ after) n k)
            ∙ pass)
          ∙ ap (scan fuel config)
              (push_folded-keeps config.alpha (get_char l).1 (get_char l).0 keeps)
          ∙ runs,
      reads ∙ append_assoc token (c ∷ []) xs,
      counts ∙ omega arith,
      fresh,
    )

-- With settings that keep the case, the identifier scanner makes one token of at least one ASCII
-- character, all of which pass its filters, up to the first character that does not, and the lexer
-- is to skip just these.
pub id_match-word :
    (fuel : ℕ) (config : IdConfig) (l : Lexer) (c : ℕ) (cs after : String)
    → keeps_case config.alpha ≡ true
    → Scanned l [] 0 ((c ∷ cs) ++ after)
    → all_pass config [] (c ∷ cs) ≡ true
    → config_filter config (c ∷ cs) (char_at after) ≡ false
    → suc (length cs) < fuel
    → (t : Lexer) × (id_match fuel config l ≡ some t)
      × (t.last_token ≡ some (record { code = config.code; text = c ∷ cs }))
      × (t.scanned ≡ suc (length cs))
      × (t.pos ≡ 0)
unfolding id_match
id_match-word fuel config l c cs after keeps k passes stops few =
    let (u, runs, reads, counts, fresh) =
      scan-word fuel config l [] (c ∷ cs) after 0 keeps k passes stops few in
    let some_count : 0 < u.scan_count = omega arith in
    let (same_scanned, same_pos, _) = accepted_place u config.code some_count fresh in
    (
      accept u config.code,
      ap (λ o. o >>= λ t. some (accept t config.code)) runs,
      accepted u config.code some_count fresh
          ∙ ap (λ xs. some (record { code = config.code; text = xs })) reads,
      same_scanned ∙ counts ∙ omega arith,
      same_pos,
    )

push_folded-no_alpha :
    (alpha : IdCharclass) (l : Lexer) (ch : ℕ) → alpha ≡ no_alpha → push_folded alpha l ch ≡ l
unfolding push_folded
push_folded-no_alpha alpha l ch e = ap (λ a. push_folded a l ch) e

stopped :
    (n : ℕ) (config : IdConfig) (l : Lexer)
    → config_filter config l.token (get_char l).0 ≡ false
    → (t : Lexer) × (scan (suc n) config l ≡ some t)
      × (t.scan_count ≡ l.scan_count)
      × (t.last_token ≡ l.last_token)
stopped n config l fails = (
  (get_char l).1,
  scan_stop n config l fails,
  (unfold get_char in refl),
  (unfold get_char in refl),
)

scan-no_alpha :
    (n : ℕ) (config : IdConfig) (l : Lexer)
    → config.alpha ≡ no_alpha
    → length l.buffer ≤ l.pos + n
    → (t : Lexer) × (scan (suc n) config l ≡ some t)
      × (t.scan_count ≡ l.scan_count)
      × (t.last_token ≡ l.last_token)
scan-no_alpha zero config l none_left past =
    elim (Bool-cases (config_filter config l.token (get_char l).0)) [
      | inr fails ↦ stopped zero config l fails
      | inl passes ↦
          let some_char = passes-some config l.token (get_char l).0 passes in
          let nothing : (get_char l).0 ≡ 0 =
            (unfold get_char in get_or-past l.buffer l.pos 0 (omega arith)) in
          absurd (omega arith)
    ]
scan-no_alpha (suc n) config l none_left past =
    elim (Bool-cases (config_filter config l.token (get_char l).0)) [
      | inr fails ↦ stopped (suc n) config l fails
      | inl passes ↦
          let same_count : (get_char l).1.scan_count ≡ l.scan_count = (unfold get_char in refl) in
          let same_last : (get_char l).1.last_token ≡ l.last_token = (unfold get_char in refl) in
          let farther : length (get_char l).1.buffer ≤ (get_char l).1.pos + n =
            (unfold get_char in omega arith) in
          let (t, runs, counts, last) = scan-no_alpha n config (get_char l).1 none_left farther in
          (
            t,
            scan_on (suc n) config l passes
                ∙ ap (scan (suc n) config)
                    (push_folded-no_alpha config.alpha (get_char l).1 (get_char l).0 none_left)
                ∙ runs,
            counts ∙ same_count,
            last ∙ same_last,
          )
    ]

accept_nothing :
    (l : Lexer) (code : TokenCode) → l.scan_count ≡ 0 → (accept l code).last_token ≡ l.last_token
unfolding accept accept_token
accept_nothing l code nothing = rw nothing refl

-- With settings that allow no letters, the identifier scanner ends and gives no token, whatever the
-- text is: it never pushes the digits and other characters that pass its filters.
pub id_match-no_alpha :
    (config : IdConfig) (l : Lexer)
    → config.alpha ≡ no_alpha
    → l.scan_count ≡ 0
    → (t : Lexer) × (id_match (suc (length l.buffer)) config l ≡ some t)
      × (t.last_token ≡ l.last_token)
unfolding id_match
id_match-no_alpha config l none_left fresh =
    let (u, runs, counts, last) =
      scan-no_alpha (length l.buffer) config l none_left (omega arith) in
    (
      accept u config.code,
      ap (λ o. o >>= λ t. some (accept t config.code)) runs,
      accept_nothing u config.code (counts ∙ fresh) ∙ last,
    )
