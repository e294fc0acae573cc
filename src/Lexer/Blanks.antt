-- ===== src/Lexer/Blanks.antt =====
-- What the scanner of lexer/whitespace.c makes of blanks.
use obelix.Prelude.{
  ℕ, zero, suc, ◌+◌, ◌≡◌, ◌<◌, refl, sym, ap, ap₂, ◌∙◌, Bool, true, false, not, ◌&&◌, some, ◌>>=◌,
  [], ◌∷◌, ◌++◌, ◌==◌, if◌then◌else◌, Bool-cases, inl, inr, arith, length, append-nil, append_assoc,
}
use obelix.Strutils.{String, char_at, isspace}
use obelix.Lexer.{Lexer, code_whitespace, get_char, push, push_as, skip, rewind}
use obelix.Lexer.Integers.{Scanned, seen_char, pushed}
use obelix.Lexer.LeadingZeros.{accepted, accepted_place}
use obelix.Lexer.Whitespace.{
  WsState, WsConfig, Act, init, whitespace, done, push_it, end_space, step, act, is_over, scan,
  settle, ws_match,
}

scan_stop :
    (n : ℕ) (config : WsConfig) (s s' : WsState) (a : Act) (l : Lexer)
    → step config s (get_char l).0 ≡ (s', a)
    → is_over s' ≡ true
    → scan (suc n) config s l ≡ some (s', act config a (get_char l).1)
unfolding scan
scan_stop n config s s' a l e over =
    ap
      (λ r.
        if is_over r.0
        then some (r.0, act config r.1 (get_char l).1)
        else scan n config r.0 (act config r.1 (get_char l).1))
      e
    ∙ ap
        (λ b.
          if b
          then some (s', act config a (get_char l).1)
          else scan n config s' (act config a (get_char l).1))
        over

scan_on :
    (n : ℕ) (config : WsConfig) (s s' : WsState) (a : Act) (l : Lexer)
    → step config s (get_char l).0 ≡ (s', a)
    → is_over s' ≡ false
    → scan (suc n) config s l ≡ scan n config s' (act config a (get_char l).1)
unfolding scan
scan_on n config s s' a l e goes_on =
    ap
      (λ r.
        if is_over r.0
        then some (r.0, act config r.1 (get_char l).1)
        else scan n config r.0 (act config r.1 (get_char l).1))
      e
    ∙ ap
        (λ b.
          if b
          then some (s', act config a (get_char l).1)
          else scan n config s' (act config a (get_char l).1))
        goes_on

-- A blank that ends no line.
abbrev pub is_blank : ℕ → Bool
is_blank c = isspace c && not (c == 13) && not (c == 10)

abbrev pub all_blank : String → Bool
all_blank [] = true
all_blank (c ∷ cs) = is_blank c && all_blank cs

blank_ascii : (c : ℕ) → is_blank c ≡ true → (0 < c) × (c < 128)
blank_ascii c blank = (ground arith, ground arith)

blank-step :
    (config : WsConfig) (c : ℕ)
    → is_blank c ≡ true
    → step config whitespace c ≡ (whitespace, push_it)
unfolding step
blank-step config c blank = ground arith

init-step :
    (config : WsConfig) (c : ℕ) → is_blank c ≡ true → step config init c ≡ (whitespace, push_it)
unfolding step
init-step config c blank = ground arith

end-step :
    (config : WsConfig) (c : ℕ) → isspace c ≡ false → step config whitespace c ≡ (done, end_space)
unfolding step
end-step config c other = ground arith

scan-blanks :
    (fuel : ℕ) (config : WsConfig) (l : Lexer) (token cs after : String) (n : ℕ)
    → Scanned l token n (cs ++ after)
    → all_blank cs ≡ true
    → isspace (char_at after) ≡ false
    → length cs < fuel
    → (u : Lexer) × (scan fuel config whitespace l ≡ some (done, act config end_space u))
      × (u.token ≡ token ++ cs)
      × (u.scan_count ≡ n + length cs)
      × (u.scanned ≡ 0)
      × (u.last_token ≡ l.last_token)
scan-blanks zero config l token cs after n k blanks stops few = absurd (omega arith)
scan-blanks (suc fuel) config l token [] after n k blanks stops few =
    let same_token : (get_char l).1.token ≡ l.token = (unfold get_char in refl) in
    let same_count : (get_char l).1.scan_count ≡ l.scan_count = (unfold get_char in refl) in
    let same_scanned : (get_char l).1.scanned ≡ l.scanned = (unfold get_char in refl) in
    let same_last : (get_char l).1.last_token ≡ l.last_token = (unfold get_char in refl) in
    let counts = k.counts in
    (
      (get_char l).1,
      scan_stop fuel config whitespace done end_space l
          (ap (step config whitespace) (seen_char l token after n k)
            ∙ end-step config (char_at after) stops)
          refl,
      same_token ∙ k.reads ∙ sym (append-nil token),
      omega arith,
      same_scanned ∙ k.fresh,
      same_last,
    )
scan-blanks (suc fuel) config l token (c ∷ cs) after n k blanks stops few =
    let blank : is_blank c ≡ true = ground arith in
    let next =
      pushed false l token (cs ++ after) n c k (blank_ascii c blank).0 (blank_ascii c blank).1 in
    let same_last : (push (get_char l).1).last_token ≡ l.last_token =
      (unfold get_char push push_as in refl) in
    let (u, runs, reads, counts, fresh, last) =
      scan-blanks fuel config (push (get_char l).1) (token ++ c ∷ []) cs after (suc n) next
        (ground arith) stops (omega arith) in
    (
      u,
      scan_on fuel config whitespace whitespace push_it l
            (ap (step config whitespace) (seen_char l token (c ∷ cs ++ after) n k)
              ∙ blank-step config c blank)
            refl
          ∙ (let acts : act config push_it (get_char l).1 ≡ push (get_char l).1 =
                (unfold act in refl) in
              ap (scan fuel config whitespace) acts)
          ∙ runs,
      reads ∙ append_assoc token (c ∷ []) cs,
      counts ∙ omega arith,
      fresh,
      last ∙ same_last,
    )

-- How the scanner ends at a blank that is ignored or made a token.
end_space-act :
    (config : WsConfig) (u : Lexer)
    → 0 < u.scan_count
    → u.scanned ≡ 0
    → let t = settle (done, act config end_space u) in
      (t.scanned ≡ u.scan_count)
      × (t.pos ≡ 0)
      × (t.success ≡ true)
      × (t.last_token ≡ (
          if config.ignore_ws
          then u.last_token
          else some (record { code = code_whitespace; text = u.token })))
unfolding settle act
end_space-act config u some_count fresh = elim (Bool-cases config.ignore_ws) [
  | inl ignores ↦ rw ignores (unfold skip rewind in rw fresh (refl, refl, refl, refl))
  | inr gives ↦
      let (same_scanned, same_pos, _) = accepted_place u code_whitespace some_count fresh in
      rw gives (same_scanned, same_pos, refl, accepted u code_whitespace some_count fresh)
]

-- Blanks between two other characters make one whitespace token, or none if the scanner is to ignore
-- them; either way the lexer is to skip just these blanks.
pub ws_match-blanks :
    (fuel : ℕ) (config : WsConfig) (l : Lexer) (c : ℕ) (cs after : String)
    → Scanned l [] 0 ((c ∷ cs) ++ after)
    → all_blank (c ∷ cs) ≡ true
    → isspace (char_at after) ≡ false
    → suc (length cs) < fuel
    → (t : Lexer) × (ws_match fuel config l ≡ some t)
      × (t.scanned ≡ suc (length cs))
      × (t.pos ≡ 0)
      × (t.success ≡ true)
      × (t.last_token ≡ (
          if config.ignore_ws
          then l.last_token
          else some (record { code = code_whitespace; text = c ∷ cs })))
unfolding ws_match
ws_match-blanks zero config l c cs after k blanks stops few = absurd (omega arith)
ws_match-blanks (suc fuel) config l c cs after k blanks stops few =
    let blank : is_blank c ≡ true = ground arith in
    let next =
      pushed false l [] (cs ++ after) 0 c k (blank_ascii c blank).0 (blank_ascii c blank).1 in
    let same_last : (push (get_char l).1).last_token ≡ l.last_token =
      (unfold get_char push push_as in refl) in
    let acts : act config push_it (get_char l).1 ≡ push (get_char l).1 = (unfold act in refl) in
    let (u, runs, reads, counts, fresh, last) =
      scan-blanks fuel config (push (get_char l).1) (c ∷ []) cs after 1 next (ground arith) stops
        (omega arith) in
    let some_count : 0 < u.scan_count = omega arith in
    let (same_scanned, same_pos, succeeds, gives) = end_space-act config u some_count fresh in
    (
      settle (done, act config end_space u),
      ap (λ o. o >>= λ r. some (settle r))
          (scan_on fuel config init whitespace push_it l
              (ap (step config init) (seen_char l [] ((c ∷ cs) ++ after) 0 k)
                ∙ init-step config c blank)
              refl
            ∙ ap (scan fuel config whitespace) acts
            ∙ runs),
      same_scanned ∙ counts ∙ omega arith,
      same_pos,
      succeeds,
      gives
          ∙ ap₂
              (λ o xs.
                if config.ignore_ws then o else some (record { code = code_whitespace; text = xs }))
              (last ∙ same_last) reads,
    )
