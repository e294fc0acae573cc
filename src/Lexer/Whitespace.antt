-- ===== src/Lexer/Whitespace.antt =====
-- The scanner of lexer/whitespace.c, a state machine over blanks and line ends.
use obelix.Prelude.{
  ℕ, zero, suc, Bool, true, false, not, ◌&&◌, ◌||◌, Option, none, some, ◌>>=◌, ◌==◌, if◌then◌else◌,
}
use obelix.Strutils.{isspace}
use obelix.Lexer.{Lexer, code_whitespace, code_newline, get_char, push, accept, skip}

pub data WsState : Type 0 where
  init : WsState
  whitespace : WsState
  cr : WsState
  newline : WsState
  done : WsState
  no_ws : WsState

pub record WsConfig : Type 0 where
  pub ignore_nl : Bool
  pub ignore_ws : Bool

unfoldable pub ws_config_create : WsConfig
ws_config_create = record { ignore_nl = false; ignore_ws = false }

-- What a round of `_ws_match` does with the lexer.
pub data Act : Type 0 where
  keep : Act
  push_it : Act
  end_line : Act
  end_space : Act

abbrev pub nl_is_ws : WsConfig → Bool
nl_is_ws config = config.ignore_nl && not config.ignore_ws

unfoldable pub step : WsConfig → WsState → ℕ → WsState × Act
step config init ch =
    if isspace ch
    then (
      if ch == 13
          then (if nl_is_ws config then whitespace else cr)
          else if ch == 10
          then (if nl_is_ws config then whitespace else newline)
          else whitespace,
      push_it,
    )
    else (no_ws, keep)
step config cr ch =
    if ch == 10 then (newline, push_it) else if ch == 13 then (cr, push_it) else (done, end_line)
step config newline ch =
    if ch == 13 then (cr, push_it) else if ch == 10 then (newline, push_it) else (done, end_line)
step config whitespace ch =
    if not (isspace ch) || (not (nl_is_ws config) && (ch == 13 || ch == 10))
    then (done, end_space)
    else (whitespace, push_it)
step config done ch = (done, keep)
step config no_ws ch = (no_ws, keep)

unfoldable pub act : WsConfig → Act → Lexer → Lexer
unfolding push skip accept
act config keep l = l
act config push_it l = push l
act config end_line l = if config.ignore_nl then skip l else accept l code_newline
act config end_space l = if config.ignore_ws then skip l else accept l code_whitespace

abbrev pub is_over : WsState → Bool
is_over done = true
is_over no_ws = true
is_over init = false
is_over whitespace = false
is_over cr = false
is_over newline = false

-- The loop of `_ws_match`; `none` is too little fuel.
unfoldable pub scan : ℕ → WsConfig → WsState → Lexer → Option (WsState × Lexer)
unfolding step act get_char
scan zero config s l = none
scan (suc n) config s l =
    let r = step config s (get_char l).0 in
    let l₁ = act config r.1 (get_char l).1 in
    let rest = scan n config r.0 l₁ in if is_over r.0 then some (r.0, l₁) else rest

unfoldable pub settle : WsState × Lexer → Lexer
settle (state, l) = elim state [ done ↦ record l { success = true } | _ ↦ l ]

unfoldable pub ws_match : ℕ → WsConfig → Lexer → Option Lexer
unfolding scan settle
ws_match fuel config l = scan fuel config init l >>= λ r. some (settle r)
