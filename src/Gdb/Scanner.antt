-- ===== src/Gdb/Scanner.antt =====
-- scanner.l: the rules that split the bytes from the debugger into tokens, and their actions. The
-- longest match is taken, and the first rule among equals. The newline has no rule, so that it is
-- only printed. The bytes of `buffer` in `struct parser_data` go to a message and are left out.
pub mod Tokens
pub mod Serves
pub mod Keeps
use arm_simulator.Base.{
  ℕ, zero, suc, ◌+◌, ◌-◌, leb, ltb, ◌==◌, if◌then◌else◌, ◌&&◌, ◌||◌, Bool, Option, none, some, List,
  [], ◌∷◌, ◌++◌, length,
}
use arm_simulator.Core.{Arm, Target}
use arm_simulator.Gdb.Session.{
  Session, Outside, Outcome, returned, ended, running, overrun, gdb_transmit_packet,
  gdb_require_retransmission,
}
use arm_simulator.Gdb.Packets.{gdb_init_data, gdb_packet_analysis}

-- What a rule matched.
pub data Token : Type 0 where
  ack resend newline : Token
  framed : List ℕ → Token
  other : ℕ → Token

-- HEX
unfoldable pub is_hex : ℕ → Bool
is_hex c = (leb b'0' c && leb c b'9') || (leb b'a' c && leb c b'f') || (leb b'A' c && leb c b'F')

-- The two digits after "#".
unfoldable pub frame_digits : List ℕ → Option (List ℕ × List ℕ)
frame_digits (a ∷ b ∷ s) = if is_hex a && is_hex b then some (b'#' ∷ a ∷ b ∷ [], s) else none
frame_digits s = none

-- `[^$#]*"#"{HEX}{HEX}` at the start of a text: what it matches, and the rest.
unfoldable pub frame : List ℕ → Option (List ℕ × List ℕ)
frame [] = none
frame (c ∷ s) =
    let further : Option (List ℕ × List ℕ) = elim (frame s) [
      | none ↦ none
      | some (text, rest) ↦ some (c ∷ text, rest)
    ] in
    if c == b'$' then none else if c == b'#' then frame_digits s else further

-- The token at the start of a text, which begins with `c`, and the rest.
unfoldable pub match_rule : ℕ → List ℕ → Token × List ℕ
match_rule c s =
    if c == b'+'
    then (ack, s)
    else if c == b'-'
    then (resend, s)
    else if c == b'$'
    then elim (frame s) [ none ↦ (other c, s) | some (text, rest) ↦ (framed (c ∷ text), rest) ]
    else if c == 0x0A
    then (newline, s)
    else (other c, s)

-- The tokens of a text. Each takes at least one byte, so that the length is enough fuel.
unfoldable pub tokens : ℕ → List ℕ → List Token
tokens zero s = []
tokens (suc fuel) [] = []
tokens (suc fuel) (c ∷ s) = let (token, rest) = match_rule c s in token ∷ tokens fuel rest

abbrev pub max_error_size : ℕ
max_error_size = 1024

-- `struct parser_data`
pub record Parser : Type 0 where
  pub gdb : Session
  pub len : ℕ

unfoldable pub handle_error : Parser → Parser
handle_error parser =
    if parser.len == 0
    then parser
    else record { gdb = gdb_require_retransmission parser.gdb; len = 0 }

unfoldable pub add_character_to_error : Parser → Parser
add_character_to_error parser =
    let room = if ltb (max_error_size - 2) parser.len then handle_error parser else parser in
    record room { len = room.len + 1 }

module _ (t : Target) where
  -- The action of a rule: what becomes of the session, and the length of the error.
  unfoldable pub action : Outside → ℕ → Parser → Token → Outcome × ℕ
  action o fuel parser ack = let p = handle_error parser in (returned p.gdb, p.len)
  action o fuel parser resend =
      let p = handle_error parser in (returned (gdb_transmit_packet p.gdb), p.len)
  action o fuel parser newline = (returned parser.gdb, parser.len)
  action o fuel parser (framed text) =
      let p = handle_error parser in (gdb_packet_analysis t o fuel p.gdb text, p.len)
  action o fuel parser (other c) = let p = add_character_to_error parser in (returned p.gdb, p.len)

  module _ (o : ℕ → Outside) (fuel : ℕ) where
    -- `yylex`: the actions in order, then that of the end of the file. What C leaves open may
    -- differ from token to token: `o n` is for the one with `n` after it.
    unfoldable pub yylex : List Token → Parser → Outcome
    yylex [] parser = returned (handle_error parser).gdb
    yylex (token ∷ more) parser =
        let (outcome, len) = action (o (length more)) fuel parser token in
        elim outcome [
          | returned gdb ↦ yylex more (record { gdb = gdb; len = len })
          | ended ↦ ended
          | running ↦ running
          | overrun ↦ overrun
        ]

    -- The session after the bytes of a connection.
    unfoldable pub scan : Session → List ℕ → Outcome
    scan gdb bytes = yylex (tokens (length bytes) bytes) (record { gdb = gdb; len = 0 })

    -- `gdb_scanner`, where `fdopen` succeeds.
    unfoldable pub gdb_scanner : Arm → List ℕ → List ℕ → Outcome
    gdb_scanner arm breakpoints bytes = scan (gdb_init_data arm breakpoints) bytes
