-- ===== src/Gdb/Scanner/Serves.antt =====
-- scanner.l with gdb_packet_analysis, against a server of whole messages.
use arm_simulator.Base.{ℕ, suc, ◌≡◌, refl, List, [], ◌∷◌, ◌++◌, length, ◌∙◌, ap}
use arm_simulator.Core.{Target}
use arm_simulator.Gdb.Session.{
  Session, Outside, Outcome, returned, ended, running, overrun, packet_of, gdb_send_ack,
  gdb_transmit_packet,
}
use arm_simulator.Gdb.Packets.{handle}
use arm_simulator.Gdb.Packets.Checksum.{gdb_packet_analysis-packet_of}
use arm_simulator.Gdb.Scanner.{
  Token, ack, resend, framed, match_rule, tokens, handle_error, action, yylex, scan,
}
use arm_simulator.Gdb.Scanner.Tokens.{AllPlain, tokens-packet_of}

-- What a debugger means to send: a command, that is a byte and its text, or its opinion of the last
-- reply.
pub data Message : Type 0 where
  command : ℕ → List ℕ → Message
  received : Message
  again : Message

-- A command has neither "$" nor "#" in it.
abbrev pub IsPlain : Message → Type 0
IsPlain (command index text) = AllPlain (index ∷ text)
IsPlain received = Unit {0}
IsPlain again = Unit {0}

abbrev pub ArePlain : List Message → Type 0
ArePlain [] = Unit {0}
ArePlain (m ∷ more) = IsPlain m × ArePlain more

abbrev pub message_bytes : Message → List ℕ
message_bytes (command index text) = packet_of (index ∷ text)
message_bytes received = b'+' ∷ []
message_bytes again = b'-' ∷ []

-- The bytes on the connection.
abbrev pub stream : List Message → List ℕ
stream [] = []
stream (m ∷ more) = message_bytes m ++ stream more

module _ (t : Target) (o : ℕ → Outside) (fuel : ℕ) where
  -- A server without bytes and checksums: a command is acknowledged and handled, and a reply is
  -- sent again where it is asked for.
  abbrev pub serve_one : ℕ → Session → Message → Outcome
  serve_one n s (command index text) = handle t (o n) fuel (gdb_send_ack s) index text
  serve_one n s received = returned s
  serve_one n s again = returned (gdb_transmit_packet s)

  unfoldable pub serve : List Message → Session → Outcome
  serve [] s = returned s
  serve (m ∷ more) s = elim (serve_one (length more) s m) [
    | returned q ↦ serve more q
    | ended ↦ ended
    | running ↦ running
    | overrun ↦ overrun
  ]

abbrev message_token : Message → Token
message_token (command index text) = framed (packet_of (index ∷ text))
message_token received = ack
message_token again = resend

abbrev message_tokens : List Message → List Token
message_tokens [] = []
message_tokens (m ∷ more) = message_token m ∷ message_tokens more

tokens-stream :
    (messages : List Message)
    → ArePlain messages
    → tokens (length (stream messages)) (stream messages) ≡ message_tokens messages
unfolding tokens match_rule
tokens-stream [] a = refl
tokens-stream (command index text ∷ more) (p, a) =
    tokens-packet_of (index ∷ text) (stream more) p
    ∙ ap (λ (r : List Token). framed (packet_of (index ∷ text)) ∷ r) (tokens-stream more a)
tokens-stream (received ∷ more) (p, a) = ap (λ (r : List Token). ack ∷ r) (tokens-stream more a)
tokens-stream (again ∷ more) (p, a) = ap (λ (r : List Token). resend ∷ r) (tokens-stream more a)

length-message_tokens :
    (messages : List Message) → length (message_tokens messages) ≡ length messages
length-message_tokens [] = refl
length-message_tokens (m ∷ more) = ap suc (length-message_tokens more)

module _ (t : Target) (o : ℕ → Outside) (fuel : ℕ) where
  -- The action on the token of a message, with no error before it.
  action-serve_one :
      (n : ℕ) (s : Session) (m : Message)
      → action t (o n) fuel (record { gdb = s; len = 0 }) (message_token m)
        ≡ (serve_one t o fuel n s m, 0)
  unfolding action handle_error
  action-serve_one n s (command index text) =
      rw (gdb_packet_analysis-packet_of t (o n) fuel s index text) refl
  action-serve_one n s received = refl
  action-serve_one n s again = refl

  -- What `yylex` does with the result of an action.
  abbrev round : List Message → Outcome × ℕ → Outcome
  round more a = elim a.0 [
    | returned q ↦ yylex t o fuel (message_tokens more) (record { gdb = q; len = a.1 })
    | ended ↦ ended
    | running ↦ running
    | overrun ↦ overrun
  ]

  yylex-serve :
      (messages : List Message) (s : Session)
      → yylex t o fuel (message_tokens messages) (record { gdb = s; len = 0 })
        ≡ serve t o fuel messages s
  unfolding yylex serve handle_error
  yylex-serve [] s = refl
  yylex-serve (m ∷ more) s =
      let same = λ (k : ℕ). action t (o k) fuel (record { gdb = s; len = 0 }) (message_token m) in
      ap (round more) (ap same (length-message_tokens more) ∙ action-serve_one (length more) s m)
      ∙ after (λ q. yylex-serve more q) (serve_one t o fuel (length more) s m)
    where
      after :
          ((q : Session)
            → yylex t o fuel (message_tokens more) (record { gdb = q; len = 0 })
              ≡ serve t o fuel more q)
          → (outcome : Outcome)
          → elim outcome [
            | returned q ↦ yylex t o fuel (message_tokens more) (record { gdb = q; len = 0 })
            | ended ↦ ended
            | running ↦ running
            | overrun ↦ overrun
          ]
            ≡ elim outcome [
              | returned q ↦ serve t o fuel more q
              | ended ↦ ended
              | running ↦ running
              | overrun ↦ overrun
            ]
      after go (returned q) = go q
      after go ended = refl
      after go running = refl
      after go overrun = refl

  -- The bytes of any messages whose commands have neither "$" nor "#" in them, scanned and checked, do what a server of whole messages does: each
  -- command reaches its handler once, in order, and the reply is repeated where it is asked for.
  pub scan-serve :
      (messages : List Message) (s : Session)
      → ArePlain messages
      → scan t o fuel s (stream messages) ≡ serve t o fuel messages s
  unfolding scan
  scan-serve messages s a = rw (tokens-stream messages a) (yylex-serve messages s)
