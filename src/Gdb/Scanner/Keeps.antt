-- ===== src/Gdb/Scanner/Keeps.antt =====
-- scanner.l: the invariant of a session, for any bytes.
use arm_simulator.Base.{
  ℕ, ◌-◌, ◌<◌, ◌==◌, ltb, arith, List, [], ◌∷◌, ◌++◌, length, AllBelow, sym, Bool-cases, inl, inr,
}
use mathlib.Core.Path.{subst}
use arm_simulator.Core.{Target}
use arm_simulator.Gdb.Session.{overrun, Session, Outside, Outcome, returned, ended, running}
use arm_simulator.Gdb.Valid.{
  IsSession, Keeps, kept, at_end, no_fuel, past_end, transmit-IsSession, retransmission-IsSession,
}
use arm_simulator.Gdb.Valid.Packets.{gdb_packet_analysis-Keeps}
use arm_simulator.Gdb.Scanner.{
  Token, ack, resend, newline, framed, other, tokens, max_error_size, Parser, handle_error,
  add_character_to_error, action, yylex, scan,
}
use arm_simulator.Gdb.Scanner.Tokens.{token_text, tokens_text, tokens_text-tokens}

handle_error-lt : (p : Parser) → p.len < max_error_size → (handle_error p).len < max_error_size
unfolding handle_error
handle_error-lt p h = ground arith

add_character-lt :
    (p : Parser) → p.len < max_error_size → (add_character_to_error p).len < max_error_size
unfolding add_character_to_error handle_error
add_character-lt p h = ground arith

-- Where the collected error is shorter than `buffer`, it is so after every token: the places that
-- `add_character_to_error` and `handle_error` write are inside its 1024 bytes.
pub action-lt :
    (t : Target) (o : Outside) (fuel : ℕ) (p : Parser) (token : Token)
    → p.len < max_error_size
    → (action t o fuel p token).1 < max_error_size
unfolding action
action-lt t o fuel p ack h = handle_error-lt p h
action-lt t o fuel p resend h = handle_error-lt p h
action-lt t o fuel p newline h = h
action-lt t o fuel p (framed text) h = handle_error-lt p h
action-lt t o fuel p (other c) h = add_character-lt p h

module _ {size : ℕ} where
  handle_error-IsSession : (p : Parser) → IsSession size p.gdb → IsSession size (handle_error p).gdb
  unfolding handle_error
  handle_error-IsSession p v = elim (Bool-cases (p.len == 0)) [
    | inl e ↦ rw e v
    | inr e ↦ rw e (retransmission-IsSession p.gdb v)
  ]

  add_character-IsSession :
      (p : Parser) → IsSession size p.gdb → IsSession size (add_character_to_error p).gdb
  unfolding add_character_to_error
  add_character-IsSession p v = elim (Bool-cases (ltb (max_error_size - 2) p.len)) [
    | inl e ↦ rw e (handle_error-IsSession p v)
    | inr e ↦ rw e v
  ]

  action-Keeps :
      (t : Target) (o : Outside) (fuel : ℕ) (p : Parser) (token : Token)
      → AllBelow 256 (token_text token)
      → IsSession size p.gdb
      → Keeps size (action t o fuel p token).0
  unfolding action
  action-Keeps t o fuel p ack a v = kept _ (handle_error-IsSession p v)
  action-Keeps t o fuel p resend a v = kept _ (transmit-IsSession _ (handle_error-IsSession p v))
  action-Keeps t o fuel p newline a v = kept _ v
  action-Keeps t o fuel p (framed text) a v =
      gdb_packet_analysis-Keeps t o fuel _ text (handle_error-IsSession p v) a
  action-Keeps t o fuel p (other c) a v = kept _ (add_character-IsSession p v)

AllBelow-append_parts :
    (b : ℕ) (xs ys : List ℕ) → AllBelow b (xs ++ ys) → AllBelow b xs × AllBelow b ys
AllBelow-append_parts b [] ys a = (tt, a)
AllBelow-append_parts b (x ∷ xs) ys (h, a) =
    let (u, w) = AllBelow-append_parts b xs ys a in ((h, u), w)

module _ {size : ℕ} (t : Target) (o : ℕ → Outside) (fuel : ℕ) where
  yylex-Keeps :
      (ks : List Token) (p : Parser)
      → AllBelow 256 (tokens_text ks)
      → IsSession size p.gdb
      → Keeps size (yylex t o fuel ks p)
  unfolding yylex
  yylex-Keeps [] p a v = kept _ (handle_error-IsSession p v)
  yylex-Keeps (token ∷ more) p a v =
      let (u, w) = AllBelow-append_parts 256 (token_text token) (tokens_text more) a in
      let (outcome, len) = action t (o (length more)) fuel p token in
      after (λ q v'. yylex-Keeps more q w v') outcome len
        (action-Keeps t (o (length more)) fuel p token u v)
    where
      after :
          ((q : Parser) → IsSession size q.gdb → Keeps size (yylex t o fuel more q))
          → (outcome : Outcome) (len : ℕ) → Keeps size outcome
          → Keeps size (elim outcome [
            | returned gdb ↦ yylex t o fuel more (record { gdb = gdb; len = len })
            | ended ↦ ended
            | running ↦ running
            | overrun ↦ overrun
          ])
      after go (returned q) len (kept q' v') = go (record { gdb = q; len = len }) v'
      after go ended len k = at_end
      after go running len k = no_fuel
      after go overrun len k = past_end

  -- Any bytes on the connection, packets or not, keep a valid session valid, as long as the process
  -- goes on and no reply overruns the packet.
  pub scan-Keeps :
      (s : Session) (bytes : List ℕ)
      → IsSession size s
      → AllBelow 256 bytes
      → Keeps size (scan t o fuel s bytes)
  unfolding scan
  scan-Keeps s bytes v a =
      yylex-Keeps (tokens (length bytes) bytes) (record { gdb = s; len = 0 })
        (subst (AllBelow 256) (sym (tokens_text-tokens (length bytes) bytes (omega arith))) a) v
