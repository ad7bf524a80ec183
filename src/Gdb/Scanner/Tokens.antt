-- ===== src/Gdb/Scanner/Tokens.antt =====
-- scanner.l: every byte is in exactly one token, and a packet is one token.
use arm_simulator.Base.{
  ==_ne, ℕ, zero, suc, ◌%◌, ◌/◌, ◌^◌, ◌<◌, ◌≤◌, ◌≡◌, ◌≢◌, refl, arith, ◌==◌, ◌&&◌, true, Bool-cases,
  Option-cases, inl, inr, Option, none, some, List, [], ◌∷◌, ◌++◌, length, length-append, ==_iff,
  ◌∙◌, ap, sym,
}
use mathlib.Core.List.{append_assoc}
use arm_simulator.Gdb.Text.{hex_digit, hex_text}
use arm_simulator.Gdb.Session.{checksum_from, packet_of}
use arm_simulator.Gdb.Scanner.{
  Token, ack, resend, newline, framed, other, is_hex, frame_digits, frame, match_rule, tokens,
}

-- A match, with its rest, is a split of the text.
data Splits (s : List ℕ) : Option (List ℕ × List ℕ) → Type 0 where
  missing : Splits s none
  split : (text rest : List ℕ) → s ≡ text ++ rest → Splits s (some (text, rest))

frame_digits-Splits : (s : List ℕ) → Splits (b'#' ∷ s) (frame_digits s)
unfolding frame_digits
frame_digits-Splits [] = missing
frame_digits-Splits (a ∷ []) = missing
frame_digits-Splits (a ∷ b ∷ s) = elim (Bool-cases (is_hex a && is_hex b)) [
  | inl e ↦ rw e (split (b'#' ∷ a ∷ b ∷ []) s refl)
  | inr e ↦ rw e missing
]

Splits-cons :
    (c : ℕ) (s : List ℕ) (o : Option (List ℕ × List ℕ))
    → Splits s o
    → Splits (c ∷ s) (elim o [ none ↦ none | some (text, rest) ↦ some (c ∷ text, rest) ])
Splits-cons c s none missing = missing
Splits-cons c s o (split text rest e) = split (c ∷ text) rest (ap (λ (r : List ℕ). c ∷ r) e)

frame-Splits : (s : List ℕ) → Splits s (frame s)
unfolding frame
frame-Splits [] = missing
frame-Splits (c ∷ s) = elim (Bool-cases (c == b'$')) [
  | inl e ↦ rw e missing
  | inr e ↦ rw e (elim (Bool-cases (c == b'#')) [
    | inl f ↦ rw f (rw ((==_iff c b'#').0 f) (frame_digits-Splits s))
    | inr f ↦ rw f (Splits-cons c s (frame s) (frame-Splits s))
  ])
]

abbrev pair_or : (List ℕ × List ℕ) → Option (List ℕ × List ℕ) → List ℕ × List ℕ
pair_or d none = d
pair_or d (some x) = x

split-eq :
    (s text rest : List ℕ) (o : Option (List ℕ × List ℕ))
    → Splits s o
    → o ≡ some (text, rest)
    → s ≡ text ++ rest
split-eq s text rest none missing e = absurd (cc)
split-eq s text rest o (split text' rest' f) e =
    f
    ∙ ap
        (λ (x : Option (List ℕ × List ℕ)). (pair_or (text, rest) x).0 ++ (pair_or (text, rest) x).1)
        e

frame-append : (s text rest : List ℕ) → frame s ≡ some (text, rest) → s ≡ text ++ rest
frame-append s text rest e = split-eq s text rest (frame s) (frame-Splits s) e

frame-length : (s text rest : List ℕ) → frame s ≡ some (text, rest) → length rest ≤ length s
frame-length s text rest e =
    omega (arith, ap length (frame-append s text rest e), length-append text rest)

-- The bytes of a token.
abbrev pub token_text : Token → List ℕ
token_text ack = b'+' ∷ []
token_text resend = b'-' ∷ []
token_text newline = 0x0A ∷ []
token_text (framed text) = text
token_text (other c) = c ∷ []

abbrev pub tokens_text : List Token → List ℕ
tokens_text [] = []
tokens_text (token ∷ more) = token_text token ++ tokens_text more

-- A token and its rest are the text.
match_rule-append :
    (c : ℕ) (s : List ℕ) → c ∷ s ≡ token_text (match_rule c s).0 ++ (match_rule c s).1
unfolding match_rule
match_rule-append c s = elim (Option-cases (frame s)) [
  | inl e ↦ rw e (ground arith)
  | inr ((text, rest), e) ↦
      let f = ap (λ (r : List ℕ). c ∷ r) (frame-append s text rest e) in rw e (ground (arith, f))
]

match_rule-length : (c : ℕ) (s : List ℕ) → length (match_rule c s).1 ≤ length s
unfolding match_rule
match_rule-length c s = elim (Option-cases (frame s)) [
  | inl e ↦ rw e (ground arith)
  | inr ((text, rest), e) ↦ rw e (ground (arith, frame-length s text rest e))
]

-- The tokens of a text, put together, are the text: no byte is lost, doubled or moved, and the
-- length is enough fuel.
pub tokens_text-tokens : (fuel : ℕ) (s : List ℕ) → length s ≤ fuel → tokens_text (tokens fuel s) ≡ s
unfolding tokens
tokens_text-tokens zero [] h = refl
tokens_text-tokens zero (c ∷ s) h = absurd (omega arith)
tokens_text-tokens (suc fuel) [] h = refl
tokens_text-tokens (suc fuel) (c ∷ s) h =
    let (token, rest) = match_rule c s in
    ap (λ (r : List ℕ). token_text token ++ r)
      (tokens_text-tokens fuel rest (omega (arith, match_rule-length c s)))
    ∙ sym (match_rule-append c s)

-- More fuel than the length makes no difference.
pub tokens_enough :
    (fuel more : ℕ) (s : List ℕ) → length s ≤ fuel → length s ≤ more → tokens fuel s ≡ tokens more s
unfolding tokens
tokens_enough zero zero s h k = refl
tokens_enough zero (suc more) [] h k = refl
tokens_enough (suc fuel) zero [] h k = refl
tokens_enough (suc fuel) (suc more) [] h k = refl
tokens_enough zero (suc more) (c ∷ s) h k = absurd (omega arith)
tokens_enough (suc fuel) zero (c ∷ s) h k = absurd (omega arith)
tokens_enough (suc fuel) (suc more) (c ∷ s) h k =
    let (token, rest) = match_rule c s in
    let l = match_rule-length c s in
    ap (λ (r : List Token). token ∷ r)
      (tokens_enough fuel more rest (omega (arith, l)) (omega (arith, l)))

-- Bytes that are neither "$" nor "#".
abbrev pub AllPlain : List ℕ → Type 0
AllPlain [] = Unit {0}
AllPlain (c ∷ s) = (c ≢ b'$') × (c ≢ b'#') × AllPlain s

hex_digit-is_hex : (d : ℕ) → d < 16 → is_hex (hex_digit d) ≡ true
unfolding is_hex hex_digit
hex_digit-is_hex d h = ground arith

module _ (value : ℕ) (rest : List ℕ) where
  abbrev end : List ℕ
  end = b'#' ∷ hex_text 2 value

  frame-end : frame (end ++ rest) ≡ some (end, rest)
  unfolding frame frame_digits hex_text
  frame-end =
      rw (hex_digit-is_hex (value / 16 ^ 1 % 16) (omega arith))
        (rw (hex_digit-is_hex (value / 16 ^ 0 % 16) (omega arith)) refl)

  frame-body :
      (body : List ℕ) → AllPlain body → frame (body ++ (end ++ rest)) ≡ some (body ++ end, rest)
  unfolding frame
  frame-body [] a = frame-end
  frame-body (c ∷ body) (n, m, a) =
      rw (==_ne c b'$' n) (rw (==_ne c b'#' m) (rw (frame-body body a) refl))

-- A packet of plain bytes is one token, whatever follows it.
pub tokens-packet_of :
    (body rest : List ℕ)
    → AllPlain body
    → tokens (length (packet_of body ++ rest)) (packet_of body ++ rest)
      ≡ framed (packet_of body) ∷ tokens (length rest) rest
unfolding packet_of tokens match_rule
tokens-packet_of body rest a =
    let value = checksum_from 0 body in
    rw (append_assoc body (end value rest) rest, frame-body value rest body a)
      (ap (λ (r : List Token). framed (packet_of body) ∷ r)
        (tokens_enough (length (body ++ (end value rest ++ rest))) (length rest) rest
          (unfold hex_text in omega (arith, length-append body (end value rest ++ rest)))
          (omega arith)))
