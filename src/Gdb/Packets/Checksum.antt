-- ===== src/Gdb/Packets/Checksum.antt =====
-- gdb_send_buffer and gdb_packet_analysis of gdb_protocol.c: packets and their checksums.
use arm_simulator.Base.{
  ℕ, ◌+◌, ◌-◌, ◌%◌, ◌<◌, ◌≡◌, ◌≢◌, refl, arith, ◌==◌, if◌then◌else◌, List, [], ◌∷◌, ◌++◌, length,
  drop, ◌∙◌, drop-append_suc, take-append, length-append, ==_refl, ==_ne,
}
use arm_simulator.Core.{Target}
use arm_simulator.Gdb.Text.{hex_text}
use arm_simulator.Gdb.Text.Hex.{scan_hex-two}
use arm_simulator.Gdb.Session.{
  Session, Outside, returned, checksum_from, packet_of, gdb_send_ack, gdb_require_retransmission,
}
use arm_simulator.Gdb.Packets.{
  handle, end_of_packet, given_checksum, packet_body, gdb_packet_analysis,
}

-- The sum of the bytes.
abbrev pub sum : List ℕ → ℕ
sum [] = 0
sum (c ∷ s) = c + sum s

checksum_from-sum :
    (s : List ℕ) (check : ℕ) → check < 256 → checksum_from check s ≡ (check + sum s) % 256
unfolding checksum_from
checksum_from-sum [] check h = omega arith
checksum_from-sum (c ∷ s) check h =
    omega (arith, checksum_from-sum s ((check + c) % 256) (omega arith))

checksum_from-zero : (s : List ℕ) → checksum_from 0 s ≡ sum s % 256
checksum_from-zero s = checksum_from-sum s 0 (omega arith) ∙ omega arith

length-hex_text : (value : ℕ) → length (hex_text 2 value) ≡ 2
unfolding hex_text
length-hex_text value = refl

-- A packet with any two digits as its checksum.
abbrev pub with_checksum : List ℕ → ℕ → List ℕ
with_checksum body given = b'$' ∷ (body ++ (b'#' ∷ hex_text 2 given))

module _ (o : Outside) (index : ℕ) (text : List ℕ) (given : ℕ) where
  abbrev body : List ℕ
  body = index ∷ text

  abbrev packet : List ℕ
  packet = with_checksum body given

  end-eq : end_of_packet packet ≡ length body + 1
  unfolding end_of_packet hex_text
  end-eq = omega (arith, length-append {0} body (b'#' ∷ hex_text 2 given))

  packet_body-eq : packet_body packet ≡ body
  unfolding packet_body
  packet_body-eq =
      take-append body (b'#' ∷ hex_text 2 given) (end_of_packet packet - 1) (omega (arith, end-eq))

  digits-eq : drop (end_of_packet packet + 1) packet ≡ hex_text 2 given
  digits-eq =
      drop-append_suc (b'$' ∷ body) b'#' (hex_text 2 given) (end_of_packet packet + 1)
        (omega (arith, end-eq))

  given-eq : given < 256 → given_checksum o packet ≡ given
  unfolding given_checksum
  given-eq h =
      rw (digits-eq, given_checksum)
        (rw (length-hex_text given, given_checksum)
          (rw (scan_hex-two given h, given_checksum) refl))

-- A packet is accepted exactly when its two digits are the sum of its bytes modulo 256: then the
-- acknowledgement is sent and the handler of the first byte runs on the rest; otherwise only the
-- request for retransmission is sent.
pub gdb_packet_analysis_lem :
    (t : Target) (o : Outside) (fuel : ℕ) (s : Session) (index : ℕ) (text : List ℕ) (given : ℕ)
    → given < 256
    → gdb_packet_analysis t o fuel s (with_checksum (index ∷ text) given) ≡ (
        if sum (index ∷ text) % 256 == given
        then handle t o fuel (gdb_send_ack s) index text
        else returned (gdb_require_retransmission s))
unfolding gdb_packet_analysis
gdb_packet_analysis_lem t o fuel s index text given h =
    rw (packet_body-eq o index text given, gdb_packet_analysis)
      (rw (given-eq o index text given h, checksum_from-zero (index ∷ text)) refl)

-- A packet that `gdb_send_buffer` makes of a text that is not empty is accepted by
-- `gdb_packet_analysis`, which hands the text to the handler of its first byte.
pub gdb_packet_analysis-packet_of :
    (t : Target) (o : Outside) (fuel : ℕ) (s : Session) (index : ℕ) (text : List ℕ)
    → gdb_packet_analysis t o fuel s (packet_of (index ∷ text))
      ≡ handle t o fuel (gdb_send_ack s) index text
unfolding packet_of
gdb_packet_analysis-packet_of t o fuel s index text = rw (checksum_from-zero (index ∷ text)) (
    gdb_packet_analysis_lem t o fuel s index text (sum (index ∷ text) % 256) (omega arith)
    ∙ rw (==_refl (sum (index ∷ text) % 256)) refl)

sum-append : (s r : List ℕ) → sum (s ++ r) ≡ sum s + sum r
sum-append [] r = omega arith
sum-append (c ∷ s) r = omega (arith, sum-append s r)

refused :
    (t : Target) (o : Outside) (fuel : ℕ) (s : Session) (index : ℕ) (text : List ℕ) (given : ℕ)
    → given < 256
    → sum (index ∷ text) % 256 ≢ given
    → gdb_packet_analysis t o fuel s (with_checksum (index ∷ text) given)
      ≡ returned (gdb_require_retransmission s)
refused t o fuel s index text given h n =
    gdb_packet_analysis_lem t o fuel s index text given h
    ∙ rw (==_ne (sum (index ∷ text) % 256) given n) refl

-- A packet in which one byte between "$" and "#" was changed to another byte, the checksum kept, is
-- never accepted: nothing happens but a request for retransmission.
pub one_byte_changed-refused :
    (t : Target) (o : Outside) (fuel : ℕ) (s : Session) (before after : List ℕ) (a b : ℕ)
    → a < 256
    → b < 256
    → a ≢ b
    → gdb_packet_analysis t o fuel s
        (with_checksum (before ++ (b ∷ after)) (sum (before ++ (a ∷ after)) % 256))
      ≡ returned (gdb_require_retransmission s)
one_byte_changed-refused t o fuel s [] after a b ha hb n =
    refused t o fuel s b after (sum (a ∷ after) % 256) (omega arith) λ e. n (omega arith)
one_byte_changed-refused t o fuel s (x ∷ before) after a b ha hb n =
    refused t o fuel s x (before ++ (b ∷ after)) (sum (x ∷ (before ++ (a ∷ after))) % 256)
      (omega arith)
      λ e. n (omega (arith, sum-append before (a ∷ after), sum-append before (b ∷ after)))
