-- ===== src/Memory/Bounds.antt =====
-- memory.c: the widths of what is read, and the memory after a write.
use arm_simulator.Base.{
  ℕ, zero, suc, ◌+◌, ◌-◌, ◌^◌, ◌<◌, ◌≡◌, refl, arith, length, AllBelow, AllBelow-set,
  AllBelow-get_or, length-set, set, leb, ◌==◌, ◌∙◌, Bool-cases, inl, inr, Option, List, u32,
}
use arm_simulator.Base.Bits.{bit_or-lt}
use arm_simulator.Memory.{
  Memory, with_bytes, memory_read_byte, memory_read_half, memory_read_word, memory_write_byte,
  memory_write_half, memory_write_word, half_of, word_of, put_half, put_word, read_big, read_little,
  write_big, write_little, byte_at,
}
use arm_simulator.Memory.Holds.{
  Holds, read_byte-Holds, read_half-Holds, read_word-Holds, write_byte-Holds, write_half-Holds,
  write_word-Holds,
}

-- Two lists of bytes of one length.
abbrev SameShape : List ℕ → List ℕ → Type 0
SameShape bytes bytes' = (length bytes' ≡ length bytes) × AllBelow 256 bytes'

set-SameShape :
    (bytes bytes' : List ℕ) (i v : ℕ)
    → v < 256
    → SameShape bytes bytes'
    → SameShape bytes (set bytes' i v)
set-SameShape bytes bytes' i v b (e, a) =
    (length-set bytes' i v ∙ e, AllBelow-set 256 bytes' i v b a)

put_half-SameShape :
    (bytes : List ℕ) (address value be : ℕ)
    → AllBelow 256 bytes
    → SameShape bytes (put_half bytes address value be)
unfolding put_half
put_half-SameShape bytes address value be a = elim (Bool-cases (be == 0)) [
  | inl e ↦ rw e (
      set-SameShape bytes _ _ _ (omega arith)
        (set-SameShape bytes bytes _ _ (omega arith) (refl, a)))
  | inr e ↦ rw e (
      set-SameShape bytes _ _ _ (omega arith)
        (set-SameShape bytes bytes _ _ (omega arith) (refl, a)))
]

write_big-SameShape :
    (left : ℕ) (bytes bytes' : List ℕ) (address value : ℕ)
    → SameShape bytes bytes'
    → SameShape bytes (write_big bytes' address value left)
unfolding write_big
write_big-SameShape zero bytes bytes' address value s = s
write_big-SameShape (suc left) bytes bytes' address value s =
    write_big-SameShape left bytes _ address value (set-SameShape bytes bytes' _ _ (omega arith) s)

write_little-SameShape :
    (left : ℕ) (bytes bytes' : List ℕ) (address value : ℕ)
    → SameShape bytes bytes'
    → SameShape bytes (write_little bytes' address value left)
unfolding write_little
write_little-SameShape zero bytes bytes' address value s = s
write_little-SameShape (suc left) bytes bytes' address value s =
    write_little-SameShape left bytes _ address value
      (set-SameShape bytes bytes' _ _ (omega arith) s)

put_word-SameShape :
    (bytes : List ℕ) (address value be : ℕ)
    → AllBelow 256 bytes
    → SameShape bytes (put_word bytes address value be)
unfolding put_word
put_word-SameShape bytes address value be a = elim (Bool-cases (be == 0)) [
  | inl e ↦ rw e (write_little-SameShape 4 bytes bytes address value (refl, a))
  | inr e ↦ rw e (write_big-SameShape 4 bytes bytes address value (refl, a))
]

read_little-lt :
    (left : ℕ) (bytes : List ℕ) (address aux : ℕ)
    → aux < 2 ^ 32
    → read_little bytes address left aux < 2 ^ 32
unfolding read_little
read_little-lt zero bytes address aux h = h
read_little-lt (suc left) bytes address aux h =
    read_little-lt left bytes address _ (bit_or-lt 32 _ _ h (omega arith))

read_big-lt :
    (left : ℕ) (bytes : List ℕ) (address aux : ℕ)
    → aux < 2 ^ 32
    → read_big bytes address left aux < 2 ^ 32
unfolding read_big
read_big-lt zero bytes address aux h = h
read_big-lt (suc left) bytes address aux h =
    read_big-lt left bytes address _ (bit_or-lt 32 _ _ h (omega arith))

pub word_of-lt : (bytes : List ℕ) (address be : ℕ) → word_of bytes address be < 2 ^ 32
unfolding word_of
word_of-lt bytes address be =
    ground (arith, read_little-lt 4 bytes address 0, read_big-lt 4 bytes address 0)

pub half_of-lt :
    (bytes : List ℕ) (address be : ℕ) → AllBelow 256 bytes → half_of bytes address be < 2 ^ 32
unfolding half_of
half_of-lt bytes address be a = elim (Bool-cases (be == 0)) [
  | inl e ↦ rw e (bit_or-lt 32 _ _ (bit_or-lt 32 0 _ (omega arith) here) (omega arith))
  | inr e ↦ rw e (bit_or-lt 32 _ _ (bit_or-lt 32 0 _ (omega arith) (omega arith)) next)
]
  where
    here : byte_at bytes address < 2 ^ 32
    here = omega (arith, AllBelow-get_or 256 bytes address 0 (omega arith) a)

    next : byte_at bytes (u32 (address + 1)) < 2 ^ 32
    next = omega (arith, AllBelow-get_or 256 bytes (u32 (address + 1)) 0 (omega arith) a)

module _ {mem : Option Memory} {bytes : List ℕ} (h : Holds mem bytes) where
  -- What a read leaves in its variable is below 2^32 if what it held was.
  pub read_byte-lt :
      (address value : ℕ) → value < 2 ^ 32 → (memory_read_byte mem address value).1 < 2 ^ 32
  read_byte-lt address value v =
      rw (read_byte-Holds h)
        (ground (arith, AllBelow-get_or 256 bytes address 0 (omega arith) h.are_bytes))

  pub read_half-lt :
      (address value be : ℕ) → value < 2 ^ 32 → (memory_read_half mem address value be).1 < 2 ^ 32
  read_half-lt address value be v =
      rw (read_half-Holds h) (ground (arith, half_of-lt bytes address be h.are_bytes))

  pub read_word-lt :
      (address value be : ℕ) → value < 2 ^ 32 → (memory_read_word mem address value be).1 < 2 ^ 32
  read_word-lt address value be v =
      rw (read_word-Holds h) (ground (arith, word_of-lt bytes address be))

  -- The bytes of a memory after a write.
  abbrev pub Kept : Option Memory → Type 0
  Kept mem' = (bytes' : List ℕ) × Holds mem' bytes' × (length bytes' ≡ length bytes)

  Kept-same : Kept mem
  Kept-same = (bytes, h, refl)

  Holds-new :
      (bytes' : List ℕ) → SameShape bytes bytes' → Holds (with_bytes bytes' (length bytes)) bytes'
  Holds-new bytes' (e, a) = record {
    is_intact = rw e;
    are_bytes = a;
    at_least = rw e h.at_least;
    at_most = rw e h.at_most;
  }

  Kept-new : (bytes' : List ℕ) → SameShape bytes bytes' → Kept (with_bytes bytes' (length bytes))
  Kept-new bytes' s = (bytes', Holds-new bytes' s, s.0)

  -- The memory after a word is put.
  pub put_word-Holds :
      (address value be : ℕ)
      → Holds
          (with_bytes (put_word bytes address value be) (length bytes))
          (put_word bytes address value be)
  put_word-Holds address value be =
      Holds-new _ (put_word-SameShape bytes address value be h.are_bytes)

  pub length-put_word :
      (address value be : ℕ) → length (put_word bytes address value be) ≡ length bytes
  length-put_word address value be = (put_word-SameShape bytes address value be h.are_bytes).0

  pub put_half-Holds :
      (address value be : ℕ)
      → Holds
          (with_bytes (put_half bytes address value be) (length bytes))
          (put_half bytes address value be)
  put_half-Holds address value be =
      Holds-new _ (put_half-SameShape bytes address value be h.are_bytes)

  pub length-put_half :
      (address value be : ℕ) → length (put_half bytes address value be) ≡ length bytes
  length-put_half address value be = (put_half-SameShape bytes address value be h.are_bytes).0

  pub write_byte-Kept :
      (address value : ℕ) → value < 256 → Kept (memory_write_byte mem address value).1
  write_byte-Kept address value v =
      rw (write_byte-Holds h) (elim (Bool-cases (leb (length bytes) address)) [
        | inl e ↦ rw e Kept-same
        | inr e ↦ rw e (Kept-new _ (set-SameShape bytes bytes address value v (refl, h.are_bytes)))
      ])

  pub write_half-Kept : (address value be : ℕ) → Kept (memory_write_half mem address value be).1
  write_half-Kept address value be =
      rw (write_half-Holds h) (elim (Bool-cases (leb (length bytes - 1) address)) [
        | inl e ↦ rw e Kept-same
        | inr e ↦ rw e (Kept-new _ (put_half-SameShape bytes address value be h.are_bytes))
      ])

  pub write_word-Kept : (address value be : ℕ) → Kept (memory_write_word mem address value be).1
  write_word-Kept address value be =
      rw (write_word-Holds h) (elim (Bool-cases (leb (length bytes - 3) address)) [
        | inl e ↦ rw e Kept-same
        | inr e ↦ rw e (Kept-new _ (put_word-SameShape bytes address value be h.are_bytes))
      ])
