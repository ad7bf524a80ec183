-- ===== src/Memory/RoundTrip.antt =====
-- memory.c: reads after writes, and the guards of the accesses.
use arm_simulator.Base.{
  ℕ, ◌+◌, ◌-◌, ◌*◌, ◌/◌, ◌%◌, ◌^◌, ◌≤◌, ◌<◌, ◌≡◌, refl, arith, List, length, set, get_or,
  get_or-set_self, get_or-set_ne, length-set, ap, Option, leb, lt→leb, if◌then◌else◌, ◌⊎◌, inl, inr,
  AllBelow, ◌==◌, Bool-cases, ◌∙◌, false, ==_iff, ◌↔◌,
}
use arm_simulator.Constants.{success, index_out_of_range}
use arm_simulator.Memory.{
  Memory, with_bytes, put_word, word_of, byte_at, memory_read_byte, memory_read_word,
  memory_write_word,
}
use arm_simulator.Memory.Holds.{Holds, read_byte-Holds, read_word-Holds, write_word-Holds}
use arm_simulator.Memory.Words.{word_of-little, word_of-big}
use arm_simulator.Memory.Bounds.{put_word-Holds, length-put_word}

-- A write, read at any index.
get_or-set :
    (xs : List ℕ) (i j v : ℕ)
    → i < length xs
    → get_or (set xs i v) j 0 ≡ (if i == j then v else get_or xs j 0)
get_or-set xs i j v h = ground (arith, get_or-set_self xs i v 0 h, get_or-set_ne xs i j v 0)

-- Four writes in a row.
abbrev set_four : List ℕ → (i0 i1 i2 i3 w0 w1 w2 w3 : ℕ) → List ℕ
set_four xs i0 i1 i2 i3 w0 w1 w2 w3 = set (set (set (set xs i0 w0) i1 w1) i2 w2) i3 w3

get_or-set_four :
    (xs : List ℕ) (i0 i1 i2 i3 w0 w1 w2 w3 j : ℕ)
    → i0 < length xs
    → i1 < length xs
    → i2 < length xs
    → i3 < length xs
    → get_or (set_four xs i0 i1 i2 i3 w0 w1 w2 w3) j 0 ≡ (
        if i3 == j
        then w3
        else if i2 == j
        then w2
        else if i1 == j
        then w1
        else if i0 == j
        then w0
        else get_or xs j 0)
get_or-set_four xs i0 i1 i2 i3 w0 w1 w2 w3 j h0 h1 h2 h3 =
    let x1 = set xs i0 w0 in
    let x2 = set x1 i1 w1 in
    let x3 = set x2 i2 w2 in
    let l1 : length x1 ≡ length xs = length-set xs i0 w0 in
    let l2 : length x2 ≡ length xs = length-set x1 i1 w1 ∙ l1 in
    let l3 : length x3 ≡ length xs = length-set x2 i2 w2 ∙ l2 in
    rw (get_or-set x3 i3 j w3 (omega arith)) (
      rw (get_or-set x2 i2 j w2 (omega arith))
        (rw (get_or-set x1 i1 j w1 (omega arith)) (rw (get_or-set xs i0 j w0 h0))))

-- The byte that `put_word` stores at `address + k`.
abbrev pub stored : ℕ → ℕ → ℕ → ℕ
stored value be k = if be == 0 then value / 2 ^ (k * 8) % 256 else value / 2 ^ ((3 - k) * 8) % 256

module _ (bytes : List ℕ) (address value be : ℕ) (fits : address + 3 < length bytes)
    (small : length bytes ≤ 2 ^ 32) where
  pub put_word-at :
      (j : ℕ)
      → byte_at (put_word bytes address value be) j ≡ (
          if address + 3 == j
          then stored value be 3
          else if address + 2 == j
          then stored value be 2
          else if address + 1 == j
          then stored value be 1
          else if address + 0 == j
          then stored value be 0
          else byte_at bytes j)
  unfolding put_word
  put_word-at j =
      let e0 : (address + 0) % 2 ^ 32 ≡ address + 0 = omega arith in
      let e1 : (address + 1) % 2 ^ 32 ≡ address + 1 = omega arith in
      let e2 : (address + 2) % 2 ^ 32 ≡ address + 2 = omega arith in
      let e3 : (address + 3) % 2 ^ 32 ≡ address + 3 = omega arith in
      elim (Bool-cases (be == 0)) [
        | inl e ↦
            rw e rw (e0, e1, e2, e3)
              (get_or-set_four bytes (address + 0) (address + 1) (address + 2) (address + 3) _ _ _ _
                j (omega arith) (omega arith) (omega arith) (omega arith))
        | inr e ↦
            rw e rw (e0, e1, e2, e3)
              (get_or-set_four bytes (address + 0) (address + 1) (address + 2) (address + 3) _ _ _ _
                j (omega arith) (omega arith) (omega arith) (omega arith))
      ]

  abbrev after : List ℕ
  after = put_word bytes address value be

  pub after_0 : byte_at after address ≡ stored value be 0
  after_0 = ground (arith, put_word-at address)

  pub after_1 : byte_at after (address + 1) ≡ stored value be 1
  after_1 = ground (arith, put_word-at (address + 1))

  pub after_2 : byte_at after (address + 2) ≡ stored value be 2
  after_2 = ground (arith, put_word-at (address + 2))

  pub after_3 : byte_at after (address + 3) ≡ stored value be 3
  after_3 = ground (arith, put_word-at (address + 3))

  -- A word written and read in the same byte order.
  pub word_of-put_word : value < 2 ^ 32 → AllBelow 256 after → word_of after address be ≡ value
  word_of-put_word v a = elim (Bool-cases (be == 0)) [
    | inl e ↦
        let be0 : be ≡ 0 = (==_iff be 0).0 e in
        ap (word_of after address) be0
        ∙ ground (
          arith,
          word_of-little after address a (omega arith),
          after_0,
          after_1,
          after_2,
          after_3,
        )
    | inr e ↦ ground (
      arith,
      word_of-big after address a (omega arith) be (ground arith),
      after_0,
      after_1,
      after_2,
      after_3,
    )
  ]

-- The guard of a word access lets it through exactly when its four bytes are in the memory.
pub read_word-success_iff :
    {mem : Option Memory} {bytes : List ℕ} (address value be : ℕ)
    → Holds mem bytes
    → ((memory_read_word mem address value be).0 ≡ success) ↔ (address + 3 < length bytes)
read_word-success_iff {bytes} address value be h =
    rw (read_word-Holds h) (let l = h.at_least in ground arith)

module _ {mem : Option Memory} {bytes : List ℕ} (address value be : ℕ) (h : Holds mem bytes)
    (fits : address + 3 < length bytes) where
  guard_passes : leb (length bytes - 3) address ≡ false
  guard_passes = lt→leb _ _ (omega arith)

  pub written :
      memory_write_word mem address value be
      ≡ (success, with_bytes (put_word bytes address value be) (length bytes))
  written = rw (write_word-Holds h) (rw guard_passes)

  -- A word that is written inside the memory is read back in the same byte order, whatever the
  -- variable held that receives it.
  pub read_word-write_word :
      (old : ℕ)
      → value < 2 ^ 32
      → let (code, mem') = memory_write_word mem address value be in
        (code ≡ success) × (memory_read_word mem' address old be ≡ (success, value))
  read_word-write_word old v = rw written (refl, reads)
    where
      reads :
          memory_read_word
            (with_bytes (put_word bytes address value be) (length bytes))
            address
            old
            be
          ≡ (success, value)
      reads =
          let h' = put_word-Holds h address value be in
          rw (read_word-Holds h') (
            rw (length-put_word h address value be) (
              rw guard_passes (
                ap (λ (w : ℕ). (success, w))
                  (word_of-put_word bytes address value be fits h.at_most v h'.are_bytes))))

  -- A word that is written inside the memory leaves every byte outside its four as it was.
  pub read_byte-write_word :
      (old j : ℕ)
      → (j < address) ⊎ (address + 3 < j)
      → memory_read_byte (memory_write_word mem address value be).1 j old
        ≡ memory_read_byte mem j old
  read_byte-write_word old j apart = rw written (
      rw (read_byte-Holds (put_word-Holds h address value be)) (
        rw (read_byte-Holds h) (
          rw (length-put_word h address value be) (
            ap (λ (b : ℕ). if leb (length bytes) j then (index_out_of_range, old) else (success, b))
              same_byte))))
    where
      same_byte : byte_at (put_word bytes address value be) j ≡ byte_at bytes j
      same_byte = ground (arith, put_word-at bytes address value be fits h.at_most j)
