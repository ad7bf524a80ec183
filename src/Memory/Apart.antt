-- ===== src/Memory/Apart.antt =====
-- memory.c: a word beside the one that is written.
use arm_simulator.Base.{
  refl, ℕ, ◌+◌, ◌-◌, ◌≤◌, ◌<◌, ◌≡◌, ◌⊎◌, arith, List, length, AllBelow, ◌==◌, Bool-cases, inl, inr,
  ap, ◌∙◌, sym, Option, leb, lt→leb, ==_iff, false,
}
use arm_simulator.Constants.{success}
use arm_simulator.Memory.{Memory, put_word, word_of, byte_at, memory_read_word}
use arm_simulator.Memory.Holds.{Holds, read_word-Holds}
use arm_simulator.Memory.Words.{word_of-little, word_of-big}
use arm_simulator.Memory.RoundTrip.{put_word-at}
use arm_simulator.Memory.Bounds.{put_word-Holds}

-- The word at `at` after a word is put at `address`, four bytes or more away.
module _ {mem : Option Memory} {bytes : List ℕ} (h : Holds mem bytes) (address value be at : ℕ)
    (fits : address + 3 < length bytes) (inside : at + 3 < length bytes)
    (apart : (at + 3 < address) ⊎ (address + 3 < at)) where
  same_byte :
      (k : ℕ) → k ≤ 3 → byte_at (put_word bytes address value be) (at + k) ≡ byte_at bytes (at + k)
  same_byte k le = ground (arith, put_word-at bytes address value be fits h.at_most (at + k))

  same_first : byte_at (put_word bytes address value be) at ≡ byte_at bytes at
  same_first = ground (arith, put_word-at bytes address value be fits h.at_most at)

  abbrev new_bytes : AllBelow 256 (put_word bytes address value be)
  new_bytes = (put_word-Holds h address value be).are_bytes

  pub word_of-put_word_apart : word_of (put_word bytes address value be) at be ≡ word_of bytes at be
  word_of-put_word_apart =
      let l = h.at_most in
      elim (Bool-cases (be == 0)) [
        | inl e ↦
            let be0 = (==_iff be 0).0 e in
            ap (word_of (put_word bytes address value be) at) be0
            ∙ omega (
              arith,
              word_of-little (put_word bytes address value be) at new_bytes (omega arith),
              word_of-little bytes at h.are_bytes (omega arith),
              same_first,
              same_byte 1 (omega arith),
              same_byte 2 (omega arith),
              same_byte 3 (omega arith),
            )
            ∙ ap (word_of bytes at) (sym be0)
        | inr e ↦ omega (
          arith,
          word_of-big (put_word bytes address value be) at new_bytes (omega arith) be
              (ground arith),
          word_of-big bytes at h.are_bytes (omega arith) be (ground arith),
          same_first,
          same_byte 1 (omega arith),
          same_byte 2 (omega arith),
          same_byte 3 (omega arith),
        )
      ]

-- A word read inside the memory.
pub read_inside :
    {mem : Option Memory} {bytes : List ℕ}
    → Holds mem bytes
    → (address old be : ℕ) → address + 3 < length bytes
    → memory_read_word mem address old be ≡ (success, word_of bytes address be)
read_inside {bytes = bytes} h address old be fits =
    let e : leb (length bytes - 3) address ≡ false = lt→leb _ _ (omega arith) in
    rw (read_word-Holds h address old be) (rw e refl)
