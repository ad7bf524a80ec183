-- ===== src/Util/Inserted.antt =====
-- set_bits and reverse_2 of util.h.
use arm_simulator.Base.{
  ℕ, ◌+◌, ◌-◌, ◌*◌, ◌/◌, ◌%◌, ◌^◌, ◌≤◌, ◌<◌, ◌≡◌, sym, arith, bit_and, bit_or, not32, shl32, shr32,
  ap, ap₂, ◌∙◌,
}
use native.Mathlib.Nat.{
  mod-eq_of_lt, mul-mod_left, mul-div_cancel, mod-eq-sub-div-mul, div-eq_of_lt, mul_assoc, mul_comm,
  mod-lt, add-mul, div-mul-le_self, div-div-eq-div-mul, mul-lt-mul_of_pos_right,
  mul-add-mod_self_right, mul-add-div_right,
}
use arm_simulator.Base.Bits.{
  bit_and_mask, bit_and-zero, bit_and-mod, bit_and-div, bit_or-mod, bit_or-div, bit_or-zero,
  bit_or_fields, bit_or_fields_left, split_at,
}
use arm_simulator.Base.Powers.{pow-pos, pow_le, pow-product, halves, div-lt}
use arm_simulator.Util.{get_bits, set_bits}
use arm_simulator.Util.Fields.{get_bits_lem, low_ones}

-- The mask of the bits from `k` on, and what it keeps of a uint32_t.
module _ (k : ℕ) (le : k ≤ 31) where
  upper : 0xFFFFFFFF / 2 ^ k * 2 ^ k ≡ (2 ^ (32 - k) - 1) * 2 ^ k
  upper =
      let q = 2 ^ (32 - k) in
      let whole : q - 1 + 1 ≡ q = omega (arith, pow-pos (32 - k)) in
      omega (
        arith,
        mod-eq-sub-div-mul 0xFFFFFFFF (2 ^ k),
        div-mul-le_self 0xFFFFFFFF (2 ^ k),
        low_ones k le,
        pow-pos k,
        pow_le k 31 le,
        halves 32 k (omega arith),
        mul_comm (2 ^ k) q,
        add-mul (q - 1) 1 (2 ^ k),
        ap (λ (y : ℕ). y * 2 ^ k) whole,
      )

  shr_ones : 0xFFFFFFFF / 2 ^ k ≡ 2 ^ (32 - k) - 1
  shr_ones =
      sym (mul-div_cancel (0xFFFFFFFF / 2 ^ k) (pow-pos k))
      ∙ ap (λ (y : ℕ). y / 2 ^ k) upper
      ∙ mul-div_cancel (2 ^ (32 - k) - 1) (pow-pos k)

  keep_upper : (x : ℕ) → x < 2 ^ 32 → bit_and x (shl32 (shr32 0xFFFFFFFF k) k) ≡ x / 2 ^ k * 2 ^ k
  keep_upper x h =
      let q = 0xFFFFFFFF / 2 ^ k in
      let mask : shl32 (shr32 0xFFFFFFFF k) k ≡ q * 2 ^ k =
        omega (arith, div-mul-le_self 0xFFFFFFFF (2 ^ k)) in
      let high : bit_and x (q * 2 ^ k) / 2 ^ k ≡ x / 2 ^ k =
        bit_and-div k x (q * 2 ^ k)
        ∙ rw (mul-div_cancel q (pow-pos k), shr_ones)
            (bit_and_mask (32 - k) (x / 2 ^ k) ∙ mod-eq_of_lt (div-lt x k h (omega arith))) in
      let low : bit_and x (q * 2 ^ k) % 2 ^ k ≡ 0 =
        bit_and-mod k x (q * 2 ^ k) ∙ rw (mul-mod_left q (2 ^ k)) (bit_and-zero (x % 2 ^ k)) in
      rw mask (split_at k (bit_and x (q * 2 ^ k)) (x / 2 ^ k) 0 high low ∙ omega arith)

  keep_lower : (x : ℕ) → bit_and x (not32 (shl32 0xFFFFFFFF k)) ≡ x % 2 ^ k
  keep_lower x =
      let mask : not32 (shl32 0xFFFFFFFF k) ≡ 2 ^ k - 1 =
        omega (arith, pow-pos k, pow_le k 31 le) in
      rw mask (bit_and_mask k x)

nothing : (y : ℕ) → y + 0 ≡ y
nothing y = omega arith

-- The field of `w` bits from bit `l` on.
module _ (x l w bits : ℕ) (positive : 0 < w) (room : l + w ≤ 31) (h : x < 2 ^ 32)
    (b : bits < 2 ^ w) where
  inserted-value :
      bit_or (bit_or (x % 2 ^ l) (x / 2 ^ (l + w) * 2 ^ (l + w))) (shl32 bits l)
      ≡ (x / 2 ^ (l + w) * 2 ^ w + bits) * 2 ^ l + x % 2 ^ l
  inserted-value =
      let q = x / 2 ^ (l + w) in
      let r = x % 2 ^ l in
      let small : r < 2 ^ l = mod-lt x (pow-pos l) in
      let apart : q * 2 ^ (l + w) ≡ q * 2 ^ w * 2 ^ l =
        ap (λ (y : ℕ). q * y) (sym (pow-product l w) ∙ mul_comm (2 ^ l) (2 ^ w))
        ∙ sym (mul_assoc q (2 ^ w) (2 ^ l)) in
      let fits : shl32 bits l ≡ bits * 2 ^ l = mod-eq_of_lt (
        omega (
          arith,
          mul-lt-mul_of_pos_right b (pow-pos l),
          pow-product w l,
          pow_le (w + l) 31 (omega arith),
        )) in
      rw (apart, fits, bit_or_fields_left l (q * 2 ^ w) r small)
        (split_at l _ _ _
          (bit_or-div l (q * 2 ^ w * 2 ^ l + r) (bits * 2 ^ l)
            ∙ rw
                (
                  mul-add-div_right (pow-pos l) (q * 2 ^ w) r,
                  div-eq_of_lt small,
                  mul-div_cancel bits (pow-pos l),
                  nothing (q * 2 ^ w),
                )
                (bit_or_fields w q bits b))
          (bit_or-mod l (q * 2 ^ w * 2 ^ l + r) (bits * 2 ^ l)
            ∙ rw
                (
                  mul-add-mod_self_right (q * 2 ^ w) (2 ^ l) r,
                  mod-eq_of_lt small,
                  mul-mod_left bits (2 ^ l),
                )
                (bit_or-zero r)))

-- The three fields of a sum.
module _ (q b r l w : ℕ) (hb : b < 2 ^ w) (hr : r < 2 ^ l) where
  abbrev joined : ℕ
  joined = (q * 2 ^ w + b) * 2 ^ l + r

  upper_two : joined / 2 ^ l ≡ q * 2 ^ w + b
  upper_two =
      mul-add-div_right (pow-pos l) (q * 2 ^ w + b) r
      ∙ rw (div-eq_of_lt hr) (nothing (q * 2 ^ w + b))

  upper_one : joined / 2 ^ (l + w) ≡ q
  upper_one =
      ap (λ (m : ℕ). joined / m) (sym (pow-product l w))
      ∙ sym (div-div-eq-div-mul joined (2 ^ l) (2 ^ w))
      ∙ rw upper_two (mul-add-div_right (pow-pos w) q b ∙ rw (div-eq_of_lt hb) (nothing q))

  middle : joined / 2 ^ l % 2 ^ w ≡ b
  middle = rw upper_two (mul-add-mod_self_right q (2 ^ w) b ∙ mod-eq_of_lt hb)

  lowest : joined % 2 ^ l ≡ r
  lowest = mul-add-mod_self_right (q * 2 ^ w + b) (2 ^ l) r ∙ mod-eq_of_lt hr

-- set_bits, for a field of fewer than 32 bits that ends below bit 31, and bits that fit into it: the
-- bits of the field are the new ones, those above and below are those of `x`, and get_bits of the
-- same field gives the new ones.
pub get_bits-set_bits :
    (x h l bits : ℕ)
    → x < 2 ^ 32
    → l ≤ h
    → h < 31
    → bits < 2 ^ (h - l + 1)
    → let y = set_bits x h l bits in
      (y / 2 ^ (h + 1) ≡ x / 2 ^ (h + 1)) × (get_bits y h l ≡ bits) × (y % 2 ^ l ≡ x % 2 ^ l)
unfolding set_bits
get_bits-set_bits x h l bits hx le lt hb =
    let w = h - l + 1 in
    let top : h + 1 ≡ l + w = omega arith in
    let r = x % 2 ^ l in
    let value =
      ap₂ (λ (u v : ℕ). bit_or (bit_or u v) (shl32 bits l)) (keep_lower l (omega arith) x)
        (keep_upper (h + 1) (omega arith) x hx ∙ ap (λ (k : ℕ). x / 2 ^ k * 2 ^ k) top)
      ∙ inserted-value x l w bits (omega arith) (omega arith) hx hb in
    let small : r < 2 ^ l = mod-lt x (pow-pos l) in
    let q = x / 2 ^ (l + w) in
    rw value (
      ap (λ (k : ℕ). joined q bits r l w hb small / 2 ^ k) top
          ∙ upper_one q bits r l w hb small
          ∙ ap (λ (k : ℕ). x / 2 ^ k) (sym top),
      get_bits_lem (joined q bits r l w hb small) h l (omega arith) ∙ middle q bits r l w hb small,
      lowest q bits r l w hb small,
    )
