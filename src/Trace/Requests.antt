-- ===== src/Trace/Requests.antt =====
-- trace_add of trace.c: what is asked for.
use arm_simulator.Base.{
  ℕ, zero, suc, ◌≤◌, ◌*◌, ◌/◌, ◌%◌, ◌^◌, ◌<◌, ◌≡◌, arith, ◌==◌, if◌then◌else◌, ◌||◌, not, length,
  get_or, get_or-set_self, length-set, get_or-set_ne, bit_or, bit_and, max,
}
use arm_simulator.Base.Powers.{pow-pos}
use arm_simulator.Base.Bits.{bit_or-bit, bit_and-pow}
use arm_simulator.Trace.{Tracer, asked, trace_add, state_flag}

-- Whether a mask of one bit meets a union.
or_meets :
    (k a b : ℕ)
    → not (bit_and (bit_or a b) (2 ^ k) == 0)
      ≡ (not (bit_and a (2 ^ k) == 0) || not (bit_and b (2 ^ k) == 0))
or_meets k a b =
    rw (bit_and-pow k (bit_or a b), bit_and-pow k a, bit_and-pow k b, bit_or-bit k a b)
      (bits (a / 2 ^ k % 2) (b / 2 ^ k % 2) (2 ^ k) (omega arith) (omega arith) (pow-pos k))
  where
    bits :
        (x y m : ℕ)
        → x < 2
        → y < 2
        → 0 < m
        → not (max x y * m == 0) ≡ (not (x * m == 0) || not (y * m == 0))
    bits zero zero m p q r = ground arith
    bits zero (suc zero) m p q r = ground arith
    bits (suc zero) zero m p q r = ground arith
    bits (suc zero) (suc zero) m p q r = ground arith
    bits (suc (suc x)) y m p q r = absurd (omega arith)
    bits zero (suc (suc y)) m p q r = absurd (omega arith)
    bits (suc zero) (suc (suc y)) m p q r = absurd (omega arith)

-- A request by a flag, and one by a mode.
pub asked-trace_add :
    (t : Tracer) (k flags : ℕ)
    → 32 ≤ flags
    → flags < 2 ^ 31
    → asked (trace_add t flags) (2 ^ k) ≡ (asked t (2 ^ k) || not (bit_and flags (2 ^ k) == 0))
unfolding trace_add
asked-trace_add t k flags lo hi = ground (arith, or_meets k t.trace_flags flags)

pub asked-trace_add_mode :
    (t : Tracer) (k mode : ℕ)
    → mode < 32
    → asked (trace_add t mode) (2 ^ k) ≡ (asked t (2 ^ k) || not (bit_and state_flag (2 ^ k) == 0))
unfolding trace_add
asked-trace_add_mode t k mode lt = ground (arith, or_meets k t.trace_flags state_flag)

-- A negative number, that is a mode that does not exist, asks for nothing.
pub trace_add-negative : (t : Tracer) (flags : ℕ) → 2 ^ 31 ≤ flags → trace_add t flags ≡ t
unfolding trace_add
trace_add-negative t flags le = ground arith

pub states-trace_add :
    (t : Tracer) (flags : ℕ) → 32 ≤ flags → flags < 2 ^ 31 → (trace_add t flags).states ≡ t.states
unfolding trace_add
states-trace_add t flags lo hi = ground arith

pub states-trace_add_mode :
    (t : Tracer) (mode k : ℕ)
    → mode < 32
    → length t.states ≡ 32
    → get_or (trace_add t mode).states k 0 ≡ (if mode == k then 1 else get_or t.states k 0)
unfolding trace_add
states-trace_add_mode t mode k lt h =
    ground (arith, get_or-set_self t.states mode 1 0, get_or-set_ne t.states mode k 1 0)

pub length-states : (t : Tracer) (flags : ℕ) → length (trace_add t flags).states ≡ length t.states
unfolding trace_add
length-states t flags = ground (arith, length-set t.states flags 1)
