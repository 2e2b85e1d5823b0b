-- ===== src/Vchiq/Message/Stride.antt =====
-- What `calc_stride` returns.
use dkms_rpi_codec.Base.{
  ℕ, ◌+◌, ◌*◌, ◌/◌, ◌%◌, ◌^◌, ◌≤◌, ◌<◌, ◌≡◌, ◌∙◌, arith, bit_and_shifted, bit_and_mask, add32,
}
use dkms_rpi_codec.Vchiq.Message.{calc_stride, header_size, slot_size, max_msg_size}

pub calc_stride-eq-div : (size : ℕ) → size + 15 < 2 ^ 32 → calc_stride size ≡ (size + 15) / 8 * 8
unfolding calc_stride
calc_stride-eq-div size h =
    bit_and_shifted 3 (add32 (add32 size 8) 7) 0x1fff_ffff
    ∙ omega (arith, bit_and_mask 29 (add32 (add32 size 8) 7 / 8))

-- For a size that does not wrap, the stride of a message is the least multiple of 8 that holds the
-- header and the payload.
pub calc_stride_least :
    (size n : ℕ)
    → size + 15 < 2 ^ 32
    → n % 8 ≡ 0
    → size + header_size ≤ n
    → (calc_stride size % 8 ≡ 0) × (size + header_size ≤ calc_stride size) × (calc_stride size ≤ n)
calc_stride_least size n h e le = omega (arith, calc_stride-eq-div size h)

pub calc_stride-aligned : (size : ℕ) → size + 15 < 2 ^ 32 → calc_stride size % 8 ≡ 0
calc_stride-aligned size h = omega (arith, calc_stride-eq-div size h)

-- The largest message that clients may send takes exactly one slot, and none that is smaller takes
-- more.
pub calc_stride-le-slot_size : (size : ℕ) → size ≤ max_msg_size → calc_stride size ≤ slot_size
calc_stride-le-slot_size size h = omega (arith, calc_stride-eq-div size)
