-- ===== src/Vchiq/Message/Claim.antt =====
-- The claimed bit of a `msgid`.
use dkms_rpi_codec.Base.{
  ◌≤◌, ℕ, ◌+◌, ◌*◌, ◌/◌, ◌%◌, ◌^◌, ◌<◌, ◌≡◌, ◌∙◌, arith, bit_and, bit_or, bit_or-zero, bit_and_mask,
  bit_and_split, bit_or_split, bit_and_shifted, bit_or_low, true, false,
}
use dkms_rpi_codec.Vchiq.Message.{
  msg_type, msg_srcport, msg_dstport, is_claimed, claim, unclaim, claimed_bit,
}
use dkms_rpi_codec.Vchiq.Message.Fields.{msg_srcport-eq-div, msg_dstport-eq-mod}

bit_and-claimed : (m : ℕ) → bit_and m claimed_bit ≡ m / 2 ^ 30 % 2 * 2 ^ 30
bit_and-claimed m = bit_and_shifted 30 m 1 ∙ omega (arith, bit_and_mask 1 (m / 2 ^ 30))

pub is_claimed_bit :
    (m : ℕ)
    → ((m / 2 ^ 30 % 2 ≡ 1 → is_claimed m ≡ true) × (m / 2 ^ 30 % 2 ≡ 0 → is_claimed m ≡ false))
unfolding is_claimed
is_claimed_bit m = (λ h. ground (arith, bit_and-claimed m), λ h. ground (arith, bit_and-claimed m))

bit_or-one : (a : ℕ) → bit_or a 1 ≡ a / 2 * 2 + 1
bit_or-one a = omega (arith, bit_or_low a 1, bit_or-zero (a / 2))

pub claim-eq-sum : (m : ℕ) → claim m ≡ (m / 2 ^ 31 * 2 + 1) * 2 ^ 30 + m % 2 ^ 30
unfolding claim
claim-eq-sum m =
    bit_or_split 30 m 1 0 (omega arith)
    ∙ omega (arith, bit_or-one (m / 2 ^ 30), bit_or-zero (m % 2 ^ 30))

pub unclaim-eq-sum : (m : ℕ) → m < 2 ^ 32 → unclaim m ≡ m / 2 ^ 31 * 2 ^ 31 + m % 2 ^ 30
unfolding unclaim
unclaim-eq-sum m h =
    bit_and_split 30 m 2 0x3fff_ffff (omega arith)
    ∙ omega (
      arith,
      bit_and_shifted 1 (m / 2 ^ 30) 1,
      bit_and_mask 1 (m / 2 ^ 30 / 2),
      bit_and_mask 30 (m % 2 ^ 30),
    )

-- For a 32-bit word, claiming sets a bit that `is_claimed` sees, leaves both ports alone and makes
-- the type at least 64, so that no claimed message has the type of a named message; releasing clears
-- the bit and leaves both ports alone; and releasing undoes claiming.
pub unclaim-claim :
    (m : ℕ)
    → m < 2 ^ 32
    → (is_claimed (claim m) ≡ true)
      × (msg_srcport (claim m) ≡ msg_srcport m)
      × (msg_dstport (claim m) ≡ msg_dstport m)
      × (64 ≤ msg_type (claim m))
      × (is_claimed (unclaim m) ≡ false)
      × (msg_srcport (unclaim m) ≡ msg_srcport m)
      × (msg_dstport (unclaim m) ≡ msg_dstport m)
      × (unclaim (claim m) ≡ unclaim m)
unfolding msg_type
unclaim-claim m h = (
  (is_claimed_bit (claim m)).0 (omega (arith, claim-eq-sum m)),
  omega (arith, claim-eq-sum m, msg_srcport-eq-div),
  omega (arith, claim-eq-sum m, msg_dstport-eq-mod),
  omega (arith, claim-eq-sum m),
  (is_claimed_bit (unclaim m)).1 (omega (arith, unclaim-eq-sum m h)),
  omega (arith, unclaim-eq-sum m h, msg_srcport-eq-div),
  omega (arith, unclaim-eq-sum m h, msg_dstport-eq-mod),
  omega (arith, claim-eq-sum m, unclaim-eq-sum m h, unclaim-eq-sum (claim m)),
)
