-- ===== src/Vchiq/Transmit/Quotas.antt =====
-- The quotas of a service while it sends data.
use dkms_rpi_codec.Base.{
  ℕ, ◌-◌, ◌%◌, ◌^◌, ◌≤◌, ◌<◌, ◌≡◌, refl, inl, inr, true, false, List, [], ◌∷◌, arith, ltb, ◌==◌,
  Bool-cases, add32, sub32,
}
use dkms_rpi_codec.Vchiq.Message.{slot_size}
use dkms_rpi_codec.Vchiq.State.{State, Quota, slot_queue_index}
use dkms_rpi_codec.Vchiq.Reserve.{Wait, start_pos}
use dkms_rpi_codec.Vchiq.Reserve.Quotas.{OnResumed}
use dkms_rpi_codec.Vchiq.Transmit.{
  tx_end_index, Passage, pass, stop, blocked, over_service_quota, charge_quota,
}

-- A message that ends in a given slot fits in the quota.
abbrev pub Fits : ℕ → Quota → Type 0
Fits end q =
    (q.message_use_count < q.message_quota)
    × (q.slot_use_count ≤ q.slot_quota)
    × ((end == q.previous_tx_index) ≡ false → q.slot_use_count < q.slot_quota)
    × (q.message_quota < 2 ^ 16)
    × (q.slot_quota < 2 ^ 16)

-- No more is used than the quota allows.
abbrev pub InQuota : Quota → Type 0
InQuota q =
    (q.message_use_count ≤ q.message_quota)
    × (q.slot_use_count ≤ q.slot_quota)
    × (q.message_quota < 2 ^ 16)
    × (q.slot_quota < 2 ^ 16)

-- The condition of the loop is exactly that a message does not fit, where no more is in use than the
-- quota allows.
pub over_service_quota-Fits :
    (s : State) (stride : ℕ) (q : Quota)
    → InQuota q
    → over_service_quota s stride q ≡ false
    → Fits (tx_end_index s stride) q
over_service_quota-Fits s stride q h free = ground arith

pub charge_quota-InQuota : (end : ℕ) (q : Quota) → Fits end q → InQuota (charge_quota end q)
unfolding charge_quota
charge_quota-InQuota end q h = elim (Bool-cases (end == q.previous_tx_index)) [
  | inl same ↦ rw same (omega (arith, h.0, h.3), h.1, h.3, h.4)
  | inr fresh ↦ rw fresh (omega (arith, h.0, h.3), omega (arith, h.2 fresh, h.4), h.3, h.4)
]

-- The slot in which the message ends is the same, whether or not the rest of the slot is padded.
pub end-start_pos :
    (pos stride : ℕ)
    → pos < 2 ^ 32
    → 0 < stride
    → stride ≤ slot_size
    → slot_queue_index (sub32 (add32 (start_pos pos stride) stride) 1)
      ≡ slot_queue_index (sub32 (add32 pos stride) 1)
end-start_pos pos stride word room fits = elim (Bool-cases (ltb (slot_size - pos % 4096) stride)) [
  | inl long ↦ rw long (omega (arith, within long))
  | inr short ↦ rw short refl
]
  where
    within : ltb (slot_size - pos % 4096) stride ≡ true → slot_size - pos % 4096 < stride
    within long = ground arith

-- A statement on the quotas that holds in the states in which waits end.
abbrev pub OnWaits : ((ℕ → Quota) → Type 0) → List Wait → Type 0
OnWaits P [] = Unit
OnWaits P (w ∷ ws) = OnResumed P w × OnWaits P ws

-- What holds of a check of the quotas that passes.
abbrev pub OnPass : (State → List Wait → Type 0) → Passage → Type 0
OnPass P (pass s waits) = P s waits
OnPass P (stop st s) = Unit
OnPass P (blocked s) = Unit
