-- ===== src/Vchiq/Reserve/Quotas.antt =====
-- `reserve_space` leaves the quotas alone, but for what other threads do in its wait.
use dkms_rpi_codec.Base.{
  ℕ, ◌-◌, ◌*◌, ◌%◌, ◌^◌, ◌≡◌, inl, inr, Bool, some, ltb, ◌==◌, Bool-cases, Option-cases,
}
use dkms_rpi_codec.Vchiq.State.{State, Quota, slot_offset}
use dkms_rpi_codec.Vchiq.Message.{slot_size}
use dkms_rpi_codec.Vchiq.Reserve.{
  Wait, interrupted, resumed, Place, take_place, open_slot, after_wait, next_slot, pad_rest,
  start_pos, reserve_space,
}

-- A statement about the quotas that holds in the state in which a wait ends.
abbrev pub OnResumed : ((ℕ → Quota) → Type 0) → Wait → Type 0
OnResumed P (interrupted s) = Unit
OnResumed P (resumed s) = P s.service_quotas

module _ (P : (ℕ → Quota) → Type 0) where
  quotas-take_place :
      (s : State) (tx_pos space : ℕ)
      → P s.service_quotas
      → P (take_place s tx_pos space).1.service_quotas
  unfolding take_place
  quotas-take_place s tx_pos space h = h

  quotas-open_slot :
      (s : State) (tx_pos space : ℕ)
      → P s.service_quotas
      → P (open_slot s tx_pos space).1.service_quotas
  unfolding open_slot
  quotas-open_slot s tx_pos space h =
      elim (Bool-cases (tx_pos == s.slot_queue_available * slot_size % 2 ^ 32)) [
        | inl none_left ↦ rw none_left h
        | inr some_left ↦ rw some_left (quotas-take_place _ tx_pos space h)
      ]

  quotas-after_wait :
      (wait : Wait) (tx_pos space : ℕ) (at : Place)
      → OnResumed P wait
      → (after_wait wait tx_pos space).0 ≡ some at
      → P (after_wait wait tx_pos space).1.service_quotas
  unfolding after_wait
  quotas-after_wait (interrupted s) tx_pos space at h e = absurd (cc e)
  quotas-after_wait (resumed s) tx_pos space at h e = quotas-open_slot s tx_pos space h

  quotas-next_slot :
      (s : State) (tx_pos space : ℕ) (is_blocking : Bool) (wait : Wait) (at : Place)
      → P s.service_quotas
      → OnResumed P wait
      → (next_slot s tx_pos space is_blocking wait).0 ≡ some at
      → P (next_slot s tx_pos space is_blocking wait).1.service_quotas
  unfolding next_slot
  quotas-next_slot s tx_pos space is_blocking wait at h hw e =
      elim (Bool-cases (s.slot_available_event == 0)) [
        | inr free_slot ↦ rw free_slot (quotas-open_slot _ tx_pos space h)
        | inl no_slot ↦ elim (Bool-cases is_blocking) [
          | inr gives_up ↦ rw (no_slot, gives_up) h
          | inl waits ↦
              rw (no_slot, waits)
                (quotas-after_wait wait tx_pos space at hw (rw (no_slot, waits) at e))
        ]
      ]

  quotas-pad_rest :
      (s : State) (space : ℕ) → P s.service_quotas → P (pad_rest s space).service_quotas
  unfolding pad_rest
  quotas-pad_rest s space h =
      elim (Bool-cases (ltb (slot_size - slot_offset s.local_tx_pos) space)) [
        | inr fits ↦ rw fits h
        | inl long ↦ elim (Option-cases s.tx_data) [
          | inl e ↦ rw (long, e) h
          | inr (slot, e) ↦ rw (long, e) h
        ]
      ]

  -- What holds of the quotas before, and in the state in which a wait ends, holds after a place is
  -- reserved.
  pub quotas-reserve_space :
      (s : State) (space : ℕ) (is_blocking : Bool) (wait : Wait) (at : Place)
      → P s.service_quotas
      → OnResumed P wait
      → (reserve_space s space is_blocking wait).0 ≡ some at
      → P (reserve_space s space is_blocking wait).1.service_quotas
  unfolding reserve_space
  quotas-reserve_space s space is_blocking wait at h hw e =
      elim (Bool-cases (slot_offset (start_pos s.local_tx_pos space) == 0)) [
        | inl fresh ↦ rw fresh (
            quotas-next_slot (pad_rest s space) _ space is_blocking wait at (available h) hw
              (rw fresh at e))
        | inr middle ↦ rw middle (quotas-take_place (pad_rest s space) _ space (available h))
      ]
    where
      available : P s.service_quotas → P (pad_rest s space).service_quotas
      available = quotas-pad_rest s space
