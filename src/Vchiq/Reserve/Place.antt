-- ===== src/Vchiq/Reserve/Place.antt =====
-- Where `reserve_space` puts a message.
use dkms_rpi_codec.Base.{
  ℕ, ◌+◌, ◌-◌, ◌*◌, ◌%◌, ◌^◌, ◌≤◌, ◌<◌, ◌≡◌, refl, sym, ap, ◌∙◌, inl, inr, Bool, true, false,
  Option, some, arith, ltb, ◌==◌, Bool-cases, update, update_self, add32,
}
use dkms_rpi_codec.Vchiq.Message.Stride.{calc_stride-eq-div}
use dkms_rpi_codec.Vchiq.Message.{calc_stride, calc_stride, slot_size, header_size, padding_msgid}
use dkms_rpi_codec.Vchiq.State.{State, Header, slot_offset}
use dkms_rpi_codec.Vchiq.Reserve.{
  after_wait, Wait, interrupted, resumed, Place, take_place, open_slot, next_slot, pad_rest,
  start_pos, reserve_space, padding_header,
}

-- A place for a message of `space` bytes that starts at a stream position.
pub record IsPlace (tx_pos space : ℕ) (at : Place) (s : State) : Type 0 where
  pub slot : s.tx_data ≡ some at.0
  pub offset : at.1 ≡ slot_offset tx_pos
  pub advanced : s.local_tx_pos ≡ add32 tx_pos space

take_place-IsPlace :
    (s : State) (tx_pos space : ℕ) (at : Place) (s' : State)
    → take_place s tx_pos space ≡ (some at, s')
    → IsPlace tx_pos space at s'
unfolding take_place
take_place-IsPlace s tx_pos space at s' e = ground arith

open_slot-IsPlace :
    (s : State) (tx_pos space : ℕ) (at : Place) (s' : State)
    → open_slot s tx_pos space ≡ (some at, s')
    → IsPlace tx_pos space at s'
unfolding open_slot
open_slot-IsPlace s tx_pos space at s' e =
    elim (Bool-cases (tx_pos == s.slot_queue_available * slot_size % 2 ^ 32)) [
      | inl none_left ↦ absurd (cc (ap fst_of (rw none_left at e)))
      | inr some_left ↦ take_place-IsPlace _ tx_pos space at s' (rw some_left at e)
    ]
  where
    fst_of : Option Place × State → Option Place
    fst_of p = p.0

placed : Option Place × State → Option Place
placed p = p.0

after_wait-IsPlace :
    (wait : Wait) (tx_pos space : ℕ) (at : Place) (s' : State)
    → after_wait wait tx_pos space ≡ (some at, s')
    → IsPlace tx_pos space at s'
unfolding after_wait placed
after_wait-IsPlace (interrupted s) tx_pos space at s' e = absurd (cc (ap placed e))
after_wait-IsPlace (resumed s) tx_pos space at s' e = open_slot-IsPlace s tx_pos space at s' e

next_slot-IsPlace :
    (s : State) (tx_pos space : ℕ) (is_blocking : Bool) (wait : Wait) (at : Place) (s' : State)
    → next_slot s tx_pos space is_blocking wait ≡ (some at, s')
    → IsPlace tx_pos space at s'
unfolding next_slot placed
next_slot-IsPlace s tx_pos space is_blocking wait at s' e =
    elim (Bool-cases (s.slot_available_event == 0)) [
      | inr free_slot ↦ open_slot-IsPlace _ tx_pos space at s' (rw free_slot at e)
      | inl no_slot ↦ elim (Bool-cases is_blocking) [
        | inr gives_up ↦ absurd (cc (ap placed (rw (no_slot, gives_up) at e)))
        | inl waits ↦ after_wait-IsPlace wait tx_pos space at s' (rw (no_slot, waits) at e)
      ]
    ]

pub reserve_space-IsPlace :
    (s : State) (space : ℕ) (is_blocking : Bool) (wait : Wait) (at : Place) (s' : State)
    → reserve_space s space is_blocking wait ≡ (some at, s')
    → IsPlace (start_pos s.local_tx_pos space) space at s'
unfolding reserve_space
reserve_space-IsPlace s space is_blocking wait at s' e =
    elim (Bool-cases (slot_offset (start_pos s.local_tx_pos space) == 0)) [
      | inl fresh ↦ next_slot-IsPlace _ _ space is_blocking wait at s' (rw fresh at e)
      | inr middle ↦ take_place-IsPlace _ _ space at s' (rw middle at e)
    ]

-- From an aligned position, a message of an aligned size up to a slot gets a place that lies in one
-- slot, aligned, in the slot that `tx_data` then names; it starts where the last message ended or at
-- the start of the next slot, the stream position moves right behind it, and stays aligned. That
-- holds whatever other threads did while the sender waited for a slot.
pub reserve_space_lem :
    (s : State) (space : ℕ) (is_blocking : Bool) (wait : Wait) (at : Place) (s' : State)
    → s.local_tx_pos % header_size ≡ 0
    → space % header_size ≡ 0
    → space ≤ slot_size
    → reserve_space s space is_blocking wait ≡ (some at, s')
    → IsPlace (start_pos s.local_tx_pos space) space at s'
      × (at.1 + space ≤ slot_size)
      × (at.1 % header_size ≡ 0)
      × (s'.local_tx_pos % header_size ≡ 0)
reserve_space_lem s space is_blocking wait at s' aligned whole fits e =
    (p, within.0, within.1, within.2)
  where
    p : IsPlace (start_pos s.local_tx_pos space) space at s'
    p = reserve_space-IsPlace s space is_blocking wait at s' e

    within : (at.1 + space ≤ slot_size) × (at.1 % 8 ≡ 0) × (s'.local_tx_pos % 8 ≡ 0)
    within = ground (arith, p.offset, p.advanced)

slots-take_place : (s : State) (tx_pos space : ℕ) → (take_place s tx_pos space).1.slots ≡ s.slots
unfolding take_place
slots-take_place s tx_pos space = refl

slots-open_slot : (s : State) (tx_pos space : ℕ) → (open_slot s tx_pos space).1.slots ≡ s.slots
unfolding open_slot
slots-open_slot s tx_pos space =
    elim (Bool-cases (tx_pos == s.slot_queue_available * slot_size % 2 ^ 32)) [
      | inl none_left ↦ rw none_left
      | inr some_left ↦ rw some_left (slots-take_place _ tx_pos space)
    ]

slots-next_slot :
    (s : State) (tx_pos space : ℕ) (is_blocking : Bool) (wait : Wait)
    → 0 < s.slot_available_event
    → (next_slot s tx_pos space is_blocking wait).1.slots ≡ s.slots
unfolding next_slot
slots-next_slot s tx_pos space is_blocking wait free_slot =
    rw some_free (slots-open_slot _ tx_pos space)
  where
    some_free : (s.slot_available_event == 0) ≡ false
    some_free = ground arith

-- The memory once the rest of the slot is padded.
abbrev padded_slots : State → ℕ → ℕ → ℕ → Header
padded_slots s slot =
    let off = slot_offset s.local_tx_pos in
    update s.slots slot (update (s.slots slot) off (padding_header (slot_size - off)))

slots-reserve_space :
    (s : State) (space : ℕ) (is_blocking : Bool) (wait : Wait) (slot : ℕ)
    → s.tx_data ≡ some slot
    → ltb (slot_size - slot_offset s.local_tx_pos) space ≡ true
    → 0 < s.slot_available_event
    → (reserve_space s space is_blocking wait).1.slots ≡ padded_slots s slot
unfolding reserve_space pad_rest take_place
slots-reserve_space s space is_blocking wait slot in_slot long free_slot =
    elim (Bool-cases
      (slot_offset (add32 s.local_tx_pos (slot_size - slot_offset s.local_tx_pos)) == 0)) [
        | inl fresh ↦
            rw (long, fresh, in_slot) (slots-next_slot _ _ space is_blocking wait free_slot)
        | inr middle ↦ rw (long, middle, in_slot)
      ]

-- A message that does not fit behind the last one leaves a padding message there that takes exactly
-- the rest of the slot, so that a reader that goes from header to header comes to the slot's end.
pub reserve_space_pads :
    (s : State) (space : ℕ) (is_blocking : Bool) (wait : Wait) (at : Place) (s' : State) (slot : ℕ)
    → s.local_tx_pos % header_size ≡ 0
    → s.tx_data ≡ some slot
    → slot_size - slot_offset s.local_tx_pos < space
    → 0 < s.slot_available_event
    → reserve_space s space is_blocking wait ≡ (some at, s')
    → let pad = s'.slots slot (slot_offset s.local_tx_pos) in
      (pad.msgid ≡ padding_msgid) × (slot_offset s.local_tx_pos + calc_stride pad.size ≡ slot_size)
reserve_space_pads s space is_blocking wait at s' slot aligned in_slot long free_slot e = (
  ap (λ (h : Header). h.msgid) pad,
  ap (λ (h : Header). off + calc_stride h.size) pad
      ∙ omega (arith, calc_stride-eq-div (slot_size - off - header_size)),
)
  where
    off : ℕ
    off = slot_offset s.local_tx_pos

    memory : s'.slots ≡ padded_slots s slot
    memory =
        ap (λ (p : Option Place × State). p.1.slots) (sym e)
        ∙ slots-reserve_space s space is_blocking wait slot in_slot (ground arith) free_slot

    pad : s'.slots slot off ≡ padding_header (slot_size - off)
    pad =
        ap (λ (m : ℕ → ℕ → Header). m slot off) memory
        ∙ ap (λ (m : ℕ → Header). m off) (update_self s.slots slot _)
        ∙ update_self (s.slots slot) off _
