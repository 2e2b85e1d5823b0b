-- ===== src/Vchiq/Transmit/Frame.antt =====
-- What a message that does not block leaves as it was: all but the slots, the counters of the
-- transmission and the statistics.
use dkms_rpi_codec.Base.{
  ℕ, ◌-◌, ◌*◌, ◌%◌, ◌^◌, ◌≡◌, refl, ◌∙◌, inl, inr, Bool, true, false, not, ◌&&◌, Option, none, some,
  List, [], ltb, ◌==◌, Bool-cases, Option-cases, option_case,
}
use dkms_rpi_codec.Vchiq.Message.{calc_stride, slot_size}
use dkms_rpi_codec.Vchiq.Suspend.{ArmState}
use dkms_rpi_codec.Vchiq.State.{retry, State, Service, ConnState, SlotInfo, slot_offset}
use dkms_rpi_codec.Vchiq.Reserve.{
  Wait, Place, take_place, open_slot, next_slot, pad_rest, start_pos, reserve_space,
}
use dkms_rpi_codec.Vchiq.Copy.{Chunk}
use dkms_rpi_codec.Vchiq.Transmit.{
  release_unless, next_wait, count_ctrl, Flags, returns, is_message, is_close, publish, send_at,
  reserve_and_send, queue_message,
}
use dkms_rpi_codec.Vchiq.Open.{answered}

-- The part of the state that sending does not touch, and the table of services.
abbrev pub Frame : Type 0
Frame =
    ArmState × ConnState × ℕ × Option ℕ × (ℕ → ℕ) × Bool × ℕ × (ℕ → SlotInfo) × (ℕ → Option Service)

abbrev pub frame : State → Frame
frame s = (
  s.platform_state, s.conn_state, s.rx_pos, s.rx_data, s.poll_services, s.poll_needed,
  s.unused_service, s.slot_info, s.services,
)

frame-open_slot : (s : State) (tx_pos space : ℕ) → frame (open_slot s tx_pos space).1 ≡ frame s
unfolding open_slot take_place
frame-open_slot s tx_pos space =
    elim (Bool-cases (tx_pos == s.slot_queue_available * slot_size % 2 ^ 32)) [
      | inl none_left ↦ rw none_left refl
      | inr some_left ↦ rw some_left refl
    ]

frame-next_slot :
    (s : State) (tx_pos space : ℕ) (wait : Wait)
    → frame (next_slot s tx_pos space false wait).1 ≡ frame s
unfolding next_slot
frame-next_slot s tx_pos space wait = elim (Bool-cases (s.slot_available_event == 0)) [
  | inl no_slot ↦ rw no_slot refl
  | inr free_slot ↦ rw free_slot (frame-open_slot _ tx_pos space)
]

frame-pad_rest : (s : State) (space : ℕ) → frame (pad_rest s space) ≡ frame s
unfolding pad_rest
frame-pad_rest s space = elim (Bool-cases (ltb (slot_size - slot_offset s.local_tx_pos) space)) [
  | inr fits ↦ rw fits refl
  | inl long ↦ elim (Option-cases s.tx_data) [
    | inl e ↦ rw (long, e) refl
    | inr (slot, e) ↦ rw (long, e) refl
  ]
]

pub frame-reserve_space :
    (s : State) (space : ℕ) (wait : Wait) → frame (reserve_space s space false wait).1 ≡ frame s
unfolding reserve_space take_place
frame-reserve_space s space wait =
    elim (Bool-cases (slot_offset (start_pos s.local_tx_pos space) == 0)) [
      | inl fresh ↦
          rw fresh (frame-next_slot (pad_rest s space) _ space wait ∙ frame-pad_rest s space)
      | inr middle ↦ rw middle (frame-pad_rest s space)
    ]

frame-publish :
    (s : State) (msgid : ℕ) (place : Place) (size : ℕ) (bytes : List ℕ) (flags : Flags)
    → frame (publish s none msgid place size bytes flags) ≡ frame s
unfolding publish
frame-publish s msgid place size bytes flags = elim (Bool-cases (is_close msgid)) [
  | inl c ↦ elim (Bool-cases flags.no_mutex_unlock) [
    | inl h ↦ rw (c, h) refl
    | inr h ↦ rw (c, h) refl
  ]
  | inr c ↦ elim (Bool-cases flags.no_mutex_unlock) [
    | inl h ↦ rw (c, h) refl
    | inr h ↦ rw (c, h) refl
  ]
]

frame-send_at :
    (s : State) (msgid : ℕ) (callback : ℕ → ℕ → Chunk) (size : ℕ) (flags : Flags) (at : Place)
    → is_message msgid ≡ false
    → frame (answered (send_at s none msgid callback size flags at)).1 ≡ frame s
unfolding send_at
frame-send_at s msgid callback size flags at control =
    rw control (frame-publish (count_ctrl s) msgid at size _ flags)

frame-reserve_and_send :
    (s : State) (msgid : ℕ) (callback : ℕ → ℕ → Chunk) (size : ℕ) (flags : Flags)
    → is_message msgid ≡ false
    → flags.is_blocking ≡ false
    → frame (answered (reserve_and_send s none msgid callback size flags [])).1 ≡ frame s
unfolding reserve_and_send
frame-reserve_and_send s msgid callback size flags control quick =
    finish (reserve_space s (calc_stride size) flags.is_blocking wait)
    ∙ quiet flags.is_blocking quick
  where
    wait : Wait
    wait = next_wait s (calc_stride size) []

    quiet : (b : Bool) → b ≡ false → frame (reserve_space s (calc_stride size) b wait).1 ≡ frame s
    quiet b e = rw e (frame-reserve_space s (calc_stride size) wait)

    finish :
        (r : Option Place × State)
        → frame
            (answered (
              option_case r.0
                (returns retry (release_unless flags.no_mutex_lock r.1))
                (λ at. send_at r.1 none msgid callback size flags at))).1
          ≡ frame r.1
    finish (none, u) = elim (Bool-cases flags.no_mutex_lock) [
      | inl h ↦ rw h refl
      | inr h ↦ rw h refl
    ]
    finish (some at, u) = frame-send_at u msgid callback size flags at control

-- A control message of no service.
pub frame-queue_message :
    (s : State) (msgid : ℕ) (callback : ℕ → ℕ → Chunk) (size : ℕ) (flags : Flags) (locked : Bool)
    → is_message msgid ≡ false
    → flags.is_blocking ≡ false
    → frame (answered (queue_message s none msgid callback size flags locked [])).1 ≡ frame s
unfolding queue_message
frame-queue_message s msgid callback size flags locked control quick =
    elim (Bool-cases (not flags.no_mutex_lock && not locked)) [
      | inl gives_up ↦ rw gives_up refl
      | inr has_lock ↦
          rw (has_lock, control)
            (frame-reserve_and_send (record s { slot_mutex = true }) msgid callback size flags
              control quick)
    ]
