-- ===== src/Vchiq/Reserve.antt =====
-- Room for a message in the slots of this side: `reserve_space`
-- (interface/vchiq_arm/vchiq_core.c), with `remote_event_signal`
-- (interface/vchiq_arm/vchiq_2835_arm.c). What other threads do while a sender waits is given by the
-- states in which its waits end.
pub mod Place
pub mod Quotas
pub mod Tests
use dkms_rpi_codec.Base.{
  ℕ, ◌+◌, ◌-◌, ◌*◌, ◌%◌, ◌^◌, Bool, true, not, Option, none, some, [], ltb, ◌==◌, if◌then◌else◌,
  option_case, update, add32,
}
use dkms_rpi_codec.Vchiq.Message.{slot_size, header_size, padding_msgid}
use dkms_rpi_codec.Vchiq.State.{
  State, Header, Shared, RemoteEvent, StateStats, slot_queue_index, slot_offset,
}

-- How a wait ends: by a signal to the thread, or by what it waits for.
pub data Wait : Type 0 where
  interrupted : State → Wait
  resumed : State → Wait

-- `remote_event_signal`, without the bell that it rings for an armed event.
abbrev pub signal : RemoteEvent → RemoteEvent
signal e = record e { fired = true }

abbrev pub trigger_remote : State → State
trigger_remote s = record s { remote = record s.remote { trigger = signal s.remote.trigger } }

-- A write to the header at a byte of a slot; there is no write through a NULL `tx_data`.
abbrev pub write_header : State → Option ℕ → ℕ → Header → State
write_header s slot pos h =
    option_case slot s (λ i. record s { slots = update s.slots i (update (s.slots i) pos h) })

abbrev pub count_slot_stall : State → State
count_slot_stall s = record s {
  stats = record s.stats { slot_stalls = add32 s.stats.slot_stalls 1 };
}

-- The place of a header: a slot and a byte position in it.
abbrev pub Place : Type 0
Place = ℕ × ℕ

-- The last part of `reserve_space`, with `tx_pos` past the padding and, at a slot's start, with a
-- signal of `slot_available_event` taken.
unfoldable pub take_place : State → ℕ → ℕ → Option Place × State
take_place s tx_pos space =
    let at = option_case s.tx_data none (λ slot. some (slot, slot_offset tx_pos)) in
    (at, record s { local_tx_pos = add32 tx_pos space })

unfoldable pub open_slot : State → ℕ → ℕ → Option Place × State
open_slot s tx_pos space =
    if tx_pos == s.slot_queue_available * slot_size % 2 ^ 32
    then (none, record s { slot_available_event = s.slot_available_event + 1 })
    else take_place (record s { tx_data = some (s.here.slot_queue (slot_queue_index tx_pos % 64)) })
        tx_pos space

unfoldable pub after_wait : Wait → ℕ → ℕ → Option Place × State
after_wait (interrupted s) tx_pos space = (none, s)
after_wait (resumed s) tx_pos space = open_slot s tx_pos space

-- What the other side is shown before a wait for a slot.
abbrev pub flush_to : State → ℕ → State
flush_to s tx_pos = trigger_remote (record (count_slot_stall s) {
  local_tx_pos = tx_pos;
  here = record s.here { tx_pos = tx_pos };
})

-- `try_wait_for_completion`, and the wait that follows where there is no free slot.
unfoldable pub next_slot : State → ℕ → ℕ → Bool → Wait → Option Place × State
next_slot s tx_pos space is_blocking wait =
    if not (s.slot_available_event == 0)
    then open_slot (record s { slot_available_event = s.slot_available_event - 1 }) tx_pos space
    else if not is_blocking
    then (none, flush_to s tx_pos)
    else after_wait wait tx_pos space

-- The padding header at the end of a slot.
abbrev pub padding_header : ℕ → Header
padding_header slot_space = record {
  msgid = padding_msgid;
  size = slot_space - header_size;
  bytes = [];
}

-- The rest of the slot is padded where the message does not fit in it.
unfoldable pub pad_rest : State → ℕ → State
pad_rest s space =
    let slot_space = slot_size - slot_offset s.local_tx_pos in
    if ltb slot_space space
    then write_header s s.tx_data (slot_offset s.local_tx_pos) (padding_header slot_space)
    else s

-- The `tx_pos` of the source: `local_tx_pos`, or the start of the next slot.
abbrev pub start_pos : ℕ → ℕ → ℕ
start_pos pos space =
    if ltb (slot_size - slot_offset pos) space then add32 pos (slot_size - slot_offset pos) else pos

-- `reserve_space`
unfoldable pub reserve_space : State → ℕ → Bool → Wait → Option Place × State
reserve_space s space is_blocking wait =
    let tx_pos = start_pos s.local_tx_pos space in
    if slot_offset tx_pos == 0
    then next_slot (pad_rest s space) tx_pos space is_blocking wait
    else take_place (pad_rest s space) tx_pos space
