-- ===== src/Vchiq/FreeQueue.antt =====
-- Taking slots that the other side has given back: `process_free_queue`
-- (interface/vchiq_arm/vchiq_core.c).
pub mod Walk
pub mod Counts
pub mod Drain
mod Tests
use dkms_rpi_codec.Base.{
  ℕ, zero, suc, ◌+◌, ◌-◌, ◌/◌, bit_and, Bool, true, false, ◌&&◌, ltb, ◌==◌, if◌then◌else◌, update,
  add32, sub32,
}
use dkms_rpi_codec.Vchiq.Message.{slot_size, calc_stride, msg_type, msg_srcport}
use dkms_rpi_codec.Vchiq.State.{State, Quota, Header}

-- A message of a freed slot gives one of the quota back; who waits for a full quota is signalled.
unfoldable pub return_message : Quota → Quota
return_message q = record q {
  message_use_count = q.message_use_count - 1;
  quota_event = if q.message_use_count == q.message_quota then q.quota_event + 1 else q.quota_event;
}

-- The slot is given back to each service that used it.
unfoldable pub return_slot : Quota → Quota
return_slot q = record q {
  slot_use_count = q.slot_use_count - 1;
  quota_event = if q.slot_use_count == 0 then q.quota_event else q.quota_event + 1;
}

-- What the walk over a slot keeps: the services found in it, whether there was data, the quotas.
pub record Freed : Type 0 where
  pub found : ℕ → Bool
  pub data_found : Bool
  pub quotas : ℕ → Quota

unfoldable pub return_quota : Bool → Quota → Quota
unfolding return_message return_slot
return_quota seen q = if seen then return_message q else return_slot (return_message q)

-- The loop's body for one message.
unfoldable pub free_message : Freed → ℕ → Freed
free_message w msgid =
    let port = msg_srcport msgid in
    if msg_type msgid == 5
    then record {
      found = update w.found port true;
      data_found = true;
      quotas = update w.quotas port (return_quota (w.found port) (w.quotas port));
    }
    else w

-- The walk over the messages of a slot, on fuel.
unfoldable pub free_walk : ℕ → (ℕ → Header) → ℕ → Freed → Freed
free_walk zero slot pos w = w
free_walk (suc fuel) slot pos w =
    let h = slot pos in
    let rest = free_walk fuel slot (add32 pos (calc_stride h.size)) (free_message w h.msgid) in
    if ltb pos slot_size then rest else w

-- Each message takes eight bytes at least.
abbrev pub free_steps : ℕ
free_steps = slot_size / 8

-- The slot that is next in the queue, after the walk.
abbrev pub next_free : State → ℕ
next_free s = s.here.slot_queue (bit_and s.slot_queue_available 63)

abbrev pub walked : State → Freed
walked s =
    free_walk free_steps (s.slots (next_free s)) 0
      (record { found = λ port. false; data_found = false; quotas = s.service_quotas })

-- One round of the outer loop.
unfoldable pub free_slot : State → State
unfolding free_walk
free_slot s =
    let w = walked s in
    let count = s.data_use_count in
    record s {
      service_quotas = w.quotas;
      data_use_count = if w.data_found then count - 1 else count;
      data_quota_event =
          if w.data_found && (count == s.data_quota)
          then s.data_quota_event + 1
          else s.data_quota_event;
      slot_queue_available = add32 s.slot_queue_available 1;
      slot_available_event = s.slot_available_event + 1;
    }

unfoldable pub free_slots : ℕ → State → State
free_slots zero s = s
free_slots (suc left) s = free_slots left (free_slot s)

-- `process_free_queue`, with the slots that have been given back when it starts; one that comes in
-- the meantime is left to the next call.
unfoldable pub process_free_queue : State → State
process_free_queue s = free_slots (sub32 s.here.slot_queue_recycle s.slot_queue_available) s
