-- ===== src/Vchiq/Slots.antt =====
-- How the shared memory is cut into slots and how the link's state starts: `vchiq_init_slots` and
-- the part of `vchiq_init_state` that sets up data (interface/vchiq_arm/vchiq_core.c).
pub mod Partition
pub mod Start
pub mod Tests
use dkms_rpi_codec.Base.{
  ℕ, zero, suc, ◌+◌, ◌-◌, ◌*◌, ◌/◌, min, bit_and, Bool, true, false, Option, none, some, ltb,
  if◌then◌else◌, update, sub32, u16,
}
use dkms_rpi_codec.Vchiq.Message.{slot_size, padding_msgid}
use dkms_rpi_codec.Vchiq.Suspend.{zero_arm_state}
use dkms_rpi_codec.Vchiq.State.{
  Shared, RemoteEvent, State, Status, success, error, Header, SlotInfo, Quota, StateStats,
  max_slots, max_slots_per_side, disconnected,
}

-- VCHIQ_SLOT_ZERO_SLOTS: `sizeof(struct vchiq_slot_zero)` is 1288 bytes, of which each
-- struct vchiq_shared_state takes 372.
abbrev pub slot_zero_size : ℕ
slot_zero_size = 1288

abbrev pub slot_zero_slots : ℕ
slot_zero_slots = (slot_zero_size + slot_size - 1) / slot_size

-- struct vchiq_slot_zero
pub record SlotZero : Type 0 where
  pub magic : ℕ
  pub version : ℕ
  pub version_min : ℕ
  pub size : ℕ
  pub slot_bytes : ℕ
  pub slots : ℕ
  pub slots_per_side : ℕ
  pub master : Shared
  pub slave : Shared

abbrev quiet : RemoteEvent
quiet = record { armed = false; fired = false }

-- What `memset` leaves of a struct vchiq_shared_state.
abbrev pub cleared : Shared
cleared = record {
  initialised = false;
  slot_first = 0;
  slot_last = 0;
  slot_sync = 0;
  trigger = quiet;
  tx_pos = 0;
  recycle = quiet;
  slot_queue_recycle = 0;
  sync_trigger = quiet;
  sync_release = quiet;
  slot_queue = λ i. 0;
}

-- `(VCHIQ_SLOT_SIZE - (long)mem_base) & VCHIQ_SLOT_MASK`
unfoldable pub mem_align : ℕ → ℕ
mem_align mem_base = bit_and (sub32 slot_size mem_base) 0xfff

-- VCHIQ_MAGIC is the four characters "VCHI".
abbrev pub magic : ℕ
magic = 0x5643_4849

-- The block that starts at slot zero, with `num_slots` data slots.
unfoldable pub slot_zero : ℕ → SlotZero
slot_zero num_slots = record {
  magic = magic;
  version = 8;
  version_min = 3;
  size = slot_zero_size;
  slot_bytes = slot_size;
  slots = max_slots;
  slots_per_side = max_slots_per_side;
  master = record cleared {
    slot_sync = slot_zero_slots;
    slot_first = slot_zero_slots + 1;
    slot_last = slot_zero_slots + num_slots / 2 - 1;
  };
  slave = record cleared {
    slot_sync = slot_zero_slots + num_slots / 2;
    slot_first = slot_zero_slots + num_slots / 2 + 1;
    slot_last = slot_zero_slots + num_slots - 1;
  };
}

-- `vchiq_init_slots`, at a size that is not negative. Where the size is below the alignment C's
-- division of the negative difference gives 0 too, and a negative number of slots is refused as 0 is.
unfoldable pub init_slots : ℕ → ℕ → Option SlotZero
unfolding slot_zero mem_align
init_slots mem_base mem_size =
    let num_slots = (mem_size - mem_align mem_base) / slot_size - slot_zero_slots in
    if ltb num_slots 4 then none else some (slot_zero num_slots)

-- The loop over `slot_first .. slot_last` on the slots that are left; the result is the queue and
-- the number of slots in it, which is also the number of signals of `slot_available_event`.
unfoldable pub fill_queue : ℕ → ℕ → ℕ → (ℕ → ℕ) → (ℕ → ℕ) × ℕ
fill_queue zero i available queue = (queue, available)
fill_queue (suc left) i available queue =
    fill_queue left (i + 1) (available + 1) (update queue available i)

abbrev no_quota : Quota
no_quota = record {
  slot_quota = 0;
  slot_use_count = 0;
  message_quota = 0;
  message_use_count = 0;
  quota_event = 0;
  previous_tx_index = 0;
}

-- The writes of `vchiq_init_state` after its checks, up to `remote_event_signal_local`; the memory
-- `slots` is what it was, but for the header of the slot for synchronous messages.
unfoldable pub start_state : SlotZero → (ℕ → ℕ → Header) → State
unfolding fill_queue
start_state zero_block memory =
    let slave = zero_block.slave in
    let (queue, available) =
      fill_queue (suc slave.slot_last - slave.slot_first) slave.slot_first 0 slave.slot_queue in
    let sync_header = record (memory slave.slot_sync 0) { msgid = padding_msgid } in
    record {
      conn_state = disconnected;
      version_common = 0;
      here = record slave {
        slot_queue = queue;
        tx_pos = 0;
        slot_queue_recycle = available;
        trigger = record slave.trigger { armed = false };
        recycle = record slave.recycle { armed = false };
        sync_trigger = record slave.sync_trigger { armed = false };
        sync_release = record { armed = false; fired = true };
      };
      remote = zero_block.master;
      slots = update memory slave.slot_sync (update (memory slave.slot_sync) 0 sync_header);
      default_slot_quota = u16 (available / 2);
      default_message_quota = min (u16 (u16 (available / 2) * 256)) 0xffff;
      connect = 0;
      tx_data = none;
      rx_data = none;
      slot_mutex = false;
      sync_mutex = false;
      rx_pos = 0;
      local_tx_pos = 0;
      slot_queue_available = available;
      poll_needed = false;
      previous_data_index = 0xffff_ffff;
      data_use_count = 0;
      data_quota = u16 (available - 1);
      poll_services = λ i. 0;
      unused_service = 0;
      handle_seq = 0;
      slot_available_event = available;
      data_quota_event = 0;
      stats = record {
        slot_stalls = 0;
        data_stalls = 0;
        ctrl_tx_count = 0;
        ctrl_rx_count = 0;
        error_count = 0;
      };
      services = λ i. none;
      service_quotas = λ i. no_quota;
      slot_info = λ i. record { use_count = 0; release_count = 0 };
      platform_state = zero_arm_state;
    }

-- `vchiq_init_state` up to its call of `vchiq_platform_init_state`: the two checks before its first
-- write, and the writes; `other` says whether a state exists. What comes after it, the platform's
-- setup, the three threads and the marks that a state exists, is no part of it.
unfoldable pub init_state : Bool → SlotZero → (ℕ → ℕ → Header) → Status × Option State
unfolding start_state
init_state other zero_block memory =
    if other
    then (error, none)
    else if zero_block.slave.initialised
    then (error, none)
    else (success, some (start_state zero_block memory))
