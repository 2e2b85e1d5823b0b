-- ===== src/Vchiq/Release.antt =====
-- Giving received slots back to the other side: `claim_slot`, `release_slot`,
-- `release_service_messages`, `release_message_sync` and `vchiq_release_message`
-- (interface/vchiq_arm/vchiq_core.c).
pub mod Once
mod Tests
use dkms_rpi_codec.Base.{
  ℕ, zero, suc, ◌+◌, ◌-◌, ◌/◌, ◌^◌, bit_and, Bool, false, not, ◌&&◌, ◌||◌, Option, none, some, ltb,
  leb, ◌==◌, if◌then◌else◌, option_case, update, add32, u16,
}
use dkms_rpi_codec.Vchiq.Message.{
  slot_size, calc_stride, msg_dstport, is_claimed, unclaim, padding_msgid,
}
use dkms_rpi_codec.Vchiq.State.{State, SlotInfo, Service, Header, slot_offset, put_service}
use dkms_rpi_codec.Vchiq.Service.{find_service_by_handle, unlock_service}
use dkms_rpi_codec.Vchiq.Reserve.{signal, write_header}

abbrev pub put_info : State → ℕ → SlotInfo → State
put_info s slot info = record s { slot_info = update s.slot_info slot info }

-- `claim_slot`
unfoldable pub claim_slot : State → ℕ → State
claim_slot s slot =
    let info = s.slot_info slot in
    put_info s slot (record info { use_count = u16 (info.use_count + 1) })

-- The `int` that a `short` is read as.
unfoldable pub int_of_short : ℕ → ℕ
int_of_short x = if ltb x (2 ^ 15) then x else x + (2 ^ 32 - 2 ^ 16)

-- The slot goes to the end of the other side's queue of free slots, and that side is signalled.
unfoldable pub give_back : State → ℕ → State
give_back s slot =
    let r = s.remote in
    record s {
      remote = record r {
        slot_queue = update r.slot_queue (bit_and r.slot_queue_recycle 63) slot;
        slot_queue_recycle = add32 r.slot_queue_recycle 1;
        recycle = signal r.recycle;
      };
    }

-- The count of `release_slot`, and the slot's return where it comes to the count of uses.
unfoldable pub count_release : State → ℕ → State
count_release s slot =
    let info = s.slot_info slot in
    let released = add32 (int_of_short info.release_count) 1 in
    let s' = put_info s slot (record info { release_count = u16 released }) in
    if released == int_of_short info.use_count then give_back s' slot else s'

abbrev pub closing_at : State → Option ℕ → Bool
closing_at s service =
    option_case service false (λ port. option_case (s.services port) false (λ svc. svc.closing))

-- `release_slot` for the slot itself, and for a header in it.
unfoldable pub release_header : State → ℕ → ℕ → Option ℕ → State
release_header s slot pos service =
    let h = s.slots slot pos in
    if not (is_claimed h.msgid) || closing_at s service
    then s
    else count_release (write_header s (some slot) pos (record h { msgid = unclaim h.msgid })) slot

unfoldable pub release_slot : State → ℕ → Option ℕ → Option ℕ → State
release_slot s slot header service =
    option_case header (count_release s slot) (λ pos. release_header s slot pos service)

-- `release_message_sync`, for a header of the slot for synchronous messages.
unfoldable pub release_message_sync : State → ℕ → ℕ → State
release_message_sync s slot pos =
    let s' = write_header s (some slot) pos (record (s.slots slot pos) { msgid = padding_msgid }) in
    record s' { remote = record s'.remote { sync_release = signal s'.remote.sync_release } }

-- The walk over the messages of a slot, from a position up to `end`, on fuel.
unfoldable pub release_walk : ℕ → State → ℕ → ℕ → ℕ → ℕ → State
release_walk zero s slot localport end pos = s
release_walk (suc fuel) s slot localport end pos =
    let h = s.slots slot pos in
    let s' =
      if (msg_dstport h.msgid == localport) && is_claimed h.msgid
      then release_slot s slot (some pos) none
      else s in
    let rest = release_walk fuel s' slot localport end (add32 pos (calc_stride h.size)) in
    if ltb pos end then rest else s

-- Each message takes eight bytes at least.
abbrev pub slot_steps : ℕ
slot_steps = slot_size / 8

abbrev pub read_end : State → ℕ → ℕ
read_end s slot =
    option_case s.rx_data slot_size (λ r. if r == slot then slot_offset s.rx_pos else slot_size)

-- The loop over the slots of the other side, on the slots that are left.
unfoldable pub release_slots : ℕ → State → ℕ → ℕ → State
release_slots zero s localport slot = s
release_slots (suc left) s localport slot =
    let info = s.slot_info slot in
    let s' =
      if info.release_count == info.use_count
      then s
      else release_walk slot_steps s slot localport (read_end s slot) 0 in
    release_slots left s' localport (slot + 1)

-- `release_service_messages`
unfoldable pub release_service_messages : State → Service → State
release_service_messages s svc =
    let r = s.remote in
    if svc.sync
    then if msg_dstport (s.slots r.slot_sync 0).msgid == svc.localport
      then release_message_sync s r.slot_sync 0
      else s
    else release_slots (suc r.slot_last - r.slot_first) s svc.localport r.slot_first

-- `vchiq_release_message`, for the header at a byte of a slot.
unfoldable pub release_message : State → ℕ → ℕ → ℕ → State
release_message s handle slot pos =
    let (found, s₁) = find_service_by_handle s handle in
    option_case found s λ port.
      let r = s₁.remote in
      let in_data = leb r.slot_first slot && leb slot r.slot_last in
      let s₂ =
        if in_data
        then if is_claimed (s₁.slots slot pos).msgid
          then release_slot s₁ slot (some pos) (some port)
          else s₁
        else if slot == r.slot_sync
        then release_message_sync s₁ slot pos
        else s₁ in
      (unlock_service s₂ port).0
