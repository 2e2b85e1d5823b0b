-- ===== src/Vchiq/Reserve/Tests.antt =====
-- A message that does not fit in the first slot.
use dkms_rpi_codec.Base.{◌+◌, ◌%◌, ◌≤◌, ◌≡◌, refl, true, some, arith}
use dkms_rpi_codec.Vchiq.Message.{header_size, slot_size}
use dkms_rpi_codec.Vchiq.State.{State}
use dkms_rpi_codec.Vchiq.Slots.Tests.{started}
use dkms_rpi_codec.Vchiq.Reserve.{
  Place, interrupted, start_pos, reserve_space, next_slot, open_slot, pad_rest, take_place,
}
use dkms_rpi_codec.Vchiq.Reserve.Place.{IsPlace, reserve_space_lem}

abbrev pub near_end : State
near_end = record started {
  local_tx_pos = 4000;
  tx_data = some 9;
  slot_available_event = 2;
  slot_queue_available = 7;
}

-- The state with a place for 128 bytes.
abbrev after : State
after = (reserve_space near_end 128 true (interrupted near_end)).1

abbrev at_start : Place
at_start = (near_end.here.slot_queue 1, 0)

moves_on : reserve_space near_end 128 true (interrupted near_end) ≡ (some at_start, after)
unfolding reserve_space next_slot open_slot pad_rest take_place
moves_on = refl

reserve_space_lem_example :
    IsPlace (start_pos 4000 128) 128 at_start after
    × (at_start.1 + 128 ≤ slot_size)
    × (at_start.1 % header_size ≡ 0)
    × (after.local_tx_pos % header_size ≡ 0)
reserve_space_lem_example =
    reserve_space_lem near_end 128 true (interrupted near_end) at_start after refl refl
      (omega arith) moves_on
