-- ===== src/Vchiq/FreeQueue/Tests.antt =====
-- A slot with two data messages of port 5 and one that opens a service.
use dkms_rpi_codec.Base.{ℕ, ◌+◌, ◌≤◌, ◌≡◌, false, [], arith, ◌==◌, if◌then◌else◌, sub32}
use dkms_rpi_codec.Vchiq.Message.{max_msg_size, padding_msgid}
use dkms_rpi_codec.Vchiq.State.{State, Header, Quota}
use dkms_rpi_codec.Vchiq.Slots.Tests.{started}
use dkms_rpi_codec.Vchiq.FreeQueue.{
  Freed, free_walk, free_steps, next_free, free_slot, process_free_queue,
}
use dkms_rpi_codec.Vchiq.FreeQueue.Walk.{messages, free_walk_ends}
use dkms_rpi_codec.Vchiq.FreeQueue.Counts.{IsReturned, count_data, free_slot-IsReturned}
use dkms_rpi_codec.Vchiq.FreeQueue.Drain.{IsDrained, process_free_queue_lem}

abbrev a_slot : ℕ → Header
a_slot pos =
    if pos == 0
    then record { msgid = 0x0500_5009; size = 8; bytes = [] }
    else if pos == 16
    then record { msgid = 0x0500_5009; size = 4; bytes = [] }
    else if pos == 32
    then record { msgid = 0x0200_7000; size = 12; bytes = [] }
    else record { msgid = padding_msgid; size = 4000; bytes = [] }

abbrev in_use : Quota
in_use = record {
  slot_quota = 3;
  slot_use_count = 2;
  message_quota = 9;
  message_use_count = 5;
  quota_event = 0;
  previous_tx_index = 1;
}

-- The other side has given the slot back.
abbrev one_back : State
one_back = record started {
  slot_queue_available = 4;
  here = record started.here { slot_queue_recycle = 5; slot_queue = λ i. 9 };
  slots = λ slot. a_slot;
  service_quotas = λ port. in_use;
}

abbrev nothing_found : Freed
nothing_found = record { found = λ port. false; data_found = false; quotas = λ port. in_use }

a_slot_short : (p : ℕ) → (a_slot p).size ≤ max_msg_size
a_slot_short p = ground arith

free_walk_ends_example :
    free_walk (free_steps + 3) a_slot 0 nothing_found ≡ free_walk free_steps a_slot 0 nothing_found
free_walk_ends_example = free_walk_ends a_slot 3 nothing_found a_slot_short

free_slot-IsReturned_example :
    IsReturned
      (one_back.service_quotas 5)
      ((free_slot one_back).service_quotas 5)
      false
      (count_data 5 (messages free_steps (one_back.slots (next_free one_back)) 0))
free_slot-IsReturned_example = free_slot-IsReturned one_back 5

process_free_queue_lem_example :
    IsDrained
      (sub32 one_back.here.slot_queue_recycle one_back.slot_queue_available)
      one_back
      (process_free_queue one_back)
    × ((process_free_queue one_back).slot_queue_available ≡ one_back.here.slot_queue_recycle)
process_free_queue_lem_example = process_free_queue_lem one_back (omega arith) (omega arith)
