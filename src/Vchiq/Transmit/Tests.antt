-- ===== src/Vchiq/Transmit/Tests.antt =====
-- A service with a quota of two messages and one slot sends `hello`.
use dkms_rpi_codec.Base.{ℕ, zero, suc, ◌≡◌, refl, true, false, some, [], ◌∷◌, arith, ◌==◌}
use dkms_rpi_codec.Vchiq.Message.{calc_stride, msg_type}
use dkms_rpi_codec.Vchiq.State.{State, Quota, success}
use dkms_rpi_codec.Vchiq.Service.Tests.{peopled}
use dkms_rpi_codec.Vchiq.Copy.{Chunk, failed, copy_error, copy_message_data, copy_loop}
use dkms_rpi_codec.Vchiq.Copy.Tests.{bytewise, hello}
use dkms_rpi_codec.Vchiq.Reserve.{
  resumed, interrupted, Place, reserve_space, next_slot, open_slot, pad_rest, take_place,
}
use dkms_rpi_codec.Vchiq.Transmit.Quotas.{InQuota, OnPass}
use dkms_rpi_codec.Vchiq.Transmit.Await.{Room, await_quotas_lem}
use dkms_rpi_codec.Vchiq.Transmit.Charge.{reserve_and_send_lem}
use dkms_rpi_codec.Vchiq.Transmit.Failures.{SyncOutcome, queue_message_sync_lem}
use dkms_rpi_codec.Vchiq.Transmit.{
  Flags, returns, await_quotas, send_at, publish, charge, reserve_and_send, queue_message_sync,
  tx_end_index,
}

abbrev two_left : Quota
two_left = record {
  slot_quota = 1;
  slot_use_count = 1;
  message_quota = 2;
  message_use_count = 1;
  quota_event = 0;
  previous_tx_index = 0;
}

-- The middle of the first slot.
abbrev ready : State
ready = record peopled { local_tx_pos = 64; tx_data = some 9; service_quotas = λ port. two_left }

abbrev exhausted : State
exhausted = record ready { service_quotas = λ port. record two_left { message_use_count = 2 } }

abbrev blocking_flags : Flags
blocking_flags = record { is_blocking = true; no_mutex_lock = false; no_mutex_unlock = false }

abbrev data_msgid : ℕ
data_msgid = 0x0500_5009

-- Another thread gives a message of the quota back while the sender waits.
await_quotas_lem_example :
    OnPass (Room 5 16) (await_quotas exhausted 5 16 (resumed ready ∷ resumed ready ∷ []))
await_quotas_lem_example =
    await_quotas_lem 5 16 exhausted (resumed ready ∷ resumed ready ∷ [])
      (omega arith, omega arith, omega arith, omega arith)
      (
        (omega arith, omega arith, omega arith, omega arith),
        ((omega arith, omega arith, omega arith, omega arith), tt),
      )

abbrev place : Place
place = (9, 64)

abbrev reserved : State
reserved = record ready { local_tx_pos = 80 }

has_place : reserve_space ready (calc_stride 3) true (interrupted ready) ≡ (some place, reserved)
unfolding reserve_space next_slot open_slot pad_rest take_place calc_stride
has_place = refl

abbrev sent_state : State
sent_state = publish (charge reserved 5 3) (some 5) data_msgid place 3 hello blocking_flags

sends :
    reserve_and_send ready (some 5) data_msgid (bytewise hello) 3 blocking_flags []
    ≡ returns success sent_state
unfolding reserve_and_send send_at reserve_space next_slot open_slot pad_rest take_place calc_stride
    copy_message_data copy_loop msg_type
sends = refl

first_slot : (tx_end_index ready (calc_stride 3) == 0) ≡ false → ⊥
unfolding calc_stride
first_slot other = cc

reserve_and_send_lem_example : InQuota (sent_state.service_quotas 5)
reserve_and_send_lem_example =
    reserve_and_send_lem ready sent_state 5 data_msgid 3 (bytewise hello) blocking_flags []
      (unfold msg_type in refl) (omega arith) (omega arith)
      (omega arith, omega arith, λ other. absurd (first_slot other), omega arith, omega arith) tt
      sends

-- A callback that fails after the first byte.
abbrev faulty : ℕ → ℕ → Chunk
faulty zero room = bytewise hello 0 room
faulty (suc pos) room = failed 14

faults : copy_message_data faulty 3 ≡ copy_error 14
unfolding copy_message_data copy_loop
faults = refl

queue_message_sync_lem_example :
    SyncOutcome ready data_msgid 3
      (copy_message_data faulty 3)
      (queue_message_sync ready (some 5) data_msgid faulty 3 true)
queue_message_sync_lem_example = queue_message_sync_lem ready (some 5) data_msgid faulty 3
