-- ===== src/Vchiq/Client/Tests.antt =====
-- Calls on the service at port 5, in a table with no other.
use dkms_rpi_codec.Vchiq.Message.{make_msg, msg_type, calc_stride}
use dkms_rpi_codec.Vchiq.Copy.{copy_message_data, copy_loop}
use dkms_rpi_codec.Vchiq.Reserve.{reserve_space, take_place, pad_rest}
use dkms_rpi_codec.Base.{suc, ◌^◌, ◌<◌, ◌≡◌, refl, subst, true, some, [], arith}
use dkms_rpi_codec.Vchiq.State.{State, success, Service}
use dkms_rpi_codec.Vchiq.Service.Tests.{peopled, peopled-IsTable, only-busy}
use dkms_rpi_codec.Vchiq.Service.{find_service_by_handle}
use dkms_rpi_codec.Vchiq.Service.Table.{IsTable}
use dkms_rpi_codec.Vchiq.Transmit.{
  send_at, waits_on, reserve_and_send, await_service_quota, await_data_quota, await_quotas, Sent,
  returns, queue_message,
}
use dkms_rpi_codec.Vchiq.Copy.Tests.{bytewise, hello}
use dkms_rpi_codec.Vchiq.Client.{
  check_service, send_data, waits_on, find_service_by_handle, queue_data,
}
use dkms_rpi_codec.Vchiq.Client.Options.{HasRoom}

peopled-HasRoom : HasRoom peopled
peopled-HasRoom port svc e =
    subst (λ (o : Service). suc o.ref_count < 2 ^ 32) (only-busy port svc e).1 (omega arith)

abbrev limited : State
limited = record peopled {
  service_quotas = λ port. record {
    slot_quota = 4;
    slot_use_count = 2;
    message_quota = 8;
    message_use_count = 3;
    quota_event = 0;
    previous_tx_index = 0;
  };
}

-- The service has sent nothing yet, and the middle of a slot is free.
abbrev writable : State
writable = record limited { local_tx_pos = 64; tx_data = some 9; previous_data_index = 0 }

abbrev answer : Sent
answer = queue_data writable 4101 (bytewise hello) 3 true []

abbrev state_of : Sent → State
state_of (returns st s) = s
state_of (waits_on s) = s

answered : answer ≡ returns success (state_of answer)
unfolding queue_data find_service_by_handle send_data check_service queue_message await_quotas
    await_data_quota await_service_quota reserve_and_send reserve_space take_place pad_rest send_at
    copy_message_data copy_loop make_msg msg_type calc_stride
answered = refl

writable-IsTable : IsTable writable
writable-IsTable = record {
  entries = peopled-IsTable.entries;
  bounded = peopled-IsTable.bounded;
  seq_aligned = peopled-IsTable.seq_aligned;
  seq_word = peopled-IsTable.seq_word;
}
