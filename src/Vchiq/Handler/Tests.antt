-- ===== src/Vchiq/Handler/Tests.antt =====
-- A message for the service at port 5.
use dkms_rpi_codec.Base.{◌+◌, ◌≡◌, refl, true, false, some, [], arith, u16}
use dkms_rpi_codec.Vchiq.Message.{msg_dstport, msg_type, msg_srcport}
use dkms_rpi_codec.Vchiq.State.{State, Header, retry, success}
use dkms_rpi_codec.Vchiq.Bulk.Tests.{busy}
use dkms_rpi_codec.Vchiq.Service.{with_ref, find_service_by_port, take_ref}
use dkms_rpi_codec.Vchiq.Service.Tests.{peopled}
use dkms_rpi_codec.Vchiq.Close.{Inputs}
use dkms_rpi_codec.Vchiq.Handler.{dispatch}
use dkms_rpi_codec.Vchiq.Handler.Retry.{claimed_header, dispatch-retry_lem}

abbrev arrived : Header
arrived = record { msgid = 0x0500_9005; size = 12; bytes = [] }

abbrev refusing : Inputs
refusing = record {
  bulk_locked = true;
  slot_locked = true;
  tx_answer = λ c. success;
  rx_answer = λ c. success;
  answer = retry;
}

abbrev found : State
found = take_ref peopled 5 busy

to_port_5 : find_service_by_port peopled (msg_dstport arrived.msgid) ≡ (some 5, found)
unfolding find_service_by_port msg_dstport
to_port_5 = refl

dispatch-retry_lem_example :
    let (done, t) = dispatch peopled 3 64 arrived 8 refusing in
    (done ≡ false)
    × (t.slots 3 64 ≡ claimed_header arrived)
    × ((t.slot_info 3).use_count ≡ u16 ((found.slot_info 3).use_count + 1))
    × ((u : State) (i' : Inputs) → dispatch u 3 64 (claimed_header arrived) 8 i' ≡ (true, u))
dispatch-retry_lem_example =
    dispatch-retry_lem peopled found 3 64 5 8 arrived (with_ref busy 2) refusing
      (unfold msg_type in refl) to_port_5 refl (unfold msg_srcport in refl) refl refl (omega arith)
