-- ===== src/Vchiq/Receive.antt =====
-- The slot handler's reading of the other side's messages: `parse_rx_slots`
-- (interface/vchiq_arm/vchiq_core.c), a function for each case of its switch. A result of `false`
-- stands for the jump to `bail_not_ready`, after which the message is read again.
use dkms_rpi_codec.Base.{
  ℕ, ◌+◌, ◌%◌, ◌^◌, bit_and, Bool, true, false, not, ◌&&◌, Option, none, some, [], leb, ◌==◌,
  if◌then◌else◌, option_case, add32,
}
use dkms_rpi_codec.Vchiq.Message.{
  MsgType, openack, close, message, bulk_rx_done, bulk_tx_done, connect, pause, resume, remote_use,
  remote_release, type_of_code, make_msg, msg_type, msg_srcport, claim,
}
use dkms_rpi_codec.Vchiq.State.{
  transmit, receive, State, Status, Header, BulkDir, in_state, free, opening, open_, paused,
  pause_sent, connected, port_free, slot_queue_index, put_service,
}
use dkms_rpi_codec.Vchiq.Bulk.{
  is_retry, callback_status, bulk_done, unexpected, not_ready, accepted, queue_of, with_queue,
}
use dkms_rpi_codec.Vchiq.Service.{
  find_service_by_port, get_connected_service, unlock_service, mark_service_closing,
}
use dkms_rpi_codec.Vchiq.Reserve.{write_header}
use dkms_rpi_codec.Vchiq.Release.{claim_slot, put_info}
use dkms_rpi_codec.Vchiq.Transmit.{queue_message}
use dkms_rpi_codec.Vchiq.Transfer.{memcpy_copy_callback}
use dkms_rpi_codec.Vchiq.Open.{answered, on_service, short_at, int_at, parse_open}
use dkms_rpi_codec.Vchiq.Poll.{notify_service}
use dkms_rpi_codec.Vchiq.Power.{on_remote_use, on_remote_release}
use dkms_rpi_codec.Vchiq.Connect.{set_conn_state}
use dkms_rpi_codec.Vchiq.Close.{Inputs, keeps_mutex, srvstate_at, close_service_internal}

-- The slot of the message at `rx_pos`, opened where the last one was read to its end.
unfoldable pub open_rx_slot : State → ℕ × State
open_rx_slot s =
    let slot = s.remote.slot_queue (bit_and (slot_queue_index s.rx_pos) 63) in
    option_case s.rx_data
      (
        slot,
        put_info (record s { rx_data = some slot }) slot
            (record { use_count = 1; release_count = 0 }),
      )
      (λ current. (current, s))

-- The types whose messages are for a service.
abbrev pub needs_service : ℕ → Bool
needs_service type = leb 3 type && leb type 9

abbrev pub remoteport_at : State → ℕ → ℕ
remoteport_at s port = option_case (s.services port) 0 (λ svc. svc.remoteport)

-- The service that a message is for, with the reference that is taken to it. A CLOSE to port 0 may
-- come from a client that has not seen its OPENACK.
unfoldable pub find_target : State → ℕ → ℕ → ℕ → Option ℕ × State
unfolding find_service_by_port get_connected_service
find_target s type localport remoteport =
    let (found, s') = find_service_by_port s localport in
    let other = option_case found true λ port.
      not (remoteport_at s' port == remoteport) && not (remoteport_at s' port == port_free) in
    if other && (localport == 0) && (type == 4)
    then get_connected_service (option_case found s' (λ port. (unlock_service s' port).0))
        remoteport
    else (found, s')

-- VCHIQ_MSG_OPENACK
unfoldable pub receive_openack : State → ℕ → Header → Bool × State
receive_openack s port h = (
  true,
  on_service s port λ svc.
      let v = if leb 2 h.size then record svc { peer_version = short_at h.bytes 0 } else svc in
      if in_state v.srvstate opening
      then record v {
        remoteport = msg_srcport h.msgid;
        srvstate = open_;
        remove_event = v.remove_event + 1;
      }
      else v,
)

-- VCHIQ_MSG_CLOSE
unfoldable pub receive_close : State → ℕ → Inputs → Bool × State
unfolding close_service_internal
receive_close s port i =
    let (st, s') = close_service_internal (mark_service_closing s port) port true i in
    (not (is_retry st), s')

-- VCHIQ_MSG_DATA, for the header at a byte of a slot.
unfoldable pub receive_data : State → ℕ → ℕ → ℕ → Header → Status → Bool × State
unfolding callback_status
receive_data s port slot pos h answer =
    let claimed =
      claim_slot (write_header s (some slot) pos (record h { msgid = claim h.msgid })) slot in
    let counted = on_service claimed port (λ svc. record svc {
      stats = record svc.stats {
        ctrl_rx_count = add32 svc.stats.ctrl_rx_count 1;
        ctrl_rx_bytes = (svc.stats.ctrl_rx_bytes + h.size) % 2 ^ 64;
      };
    }) in
    if (remoteport_at s port == msg_srcport h.msgid) && in_state (srvstate_at s port) open_
    then if is_retry (callback_status answer) then (false, claimed) else (true, counted)
    else (true, record s { stats = record s.stats { error_count = add32 s.stats.error_count 1 } })

-- VCHIQ_MSG_CONNECT; `version` is what the other side wrote to slot zero.
unfoldable pub receive_connect : State → ℕ → Bool × State
receive_connect s version = (true, record s { version_common = version; connect = s.connect + 1 })

-- VCHIQ_MSG_BULK_RX_DONE, VCHIQ_MSG_BULK_TX_DONE
unfoldable pub receive_bulk_done : BulkDir → State → ℕ → Header → Inputs → Bool × State
unfolding notify_service
receive_bulk_done dir s port h i =
    option_case (s.services port) (true, s)
      λ svc.
        let answers : ℕ → Status = elim dir [ transmit ↦ i.tx_answer | receive ↦ i.rx_answer ] in
        if not ((svc.remoteport == msg_srcport h.msgid) && not (in_state svc.srvstate free))
        then (true, s)
        else if not i.bulk_locked
        then (false, s)
        else elim (bulk_done (queue_of dir svc) (int_at h.bytes 0)) [
          | unexpected ↦ (true, s)
          | not_ready ↦ (false, s)
          | accepted q freed ↦ (
            true,
            (notify_service dir true answers (put_service s port (some (with_queue dir q svc)))
                port).1,
          )
        ]

-- VCHIQ_MSG_PAUSE, which is answered unless this side has asked for it; the slot mutex stays held.
unfoldable pub receive_pause : State → Bool → Bool × State
unfolding set_conn_state
receive_pause s locked =
    let (st, s') =
      answered (
        queue_message s none (make_msg 10 0 0) (memcpy_copy_callback []) 0 keeps_mutex locked []) in
    elim s.conn_state [
      | paused ↦ (true, s)
      | pause_sent ↦ (true, set_conn_state s paused)
      | _ ↦ if is_retry st then (false, s') else (true, set_conn_state s' paused)
    ]

-- VCHIQ_MSG_RESUME
unfoldable pub receive_resume : State → Bool × State
unfolding set_conn_state
receive_resume s = (true, set_conn_state (record s { slot_mutex = false }) connected)

-- The switch for a message to a service.
unfoldable pub receive_served : MsgType → State → ℕ → ℕ → ℕ → Header → Inputs → Bool × State
unfolding receive_openack receive_close receive_data receive_bulk_done
receive_served openack s port slot pos h i = receive_openack s port h
receive_served close s port slot pos h i = receive_close s port i
receive_served message s port slot pos h i = receive_data s port slot pos h i.answer
receive_served bulk_rx_done s port slot pos h i = receive_bulk_done receive s port h i
receive_served bulk_tx_done s port slot pos h i = receive_bulk_done transmit s port h i
receive_served _ s port slot pos h i = (true, s)

unfoldable pub receive_for : State → ℕ → ℕ → ℕ → Header → Inputs → Bool × State
unfolding receive_served
receive_for s port slot pos h i =
    receive_served (type_of_code (msg_type h.msgid)) s port slot pos h i

-- The switch for the other messages.
unfoldable pub receive_control : MsgType → State → ℕ → Header → Inputs → Bool × State
unfolding receive_connect receive_pause receive_resume
receive_control MsgType.open_ s version h i = parse_open s h i.slot_locked i.answer
receive_control connect s version h i = receive_connect s version
receive_control pause s version h i = receive_pause s i.slot_locked
receive_control resume s version h i = receive_resume s
receive_control remote_use s version h i = (true, on_remote_use s)
receive_control remote_release s version h i = (true, on_remote_release s)
receive_control _ s version h i = (true, s)

unfoldable pub receive_other : State → ℕ → Header → Inputs → Bool × State
unfolding receive_control
receive_other s version h i = receive_control (type_of_code (msg_type h.msgid)) s version h i
