-- ===== src/Vchiq/Handler.antt =====
-- The rounds of the three threads of vchiq_core.c (interface/vchiq_arm/vchiq_core.c): the slot
-- handler with the loop of `parse_rx_slots`, the recycle thread and the thread for synchronous
-- messages.
pub mod Retry
mod Tests
use dkms_rpi_codec.Base.{
  ℕ, zero, suc, ◌+◌, ◌/◌, Bool, true, false, none, [], leb, ◌==◌, if◌then◌else◌, option_case, add32,
  sub32,
}
use dkms_rpi_codec.Vchiq.Message.{
  openack, message, type_of_code, make_msg, msg_type, msg_srcport, msg_dstport, calc_stride,
}
use dkms_rpi_codec.Vchiq.State.{
  Status, State, connected, pausing, pause_sent, resuming, Header, RemoteEvent, opening, opensync,
  in_state, slot_offset,
}
use dkms_rpi_codec.Vchiq.Bulk.{is_retry}
use dkms_rpi_codec.Vchiq.Service.{find_service_by_port, unlock_service}
use dkms_rpi_codec.Vchiq.Release.{release_slot, release_message_sync}
use dkms_rpi_codec.Vchiq.FreeQueue.{process_free_queue}
use dkms_rpi_codec.Vchiq.Transmit.{Flags, queue_message}
use dkms_rpi_codec.Vchiq.Transfer.{memcpy_copy_callback}
use dkms_rpi_codec.Vchiq.Open.{answered, on_service, short_at}
use dkms_rpi_codec.Vchiq.Power.{platform_check_suspend}
use dkms_rpi_codec.Vchiq.Connect.{set_conn_state}
use dkms_rpi_codec.Vchiq.Close.{Inputs, keeps_mutex}
use dkms_rpi_codec.Vchiq.PollServices.{poll_services}
use dkms_rpi_codec.Vchiq.Receive.{
  open_rx_slot, needs_service, find_target, receive_for, receive_other,
}

-- `remote_event_wait`, and whether it saw the event: a thread that waits is woken by the event, or
-- interrupted.
unfoldable pub remote_event_wait : RemoteEvent → Bool → Bool × RemoteEvent
remote_event_wait e interrupted =
    if e.fired
    then (true, record e { fired = false })
    else if interrupted
    then (false, record e { armed = false })
    else (true, record { armed = false; fired = false })

-- What a message does: it is dealt with, or skipped; or the handler must come back to it. The
-- reference to its service is dropped either way.
unfoldable pub dispatch : State → ℕ → ℕ → Header → ℕ → Inputs → Bool × State
unfolding find_target receive_for receive_other
dispatch s slot pos h version i =
    let type = msg_type h.msgid in
    let (found, s') = find_target s type (msg_dstport h.msgid) (msg_srcport h.msgid) in
    if needs_service type
    then option_case found (true, s')
        (λ port.
          let (done, s'') = receive_for s' port slot pos h i in (done, (unlock_service s'' port).0))
    else receive_other s version h i

abbrev pub count_ctrl_rx : State → ℕ → State
count_ctrl_rx s type =
    if type == 5
    then s
    else record s { stats = record s.stats { ctrl_rx_count = add32 s.stats.ctrl_rx_count 1 } }

-- The end of a round: at the end of a slot the use that the handler held is given up.
unfoldable pub advance : State → ℕ → ℕ → State
advance s slot size =
    let s' = record s { rx_pos = add32 s.rx_pos (calc_stride size) } in
    if slot_offset s'.rx_pos == 0
    then record (release_slot s' slot none none) { rx_data = none }
    else s'

-- One round of the loop.
unfoldable pub parse_message : State → ℕ → Inputs → Bool × State
unfolding open_rx_slot dispatch advance
parse_message s version i =
    let (slot, s') = open_rx_slot s in
    let pos = slot_offset s.rx_pos in
    let h = s'.slots slot pos in
    let (done, s'') = dispatch (count_ctrl_rx s' (msg_type h.msgid)) slot pos h version i in
    (done, if done then advance s'' slot h.size else s'')

-- The loop up to the position that the other side had written to, on fuel; the Boolean says whether
-- all was read. Each message has its own inputs.
unfoldable pub parse_loop : ℕ → ℕ → State → ℕ → (ℕ → Inputs) → Bool × State
unfolding parse_message
parse_loop zero tx_pos s version inputs = (s.rx_pos == tx_pos, s)
parse_loop (suc fuel) tx_pos s version inputs =
    let (done, s') = parse_message s version (inputs fuel) in
    let rest = parse_loop fuel tx_pos s' version inputs in
    if s.rx_pos == tx_pos then (true, s) else if done then rest else (false, s')

-- `parse_rx_slots`: a message takes at least eight bytes.
unfoldable pub parse_rx_slots : State → ℕ → (ℕ → Inputs) → Bool × State
unfolding parse_loop
parse_rx_slots s version inputs =
    parse_loop (sub32 s.remote.tx_pos s.rx_pos / 8) s.remote.tx_pos s version inputs

abbrev pub without_lock : Flags
without_lock = record { is_blocking = false; no_mutex_lock = true; no_mutex_unlock = false }

abbrev pub send_ctrl : State → ℕ → Flags → Bool → Status × State
send_ctrl s type flags locked =
    answered (queue_message s none (make_msg type 0 0) (memcpy_copy_callback []) 0 flags locked [])

-- The slot handler's work outside the message stream, by the state of the connection.
unfoldable pub handle_poll : State → Bool → (ℕ → Inputs) → State
unfolding set_conn_state poll_services
handle_poll s locked inputs =
    let (paused, s₁) = send_ctrl s 10 keeps_mutex locked in
    let (sent, s₂) = send_ctrl s 11 without_lock locked in
    elim s.conn_state [
      | connected ↦ poll_services s inputs
      | pausing ↦
          if is_retry paused then record s₁ { poll_needed = true } else set_conn_state s₁ pause_sent
      | resuming ↦ if is_retry sent then s₂ else set_conn_state s₂ connected
      | _ ↦ s
    ]

-- A round of `slot_handler_func` from the end of its wait: first what was asked for by a poll, then
-- the messages.
unfoldable pub slot_handler_round :
    State → Bool → Bool → ℕ → (ℕ → Inputs) → (ℕ → Inputs) → Bool × State
unfolding remote_event_wait handle_poll parse_rx_slots platform_check_suspend
slot_handler_round s interrupted locked version polls inputs =
    let woken = record s {
      here = record s.here { trigger = (remote_event_wait s.here.trigger interrupted).1 };
    } in
    let polled =
      if woken.poll_needed
      then handle_poll (record (platform_check_suspend woken) { poll_needed = false }) locked polls
      else woken in
    parse_rx_slots polled version inputs

-- A round of `recycle_func`.
unfoldable pub recycle_round : State → Bool → State
unfolding remote_event_wait
recycle_round s interrupted = process_free_queue (record s {
  here = record s.here { recycle = (remote_event_wait s.here.recycle interrupted).1 };
})

-- The acknowledgement of a synchronous service.
unfoldable pub sync_openack : State → ℕ → Header → State
sync_openack s port h = on_service s port λ svc.
    let v = if leb 2 h.size then record svc { peer_version = short_at h.bytes 0 } else svc in
    if in_state v.srvstate opening
    then record v {
      remoteport = msg_srcport h.msgid;
      srvstate = opensync;
      sync = true;
      remove_event = v.remove_event + 1;
    }
    else v

-- A round of `sync_func` from the end of its wait. A data message is given to the callback, and its
-- slot is released by the client.
unfoldable pub sync_round : State → Bool → State
unfolding remote_event_wait sync_openack find_service_by_port
sync_round s interrupted =
    let woken = record s {
      here = record s.here { sync_trigger = (remote_event_wait s.here.sync_trigger interrupted).1 };
    } in
    let slot = s.remote.slot_sync in
    let h = s.slots slot 0 in
    let (found, s') = find_service_by_port woken (msg_dstport h.msgid) in
    option_case found (release_message_sync s' slot 0) λ port.
      let done : State = elim (type_of_code (msg_type h.msgid)) [
        | openack ↦ release_message_sync (sync_openack s' port h) slot 0
        | message ↦ s'
        | _ ↦ release_message_sync s' slot 0
      ] in
      (unlock_service done port).0
