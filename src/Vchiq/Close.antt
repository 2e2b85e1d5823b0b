-- ===== src/Vchiq/Close.antt =====
-- Closing a service: the machine of `vchiq_close_service_internal` and its end in
-- `close_service_complete` (interface/vchiq_arm/vchiq_core.c).
pub mod Uses
pub mod Complete
mod Tests
use dkms_rpi_codec.Base.{
  ℕ, zero, suc, ◌+◌, Bool, true, false, not, ◌&&◌, some, [], ◌==◌, if◌then◌else◌, option_case,
  nonneg32,
}
use dkms_rpi_codec.Vchiq.Message.{make_msg, msg_dstport}
use dkms_rpi_codec.Vchiq.State.{
  State, Service, SrvState, free, hidden, listening, opening, open_, opensync, closesent,
  closerecvd, closewait, closed, Status, success, error, retry, transmit, receive, in_state,
  port_free, fourcc_invalid,
}
use dkms_rpi_codec.Vchiq.Bulk.{is_retry, callback_status, abort_outstanding_bulks}
use dkms_rpi_codec.Vchiq.Service.{set_service_state, mark_service_closing, free_service_internal}
use dkms_rpi_codec.Vchiq.Release.{release_service_messages}
use dkms_rpi_codec.Vchiq.Transmit.{Flags, queue_message}
use dkms_rpi_codec.Vchiq.Transfer.{memcpy_copy_callback}
use dkms_rpi_codec.Vchiq.Open.{answered, no_flags, on_service}
use dkms_rpi_codec.Vchiq.Poll.{request_poll, poll_remove, notify_service}
use dkms_rpi_codec.Vchiq.Power.{release_internal}

-- What closing a service asks of its surroundings: whether the two killable locks are got, and what
-- the callback answers to each finished transfer and to the close.
pub record Inputs : Type 0 where
  pub bulk_locked : Bool
  pub slot_locked : Bool
  pub tx_answer : ℕ → Status
  pub rx_answer : ℕ → Status
  pub answer : Status

abbrev pub is_server : Service → Bool
is_server svc = not (svc.public_fourcc == fourcc_invalid)

abbrev pub abort_both : Service → Service
abort_both svc = record svc {
  bulk_tx = (abort_outstanding_bulks transmit svc.bulk_tx).0;
  bulk_rx = (abort_outstanding_bulks receive svc.bulk_rx).0;
}

-- `do_abort_bulks`
unfoldable pub do_abort_bulks : State → ℕ → Inputs → Bool × State
unfolding notify_service
do_abort_bulks s port i =
    let s' = on_service s port abort_both in
    let (st, s'') = notify_service transmit false i.tx_answer s' port in
    let (st', s''') = notify_service receive false i.rx_answer s'' port in
    if not i.bulk_locked
    then (false, s)
    else elim st [ success ↦ (elim st' [ success ↦ true | _ ↦ false ], s''') | _ ↦ (false, s'') ]

-- The state that a closed service goes to, with the fields that are reset on the way: by whether it
-- is a server, and closes by itself.
unfoldable pub retire_as : Bool → Bool → Service → Service
retire_as true true svc = record svc { client_id = 0; remoteport = port_free; srvstate = listening }
retire_as true false svc = record svc { srvstate = closewait }
retire_as false auto_close svc = record svc { srvstate = closed }

unfoldable pub retire : Service → Service
unfolding retire_as
retire svc = retire_as (is_server svc) svc.auto_close svc

-- The uses that a client has not given back.
unfoldable pub release_uses : ℕ → State → ℕ → State
unfolding release_internal
release_uses zero s port = s
release_uses (suc left) s port = release_uses left (release_internal s (some port)).1 port

-- The rounds of that loop: its bound is an `int`.
abbrev pub uses_left : Service → ℕ
uses_left svc = if nonneg32 svc.service_use_count then svc.service_use_count else 0

abbrev pub srvstate_at : State → ℕ → SrvState
srvstate_at s port = option_case (s.services port) free (λ svc. svc.srvstate)

-- The last branches of `close_service_complete`, by the state that the service is in.
abbrev pub settle : State → ℕ → Bool → State
settle s port server =
    if in_state (srvstate_at s port) closed
    then free_service_internal s port
    else if in_state (srvstate_at s port) closewait
    then s
    else on_service s port (λ svc. record svc {
      closing = if server then false else svc.closing;
      remove_event = svc.remove_event + 1;
    })

-- `close_service_complete` from its callback on.
unfoldable pub tell_closed : State → ℕ → Service → SrvState → Status → Status × State
unfolding release_uses callback_status
tell_closed s port svc failstate answer =
    if is_retry (callback_status answer)
    then (retry, set_service_state s port failstate)
    else (let s' = release_uses (uses_left svc) s port in
        let s'' = on_service s' port (λ v. record v { client_id = 0; remoteport = port_free }) in
        (success, settle s'' port (is_server svc)))

unfoldable pub close_service_complete : State → ℕ → SrvState → Status → Status × State
unfolding retire tell_closed
close_service_complete s port failstate answer =
    option_case (s.services port) (error, s)
      λ svc.
        let retired = tell_closed (on_service s port retire) port svc failstate answer in
        elim svc.srvstate [
          | open_ ↦ retired
          | closesent ↦ retired
          | closerecvd ↦ retired
          | listening ↦ tell_closed s port svc failstate answer
          | _ ↦ (error, s)
        ]

abbrev pub keeps_mutex : Flags
keeps_mutex = record { is_blocking = false; no_mutex_lock = false; no_mutex_unlock = true }

-- The CLOSE message of a service.
abbrev pub send_close : State → ℕ → Service → Flags → Bool → Status × State
send_close s port svc flags locked = answered (
    queue_message s (some port) (make_msg 4 svc.localport (msg_dstport svc.remoteport))
      (memcpy_copy_callback []) 0 flags locked [])

abbrev pub unlock_both : State → Service → State
unlock_both s svc = record s {
  slot_mutex = false;
  sync_mutex = if svc.sync then false else s.sync_mutex;
}

-- The branch of an open service from its message on; `s` holds the locks that its state asks for.
unfoldable pub close_open : State → ℕ → Service → Bool → Status → Inputs → Status × State
unfolding close_service_complete
close_open s port svc close_recvd st i =
    let unsent : Status × State = (st, s) in
    let sent : Status × State = elim st [
      | success ↦ send_close s port svc keeps_mutex i.slot_locked
      | _ ↦ unsent
    ] in
    let (st', s') = sent in
    let failed : Status × State =
      (st', if in_state svc.srvstate opensync then record s' { sync_mutex = false } else s') in
    elim st' [
      | success ↦
          if close_recvd
          then close_service_complete (unlock_both (set_service_state s' port closerecvd) svc) port
              closerecvd i.answer
          else (success, unlock_both (set_service_state s' port closesent) svc)
      | _ ↦ failed
    ]

-- The branch of a service that is not open yet, or no more.
unfoldable pub close_idle : State → ℕ → Service → Bool → Status × State
close_idle s port svc close_recvd =
    let reset = record svc {
      client_id = 0;
      remoteport = port_free;
      srvstate = if in_state svc.srvstate closewait then listening else svc.srvstate;
    } in
    let signalled = λ (v : Service). record v { remove_event = svc.remove_event + 1 } in
    if close_recvd
    then (success, s)
    else if is_server svc
    then (if in_state svc.srvstate listening
        then (error, on_service s port (λ v. signalled v))
        else (success, on_service s port (λ v. signalled reset)))
    else (success, free_service_internal s port)

-- `vchiq_close_service_internal`
unfoldable pub close_service_internal : State → ℕ → Bool → Inputs → Status × State
unfolding close_idle close_open do_abort_bulks
close_service_internal s port close_recvd i =
    option_case (s.services port) (success, s)
      λ svc.
        let idle = close_idle s port svc close_recvd in
        let abort = λ (s' : State). if close_recvd then do_abort_bulks s' port i else (true, s') in
        let from_open = λ (s' : State).
          close_open (release_service_messages (abort s').1 svc) port svc close_recvd
            (if (abort s').0 then success else retry) i in
        elim svc.srvstate [
          | closed ↦ idle
          | hidden ↦ idle
          | listening ↦ idle
          | closewait ↦ idle
          | opening ↦
              if close_recvd
              then (
                success,
                on_service s port
                    (λ v. record v { srvstate = closewait; remove_event = v.remove_event + 1 }),
              )
              else send_close s port svc no_flags i.slot_locked
          | opensync ↦ from_open (record s { sync_mutex = true })
          | open_ ↦ from_open s
          | closesent ↦
              if close_recvd
              then (if (abort s).0
                  then close_service_complete (abort s).1 port closerecvd i.answer
                  else (retry, (abort s).1))
              else (success, s)
          | closerecvd ↦
              close_service_complete
                (if not close_recvd && is_server svc then set_service_state s port listening else s)
                port closerecvd i.answer
          | free ↦ (success, s)
        ]

-- `vchiq_terminate_service_internal`
unfoldable pub terminate_service_internal : State → ℕ → State
terminate_service_internal s port =
    request_poll (mark_service_closing s port) (some port) poll_remove
