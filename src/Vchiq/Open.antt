-- ===== src/Vchiq/Open.antt =====
-- Taking an OPEN message of the other side: `parse_open` (interface/vchiq_arm/vchiq_core.c). The
-- messages that it sends do not wait.
pub mod Answer
pub mod Refused
mod Tests
use dkms_rpi_codec.Base.{
  ℕ, ◌+◌, ◌*◌, ◌/◌, ◌%◌, ◌^◌, Bool, true, false, not, ◌||◌, none, some, List, [], ◌∷◌, ltb,
  if◌then◌else◌, option_case, get_elem?,
}
use dkms_rpi_codec.Vchiq.Message.{make_msg, msg_srcport}
use dkms_rpi_codec.Vchiq.State.{
  State, Status, success, error, retry, Service, Header, listening, open_, opensync, in_state,
  put_service, port_free,
}
use dkms_rpi_codec.Vchiq.Service.{get_listening_service, unlock_service, set_service_state}
use dkms_rpi_codec.Vchiq.Transmit.{
  Flags, Sent, returns, waits_on, queue_message, queue_message_sync,
}
use dkms_rpi_codec.Vchiq.Bulk.{is_retry, callback_status}
use dkms_rpi_codec.Vchiq.Transfer.{memcpy_copy_callback}

-- `a < b` for two `short`s, as the bit patterns that they are kept in.
abbrev pub short_lt : ℕ → ℕ → Bool
short_lt a b = ltb ((a + 2 ^ 15) % 2 ^ 16) ((b + 2 ^ 15) % 2 ^ 16)

abbrev pub byte_at : List ℕ → ℕ → ℕ
byte_at bytes i = option_case (get_elem? bytes i) 0 (λ b. b)

abbrev pub short_at : List ℕ → ℕ → ℕ
short_at bytes i = byte_at bytes i + byte_at bytes (i + 1) * 256

abbrev pub int_at : List ℕ → ℕ → ℕ
int_at bytes i = short_at bytes i + short_at bytes (i + 2) * 65536

-- struct vchiq_open_payload
pub record OpenPayload : Type 0 where
  pub fourcc : ℕ
  pub client_id : ℕ
  pub version : ℕ
  pub version_min : ℕ

abbrev pub open_payload : List ℕ → OpenPayload
open_payload bytes = record {
  fourcc = int_at bytes 0;
  client_id = int_at bytes 4;
  version = short_at bytes 8;
  version_min = short_at bytes 10;
}

abbrev pub no_flags : Flags
no_flags = record { is_blocking = false; no_mutex_lock = false; no_mutex_unlock = false }

-- Only a data message waits for other threads, so the second case does not occur.
abbrev pub answered : Sent → Status × State
answered (returns st s) = (st, s)
answered (waits_on s) = (retry, s)

-- The end at `fail_open`; the result says whether the message was dealt with.
unfoldable pub refuse_open : State → ℕ → Bool → Bool × State
refuse_open s srcport locked =
    let (st, s') = answered (
      queue_message s none (make_msg 4 0 srcport) (memcpy_copy_callback []) 0 no_flags locked []) in
    (not (is_retry st), s')

abbrev pub on_service : State → ℕ → (Service → Service) → State
on_service s port f = option_case (s.services port) s (λ svc. put_service s port (some (f svc)))

-- From the note of the other side's port on; `answer` is what the callback returns.
unfoldable pub after_ack : State → ℕ → ℕ → ℕ → Status → Bool × State
unfolding callback_status
after_ack s port remoteport client_id answer =
    let s' =
      on_service s port (λ svc. record svc { remoteport = remoteport; client_id = client_id }) in
    if is_retry (callback_status answer)
    then (
      false,
      (unlock_service (on_service s' port (λ svc. record svc { remoteport = port_free })) port).0,
    )
    else (true, (unlock_service s' port).0)

-- The acknowledgement of a service that listens; a synchronous one is sent where both sides can.
unfoldable pub acknowledge : State → ℕ → Service → ℕ → Bool → Status × State
acknowledge s port svc remoteport locked =
    let sync = if short_lt s.version_common 8 then false else svc.sync in
    let s' = on_service s port (λ v. record v { sync = sync }) in
    let msgid = make_msg 3 svc.localport remoteport in
    let payload = memcpy_copy_callback (svc.version % 256 ∷ svc.version / 256 ∷ []) in
    let (st, s'') =
      if sync
      then queue_message_sync s' none msgid payload 2 locked
      else answered (queue_message s' none msgid payload 2 no_flags locked []) in
    (st, if is_retry st then s'' else set_service_state s'' port (if sync then opensync else open_))

-- A matching service, with the reference that was taken to it.
unfoldable pub accept_open : State → ℕ → Service → OpenPayload → ℕ → Bool → Status → Bool × State
unfolding acknowledge after_ack refuse_open
accept_open s port svc p remoteport locked answer =
    if short_lt svc.version p.version_min || short_lt p.version svc.version_min
    then refuse_open (unlock_service s port).0 remoteport locked
    else (let s' = on_service s port (λ v. record v { peer_version = p.version }) in
        if in_state svc.srvstate listening
        then (let (st, s'') = acknowledge s' port svc remoteport locked in
            if is_retry st
            then (false, (unlock_service s'' port).0)
            else after_ack s'' port remoteport p.client_id answer)
        else after_ack s' port remoteport p.client_id answer)

-- `parse_open`
unfoldable pub parse_open : State → Header → Bool → Status → Bool × State
unfolding accept_open
parse_open s h locked answer =
    let remoteport = msg_srcport h.msgid in
    let p = open_payload h.bytes in
    let refused = refuse_open s remoteport locked in
    if ltb h.size 12
    then refused
    else (let (found, s') = get_listening_service s p.fourcc in
        option_case found refused λ port.
          option_case (s'.services port) refused
            (λ svc. accept_open s' port svc p remoteport locked answer))
