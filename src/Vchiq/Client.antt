-- ===== src/Vchiq/Client.antt =====
-- Calls of a service's client: `vchiq_queue_message`, `vchiq_set_service_option`,
-- `vchiq_get_peer_version` and `vchiq_get_client_id` (interface/vchiq_arm/vchiq_core.c), with
-- `vchiq_check_service` (interface/vchiq_arm/vchiq_arm.c).
pub mod Options
pub mod Limits
pub mod Messages
mod Tests
use dkms_rpi_codec.Base.{
  ℕ, ◌+◌, ◌%◌, ◌^◌, Bool, true, false, not, ◌&&◌, ◌||◌, Option, none, some, List, ltb, leb, ◌==◌,
  if◌then◌else◌, option_case, nonneg32,
}
use dkms_rpi_codec.Vchiq.Message.{make_msg, max_msg_size}
use dkms_rpi_codec.Vchiq.State.{
  State, Status, success, error, retry, Service, Quota, SrvState, hidden, listening, open_,
  opensync, in_state, put_service, put_quota,
}
use dkms_rpi_codec.Vchiq.Service.{find_service_by_handle, unlock_service}
use dkms_rpi_codec.Vchiq.Copy.{Chunk}
use dkms_rpi_codec.Vchiq.Reserve.{Wait}
use dkms_rpi_codec.Vchiq.Transmit.{
  Flags, Sent, returns, waits_on, queue_message, queue_message_sync, on_stats, count_service_error,
}

-- `vchiq_check_service`
unfoldable pub check_service : Service → Status
check_service svc = if svc.service_use_count == 0 then error else success

-- A call's body on the service that a handle names; its reference is dropped at the end.
unfoldable pub with_service :
    {A : Type 0} → A → State → ℕ → (ℕ → Service → State → A × State) → A × State
with_service absent s handle body =
    let (found, s') = find_service_by_handle s handle in
    option_case found (absent, s')
      λ port.
        option_case (s'.services port) (absent, s')
          λ svc. let (result, s'') = body port svc s' in (result, (unlock_service s'' port).0)

-- VCHIQ_SERVICE_OPTION_T
pub data ServiceOption : Type 0 where
  autoclose slot_limit message_limit synchronous tracing : ServiceOption

-- A `char` that a value is stored in, as a truth value.
abbrev pub as_char : ℕ → Bool
as_char value = not (value % 2 ^ 8 == 0)

-- A quota that is asked for: a value of zero stands for the default.
abbrev pub or_default : ℕ → ℕ → ℕ
or_default value default = if value == 0 then default else value

-- The two tests on a new quota: of an `int` against a count and against the largest `unsigned short`.
abbrev pub is_limit : ℕ → ℕ → Bool
is_limit value used = nonneg32 value && leb used value && ltb value 0xffff

abbrev pub signal_if : Bool → Quota → Quota
signal_if b q = if b then record q { quota_event = q.quota_event + 1 } else q

unfoldable pub set_slot_quota : State → ℕ → ℕ → Status × State
set_slot_quota s port value =
    let q = s.service_quotas port in
    let v = or_default value s.default_slot_quota in
    if is_limit v q.slot_use_count
    then (
      success,
      put_quota s port
          (signal_if (leb q.message_use_count q.message_quota) (record q { slot_quota = v })),
    )
    else (error, s)

unfoldable pub set_message_quota : State → ℕ → ℕ → Status × State
set_message_quota s port value =
    let q = s.service_quotas port in
    let v = or_default value s.default_message_quota in
    if is_limit v q.message_use_count
    then (
      success,
      put_quota s port
          (signal_if (leb q.slot_use_count q.slot_quota) (record q { message_quota = v })),
    )
    else (error, s)

unfoldable pub set_option : ServiceOption → ℕ → ℕ → Service → State → Status × State
unfolding set_slot_quota set_message_quota
set_option autoclose value port svc s =
    (success, put_service s port (some (record svc { auto_close = as_char value })))
set_option slot_limit value port svc s = set_slot_quota s svc.localport value
set_option message_limit value port svc s = set_message_quota s svc.localport value
set_option synchronous value port svc s =
    if in_state svc.srvstate hidden || in_state svc.srvstate listening
    then (success, put_service s port (some (record svc { sync = as_char value })))
    else (error, s)
set_option tracing value port svc s =
    (success, put_service s port (some (record svc { trace = as_char value })))

-- `vchiq_set_service_option`
unfoldable pub set_service_option : State → ℕ → ServiceOption → ℕ → Status × State
unfolding with_service set_option
set_service_option s handle option value = with_service error s handle (set_option option value)

abbrev pub client_id_of : ℕ → Service → State → ℕ × State
client_id_of port svc s = (svc.client_id, s)

-- `vchiq_get_client_id`
unfoldable pub get_client_id : State → ℕ → ℕ × State
unfolding with_service
get_client_id s handle = with_service 0 s handle client_id_of

-- `vchiq_get_peer_version`, with a place for the version; the version is given on success.
unfoldable pub get_peer_version : State → ℕ → Option ℕ × State
unfolding with_service check_service
get_peer_version s handle = with_service none s handle λ port svc s'. elim (check_service svc) [
  | success ↦ (some svc.peer_version, s')
  | error ↦ (none, s')
  | retry ↦ (none, s')
]

-- QMFLAGS_IS_BLOCKING alone.
abbrev pub blocking_only : Flags
blocking_only = record { is_blocking = true; no_mutex_lock = false; no_mutex_unlock = false }

abbrev pub sent : Status × State → Sent
sent (st, s) = returns st s

-- The body of `vchiq_queue_message`. `locked` says whether the mutex of the message's kind was got.
unfoldable pub send_data : (ℕ → ℕ → Chunk) → ℕ → Bool → List Wait → ℕ → Service → State → Sent
unfolding check_service
send_data callback size locked waits port svc s =
    let msgid = make_msg 5 svc.localport svc.remoteport in
    let counted = on_stats s port count_service_error in
    elim (check_service svc) [
      | error ↦ returns error s
      | retry ↦ returns error s
      | success ↦
          if size == 0
          then returns error counted
          else if ltb max_msg_size size
          then returns error counted
          else if in_state svc.srvstate open_
          then queue_message s (some port) msgid callback size blocking_only locked waits
          else if in_state svc.srvstate opensync
          then sent (queue_message_sync s (some port) msgid callback size locked)
          else returns error s
    ]

abbrev pub dropping : ℕ → Sent → Sent
dropping port (returns st s) = returns st (unlock_service s port).0
dropping port (waits_on s) = waits_on s

-- `vchiq_queue_message`
unfoldable pub queue_data : State → ℕ → (ℕ → ℕ → Chunk) → ℕ → Bool → List Wait → Sent
unfolding send_data
queue_data s handle callback size locked waits =
    let (found, s') = find_service_by_handle s handle in
    option_case found (returns error s') λ port.
      option_case (s'.services port) (returns error s')
        λ svc. dropping port (send_data callback size locked waits port svc s')
