-- ===== src/Vchiq/Connect.antt =====
-- Connecting an instance, and opening a service from a client's thread: `vchiq_set_conn_state`,
-- `vchiq_connect_internal` and `vchiq_open_service_internal` (interface/vchiq_arm/vchiq_core.c).
use dkms_rpi_codec.Base.{
  ℕ, zero, suc, ◌+◌, ◌/◌, ◌%◌, Bool, true, ◌||◌, none, some, List, [], ◌∷◌, ◌++◌, if◌then◌else◌,
  option_case,
}
use dkms_rpi_codec.Vchiq.Message.{make_msg}
use dkms_rpi_codec.Vchiq.State.{
  State, Service, ConnState, disconnected, connecting, connected, hidden, listening, open_,
  opensync, success, error, retry, in_state, max_services,
}
use dkms_rpi_codec.Vchiq.Service.{next_service_by_instance, unlock_service}
use dkms_rpi_codec.Vchiq.Reserve.{Wait, interrupted, resumed}
use dkms_rpi_codec.Vchiq.Transmit.{Sent, returns, waits_on, queue_message, count_service_error}
use dkms_rpi_codec.Vchiq.Transfer.{memcpy_copy_callback}
use dkms_rpi_codec.Vchiq.Client.{blocking_only}
use dkms_rpi_codec.Vchiq.Open.{on_service}
use dkms_rpi_codec.Vchiq.Power.{with_arm, use_type_service, release_internal}
use dkms_rpi_codec.Vchiq.Wake.{use_internal}
use dkms_rpi_codec.Vchiq.Close.{srvstate_at}

-- `vchiq_set_conn_state`, with what `vchiq_platform_conn_state_changed` notes: the first connection
-- also starts the keep-alive thread.
unfoldable pub set_conn_state : State → ConnState → State
set_conn_state s newstate =
    let s' = record s { conn_state = newstate } in
    elim newstate [
      | connected ↦ with_arm s' (record s'.platform_state { first_connect = true })
      | _ ↦ s'
    ]

-- `hidden` services of the instance start to listen; `left` bounds the rounds from index `idx` on.
unfoldable pub enable_services : ℕ → State → ℕ → ℕ → State
unfolding next_service_by_instance
enable_services zero s inst idx = s
enable_services (suc left) s inst idx =
    let (found, idx', s') = next_service_by_instance s inst idx in
    let rest = λ (t : State). enable_services left t inst idx' in
    option_case found s' λ port. rest (
      (unlock_service
        (on_service s' port (λ svc. record svc {
          srvstate = if in_state svc.srvstate hidden then listening else svc.srvstate;
        }))
        port).0)

-- The wait for the other side's CONNECT, which hands the completion on to the next thread.
unfoldable pub await_connect : State → List Wait → Sent
unfolding set_conn_state
await_connect s [] = waits_on s
await_connect s (interrupted s' ∷ waits) = returns retry s'
await_connect s (resumed s' ∷ waits) =
    let s'' = set_conn_state s' connected in
    returns success (record s'' { connect = s''.connect + 1 })

-- `vchiq_connect_internal` from its first message on. The message's own waits for room come from
-- `sends`, the wait for the answer from `waits`.
unfoldable pub connect_internal : State → ℕ → Bool → List Wait → List Wait → Sent
unfolding enable_services await_connect
connect_internal s inst locked sends waits =
    let s' = enable_services (suc max_services) s inst 0 in
    let go_on = λ (t : State). await_connect (set_conn_state t connecting) waits in
    elim s'.conn_state [
      | disconnected ↦
          elim (queue_message s' none (make_msg 1 0 0) (memcpy_copy_callback []) 0 blocking_only
            locked sends) [
              | waits_on t ↦ waits_on t
              | returns st t ↦ elim st [ retry ↦ returns retry t | _ ↦ go_on t ]
            ]
      | connecting ↦ await_connect s' waits
      | _ ↦ returns success s'
    ]

abbrev pub word16 : ℕ → List ℕ
word16 n = n % 256 ∷ n / 256 % 256 ∷ []

abbrev pub word32 : ℕ → List ℕ
word32 n = word16 (n % 65536) ++ word16 (n / 65536)

-- struct vchiq_open_payload, as its bytes.
unfoldable pub open_bytes : Service → ℕ → List ℕ
open_bytes svc client_id =
    word32 svc.fourcc ++ word32 client_id ++ word16 svc.version ++ word16 svc.version_min

-- The wait for the other side's answer.
unfoldable pub await_answer : State → ℕ → List Wait → Sent
unfolding release_internal
await_answer s port [] = waits_on s
await_answer s port (interrupted s' ∷ waits) = returns retry (release_internal s' (some port)).1
await_answer s port (resumed s' ∷ waits) =
    if in_state (srvstate_at s' port) open_ || in_state (srvstate_at s' port) opensync
    then returns success s'
    else returns error
        (release_internal
          (on_service s' port (λ svc. record svc { stats = count_service_error svc.stats }))
          (some port)).1

-- `vchiq_open_service_internal`; its waits are for the VideoCore, for room and for the answer.
unfoldable pub open_service_internal :
    State → ℕ → ℕ → Bool → List Wait → List Wait → List Wait → Sent
unfolding open_bytes await_answer use_internal
open_service_internal s port client_id locked uses sends waits =
    let s₁ = on_service s port (λ svc. record svc { client_id = client_id }) in
    option_case (s.services port) (returns error s) λ svc.
      elim (use_internal s₁ use_type_service (some port) uses locked) [
        | waits_on s₂ ↦ waits_on s₂
        | returns used s₂ ↦
            elim (queue_message s₂ none (make_msg 2 svc.localport 0)
              (memcpy_copy_callback (open_bytes svc client_id)) 12 blocking_only locked sends) [
                | waits_on s₃ ↦ waits_on s₃
                | returns st s₃ ↦ elim st [
                  | success ↦ await_answer s₃ port waits
                  | error ↦ returns error s₃
                  | retry ↦ returns retry s₃
                ]
              ]
      ]
