-- ===== src/Vchiq/Shutdown.antt =====
-- Closing from a client's thread: `vchiq_close_service`, `vchiq_remove_service` and
-- `vchiq_shutdown_internal` (interface/vchiq_arm/vchiq_core.c). A thread waits for the service's
-- `remove_event`; each wait's end is given, with the state in which it ends.
use dkms_rpi_codec.Base.{
  ℕ, zero, suc, Bool, false, ◌||◌, some, List, [], ◌∷◌, if◌then◌else◌, option_case,
}
use dkms_rpi_codec.Vchiq.State.{
  max_services, State, SrvState, free, listening, hidden, open_, Status, success, error, retry,
  in_state, fourcc_invalid,
}
use dkms_rpi_codec.Vchiq.Service.{
  find_service_by_handle, unlock_service, mark_service_closing, next_service_by_instance,
}
use dkms_rpi_codec.Vchiq.Reserve.{Wait, interrupted, resumed}
use dkms_rpi_codec.Vchiq.Transmit.{Sent, returns, waits_on}
use dkms_rpi_codec.Vchiq.Open.{on_service}
use dkms_rpi_codec.Vchiq.Poll.{request_poll, poll_remove, poll_terminate}
use dkms_rpi_codec.Vchiq.Close.{Inputs, srvstate_at, close_service_internal}

abbrev pub drop_service : State → ℕ → State
drop_service s port = (unlock_service s port).0

-- The loop on `remove_event`, and what follows it: `ends` are the states that end the loop, `gone`
-- those in which the service is closed as asked.
unfoldable pub await_removal :
    (SrvState → Bool) → (SrvState → Bool) → ℕ → Status → State → List Wait → Sent
await_removal ends gone port st s [] = waits_on s
await_removal ends gone port st s (interrupted s' ∷ waits) = returns retry (drop_service s' port)
await_removal ends gone port st s (resumed s' ∷ waits) =
    let rest = await_removal ends gone port st s' waits in
    let now = srvstate_at s' port in
    let judged : Status = elim st [
      | success ↦ if gone now then success else error
      | error ↦ error
      | retry ↦ retry
    ] in
    if ends now then returns judged (drop_service s' port) else rest

abbrev pub close_ends : SrvState → Bool
close_ends st = in_state st free || in_state st listening || in_state st open_

abbrev pub close_gone : SrvState → Bool
close_gone st = in_state st free || in_state st listening

abbrev pub remove_ends : SrvState → Bool
remove_ends st = in_state st free || in_state st open_

abbrev pub remove_gone : SrvState → Bool
remove_gone st = in_state st free

-- The close on the slot handler's own thread, or its request to that thread.
unfoldable pub close_or_request : Bool → State → ℕ → ℕ → Inputs → Status × State
unfolding close_service_internal request_poll
close_or_request now s port poll_type i =
    if now
    then close_service_internal s port false i
    else (success, request_poll s (some port) poll_type)

-- `vchiq_close_service`; `handler` says whether the thread is the slot handler.
unfoldable pub close_service : State → ℕ → Bool → Inputs → List Wait → Sent
unfolding close_or_request await_removal
close_service s handle handler i waits =
    let (found, s') = find_service_by_handle s handle in
    option_case found (returns error s') λ port.
      let st = srvstate_at s' port in
      let (status, s'') =
        close_or_request handler (mark_service_closing s' port) port poll_terminate i in
      if in_state st free || in_state st listening || in_state st hidden
      then returns error (drop_service s' port)
      else await_removal close_ends close_gone port status s'' waits

-- `vchiq_remove_service`
unfoldable pub remove_service : State → ℕ → Bool → Inputs → List Wait → Sent
unfolding close_or_request await_removal
remove_service s handle handler i waits =
    let (found, s') = find_service_by_handle s handle in
    option_case found (returns error s') λ port.
      let st = srvstate_at s' port in
      let marked = mark_service_closing s' port in
      let now = in_state st hidden || handler in
      let ready =
        if now
        then on_service marked port (λ svc. record svc { public_fourcc = fourcc_invalid })
        else marked in
      let (status, s'') = close_or_request now ready port poll_remove i in
      if in_state st free
      then returns error (drop_service s' port)
      else await_removal remove_ends remove_gone port status s'' waits

-- `vchiq_shutdown_internal`, whose result is always VCHIQ_SUCCESS: `left` bounds the rounds of the
-- loop over the instance's services from index `idx` on, which grows in each round; the table has at
-- most VCHIQ_MAX_SERVICES.
unfoldable pub shutdown_loop : ℕ → State → ℕ → ℕ → Bool → (ℕ → Inputs) → (ℕ → List Wait) → Sent
unfolding remove_service next_service_by_instance
shutdown_loop zero s inst idx handler inputs waits = returns success s
shutdown_loop (suc left) s inst idx handler inputs waits =
    let (found, idx', s') = next_service_by_instance s inst idx in
    let rest = λ (t : State). shutdown_loop left t inst idx' handler inputs waits in
    option_case found (returns success s') λ port.
      let handle = option_case (s'.services port) 0 (λ svc. svc.handle) in
      elim (remove_service s' handle handler (inputs port) (waits port)) [
        | returns st s'' ↦ rest (drop_service s'' port)
        | waits_on s'' ↦ waits_on s''
      ]

unfoldable pub shutdown_internal : State → ℕ → Bool → (ℕ → Inputs) → (ℕ → List Wait) → Sent
unfolding shutdown_loop
shutdown_internal s inst handler inputs waits =
    shutdown_loop (suc max_services) s inst 0 handler inputs waits
