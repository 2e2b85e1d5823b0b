-- ===== src/Vchiq/PollServices.antt =====
-- The slot handler's round over the services that asked for it: `poll_services`
-- (interface/vchiq_arm/vchiq_core.c).
use dkms_rpi_codec.Base.{
  ℕ, zero, suc, ◌+◌, ◌*◌, ◌/◌, true, false, some, if◌then◌else◌, option_case, update,
}
use dkms_rpi_codec.Vchiq.State.{State, success, transmit, receive, fourcc_invalid}
use dkms_rpi_codec.Vchiq.Service.{find_service_by_port, unlock_service}
use dkms_rpi_codec.Vchiq.Open.{on_service}
use dkms_rpi_codec.Vchiq.Poll.{
  has_bit, request_poll, notify_service, poll_remove, poll_terminate, poll_txnotify, poll_rxnotify,
}
use dkms_rpi_codec.Vchiq.Close.{Inputs, close_service_internal}

-- The close of a service that asked for one is asked for again unless it succeeds.
unfoldable pub close_or_retry : State → ℕ → ℕ → Inputs → State
unfolding close_service_internal request_poll
close_or_retry s port poll_type i =
    let (st, s') = close_service_internal s port false i in
    let again = request_poll s' (some port) poll_type in elim st [ success ↦ s' | _ ↦ again ]

-- The removals: a service that is to be removed is made to look like a client.
unfoldable pub poll_close : State → ℕ → ℕ → Inputs → State
unfolding close_or_retry
poll_close s port flags i =
    if has_bit flags poll_remove
    then close_or_retry (on_service s port (λ svc. record svc { public_fourcc = fourcc_invalid }))
        port poll_remove i
    else if has_bit flags poll_terminate
    then close_or_retry s port poll_terminate i
    else s

-- One service, with the reference that was taken to it.
unfoldable pub poll_service : State → ℕ → Inputs → State
unfolding poll_close notify_service
poll_service s port i =
    let flags = option_case (s.services port) 0 (λ svc. svc.poll_flags) in
    let taken = on_service s port (λ svc. record svc { poll_flags = 0 }) in
    let s₁ = poll_close taken port flags i in
    let s₂ =
      if has_bit flags poll_txnotify
      then (notify_service transmit true i.tx_answer s₁ port).1
      else s₁ in
    let s₃ =
      if has_bit flags poll_rxnotify
      then (notify_service receive true i.rx_answer s₂ port).1
      else s₂ in
    (unlock_service s₃ port).0

-- The loop over the 32 flags of a group; `left` are to come, from bit `i` on.
unfoldable pub poll_bits : ℕ → State → ℕ → ℕ → ℕ → (ℕ → Inputs) → State
unfolding poll_service
poll_bits zero s group flags i inputs = s
poll_bits (suc left) s group flags i inputs =
    let port = group * 32 + i in
    let (found, s') = find_service_by_port s port in
    let polled = option_case found s' (λ p. poll_service s' p (inputs p)) in
    poll_bits left (if has_bit flags i then polled else s) group flags (i + 1) inputs

-- The loop over the groups; `left` are to come.
unfoldable pub poll_groups : ℕ → State → ℕ → (ℕ → Inputs) → State
unfolding poll_bits
poll_groups zero s group inputs = s
poll_groups (suc left) s group inputs =
    let flags = s.poll_services group in
    let taken = record s { poll_services = update s.poll_services group 0 } in
    poll_groups left (poll_bits 32 taken group flags 0 inputs) (group + 1) inputs

-- `poll_services`: BITSET_SIZE(unused_service) groups.
unfoldable pub poll_services : State → (ℕ → Inputs) → State
unfolding poll_groups
poll_services s inputs = poll_groups ((s.unused_service + 31) / 32) s 0 inputs
