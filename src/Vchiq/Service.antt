-- ===== src/Vchiq/Service.antt =====
-- The table of services and the counts of their users (interface/vchiq_arm/vchiq_core.c). A
-- function that returns a `struct vchiq_service *` returns the port under which the table has it.
pub mod Table
pub mod Reference
pub mod Tests
use dkms_rpi_codec.Base.{
  option_case, ℕ, zero, suc, ◌+◌, ◌-◌, max, bit_and, Bool, true, false, not, ◌&&◌, ◌||◌, Option,
  none, some, leb, ◌==◌, if◌then◌else◌, add32, sub32,
}
use dkms_rpi_codec.Vchiq.State.{
  State, Service, ServiceStats, SrvState, free, listening, opening, open_, closed, hidden,
  closewait, Status, success, error, Quota, BulkQueue, Bulk, in_state, put_service, put_quota,
  port_free, port_max, max_services, fourcc_invalid, slot_queue_index, opensync,
}
use dkms_rpi_codec.Vchiq.Bulk.{init_bulk_queue}

abbrev pub with_ref : Service → ℕ → Service
with_ref svc n = record svc { ref_count = n }

-- `service->ref_count++`
abbrev pub take_ref : State → ℕ → Service → State
take_ref s port svc = put_service s port (some (with_ref svc (add32 svc.ref_count 1)))

-- The common end of the `find_` functions: a service that passes the test is taken.
abbrev pub take_if : State → ℕ → (Service → Bool) → Option ℕ × State
take_if s port test =
    option_case (s.services port) (none, s)
      (λ svc. if test svc then (some port, take_ref s port svc) else (none, s))

-- The index that `handle_to_service` looks at; there is one state.
abbrev pub port_of_handle : ℕ → ℕ
port_of_handle handle = bit_and handle (max_services - 1)

unfoldable pub find_service_by_handle : State → ℕ → Option ℕ × State
find_service_by_handle s handle =
    take_if s (port_of_handle handle)
      (λ svc. not (in_state svc.srvstate free) && (svc.handle == handle))

-- `localport` is an `int`, compared as an unsigned one.
unfoldable pub find_service_by_port : State → ℕ → Option ℕ × State
find_service_by_port s port =
    if leb port port_max
    then take_if s port (λ svc. not (in_state svc.srvstate free))
    else (none, s)

unfoldable pub find_service_for_instance : State → ℕ → ℕ → Option ℕ × State
find_service_for_instance s inst handle =
    take_if s (port_of_handle handle)
      (λ svc. not (in_state svc.srvstate free) && (svc.handle == handle) && (svc.inst == inst))

unfoldable pub find_closed_service_for_instance : State → ℕ → ℕ → Option ℕ × State
find_closed_service_for_instance s inst handle = take_if s (port_of_handle handle) (λ svc.
    (in_state svc.srvstate free || in_state svc.srvstate closed)
    && (svc.handle == handle)
    && (svc.inst == inst))

-- The loops over `state->services` on the rounds that are left, from index `i`.
unfoldable pub scan : (Service → Bool) → (ℕ → Option Service) → ℕ → ℕ → Option (ℕ × Service)
scan test services zero i = none
scan test services (suc left) i =
    let rest = scan test services left (i + 1) in
    option_case (services i) rest (λ svc. if test svc then some (i, svc) else rest)

-- The service, the index to go on from, and the state.
unfoldable pub next_service_by_instance : State → ℕ → ℕ → Option ℕ × ℕ × State
unfolding scan
next_service_by_instance s inst idx =
    option_case
      (scan (λ svc. not (in_state svc.srvstate free) && (svc.inst == inst)) s.services
        (s.unused_service - idx) idx)
      (none, max idx s.unused_service, s) (λ f. (some f.0, f.0 + 1, take_ref s f.0 f.1))

abbrev pub accepts_open : ℕ → Service → Bool
accepts_open fourcc svc =
    (svc.public_fourcc == fourcc)
    && (in_state svc.srvstate listening
        || in_state svc.srvstate open_ && (svc.remoteport == port_free))

unfoldable pub get_listening_service : State → ℕ → Option ℕ × State
unfolding scan
get_listening_service s fourcc =
    option_case (scan (accepts_open fourcc) s.services s.unused_service 0) (none, s)
      (λ f. (some f.0, take_ref s f.0 f.1))

unfoldable pub get_connected_service : State → ℕ → Option ℕ × State
unfolding scan
get_connected_service s port =
    option_case
      (scan (λ svc. in_state svc.srvstate open_ && (svc.remoteport == port)) s.services
        s.unused_service 0)
      (none, s) (λ f. (some f.0, take_ref s f.0 f.1))

-- `lock_service`
unfoldable pub lock_service : State → ℕ → State
lock_service s port = option_case (s.services port) s (λ svc. take_ref s port svc)

-- `unlock_service`, and whether the service was freed. One that has no users left is freed without
-- a change to the table.
unfoldable pub unlock_service : State → ℕ → State × Bool
unlock_service s port =
    option_case (s.services port) (s, false)
      λ svc.
        if svc.ref_count == 0
        then (s, true)
        else if sub32 svc.ref_count 1 == 0
        then (put_service s svc.localport none, true)
        else (put_service s port (some (with_ref svc (sub32 svc.ref_count 1))), false)

unfoldable pub set_service_state : State → ℕ → SrvState → State
set_service_state s port newstate =
    option_case (s.services port) s
      (λ svc. put_service s port (some (record svc { srvstate = newstate })))

-- `mark_service_closing_internal`: the locks that it takes and drops only wait for other threads.
unfoldable pub mark_service_closing : State → ℕ → State
mark_service_closing s port = option_case (s.services port) s λ svc.
    let q = s.service_quotas svc.localport in
    put_quota (put_service s port (some (record svc { closing = true }))) svc.localport
      (record q { quota_event = q.quota_event + 1 })

-- The states in which `vchiq_free_service_internal` frees.
abbrev pub may_free : SrvState → Bool
may_free st =
    in_state st opening
    || in_state st closed
    || in_state st hidden
    || in_state st listening
    || in_state st closewait

unfoldable pub free_service_internal : State → ℕ → State
free_service_internal s port = option_case (s.services port) s λ svc.
    if may_free svc.srvstate
    then (unlock_service
        (put_service s port
          (some (record svc { srvstate = free; remove_event = svc.remove_event + 1 })))
        port).0
    else s
