-- ===== src/Vchiq/Poll.antt =====
-- Requests for the slot handler: `request_poll`, and the end of `notify_bulks` that makes one
-- (interface/vchiq_arm/vchiq_core.c).
use dkms_rpi_codec.Base.{
  ℕ, ◌/◌, ◌%◌, ◌^◌, bit_or, Bool, true, false, Option, some, ◌==◌, if◌then◌else◌, option_case,
  update,
}
use dkms_rpi_codec.Vchiq.State.{
  error, State, RemoteEvent, Status, BulkDir, transmit, receive, put_service,
}
use dkms_rpi_codec.Vchiq.Bulk.{is_retry, notify_bulks}

-- VCHIQ_POLL_
abbrev pub poll_terminate : ℕ
poll_terminate = 0

abbrev pub poll_remove : ℕ
poll_remove = 1

abbrev pub poll_txnotify : ℕ
poll_txnotify = 2

abbrev pub poll_rxnotify : ℕ
poll_rxnotify = 3

-- `flags & (1 << i)`
abbrev pub has_bit : ℕ → ℕ → Bool
has_bit flags i = flags / 2 ^ i % 2 == 1

-- `flags | (1 << i)`
abbrev pub with_bit : ℕ → ℕ → ℕ
with_bit flags i = bit_or flags (2 ^ i)

-- `remote_event_signal_local`
abbrev pub signal_local : RemoteEvent → RemoteEvent
signal_local e = record e { fired = true; armed = false }

-- The marks of `request_poll`, on a service and on its group of 32.
abbrev pub mark_poll : State → ℕ → ℕ → State
mark_poll s port poll_type = option_case (s.services port) s λ svc.
    let s' =
      put_service s port (some (record svc { poll_flags = with_bit svc.poll_flags poll_type })) in
    let group = svc.localport / 32 in
    record s' {
      poll_services =
          update s.poll_services group (with_bit (s.poll_services group) (svc.localport % 32));
    }

unfoldable pub request_poll : State → Option ℕ → ℕ → State
request_poll s service poll_type =
    let s' = option_case service s (λ port. mark_poll s port poll_type) in
    record s' { poll_needed = true; here = record s.here { trigger = signal_local s.here.trigger } }

abbrev pub notify_flag : BulkDir → ℕ
notify_flag transmit = poll_txnotify
notify_flag receive = poll_rxnotify

-- The whole of `notify_bulks` on a service of the table: one that must be tried again asks for a
-- poll.
unfoldable pub notify_service : BulkDir → Bool → (ℕ → Status) → State → ℕ → Status × State
unfolding request_poll
notify_service dir retry_poll answer s port =
    option_case (s.services port) (error, s)
      λ svc.
        let (svc', notices, st) = notify_bulks dir retry_poll answer svc in
        let s' = put_service s port (some svc') in
        (st, if is_retry st then request_poll s' (some port) (notify_flag dir) else s')
