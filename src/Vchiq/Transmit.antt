-- ===== src/Vchiq/Transmit.antt =====
-- Sending a message: `queue_message` and `queue_message_sync` (interface/vchiq_arm/vchiq_core.c).
-- What other threads do while a sender waits is given by the states in which its waits end.
pub mod Frame
pub mod Quotas
pub mod Await
pub mod Charge
pub mod Failures
mod Tests
use dkms_rpi_codec.Base.{
  ℕ, ◌+◌, ◌%◌, ◌^◌, Bool, true, false, not, ◌&&◌, ◌||◌, Option, some, List, [], ◌∷◌, ltb, ◌==◌,
  if◌then◌else◌, option_case, add32, sub32, u16,
}
use dkms_rpi_codec.Vchiq.Message.{calc_stride, msg_type}
use dkms_rpi_codec.Vchiq.State.{
  State, Status, success, error, retry, Service, ServiceStats, open_, closesent, in_state, Header,
  Quota, put_service, put_quota, slot_queue_index,
}
use dkms_rpi_codec.Vchiq.Service.{set_service_state}
use dkms_rpi_codec.Vchiq.Reserve.{
  flush_to, pad_rest, start_pos, Wait, interrupted, resumed, signal, trigger_remote, write_header,
  Place, reserve_space,
}
use dkms_rpi_codec.Vchiq.Copy.{Chunk, Copied, copy_error, copied, copy_message_data}

-- QMFLAGS_
pub record Flags : Type 0 where
  pub is_blocking : Bool
  pub no_mutex_lock : Bool
  pub no_mutex_unlock : Bool

-- The index of the slot in which a message of a given stride ends.
abbrev pub tx_end_index : State → ℕ → ℕ
tx_end_index s stride = slot_queue_index (sub32 (add32 s.local_tx_pos stride) 1)

-- How a check of the quotas ends: it passes, with the waits that are left; the function returns; or
-- the thread still waits.
pub data Passage : Type 0 where
  pass : State → List Wait → Passage
  stop : Status → State → Passage
  blocked : State → Passage

abbrev pub unlocked : State → State
unlocked s = record s { slot_mutex = false }

abbrev pub relocked : State → State
relocked s = record s { slot_mutex = true }

-- The condition of the first loop of `queue_message`.
abbrev pub over_data_quota : State → ℕ → Bool
over_data_quota s stride =
    not (tx_end_index s stride == s.previous_data_index) && (s.data_use_count == s.data_quota)

abbrev pub count_data_stall : State → State
count_data_stall s = record s {
  stats = record s.stats { data_stalls = add32 s.stats.data_stalls 1 };
}

-- The first loop; its early exit passes the signal on to other waiters.
unfoldable pub await_data_quota : State → ℕ → List Wait → Passage
await_data_quota s stride [] =
    if over_data_quota s stride then blocked (unlocked (count_data_stall s)) else pass s []
await_data_quota s stride (interrupted s' ∷ waits) =
    if over_data_quota s stride then stop retry s' else pass s (interrupted s' ∷ waits)
await_data_quota s stride (resumed s' ∷ waits) =
    let again = await_data_quota (relocked s') stride waits in
    if over_data_quota s stride
    then if (tx_end_index s' stride == s'.previous_data_index)
        || ltb s'.data_use_count s'.data_quota
      then pass (record (relocked s') { data_quota_event = s'.data_quota_event + 1 }) waits
      else again
    else pass s (resumed s' ∷ waits)

-- The condition of the second loop.
abbrev pub over_service_quota : State → ℕ → Quota → Bool
over_service_quota s stride q =
    (q.message_use_count == q.message_quota)
    || not (tx_end_index s stride == q.previous_tx_index) && (q.slot_use_count == q.slot_quota)

abbrev pub on_stats : State → ℕ → (ServiceStats → ServiceStats) → State
on_stats s port f =
    option_case (s.services port) s
      (λ svc. put_service s port (some (record svc { stats = f svc.stats })))

abbrev pub count_quota_stall : ServiceStats → ServiceStats
count_quota_stall st = record st { quota_stalls = add32 st.quota_stalls 1 }

abbrev pub count_service_error : ServiceStats → ServiceStats
count_service_error st = record st { error_count = add32 st.error_count 1 }

abbrev pub is_closing : State → ℕ → Bool
is_closing s port = option_case (s.services port) true (λ svc. svc.closing)

abbrev pub is_open : State → ℕ → Bool
is_open s port = option_case (s.services port) false (λ svc. in_state svc.srvstate open_)

-- The second loop: a wait for the quota, then one for the mutex.
unfoldable pub await_service_quota : State → ℕ → ℕ → List Wait → Passage
await_service_quota s port stride [] =
    if over_service_quota s stride (s.service_quotas port)
    then blocked (unlocked (on_stats s port count_quota_stall))
    else pass s []
await_service_quota s port stride (interrupted s' ∷ waits) =
    if over_service_quota s stride (s.service_quotas port)
    then stop retry s'
    else pass s (interrupted s' ∷ waits)
await_service_quota s port stride (resumed s' ∷ []) =
    if over_service_quota s stride (s.service_quotas port)
    then if is_closing s' port then stop error s' else blocked s'
    else pass s (resumed s' ∷ [])
await_service_quota s port stride (resumed s' ∷ interrupted s'' ∷ waits) =
    if over_service_quota s stride (s.service_quotas port)
    then if is_closing s' port then stop error s' else stop retry s''
    else pass s (resumed s' ∷ interrupted s'' ∷ waits)
await_service_quota s port stride (resumed s' ∷ resumed s'' ∷ waits) =
    let again = await_service_quota (relocked s'') port stride waits in
    if over_service_quota s stride (s.service_quotas port)
    then if is_closing s' port
      then stop error s'
      else if is_open s'' port
      then again
      else stop error (unlocked s'')
    else pass s (resumed s' ∷ resumed s'' ∷ waits)

-- The two loops of `queue_message` for a data message.
unfoldable pub await_quotas : State → ℕ → ℕ → List Wait → Passage
await_quotas s port stride waits = elim (await_data_quota s stride waits) [
  | pass s' rest ↦ await_service_quota s' port stride rest
  | stop st s' ↦ stop st s'
  | blocked s' ↦ blocked s'
]

-- The counts after a data message whose place ends at `local_tx_pos`.
unfoldable pub count_data_slot : State → State
count_data_slot s =
    let end = slot_queue_index (sub32 s.local_tx_pos 1) in
    if end == s.previous_data_index
    then s
    else record s { previous_data_index = end; data_use_count = u16 (s.data_use_count + 1) }

unfoldable pub charge_quota : ℕ → Quota → Quota
charge_quota end q =
    let q' = record q { message_use_count = u16 (q.message_use_count + 1) } in
    if end == q.previous_tx_index
    then q'
    else record q' { previous_tx_index = end; slot_use_count = u16 (q.slot_use_count + 1) }

abbrev pub count_sent : ℕ → ServiceStats → ServiceStats
count_sent size st = record st {
  ctrl_tx_count = add32 st.ctrl_tx_count 1;
  ctrl_tx_bytes = (st.ctrl_tx_bytes + size) % 2 ^ 64;
}

unfoldable pub charge : State → ℕ → ℕ → State
charge s port size =
    let end = slot_queue_index (sub32 s.local_tx_pos 1) in
    let s' = put_quota s port (charge_quota end (s.service_quotas port)) in
    on_stats (count_data_slot s') port (count_sent size)

abbrev pub count_ctrl : State → State
count_ctrl s = record s { stats = record s.stats { ctrl_tx_count = add32 s.stats.ctrl_tx_count 1 } }

abbrev pub is_close : ℕ → Bool
is_close msgid = msg_type msgid == 4

abbrev pub is_message : ℕ → Bool
is_message msgid = msg_type msgid == 5

abbrev pub release_unless : Bool → State → State
release_unless held s = if held then s else unlocked s

-- The end of `queue_message`: the header is written, and the position is shown to the other side.
unfoldable pub publish : State → Option ℕ → ℕ → Place → ℕ → List ℕ → Flags → State
publish s service msgid place size bytes flags =
    let h : Header = record { msgid = msgid; size = size; bytes = bytes } in
    let s₁ = write_header s (some place.0) place.1 h in
    let s₂ = record s₁ { here = record s₁.here { tx_pos = s₁.local_tx_pos } } in
    let s₃ =
      if is_close msgid
      then option_case service s₂ (λ port. set_service_state s₂ port closesent)
      else s₂ in
    trigger_remote (release_unless flags.no_mutex_unlock s₃)

-- How `queue_message` ends: it returns, or it waits when the given waits are used up.
pub data Sent : Type 0 where
  returns : Status → State → Sent
  waits_on : State → Sent

-- The payload of a message that is not data; a failed copy is ignored.
abbrev pub copied_or_empty : Copied → List ℕ
copied_or_empty (copied b) = b
copied_or_empty (copy_error e) = []

-- What follows the reservation.
unfoldable pub send_at : State → Option ℕ → ℕ → (ℕ → ℕ → Chunk) → ℕ → Flags → Place → Sent
send_at s service msgid callback size flags place =
    if is_message msgid
    then option_case service (returns error (unlocked s)) (λ port.
      elim (copy_message_data callback size) [
        | copy_error e ↦ returns error (on_stats (unlocked s) port count_service_error)
        | copied bytes ↦
            returns success (publish (charge s port size) service msgid place size bytes flags)
      ])
    else (let bytes = if size == 0 then [] else copied_or_empty (copy_message_data callback size) in
        returns success (publish (count_ctrl s) service msgid place size bytes flags))

-- How the wait for a slot ends; without an end for it, it is interrupted in the state in which it began.
abbrev pub next_wait : State → ℕ → List Wait → Wait
next_wait s space [] = interrupted (flush_to (pad_rest s space) (start_pos s.local_tx_pos space))
next_wait s space (w ∷ ws) = w

abbrev pub count_no_slot : State → Option ℕ → State
count_no_slot s service =
    option_case service s
      (λ port. on_stats s port (λ st. record st { slot_stalls = add32 st.slot_stalls 1 }))

-- From `reserve_space` on.
unfoldable pub reserve_and_send :
    State → Option ℕ → ℕ → (ℕ → ℕ → Chunk) → ℕ → Flags → List Wait → Sent
reserve_and_send s service msgid callback size flags waits =
    let wait = next_wait s (calc_stride size) waits in
    let (place, s') = reserve_space s (calc_stride size) flags.is_blocking wait in
    option_case place
      (returns retry (release_unless flags.no_mutex_lock (count_no_slot s' service)))
      (λ at. send_at s' service msgid callback size flags at)

-- `queue_message`, from a state in which the slot mutex is held by the caller (no_mutex_lock) or can
-- be had; `locked` says whether `mutex_lock_killable` got it. A wait for a slot that no longer is
-- given an end counts as interrupted.
unfoldable pub queue_message :
    State → Option ℕ → ℕ → (ℕ → ℕ → Chunk) → ℕ → Flags → Bool → List Wait → Sent
queue_message s service msgid callback size flags locked waits =
    if not flags.no_mutex_lock && not locked
    then returns retry s
    else (let s' = record s { slot_mutex = true } in
        if is_message msgid
        then option_case service (returns error (unlocked s')) (λ port.
          if is_closing s' port
          then returns error (unlocked s')
          else elim (await_quotas s' port (calc_stride size) waits) [
            | stop st s'' ↦ returns st s''
            | blocked s'' ↦ waits_on s''
            | pass s'' rest ↦ reserve_and_send s'' service msgid callback size flags rest
          ])
        else reserve_and_send s' service msgid callback size flags waits)

-- `queue_message_sync`. `locked` says whether `mutex_lock_killable` got the sync mutex, and `s` is the
-- state when the wait for the other side's release of the slot for synchronous messages has ended; a
-- wait that is interrupted goes on all the same, with the event not armed and not fired, and its result
-- is not read. After a failed copy the source unlocks the slot mutex; there it writes through a NULL
-- service, which is no write here.
unfoldable pub queue_message_sync :
    State → Option ℕ → ℕ → (ℕ → ℕ → Chunk) → ℕ → Bool → Status × State
queue_message_sync s service msgid callback size locked =
    if not (msg_type msgid == 11) && not locked
    then (retry, s)
    else (let s' = record s {
      sync_mutex = true;
      here = record s.here { sync_release = record { armed = false; fired = false } };
    } in
        elim (copy_message_data callback size) [
          | copy_error e ↦ (
            error,
            option_case service (unlocked s')
                (λ port. on_stats (unlocked s') port count_service_error),
          )
          | copied bytes ↦
              let counted =
                option_case service (count_ctrl s') (λ port. on_stats s' port (count_sent size)) in
              let h : Header = record { msgid = msgid; size = size; bytes = bytes } in
              let sent = write_header counted (some s.here.slot_sync) 0 h in
              let triggered = record sent {
                remote = record sent.remote { sync_trigger = signal sent.remote.sync_trigger };
              } in
              (
                success,
                if msg_type msgid == 10 then triggered else record triggered { sync_mutex = false },
              )
        ])
