-- ===== src/Vchiq/Transfer.antt =====
-- Starting a bulk transfer: `vchiq_bulk_transfer` and `memcpy_copy_callback`
-- (interface/vchiq_arm/vchiq_core.c). `create_pagelist` and what other threads do during a wait are
-- parameters.
pub mod Pages
mod Tests
use dkms_rpi_codec.Base.{
  ℕ, ◌+◌, ◌/◌, ◌%◌, Bool, true, false, not, ◌&&◌, Option, none, some, List, [], ◌∷◌, ◌++◌, ◌==◌,
  if◌then◌else◌, option_case, take, drop, add32,
}
use dkms_rpi_codec.Vchiq.Message.{make_msg}
use dkms_rpi_codec.Vchiq.State.{
  State, Status, success, error, retry, Service, ServiceStats, Bulk, BulkQueue, BulkMode, BulkDir,
  callback, blocking, nocallback, waiting, transmit, receive, open_, in_state, put_service,
  actual_aborted,
}
use dkms_rpi_codec.Vchiq.Bulk.{
  bulk_index, is_full, stage, commit, complete_bulk, queue_of, with_queue,
}
use dkms_rpi_codec.Vchiq.Service.{find_service_by_handle, unlock_service}
use dkms_rpi_codec.Vchiq.Copy.{Chunk, chunk}
use dkms_rpi_codec.Vchiq.Reserve.{Wait, interrupted, resumed}
use dkms_rpi_codec.Vchiq.Transmit.{
  Flags, Sent, returns, waits_on, Passage, pass, stop, blocked, queue_message, on_stats, unlocked,
}
use dkms_rpi_codec.Vchiq.Client.{check_service}

-- The arguments of `vchiq_bulk_transfer` but for the handle.
pub record Request : Type 0 where
  pub offset : ℕ
  pub size : ℕ
  pub userdata : ℕ
  pub mode : BulkMode
  pub dir : BulkDir

-- How a call ends: it returns, with the page lists that were freed, or it waits when the given waits
-- are used up.
pub data Outcome : Type 0 where
  done : Status → State → List (ℕ × ℕ) → Outcome
  stuck : State → Outcome

-- The bytes of an `int`, the lowest first.
abbrev pub int_bytes : ℕ → List ℕ
int_bytes w = w % 256 ∷ w / 256 % 256 ∷ w / 65536 % 256 ∷ w / 16777216 % 256 ∷ []

-- `memcpy_copy_callback`, which copies all that it is asked for; it is only asked from offset 0, as a
-- copy of everything is the last one.
unfoldable pub memcpy_copy_callback : List ℕ → ℕ → ℕ → Chunk
memcpy_copy_callback src pos room = chunk (take room (drop pos src))

abbrev pub dir_msgtype : BulkDir → ℕ
dir_msgtype transmit = 7
dir_msgtype receive = 6

abbrev pub full_at : State → ℕ → BulkDir → Bool
full_at s port dir = option_case (s.services port) false (λ svc. is_full (queue_of dir svc))

abbrev pub count_bulk_stall : ServiceStats → ServiceStats
count_bulk_stall st = record st { bulk_stalls = add32 st.bulk_stalls 1 }

-- The wait for a free place in the queue, with the bulk mutex taken again after it; a wait for the
-- mutex that is killed is an interrupted one.
unfoldable pub await_room : State → ℕ → BulkDir → List Wait → Passage
await_room s port dir [] =
    if full_at s port dir then blocked (on_stats s port count_bulk_stall) else pass s []
await_room s port dir (interrupted s' ∷ waits) =
    if full_at s port dir then stop retry s' else pass s (interrupted s' ∷ waits)
await_room s port dir (resumed s' ∷ waits) =
    let again = await_room s' port dir waits in
    if full_at s port dir then again else pass s (resumed s' ∷ waits)

abbrev pub on_queue : State → ℕ → BulkDir → (BulkQueue → BulkQueue) → State
on_queue s port dir f =
    option_case (s.services port) s
      (λ svc. put_service s port (some (with_queue dir (f (queue_of dir svc)) svc)))

-- QMFLAGS_IS_BLOCKING | QMFLAGS_NO_MUTEX_LOCK | QMFLAGS_NO_MUTEX_UNLOCK
abbrev pub holding : Flags
holding = record { is_blocking = true; no_mutex_lock = true; no_mutex_unlock = true }

-- What follows the message: the counter moves, or the transfer is given up.
unfoldable pub after_message : Sent → ℕ → BulkDir → Bulk → Outcome
after_message (waits_on s) port dir b = stuck s
after_message (returns success s) port dir b =
    done success (unlocked (on_queue s port dir commit)) []
after_message (returns error s) port dir b = done error (unlocked s) (complete_bulk b)
after_message (returns retry s) port dir b = done retry (unlocked s) (complete_bulk b)

-- With the slot mutex held: the message is sent if the service is still open.
unfoldable pub send_bulk : State → ℕ → Request → Bulk → List Wait → Outcome
unfolding after_message memcpy_copy_callback
send_bulk s port req b waits =
    option_case (s.services port) (done error (unlocked s) (complete_bulk b)) λ svc.
      if in_state svc.srvstate open_
      then after_message
          (queue_message s none (make_msg (dir_msgtype req.dir) svc.localport svc.remoteport)
            (memcpy_copy_callback (int_bytes b.payload ++ int_bytes b.size)) 8 holding true waits)
          port req.dir b
      else done error (unlocked s) (complete_bulk b)

-- From the first write to the cell on. `slot_lock` says whether the slot mutex was got, and what other
-- threads did to the state until then.
unfoldable pub start_bulk :
    State → ℕ → Service → Request → Option (ℕ × ℕ) → Option (State → State) → List Wait → Outcome
unfolding send_bulk
start_bulk s port svc req pagelist slot_lock waits =
    let (st, q) = stage (queue_of req.dir svc) req.mode req.dir req.userdata req.size pagelist in
    let s' = put_service s port (some (with_queue req.dir q svc)) in
    let b = q.bulks (bulk_index q.local_insert) in
    elim st [
      | success ↦
          option_case slot_lock (done retry s' (complete_bulk b))
            (λ others. send_bulk (record (others s') { slot_mutex = true }) port req b waits)
      | error ↦ done error s' []
      | retry ↦ done error s' []
    ]

-- What a blocking call returns: `waiter` is the length that its waiter was woken with.
unfoldable pub await_bulk : Option ℕ → Status
await_bulk waiter =
    option_case waiter retry (λ actual. if actual == actual_aborted then error else success)

abbrev pub is_blocking_mode : BulkMode → Bool
is_blocking_mode blocking = true
is_blocking_mode waiting = true
is_blocking_mode mode = false

-- The end of the call: the reference is dropped, and a blocking call that was sent waits.
unfoldable pub finish : ℕ → BulkMode → Option ℕ → Outcome → Outcome
unfolding await_bulk
finish port mode waiter (stuck s) = stuck s
finish port mode waiter (done success s freed) =
    done (if is_blocking_mode mode then await_bulk waiter else success) (unlock_service s port).0
      freed
finish port mode waiter (done error s freed) = done error (unlock_service s port).0 freed
finish port mode waiter (done retry s freed) = done retry (unlock_service s port).0 freed

abbrev pub is_waiting : BulkMode → Bool
is_waiting waiting = true
is_waiting mode = false

abbrev pub may_transfer : Service → Request → Bool
may_transfer svc req =
    in_state svc.srvstate open_ && not (req.offset == 0) && not (svc.service_use_count == 0)

-- The call on the service that it names; `locked` says whether the bulk mutex was got.
unfoldable pub transfer_on :
    State
    → ℕ
    → Service
    → Request
    → Option (ℕ × ℕ)
    → Bool
    → List Wait
    → Option (State → State)
    → Outcome
unfolding start_bulk await_room
transfer_on s port svc req pagelist locked waits slot_lock =
    if not (may_transfer svc req)
    then done error s []
    else if is_waiting req.mode
    then done success s []
    else if not locked
    then done retry s []
    else elim (await_room s port req.dir waits) [
      | stop st s' ↦ done st s' []
      | blocked s' ↦ stuck s'
      | pass s' rest ↦
          option_case (s'.services port) (stuck s')
            (λ now. start_bulk s' port now req pagelist slot_lock rest)
    ]

-- `vchiq_bulk_transfer`
unfoldable pub bulk_transfer :
    State
    → ℕ
    → Request
    → Option (ℕ × ℕ)
    → Bool
    → List Wait
    → Option (State → State)
    → Option ℕ
    → Outcome
unfolding transfer_on finish
bulk_transfer s handle req pagelist locked waits slot_lock waiter =
    let (found, s') = find_service_by_handle s handle in
    option_case found (done error s' []) λ port.
      option_case (s'.services port) (done error s' []) λ svc.
        finish port req.mode waiter (transfer_on s' port svc req pagelist locked waits slot_lock)
