-- ===== src/Vchiq/Bulk.antt =====
-- The queue of bulk transfers of one direction of a service: `notify_bulks`,
-- `abort_outstanding_bulks`, the bulk-done case of `parse_rx_slots` and the writes of
-- `vchiq_bulk_transfer` (interface/vchiq_arm/vchiq_core.c), with `vchiq_prepare_bulk_data` and
-- `vchiq_complete_bulk` (interface/vchiq_arm/vchiq_2835_arm.c).
pub mod Window
pub mod Invariant
pub mod Order
pub mod Heard
pub mod Notify
pub mod Abort
pub mod Tests
use dkms_rpi_codec.Base.{
  ℕ, zero, suc, ◌+◌, ◌-◌, ◌%◌, ◌^◌, max, bit_and, Bool, true, false, not, ◌&&◌, Option, none, some,
  List, [], ◌∷◌, ◌++◌, ◌==◌, if◌then◌else◌, update, add32, sub32, nonneg32,
}
use dkms_rpi_codec.Vchiq.State.{
  Status, success, error, retry, Bulk, BulkMode, BulkDir, callback, blocking, nocallback, waiting,
  transmit, receive, Reason, bulk_transmit_done, bulk_receive_done, bulk_transmit_aborted,
  bulk_receive_aborted, BulkQueue, Service, ServiceStats, num_service_bulks, actual_aborted,
}

-- BULK_INDEX
unfoldable pub bulk_index : ℕ → ℕ
bulk_index x = bit_and x (num_service_bulks - 1)

-- `init_bulk_queue`; the cells keep what the memory held.
unfoldable pub init_bulk_queue : (ℕ → Bulk) → BulkQueue
init_bulk_queue bulks = record {
  local_insert = 0;
  remote_insert = 0;
  process = 0;
  remote_notify = 0;
  remove = 0;
  bulks = bulks;
}

-- `queue->local_insert == queue->remove + VCHIQ_NUM_SERVICE_BULKS`
unfoldable pub is_full : BulkQueue → Bool
is_full q = q.local_insert == add32 q.remove num_service_bulks

-- `vchiq_prepare_bulk_data`, given what `create_pagelist` returned: the bus address of the page
-- list and the page list itself.
unfoldable pub prepare_bulk_data : Bulk → Option (ℕ × ℕ) → Status × Bulk
prepare_bulk_data b none = (error, b)
prepare_bulk_data b (some (dma_addr, info)) =
    (success, record b { payload = dma_addr; remote_data = info })

-- `vchiq_complete_bulk`: the page list that `free_pagelist` is called with, and the length.
unfoldable pub complete_bulk : Bulk → List (ℕ × ℕ)
complete_bulk b =
    if not (b.remote_data == 0) && not (b.actual == 0) then (b.remote_data, b.actual) ∷ [] else []

-- The cell that `vchiq_bulk_transfer` fills.
unfoldable pub new_bulk : Bulk → BulkMode → BulkDir → ℕ → ℕ → Bulk
new_bulk old mode dir userdata size = record old {
  mode = mode;
  dir = dir;
  userdata = userdata;
  size = size;
  actual = actual_aborted;
}

abbrev pub put_bulk : BulkQueue → ℕ → Bulk → BulkQueue
put_bulk q i b = record q { bulks = update q.bulks (bulk_index i) b }

-- The writes of `vchiq_bulk_transfer` to the cell, and `queue->local_insert++` once the message is
-- sent.
unfoldable pub stage : BulkQueue → BulkMode → BulkDir → ℕ → ℕ → Option (ℕ × ℕ) → Status × BulkQueue
unfolding prepare_bulk_data new_bulk
stage q mode dir userdata size pagelist =
    let old = q.bulks (bulk_index q.local_insert) in
    let (st, b) = prepare_bulk_data (new_bulk old mode dir userdata size) pagelist in
    (st, put_bulk q q.local_insert b)

unfoldable pub commit : BulkQueue → BulkQueue
commit q = record q { local_insert = add32 q.local_insert 1 }

-- What the case VCHIQ_MSG_BULK_RX_DONE, VCHIQ_MSG_BULK_TX_DONE does to the queue.
pub data DoneResult : Type 0 where
  unexpected : DoneResult
  not_ready : DoneResult
  accepted : BulkQueue → List (ℕ × ℕ) → DoneResult

unfoldable pub bulk_done : BulkQueue → ℕ → DoneResult
unfolding complete_bulk
bulk_done q actual =
    if nonneg32 (sub32 q.remote_insert q.local_insert)
    then unexpected
    else if not (q.process == q.remote_insert)
    then not_ready
    else (let b = record (q.bulks (bulk_index q.remote_insert)) { actual = actual } in
        let q' = put_bulk q q.remote_insert b in
        accepted
          (record q' { remote_insert = add32 q.remote_insert 1; process = add32 q.process 1 })
          (complete_bulk b))

-- What a client hears of a finished transfer: its waiter is woken, or its callback is called.
pub data Notice : Type 0 where
  woken : ℕ → ℕ → Notice
  called : Reason → ℕ → Notice

unfoldable pub bulk_reason : Bulk → Reason
bulk_reason b = elim b.dir [
  | transmit ↦ if b.actual == actual_aborted then bulk_transmit_aborted else bulk_transmit_done
  | receive ↦ if b.actual == actual_aborted then bulk_receive_aborted else bulk_receive_done
]

-- `make_service_callback` turns an error of the callback into success.
unfoldable pub callback_status : Status → Status
callback_status error = success
callback_status st = st

-- A signed 32-bit number as one of 64 bits, as C converts it.
abbrev pub signed64 : ℕ → ℕ
signed64 x = if nonneg32 x then x else x + (2 ^ 64 - 2 ^ 32)

-- The statistics of one finished transfer; its length is signed.
unfoldable pub count_bulk : ServiceStats → Bulk → ServiceStats
count_bulk st b =
    if b.actual == actual_aborted
    then record st { bulk_aborted_count = add32 st.bulk_aborted_count 1 }
    else (elim b.dir [
      | transmit ↦ record st {
        bulk_tx_count = add32 st.bulk_tx_count 1;
        bulk_tx_bytes = (st.bulk_tx_bytes + signed64 b.actual) % 2 ^ 64;
      }
      | receive ↦ record st {
        bulk_rx_count = add32 st.bulk_rx_count 1;
        bulk_rx_bytes = (st.bulk_rx_bytes + signed64 b.actual) % 2 ^ 64;
      }
    ])

-- One transfer's notice, and what the callback answers; a dummy transfer and one of a terminated
-- service give none.
unfoldable pub notify_one : Bool → Bulk → Status → List Notice × Status
unfolding bulk_reason callback_status
notify_one alive b answer =
    if not (b.payload == 0) && alive
    then (elim b.mode [
      | blocking ↦ (if b.userdata == 0 then [] else woken b.userdata b.actual ∷ [], success)
      | callback ↦ (called (bulk_reason b) b.userdata ∷ [], callback_status answer)
      | nocallback ↦ ([], success)
      | waiting ↦ ([], success)
    ])
    else ([], success)

-- What the loop of `notify_bulks` leaves: the counter `remove`, the signals of
-- `bulk_remove_event`, the statistics, the notices in order and the status.
pub record Notified : Type 0 where
  pub removed : ℕ
  pub signals : ℕ
  pub counts : ServiceStats
  pub notices : List Notice
  pub result : Status

abbrev pub is_retry : Status → Bool
is_retry retry = true
is_retry st = false

abbrev pub prepend : List Notice → Notified → Notified
prepend notes n = record n { notices = notes ++ n.notices }

abbrev pub counted : Bool → ServiceStats → Bulk → ServiceStats
counted alive st b = if not (b.payload == 0) && alive then count_bulk st b else st

-- The loop on the transfers that are left to notify; `answer` is what the client's callback returns
-- for the transfer with a given counter.
unfoldable pub notify_loop : ℕ → (ℕ → Bulk) → Bool → (ℕ → Status) → ℕ → ℕ → ServiceStats → Notified
notify_loop zero bulks alive answer remove signals st = record {
  removed = remove;
  signals = signals;
  counts = st;
  notices = [];
  result = success;
}
notify_loop (suc left) bulks alive answer remove signals st =
    let b = bulks (bulk_index remove) in
    let (notes, status) = notify_one alive b (answer remove) in
    let st' = counted alive st b in
    let stopped : Notified = record {
      removed = remove;
      signals = signals;
      counts = st';
      notices = notes;
      result = retry;
    } in
    let rest = notify_loop left bulks alive answer (add32 remove 1) (signals + 1) st' in
    if is_retry status then stopped else prepend notes rest

abbrev pub queue_of : BulkDir → Service → BulkQueue
queue_of transmit s = s.bulk_tx
queue_of receive s = s.bulk_rx

abbrev pub with_queue : BulkDir → BulkQueue → Service → Service
with_queue transmit q s = record s { bulk_tx = q }
with_queue receive q s = record s { bulk_rx = q }

-- `notify_bulks` up to its request for another poll, which is made where the status is
-- VCHIQ_RETRY. The loop runs from `remove` to `remote_notify`, which is `process`.
unfoldable pub notify_bulks :
    BulkDir → Bool → (ℕ → Status) → Service → Service × List Notice × Status
notify_bulks dir retry_poll answer s =
    let q = queue_of dir s in
    let n =
      notify_loop (sub32 q.process q.remove) q.bulks (not (s.inst == 0)) answer q.remove
        s.bulk_remove_event s.stats in
    let q' = record q { remote_notify = q.process; remove = n.removed } in
    (
      record (with_queue dir q' s) { bulk_remove_event = n.signals; stats = n.counts },
      n.notices,
      if retry_poll then n.result else success,
    )

-- One round of `abort_outstanding_bulks`, on the cell at `process`: the page lists that it frees.
unfoldable pub abort_one : BulkDir → BulkQueue → BulkQueue × List (ℕ × ℕ)
unfolding complete_bulk
abort_one dir q =
    let b = q.bulks (bulk_index q.process) in
    let at_remote = q.process == q.remote_insert in
    let b₁ = if at_remote then record b { remote_data = 0; remote_size = 0 } else b in
    let ri = if at_remote then add32 q.remote_insert 1 else q.remote_insert in
    let dummy = record b₁ { payload = 0; size = 0; actual = actual_aborted; dir = dir } in
    let ours = not (q.process == q.local_insert) in
    let b₂ = if ours then b₁ else dummy in
    let li = if ours then q.local_insert else add32 q.local_insert 1 in
    (
      record (put_bulk q q.process b₂) {
        remote_insert = ri;
        local_insert = li;
        process = add32 q.process 1;
      },
      if ours then complete_bulk b₁ else [],
    )

-- The loop; the fuel is given by the caller, and `Abort` shows how much is enough.
unfoldable pub abort_loop : ℕ → BulkDir → BulkQueue → BulkQueue × List (ℕ × ℕ)
abort_loop zero dir q = (q, [])
abort_loop (suc fuel) dir q =
    let (q', freed) = abort_one dir q in
    let (q'', more) = abort_loop fuel dir q' in
    if q.process == q.local_insert && q.process == q.remote_insert
    then (q, [])
    else (q'', freed ++ more)

-- `abort_outstanding_bulks`
unfoldable pub abort_outstanding_bulks : BulkDir → BulkQueue → BulkQueue × List (ℕ × ℕ)
abort_outstanding_bulks dir q =
    abort_loop (max (sub32 q.local_insert q.process) (sub32 q.remote_insert q.process)) dir q
