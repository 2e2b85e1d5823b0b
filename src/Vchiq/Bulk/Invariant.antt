-- ===== src/Vchiq/Bulk/Invariant.antt =====
-- The order of the five counters of a bulk queue, across their wrap.
use dkms_rpi_codec.Base.{ℕ, ◌^◌, ◌≤◌, ◌<◌, ◌≡◌, ◌≢◌, ◌↔◌, true, false, Option, List, arith, sub32}
use dkms_rpi_codec.Vchiq.State.{Bulk, BulkMode, BulkDir, BulkQueue, num_service_bulks}
use dkms_rpi_codec.Vchiq.Bulk.{
  init_bulk_queue, is_full, stage, commit, accepted, bulk_done, abort_one,
}

-- Going round from `remove` one meets `remote_notify`, `process` and `local_insert` in this order
-- and within four places; this side is never the master, so `remote_insert` keeps up with `process`.
pub record IsQueue (q : BulkQueue) : Type 0 where
  pub local_word : q.local_insert < 2 ^ 32
  pub process_word : q.process < 2 ^ 32
  pub notify_word : q.remote_notify < 2 ^ 32
  pub remove_word : q.remove < 2 ^ 32
  pub matched : q.remote_insert ≡ q.process
  pub notify_order : sub32 q.remote_notify q.remove ≤ sub32 q.process q.remove
  pub process_order : sub32 q.process q.remove ≤ sub32 q.local_insert q.remove
  pub bounded : sub32 q.local_insert q.remove ≤ num_service_bulks

-- A new queue is well formed.
pub init_bulk_queue-IsQueue : (bulks : ℕ → Bulk) → IsQueue (init_bulk_queue bulks)
unfolding init_bulk_queue
init_bulk_queue-IsQueue bulks = omega arith

-- A queue is full exactly where it holds four transfers.
pub is_full_iff :
    (q : BulkQueue) → IsQueue q → (is_full q ≡ true) ↔ (sub32 q.local_insert q.remove ≡ 4)
unfolding is_full
is_full_iff q v = (λ e. ground arith, λ e. ground arith)

pub stage-IsQueue :
    (q : BulkQueue) (mode : BulkMode) (dir : BulkDir) (userdata size : ℕ)
    (pagelist : Option (ℕ × ℕ))
    → IsQueue q
    → IsQueue (stage q mode dir userdata size pagelist).1
unfolding stage
stage-IsQueue q mode dir userdata size pagelist v = ground arith

pub commit-IsQueue : (q : BulkQueue) → IsQueue q → is_full q ≡ false → IsQueue (commit q)
unfolding commit is_full
commit-IsQueue q v e = ground arith

-- A bulk-done message is accepted exactly where a transfer is unfinished, and is never put off.
pub bulk_done-IsQueue :
    (q : BulkQueue) (actual : ℕ) {q' : BulkQueue} {freed : List (ℕ × ℕ)}
    → IsQueue q
    → bulk_done q actual ≡ accepted q' freed
    → IsQueue q'
unfolding bulk_done
bulk_done-IsQueue q actual v e = ground arith

pub abort_one-IsQueue :
    (dir : BulkDir) (q : BulkQueue)
    → IsQueue q
    → q.process ≢ q.local_insert
    → IsQueue (abort_one dir q).0
unfolding abort_one
abort_one-IsQueue dir q v h = ground arith
