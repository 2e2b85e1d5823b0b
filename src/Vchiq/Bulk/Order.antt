-- ===== src/Vchiq/Bulk/Order.antt =====
-- A bulk queue as two lists, the transfers that are finished and not yet notified and those that
-- are not finished, each in the order of submission.
use dkms_rpi_codec.Base.{
  ℕ-cases, ◌⊎◌, inl, inr, ◌≢◌, false, ℕ, suc, ◌+◌, ◌-◌, ◌≤◌, ◌<◌, ◌≡◌, refl, ap, ap₂, ◌∙◌, ◌≢◌, ◌⊎◌,
  inl, inr, false, some, List, [], ◌∷◌, ◌++◌, arith, update, update_self, add32, sub32,
}
use dkms_rpi_codec.Vchiq.State.{Bulk, BulkMode, BulkDir, BulkQueue, success, actual_aborted}
use dkms_rpi_codec.Vchiq.Bulk.{
  bulk_index, is_full, new_bulk, stage, commit, unexpected, accepted, bulk_done, complete_bulk,
}
use dkms_rpi_codec.Vchiq.Bulk.Window.{window, window-update, window-snoc, window-suc}
use dkms_rpi_codec.Vchiq.Bulk.Invariant.{IsQueue}

abbrev pub finished : BulkQueue → List Bulk
finished q = window q.bulks q.remove (sub32 q.process q.remove)

abbrev pub unfinished : BulkQueue → List Bulk
unfinished q = window q.bulks q.process (sub32 q.local_insert q.process)

-- What the specification calls the state of a queue.
abbrev pub View : Type 0
View = List Bulk × List Bulk

abbrev pub view : BulkQueue → View
view q = (finished q, unfinished q)

-- The transfer that a successful `stage` puts into the next free cell.
abbrev pub staged : BulkQueue → BulkMode → BulkDir → ℕ → ℕ → ℕ → ℕ → Bulk
staged q mode dir userdata size dma_addr info =
    record (new_bulk (q.bulks (bulk_index q.local_insert)) mode dir userdata size) {
      payload = dma_addr;
      remote_data = info;
    }

-- A submission that finds room and a page list is appended to the unfinished transfers, marked as
-- aborted until it is done, and leaves the finished ones alone.
pub view-commit-stage :
    (q : BulkQueue) (mode : BulkMode) (dir : BulkDir) (userdata size dma_addr info : ℕ)
    → IsQueue q
    → is_full q ≡ false
    → let b = staged q mode dir userdata size dma_addr info in
      let (st, q') = stage q mode dir userdata size (some (dma_addr, info)) in
      (st ≡ success)
      × (view (commit q') ≡ (finished q, unfinished q ++ b ∷ []))
      × (b.actual ≡ actual_aborted)
unfolding stage commit is_full
view-commit-stage q mode dir userdata size dma_addr info v room =
    (refl, ap₂ (λ (a c : List Bulk). let p : View = (a, c) in p) old new, unfold new_bulk in refl)
  where
    open q use {bulks, process, remove, local_insert}

    b : Bulk
    b = staged q mode dir userdata size dma_addr info

    bulks' : ℕ → Bulk
    bulks' = update bulks (bulk_index local_insert) b

    done : ℕ
    done = sub32 process remove

    left : ℕ
    left = sub32 local_insert process

    fewer : done + left < 4
    fewer = ground arith

    old : window bulks' remove done ≡ window bulks remove done
    old = window-update bulks local_insert b done remove left (omega arith) fewer

    new :
        window bulks' process (sub32 (add32 local_insert 1) process)
        ≡ window bulks process left ++ b ∷ []
    new =
        ap (window bulks' process) {y = suc left} (omega (arith, fewer))
        ∙ window-snoc bulks' left process v.process_word
        ∙ ap₂ ◌++◌
            (window-update bulks local_insert b left process 0 (omega arith) (omega (arith, fewer)))
            (ap (λ (t : Bulk). t ∷ [])
              (ap (λ (t : ℕ). bulks' (bulk_index t)) (omega arith)
                ∙ update_self bulks (bulk_index local_insert) b))

-- The queue that has moved past its oldest unfinished transfer, leaving `b` in its cell.
abbrev pub moved : BulkQueue → Bulk → BulkQueue
moved q b = record q {
  bulks = update q.bulks (bulk_index q.process) b;
  remote_insert = add32 q.process 1;
  process = add32 q.process 1;
}

module _ (q : BulkQueue) (b : Bulk) (k : ℕ) (v : IsQueue q)
    (e : sub32 q.local_insert q.process ≡ suc k) where
  open q use {bulks, process, remove, local_insert}

  moved_bulks : ℕ → Bulk
  moved_bulks = update bulks (bulk_index process) b

  moved_room : sub32 process remove + suc k ≤ 4
  moved_room = omega arith

  moved_old : window moved_bulks remove (sub32 (add32 process 1) remove) ≡ finished q ++ b ∷ []
  unfolding moved_bulks
  moved_old =
      ap (window moved_bulks remove) {y = suc done} (omega (arith, moved_room))
      ∙ window-snoc moved_bulks done remove v.remove_word
      ∙ ap₂ ◌++◌
          (window-update bulks process b done remove 0 (omega arith) (omega (arith, moved_room)))
          (ap (λ (t : Bulk). t ∷ [])
            (ap (λ (t : ℕ). moved_bulks (bulk_index t)) (omega arith)
              ∙ update_self bulks (bulk_index process) b))
    where
      done : ℕ
      done = sub32 process remove

  moved_rest :
      window moved_bulks (add32 process 1) (sub32 local_insert (add32 process 1))
      ≡ window bulks (add32 process 1) k
  unfolding moved_bulks
  moved_rest =
      ap (window moved_bulks (add32 process 1)) {y = k} (omega arith)
      ∙ window-update bulks process b k (add32 process 1) (3 - k) (omega (arith, moved_room))
          (omega (arith, moved_room))

  pub view-moved : view (moved q b) ≡ (finished q ++ b ∷ [], window bulks (add32 process 1) k)
  unfolding moved_bulks
  view-moved = ap₂ (λ (a c : List Bulk). let p : View = (a, c) in p) moved_old moved_rest

module _ (q : BulkQueue) (actual : ℕ) where
  abbrev done_bulk : Bulk
  done_bulk = record (q.bulks (bulk_index q.process)) { actual = actual }

  bulk_done-accepted :
      IsQueue q
      → sub32 q.local_insert q.process ≢ 0
      → bulk_done q actual ≡ accepted (moved q done_bulk) (complete_bulk done_bulk)
  unfolding bulk_done
  bulk_done-accepted v ne = ground arith

  bulk_done-unexpected :
      IsQueue q → sub32 q.local_insert q.process ≡ 0 → bulk_done q actual ≡ unexpected
  unfolding bulk_done
  bulk_done-unexpected v e = ground arith

-- A bulk-done message is refused exactly where no transfer is unfinished; otherwise it is accepted,
-- records its length in the oldest unfinished transfer and moves that one, and no other, to the end
-- of the finished ones.
pub view-bulk_done :
    (q : BulkQueue) (actual : ℕ)
    → IsQueue q
    → (unfinished q ≡ []) × (bulk_done q actual ≡ unexpected)
      ⊎ ((b : Bulk) × (rest : List Bulk) × (q' : BulkQueue) × (unfinished q ≡ b ∷ rest)
          × (bulk_done q actual ≡ accepted q' (complete_bulk (record b { actual = actual })))
          × (view q' ≡ (finished q ++ record b { actual = actual } ∷ [], rest)))
view-bulk_done q actual v = elim (ℕ-cases (sub32 q.local_insert q.process)) [
  | inl e ↦ inl (ap (window q.bulks q.process) e, bulk_done-unexpected q actual v e)
  | inr (k, e) ↦ inr (
    q.bulks (bulk_index q.process),
    window q.bulks (add32 q.process 1) k,
    moved q (done_bulk q actual),
    window-suc q.bulks q.process (sub32 q.local_insert q.process) k e,
    bulk_done-accepted q actual v (omega arith),
    view-moved q (done_bulk q actual) k v e,
  )
]
