-- ===== src/Vchiq/Transfer/Pages.antt =====
-- What a transfer that is not sent frees.
use dkms_rpi_codec.Base.{
  ℕ, ◌≡◌, refl, ap, ◌∙◌, subst, inl, inr, Bool, true, false, Option, none, some, List, [], ◌∷◌,
  ◌==◌, if◌then◌else◌, Bool-cases, Option-cases, update_self,
}
use dkms_rpi_codec.Vchiq.State.{
  put_service, State, Status, success, error, retry, Service, Bulk, BulkQueue, BulkMode, BulkDir,
  open_, in_state, actual_aborted,
}
use dkms_rpi_codec.Vchiq.Bulk.{
  with_queue, bulk_index, stage, new_bulk, prepare_bulk_data, complete_bulk, queue_of,
}
use dkms_rpi_codec.Vchiq.Reserve.{Wait}
use dkms_rpi_codec.Vchiq.Transmit.{Sent, returns, waits_on}
use dkms_rpi_codec.Vchiq.Transfer.{
  Request, Outcome, done, stuck, after_message, send_bulk, start_bulk, on_queue,
}

-- The page list that was made, as it is freed when its transfer is given up.
abbrev pub created : Option (ℕ × ℕ) → List (ℕ × ℕ)
created none = []
created (some (dma_addr, info)) = if info == 0 then [] else (info, actual_aborted) ∷ []

abbrev pub is_sent : Status → Bool
is_sent success = true
is_sent st = false

-- A transfer that is sent keeps its page list, and one that is not frees it; whoever took the slot
-- mutex has dropped it.
abbrev pub IsBalanced : List (ℕ × ℕ) → Outcome → Type 0
IsBalanced pages (done st s freed) =
    (freed ≡ (if is_sent st then [] else pages)) × (s.slot_mutex ≡ false)
IsBalanced pages (stuck s) = Unit

mutex-on_queue :
    (s : State) (port : ℕ) (dir : BulkDir) (f : BulkQueue → BulkQueue)
    → (on_queue s port dir f).slot_mutex ≡ s.slot_mutex
mutex-on_queue s port dir f = elim (Option-cases (s.services port)) [
  | inl e ↦ rw e refl
  | inr (svc, e) ↦ rw e refl
]

after_message-IsBalanced :
    (t : Sent) (port : ℕ) (dir : BulkDir) (b : Bulk)
    → IsBalanced (complete_bulk b) (after_message t port dir b)
unfolding after_message
after_message-IsBalanced (waits_on s) port dir b = tt
after_message-IsBalanced (returns success s) port dir b = (refl, refl)
after_message-IsBalanced (returns error s) port dir b = (refl, refl)
after_message-IsBalanced (returns retry s) port dir b = (refl, refl)

send_bulk-IsBalanced :
    (s : State) (port : ℕ) (req : Request) (b : Bulk) (waits : List Wait)
    → IsBalanced (complete_bulk b) (send_bulk s port req b waits)
unfolding send_bulk
send_bulk-IsBalanced s port req b waits = elim (Option-cases (s.services port)) [
  | inl e ↦ rw e (refl, refl)
  | inr (svc, e) ↦ elim (Bool-cases (in_state svc.srvstate open_)) [
    | inr closed ↦ rw (e, closed) (refl, refl)
    | inl open_now ↦ rw (e, open_now) (after_message-IsBalanced _ port req.dir b)
  ]
]

-- The cell that a transfer was put in frees the page list that was made for it.
stage-created :
    (q : BulkQueue) (mode : BulkMode) (dir : BulkDir) (userdata size dma_addr info : ℕ)
    → let (st, q') = stage q mode dir userdata size (some (dma_addr, info)) in
      (st ≡ success)
      × (complete_bulk (q'.bulks (bulk_index q'.local_insert)) ≡ created (some (dma_addr, info)))
unfolding stage prepare_bulk_data new_bulk complete_bulk
stage-created q mode dir userdata size dma_addr info = (
  refl,
  ap complete_bulk (update_self q.bulks (bulk_index q.local_insert) _)
      ∙ elim (Bool-cases (info == 0)) [ inl e ↦ rw e refl | inr e ↦ rw e refl ],
)

-- However a transfer ends once the bulk mutex is held, its page list is freed exactly where the
-- transfer was not sent, and where it was not made nothing is freed; and the slot mutex, when it was
-- got, is dropped.
pub start_bulk-IsBalanced :
    (s : State) (port : ℕ) (svc : Service) (req : Request) (pagelist : Option (ℕ × ℕ))
    (slot_lock : Option (State → State)) (waits : List Wait)
    → s.slot_mutex ≡ false
    → IsBalanced (created pagelist) (start_bulk s port svc req pagelist slot_lock waits)
unfolding start_bulk stage prepare_bulk_data
start_bulk-IsBalanced s port svc req none slot_lock waits free_mutex = (refl, free_mutex)
start_bulk-IsBalanced s port svc req (some (dma_addr, info)) none waits free_mutex = (
  (stage-created (queue_of req.dir svc) req.mode req.dir req.userdata req.size dma_addr info).1,
  free_mutex,
)
start_bulk-IsBalanced s port svc req (some (dma_addr, info)) (some others) waits free_mutex =
    subst
      (λ pages.
        IsBalanced pages (start_bulk s port svc req (some (dma_addr, info)) (some others) waits))
      (stage-created (queue_of req.dir svc) req.mode req.dir req.userdata req.size dma_addr info).1
      (send_bulk-IsBalanced held port req cell waits)
  where
    staged : BulkQueue
    staged =
        (stage (queue_of req.dir svc) req.mode req.dir req.userdata req.size
          (some (dma_addr, info))).1

    cell : Bulk
    cell = staged.bulks (bulk_index staged.local_insert)

    held : State
    held = record (others (put_service s port (some (with_queue req.dir staged svc)))) {
      slot_mutex = true;
    }
