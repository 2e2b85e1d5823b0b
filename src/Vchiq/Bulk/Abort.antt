-- ===== src/Vchiq/Bulk/Abort.antt =====
-- What is left of a bulk queue when its transfers are aborted.
use dkms_rpi_codec.Base.{
  subst, ℕ, zero, suc, max, ◌≡◌, refl, sym, ap, ap₂, ◌∙◌, ◌≢◌, false, ◌&&◌, List, [], ◌∷◌, ◌++◌,
  map, append-nil, append_assoc, arith, ◌==◌, add32, sub32,
}
use dkms_rpi_codec.Vchiq.State.{Bulk, BulkDir, BulkQueue}
use dkms_rpi_codec.Vchiq.Bulk.{bulk_index, abort_one, abort_loop, abort_outstanding_bulks}
use dkms_rpi_codec.Vchiq.Bulk.Window.{window, window-suc}
use dkms_rpi_codec.Vchiq.Bulk.Invariant.{IsQueue, abort_one-IsQueue}
use dkms_rpi_codec.Vchiq.Bulk.Order.{View, view, finished, unfinished, moved, view-moved}

-- A transfer whose other half was never heard of: `abort_outstanding_bulks` makes up an empty one.
abbrev pub unmatched : Bulk → Bulk
unmatched b = record b { remote_data = 0; remote_size = 0 }

abort_one_lem :
    (dir : BulkDir) (q : BulkQueue)
    → IsQueue q
    → q.process ≢ q.local_insert
    → abort_one dir q ≡ (moved q (unmatched (q.bulks (bulk_index q.process))), [])
unfolding abort_one
abort_one_lem dir q v ne = ground arith

not_done :
    (q : BulkQueue)
    → q.process ≢ q.local_insert
    → ((q.process == q.local_insert) && (q.process == q.remote_insert)) ≡ false
not_done q ne = ground arith

abort_loop-suc :
    (n : ℕ) (dir : BulkDir) (q : BulkQueue)
    → IsQueue q
    → q.process ≢ q.local_insert
    → abort_loop (suc n) dir q
      ≡ abort_loop n dir (moved q (unmatched (q.bulks (bulk_index q.process))))
unfolding abort_loop
abort_loop-suc n dir q v ne = rw (not_done q ne, abort_one_lem dir q v ne)

moved-IsQueue :
    (dir : BulkDir) (q : BulkQueue)
    → IsQueue q
    → q.process ≢ q.local_insert
    → IsQueue (moved q (unmatched (q.bulks (bulk_index q.process))))
moved-IsQueue dir q v ne =
    subst (λ r. IsQueue r.0) (abort_one_lem dir q v ne) (abort_one-IsQueue dir q v ne)

-- What the loop does to a queue of `n` unfinished transfers.
pub record IsAborted (q q' : BulkQueue) (freed : List (ℕ × ℕ)) : Type 0 where
  pub valid : IsQueue q'
  pub at_end : q'.process ≡ q.local_insert
  pub kept : (q'.local_insert ≡ q.local_insert) × (q'.remove ≡ q.remove)
  pub views : view q' ≡ (finished q ++ map unmatched (unfinished q), [])
  pub none_freed : freed ≡ []

pair : List Bulk → List Bulk → View
pair a c = (a, c)

module _ (q : BulkQueue) (n : ℕ) (v : IsQueue q) (e : sub32 q.local_insert q.process ≡ suc n) where
  oldest : Bulk
  oldest = q.bulks (bulk_index q.process)

  rest : List Bulk
  rest = window q.bulks (add32 q.process 1) n

  unfinished-eq-cons : unfinished q ≡ oldest ∷ rest
  unfolding oldest rest
  unfinished-eq-cons = window-suc q.bulks q.process (sub32 q.local_insert q.process) n e

  -- The rest of the loop, after one round.
  IsAborted-moved :
      (q' : BulkQueue) (freed : List (ℕ × ℕ))
      → IsAborted (moved q (unmatched oldest)) q' freed
      → IsAborted q q' freed
  unfolding pair rest
  IsAborted-moved q' freed a = record {
    valid = a.valid;
    at_end = a.at_end;
    kept = a.kept;
    views = a.views ∙ ap (λ (t : List Bulk). pair t []) joined;
    none_freed = a.none_freed;
  }
    where
      m : BulkQueue
      m = moved q (unmatched oldest)

      seen : view m ≡ (finished q ++ unmatched oldest ∷ [], rest)
      seen = view-moved q (unmatched oldest) n v e

      joined :
          finished m ++ map unmatched (unfinished m) ≡ finished q ++ map unmatched (unfinished q)
      joined =
          ap (λ (p : View). p.0 ++ map unmatched p.1) seen
          ∙ append_assoc (finished q) (unmatched oldest ∷ []) (map unmatched rest)
          ∙ ap (λ (t : List Bulk). finished q ++ map unmatched t) (sym unfinished-eq-cons)

abort_loop-IsAborted :
    (n : ℕ) (dir : BulkDir) (q : BulkQueue)
    → IsQueue q
    → sub32 q.local_insert q.process ≡ n
    → IsAborted q (abort_loop n dir q).0 (abort_loop n dir q).1
unfolding abort_loop pair oldest
abort_loop-IsAborted zero dir q v e = record {
  valid = v;
  at_end = omega arith;
  kept = (refl, refl);
  views =
      ap₂ pair
        (sym (append-nil (finished q))
          ∙ ap (λ (t : List Bulk). finished q ++ map unmatched t) (sym gone))
        gone;
  none_freed = refl;
}
  where
    gone : unfinished q ≡ []
    gone = ap (window q.bulks q.process) e
abort_loop-IsAborted (suc n) dir q v e =
    subst (λ r. IsAborted q r.0 r.1) (sym (unfold abort_loop in abort_loop-suc n dir q v ne))
      (IsAborted-moved q n v e _ _ (
        abort_loop-IsAborted n dir (moved q (unmatched (q.bulks (bulk_index q.process))))
          (moved-IsQueue dir q v ne) (omega arith)))
  where
    ne : q.process ≢ q.local_insert
    ne = omega arith

-- Aborting ends: it finishes every unfinished transfer, in order and after those that were finished
-- already, submits and removes none, and keeps the queue well formed. Each transfer it finishes has
-- lost its `remote_data` before `vchiq_complete_bulk` sees it, so no page list is freed.
pub abort_outstanding_bulks_lem :
    (dir : BulkDir) (q : BulkQueue)
    → IsQueue q
    → let (q', freed) = abort_outstanding_bulks dir q in IsAborted q q' freed
unfolding abort_outstanding_bulks
abort_outstanding_bulks_lem dir q v =
    subst (λ k. IsAborted q (abort_loop k dir q).0 (abort_loop k dir q).1) enough
      (abort_loop-IsAborted (sub32 q.local_insert q.process) dir q v refl)
  where
    enough :
        sub32 q.local_insert q.process
        ≡ max (sub32 q.local_insert q.process) (sub32 q.remote_insert q.process)
    enough = omega arith
