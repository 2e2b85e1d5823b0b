-- ===== src/Vchiq/Bulk/Notify.antt =====
-- What `notify_bulks` tells the client, in terms of the list of finished transfers.
use dkms_rpi_codec.Base.{
  ℕ, zero, suc, ◌+◌, ◌^◌, ◌<◌, ◌≡◌, refl, ap, ◌∙◌, fun_ext, subst, inl, inr, Bool, true, not, List,
  [], ◌∷◌, ◌++◌, arith, ◌==◌, if◌then◌else◌, Bool-cases, add32, sub32,
}
use dkms_rpi_codec.Vchiq.State.{
  Bulk, BulkDir, transmit, receive, BulkQueue, Service, ServiceStats, Status, success, retry,
}
use dkms_rpi_codec.Vchiq.Bulk.{
  bulk_index, Notice, notify_one, notify_loop, notify_bulks, Notified, is_retry, counted, queue_of,
  prepend,
}
use dkms_rpi_codec.Vchiq.Bulk.Heard.{heard, notify_one-heard}
use dkms_rpi_codec.Vchiq.Bulk.Window.{window}
use dkms_rpi_codec.Vchiq.Bulk.Invariant.{IsQueue}
use dkms_rpi_codec.Vchiq.Bulk.Order.{finished, unfinished}

-- What a finished transfer gives: its notices, and whether the loop goes on.
abbrev pub Telling : Type 0
Telling = Bulk → Status → List Notice × Status

-- Finished transfers give their notices one after another; the first one that asks for a retry stays,
-- with all that follow it. `c` is the counter of the first.
pub deliver : Telling → (ℕ → Status) → ℕ → List Bulk → List Notice × List Bulk × Status
deliver tell answer c [] = ([], [], success)
deliver tell answer c (b ∷ bs) =
    let (notes, st) = tell b (answer c) in
    let (later, kept, end) = deliver tell answer (add32 c 1) bs in
    if is_retry st then (notes, b ∷ bs, retry) else (notes ++ later, kept, end)

-- How far a loop over `left` transfers came from counter `c`.
record IsDelivered (bulks : ℕ → Bulk) (c left signals : ℕ) (d : List Notice × List Bulk × Status)
    (n : Notified) : Type 0 where
  notices : n.notices ≡ d.0
  result : n.result ≡ d.2
  gone : ℕ
  kept : ℕ
  split : gone + kept ≡ left
  removed : n.removed ≡ add32 c gone
  signalled : n.signals ≡ signals + gone
  still : window bulks n.removed kept ≡ d.1

notify_loop-IsDelivered :
    (left : ℕ) (bulks : ℕ → Bulk) (alive : Bool) (answer : ℕ → Status) (c signals : ℕ)
    (st : ServiceStats)
    → c < 2 ^ 32
    → IsDelivered bulks c left signals
        (deliver (notify_one alive) answer c (window bulks c left))
        (notify_loop left bulks alive answer c signals st)
unfolding notify_loop deliver
notify_loop-IsDelivered zero bulks alive answer c signals st h = record {
  notices = refl;
  result = refl;
  gone = 0;
  kept = 0;
  split = refl;
  removed = omega arith;
  signalled = omega arith;
  still = refl;
}
notify_loop-IsDelivered (suc left) bulks alive answer c signals st h =
    elim (Bool-cases (is_retry (notify_one alive (bulks (bulk_index c)) (answer c)).1)) [
      | inl stop ↦ rw stop (record {
        notices = refl;
        result = refl;
        gone = 0;
        kept = suc left;
        split = omega arith;
        removed = omega arith;
        signalled = omega arith;
        still = refl;
      })
      | inr more ↦ rw more (
          next (
            notify_loop-IsDelivered left bulks alive answer (add32 c 1) (signals + 1)
              (counted alive st (bulks (bulk_index c))) (omega arith)))
    ]
  where
    notes : List Notice
    notes = (notify_one alive (bulks (bulk_index c)) (answer c)).0

    next :
        {d : List Notice × List Bulk × Status} {n : Notified}
        → IsDelivered bulks (add32 c 1) left (signals + 1) d n
        → IsDelivered bulks c (suc left) signals (notes ++ d.0, d.1, d.2) (prepend notes n)
    next g = record {
      notices = ap (◌++◌ notes) g.notices;
      result = g.result;
      gone = suc g.gone;
      kept = g.kept;
      split = omega arith;
      removed = omega arith;
      signalled = omega arith;
      still = g.still;
    }

-- What a service's queue holds after `notify_bulks`, given what was delivered of it.
pub record IsNotified (dir : BulkDir) (s s' : Service) (d : List Notice × List Bulk × Status)
    (notices : List Notice) (st : Status) : Type 0 where
  pub valid : IsQueue (queue_of dir s')
  pub told : notices ≡ d.0
  pub status : st ≡ d.2
  pub still_finished : finished (queue_of dir s') ≡ d.1
  pub same_unfinished : unfinished (queue_of dir s') ≡ unfinished (queue_of dir s)

abbrev pub delivered : BulkDir → (ℕ → Status) → Service → List Notice × List Bulk × Status
delivered dir answer s =
    deliver (heard (not (s.inst == 0))) answer (queue_of dir s).remove (finished (queue_of dir s))

notify-IsQueue :
    (q : BulkQueue) (n : Notified) (signals : ℕ) (d : List Notice × List Bulk × Status)
    → IsQueue q
    → IsDelivered q.bulks q.remove (sub32 q.process q.remove) signals d n
    → let q' = record q { remote_notify = q.process; remove = n.removed } in
      IsQueue q' × (finished q' ≡ d.1)
notify-IsQueue q n signals d v g =
    (ground arith, ap (window q.bulks n.removed) {y = g.kept} (omega arith) ∙ g.still)

abbrev run_of : BulkDir → (ℕ → Status) → Service → Notified
run_of dir answer s =
    let q = queue_of dir s in
    notify_loop (sub32 q.process q.remove) q.bulks (not (s.inst == 0)) answer q.remove
      s.bulk_remove_event s.stats

run_of-IsDelivered :
    (dir : BulkDir) (answer : ℕ → Status) (s : Service)
    → IsQueue (queue_of dir s)
    → let q = queue_of dir s in
      IsDelivered q.bulks q.remove
        (sub32 q.process q.remove)
        s.bulk_remove_event
        (delivered dir answer s)
        (run_of dir answer s)
run_of-IsDelivered dir answer s v =
    subst
      (λ (tell : Telling).
        IsDelivered (queue_of dir s).bulks (queue_of dir s).remove
          (sub32 (queue_of dir s).process (queue_of dir s).remove) s.bulk_remove_event
          (deliver tell answer (queue_of dir s).remove (finished (queue_of dir s)))
          (run_of dir answer s))
      (fun_ext λ b. fun_ext λ st. notify_one-heard (not (s.inst == 0)) b st)
      (notify_loop-IsDelivered _ (queue_of dir s).bulks (not (s.inst == 0)) answer
        (queue_of dir s).remove s.bulk_remove_event s.stats v.remove_word)

left-IsQueue :
    (dir : BulkDir) (answer : ℕ → Status) (s : Service)
    → IsQueue (queue_of dir s)
    → let q' = record (queue_of dir s) {
      remote_notify = (queue_of dir s).process;
      remove = (run_of dir answer s).removed;
    } in
      IsQueue q' × (finished q' ≡ (delivered dir answer s).1)
left-IsQueue dir answer s v =
    notify-IsQueue (queue_of dir s) (run_of dir answer s) s.bulk_remove_event
      (delivered dir answer s) v (run_of-IsDelivered dir answer s v)

-- With a well-formed queue, `notify_bulks` tells of the finished transfers in order, up to the first
-- whose callback asks for a retry; it removes exactly those before that one, reports the retry, and
-- touches no unfinished transfer. Each one gives one call of the callback, with its direction and
-- whether it was aborted, or wakes its one waiter, as its mode says, and a dummy transfer, one without
-- a waiter and one of a service that is gone give nothing.
pub notify_bulks_lem :
    (dir : BulkDir) (answer : ℕ → Status) (s : Service)
    → IsQueue (queue_of dir s)
    → let (s', notices, st) = notify_bulks dir true answer s in
      IsNotified dir s s' (delivered dir answer s) notices st
unfolding notify_bulks
notify_bulks_lem transmit answer s v = record {
  valid = (left-IsQueue transmit answer s v).0;
  told = (run_of-IsDelivered transmit answer s v).notices;
  status = (run_of-IsDelivered transmit answer s v).result;
  still_finished = (left-IsQueue transmit answer s v).1;
  same_unfinished = refl;
}
notify_bulks_lem receive answer s v = record {
  valid = (left-IsQueue receive answer s v).0;
  told = (run_of-IsDelivered receive answer s v).notices;
  status = (run_of-IsDelivered receive answer s v).result;
  still_finished = (left-IsQueue receive answer s v).1;
  same_unfinished = refl;
}
