-- ===== src/Vchiq/Bulk/Heard.antt =====
-- Who hears of a finished transfer, said apart from `notify_bulks`.
use dkms_rpi_codec.Base.{
  ◌≡◌, refl, ap, inl, inr, Bool, true, false, not, ◌||◌, List, [], ◌∷◌, ◌==◌, if◌then◌else◌,
  Bool-cases,
}
use dkms_rpi_codec.Vchiq.State.{
  Bulk, BulkDir, transmit, receive, Status, success, error, retry, Reason, BulkMode, callback,
  blocking, nocallback, waiting, bulk_transmit_done, bulk_transmit_aborted, bulk_receive_done,
  bulk_receive_aborted,
}
use dkms_rpi_codec.Vchiq.Bulk.{Notice, called, woken, bulk_reason, callback_status, notify_one}

-- Why a callback is called: the direction of the transfer, and whether it was aborted.
abbrev pub end_reason : BulkDir → Bool → Reason
end_reason transmit true = bulk_transmit_aborted
end_reason transmit false = bulk_transmit_done
end_reason receive true = bulk_receive_aborted
end_reason receive false = bulk_receive_done

-- Who hears of a transfer that the other side took part in: one callback for a transfer with a callback,
-- and the waiter, if there is one, for a blocking one. Only a callback can ask for a retry.
abbrev pub heard_as : BulkMode → Bulk → Status → List Notice × Status
heard_as callback b retry =
    (called (end_reason b.dir (b.actual == 0xffff_ffff)) b.userdata ∷ [], retry)
heard_as callback b st =
    (called (end_reason b.dir (b.actual == 0xffff_ffff)) b.userdata ∷ [], success)
heard_as blocking b st = (if b.userdata == 0 then [] else woken b.userdata b.actual ∷ [], success)
heard_as mode b st = ([], success)

-- Nobody hears of a dummy transfer, or of one of a service that is gone.
abbrev pub heard : Bool → Bulk → Status → List Notice × Status
heard alive b st = if b.payload == 0 || not alive then ([], success) else heard_as b.mode b st

-- The code's notice is that one.
pub notify_one-heard :
    (alive : Bool) (b : Bulk) (st : Status) → notify_one alive b st ≡ heard alive b st
unfolding notify_one bulk_reason callback_status
notify_one-heard alive b st = elim (Bool-cases (b.payload == 0)) [
  | inl e ↦ rw e refl
  | inr e ↦ rw e (live alive)
]
  where
    reason_of :
        (d : BulkDir) (t : Bool)
        → elim d [
          | transmit ↦ if t then bulk_transmit_aborted else bulk_transmit_done
          | receive ↦ if t then bulk_receive_aborted else bulk_receive_done
        ]
          ≡ end_reason d t
    reason_of transmit true = refl
    reason_of transmit false = refl
    reason_of receive true = refl
    reason_of receive false = refl

    reason_same : bulk_reason b ≡ end_reason b.dir (b.actual == 0xffff_ffff)
    reason_same = reason_of b.dir (b.actual == 0xffff_ffff)

    by_status :
        (st' : Status)
        → (called (bulk_reason b) b.userdata ∷ [], callback_status st') ≡ heard_as callback b st'
    by_status success = ap (λ r. (called r b.userdata ∷ [], success)) reason_same
    by_status error = ap (λ r. (called r b.userdata ∷ [], success)) reason_same
    by_status retry = ap (λ r. (called r b.userdata ∷ [], retry)) reason_same

    by_mode :
        (m : BulkMode)
        → elim m [
          | blocking ↦ (if b.userdata == 0 then [] else woken b.userdata b.actual ∷ [], success)
          | callback ↦ (called (bulk_reason b) b.userdata ∷ [], callback_status st)
          | nocallback ↦ ([], success)
          | waiting ↦ ([], success)
        ]
          ≡ heard_as m b st
    by_mode blocking = refl
    by_mode callback = by_status st
    by_mode nocallback = refl
    by_mode waiting = refl

    live :
        (a : Bool)
        → (if a
            then elim b.mode [
              | blocking ↦ (if b.userdata == 0 then [] else woken b.userdata b.actual ∷ [], success)
              | callback ↦ (called (bulk_reason b) b.userdata ∷ [], callback_status st)
              | nocallback ↦ ([], success)
              | waiting ↦ ([], success)
            ]
            else ([], success))
          ≡ (if not a then ([], success) else heard_as b.mode b st)
    live true = by_mode b.mode
    live false = refl
