-- ===== src/Vchiq/Transmit/Failures.antt =====
-- Synchronous messages, with a payload that can be copied and one that cannot.
use dkms_rpi_codec.Base.{
  ℕ, ◌≡◌, refl, ap, ◌∙◌, inl, inr, true, false, not, ◌&&◌, Option, none, some, List, arith, ◌==◌,
  Bool-cases, Option-cases, option_case, update, update_self,
}
use dkms_rpi_codec.Vchiq.Message.{msg_type}
use dkms_rpi_codec.Vchiq.State.{State, Status, error, success, Header}
use dkms_rpi_codec.Vchiq.Copy.{Chunk, Copied, copied, copy_error, copy_message_data}
use dkms_rpi_codec.Vchiq.Transmit.{
  on_stats, count_sent, count_ctrl, count_service_error, unlocked, queue_message_sync,
}

-- The header that the other side finds in the slot for synchronous messages.
abbrev pub sync_header : ℕ → ℕ → List ℕ → Header
sync_header msgid size bytes = record { msgid = msgid; size = size; bytes = bytes }

abbrev counted : State → Option ℕ → ℕ → State
counted s service size =
    option_case service (count_ctrl s) (λ port. on_stats s port (count_sent size))

-- What each outcome of a synchronous message leaves.
abbrev pub SyncOutcome : State → ℕ → ℕ → Copied → Status × State → Type 0
SyncOutcome s msgid size (copied bytes) (st, s') =
    (st ≡ success)
    × (s'.slots s.here.slot_sync 0 ≡ sync_header msgid size bytes)
    × (s'.remote.sync_trigger.fired ≡ true)
    × (s'.sync_mutex ≡ (msg_type msgid == 10))
    × (s'.slot_mutex ≡ s.slot_mutex)
SyncOutcome s msgid size (copy_error e) (st, s') =
    (st ≡ error)
    × (s'.slots ≡ s.slots)
    × (s'.remote.sync_trigger ≡ s.remote.sync_trigger)
    × (s'.sync_mutex ≡ true)
    × (s'.slot_mutex ≡ false)

-- The state with the slot for synchronous messages taken.
abbrev taking : State → State
taking s = record s {
  sync_mutex = true;
  here = record s.here { sync_release = record { armed = false; fired = false } };
}

-- What counting a message leaves as it was.
kept-counted :
    (s : State) (service : Option ℕ) (size : ℕ)
    → ((counted s service size).slot_mutex ≡ s.slot_mutex)
      × ((counted s service size).sync_mutex ≡ s.sync_mutex)
kept-counted s none size = (refl, refl)
kept-counted s (some port) size = elim (Option-cases (s.services port)) [
  | inl e ↦ rw e (refl, refl)
  | inr (svc, e) ↦ rw e (refl, refl)
]

update_twice_self {ℓ} :
    {A : Type ℓ} (m : ℕ → ℕ → A) (i : ℕ) (j : ℕ) (a : A) → update m i (update (m i) j a) i j ≡ a
update_twice_self m i j a =
    ap (λ (row : ℕ → _). row j) (update_self m i (update (m i) j a)) ∙ update_self (m i) j a

-- What a failed copy leaves of a synchronous message.
failed_sync :
    (s : State) (service : Option ℕ) (msgid size e : ℕ)
    → SyncOutcome s msgid size (copy_error e) (
      error,
      option_case service
          (unlocked (taking s))
          (λ port. on_stats (unlocked (taking s)) port count_service_error),
    )
failed_sync s none msgid size e = (refl, refl, refl, refl, refl)
failed_sync s (some port) msgid size e = elim (Option-cases (s.services port)) [
  | inl at ↦ rw at (refl, refl, refl, refl, refl)
  | inr (svc, at) ↦ rw at (refl, refl, refl, refl, refl)
]

-- With the sync mutex taken, a synchronous message whose payload is copied stands in the slot for
-- such messages, the other side is signalled, and the sync mutex is kept for a pause and dropped for
-- any other message. One whose payload cannot be copied reports an error and signals nothing, but
-- keeps the sync mutex for good and drops the slot mutex, which it never took.
pub queue_message_sync_lem :
    (s : State) (service : Option ℕ) (msgid : ℕ) (callback : ℕ → ℕ → Chunk) (size : ℕ)
    → SyncOutcome s msgid size
        (copy_message_data callback size)
        (queue_message_sync s service msgid callback size true)
unfolding queue_message_sync
queue_message_sync_lem s service msgid callback size = go (copy_message_data callback size) refl
  where
    never : (not (msg_type msgid == 11) && not true) ≡ false
    never = ground arith

    go :
        (c : Copied)
        → copy_message_data callback size ≡ c
        → SyncOutcome s msgid size c (queue_message_sync s service msgid callback size true)
    go (copied bytes) e = elim (Bool-cases (msg_type msgid == 10)) [
      | inl pause ↦
          rw (never, e, pause)
            (
              refl,
              update_twice_self (counted (taking s) service size).slots s.here.slot_sync 0 _,
              refl,
              (kept-counted (taking s) service size).1,
              (kept-counted (taking s) service size).0,
            )
      | inr other ↦
          rw (never, e, other)
            (
              refl,
              update_twice_self (counted (taking s) service size).slots s.here.slot_sync 0 _,
              refl,
              refl,
              (kept-counted (taking s) service size).0,
            )
    ]
    go (copy_error x) e = rw (never, e) (failed_sync s service msgid size x)
