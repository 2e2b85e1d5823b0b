-- ===== src/Vchiq/Transmit/Charge.antt =====
-- What a data message that is sent takes of its service's quota.
use dkms_rpi_codec.Base.{
  ℕ, ◌+◌, ◌^◌, ◌≤◌, ◌<◌, ◌≡◌, refl, sym, ap, ◌∙◌, subst, inl, inr, Bool, true, false, Option, none,
  some, List, arith, ◌==◌, Bool-cases, Option-cases, option_case, update_self, sub32,
}
use dkms_rpi_codec.Vchiq.Message.{calc_stride, slot_size}
use dkms_rpi_codec.Vchiq.Message.Stride.{calc_stride-eq-div}
use dkms_rpi_codec.Vchiq.State.{
  put_quota, ServiceStats, SrvState, State, retry, Quota, success, slot_queue_index,
}
use dkms_rpi_codec.Vchiq.Service.{set_service_state}
use dkms_rpi_codec.Vchiq.Copy.{Chunk, Copied, copied, copy_error, copy_message_data}
use dkms_rpi_codec.Vchiq.Reserve.{Wait, Place, reserve_space}
use dkms_rpi_codec.Vchiq.Reserve.Place.{reserve_space-IsPlace}
use dkms_rpi_codec.Vchiq.Reserve.Quotas.{OnResumed, quotas-reserve_space}
use dkms_rpi_codec.Vchiq.Transmit.Quotas.{InQuota, Fits, charge_quota-InQuota, end-start_pos}
use dkms_rpi_codec.Vchiq.Transmit.{
  count_no_slot, Flags, tx_end_index, charge_quota, count_data_slot, count_sent, charge, publish,
  Sent, returns, waits_on, send_at, reserve_and_send, on_stats, next_wait, is_message, is_close,
  release_unless,
}

quotas-on_stats :
    (s : State) (port : ℕ) (f : ServiceStats → ServiceStats)
    → (on_stats s port f).service_quotas ≡ s.service_quotas
quotas-on_stats s port f = elim (Option-cases (s.services port)) [
  | inl e ↦ rw e
  | inr (svc, e) ↦ rw e
]

quotas-count_data_slot : (s : State) → (count_data_slot s).service_quotas ≡ s.service_quotas
unfolding count_data_slot
quotas-count_data_slot s =
    elim (Bool-cases (slot_queue_index (sub32 s.local_tx_pos 1) == s.previous_data_index)) [
      | inl e ↦ rw e
      | inr e ↦ rw e
    ]

quotas-set_service_state :
    (s : State) (port : ℕ) (st : SrvState)
    → (set_service_state s port st).service_quotas ≡ s.service_quotas
unfolding set_service_state
quotas-set_service_state s port st = elim (Option-cases (s.services port)) [
  | inl e ↦ rw e
  | inr (svc, e) ↦ rw e
]

quotas-charge :
    (s : State) (port size : ℕ)
    → (charge s port size).service_quotas port
      ≡ charge_quota (slot_queue_index (sub32 s.local_tx_pos 1)) (s.service_quotas port)
unfolding charge
quotas-charge s port size =
    ap at_port (quotas-on_stats (count_data_slot (put_quota s port q)) port (count_sent size))
    ∙ ap at_port (quotas-count_data_slot (put_quota s port q))
    ∙ update_self s.service_quotas port q
  where
    q : Quota
    q = charge_quota (slot_queue_index (sub32 s.local_tx_pos 1)) (s.service_quotas port)

    at_port : (ℕ → Quota) → Quota
    at_port qs = qs port

quotas-publish :
    (s : State) (port msgid : ℕ) (place : Place) (size : ℕ) (bytes : List ℕ) (flags : Flags)
    → is_message msgid ≡ true
    → (publish s (some port) msgid place size bytes flags).service_quotas ≡ s.service_quotas
unfolding publish
quotas-publish s port msgid place size bytes flags data_msg =
    elim (Bool-cases flags.no_mutex_unlock) [
      | inl held ↦ rw (held, open_msg) refl
      | inr dropped ↦ rw (dropped, open_msg) refl
    ]
  where
    open_msg : is_close msgid ≡ false
    open_msg = ground arith

-- Where the position is after a place is reserved, and what fits there.
reserved-Fits :
    (s s₁ : State) (port size : ℕ) (is_blocking : Bool) (wait : Wait) (at : Place)
    → s.local_tx_pos < 2 ^ 32
    → size + 8 ≤ slot_size
    → Fits (tx_end_index s (calc_stride size)) (s.service_quotas port)
    → OnResumed (λ qs. Fits (tx_end_index s (calc_stride size)) (qs port)) wait
    → reserve_space s (calc_stride size) is_blocking wait ≡ (some at, s₁)
    → Fits (slot_queue_index (sub32 s₁.local_tx_pos 1)) (s₁.service_quotas port)
reserved-Fits s s₁ port size is_blocking wait at word fits h hw e =
    subst (λ end. Fits end (s₁.service_quotas port)) (sym same_end)
      (subst (λ (p : State). Fits (tx_end_index s (calc_stride size)) (p.service_quotas port))
        (ap state_of e)
        (quotas-reserve_space (λ qs. Fits (tx_end_index s (calc_stride size)) (qs port)) s
          (calc_stride size) is_blocking wait at h hw (ap place_of e)))
  where
    state_of : Option Place × State → State
    state_of p = p.1

    place_of : Option Place × State → Option Place
    place_of p = p.0

    same_end : slot_queue_index (sub32 s₁.local_tx_pos 1) ≡ tx_end_index s (calc_stride size)
    same_end =
        ap (λ (t : ℕ). slot_queue_index (sub32 t 1))
          (reserve_space-IsPlace s (calc_stride size) is_blocking wait at s₁ e).advanced
        ∙ end-start_pos s.local_tx_pos (calc_stride size) word
            (omega (arith, calc_stride-eq-div size)) (omega (arith, calc_stride-eq-div size))

succeeded : Sent → Bool
succeeded (returns success s) = true
succeeded t = false

-- How a data message at a reserved place ends.
send_at-InQuota :
    (s₁ s' : State) (port msgid size : ℕ) (callback : ℕ → ℕ → Chunk) (flags : Flags) (at : Place)
    → is_message msgid ≡ true
    → Fits (slot_queue_index (sub32 s₁.local_tx_pos 1)) (s₁.service_quotas port)
    → (c : Copied) → copy_message_data callback size ≡ c
    → send_at s₁ (some port) msgid callback size flags at ≡ returns success s'
    → InQuota (s'.service_quotas port)
unfolding send_at succeeded
send_at-InQuota s₁ s' port msgid size callback flags at data_msg h (copy_error x) c e =
    absurd (cc (ap succeeded (rw (data_msg, c) at e)))
send_at-InQuota s₁ s' port msgid size callback flags at data_msg h (copied bytes) c e =
    subst (λ (t : State). InQuota (t.service_quotas port)) (ap state_of (rw (data_msg, c) at e))
      (subst (λ (q : Quota). InQuota q) (sym kept) (charge_quota-InQuota _ _ h))
  where
    state_of : Sent → State
    state_of (returns st s) = s
    state_of (waits_on s) = s

    kept :
        (publish (charge s₁ port size) (some port) msgid at size bytes flags).service_quotas port
        ≡ charge_quota (slot_queue_index (sub32 s₁.local_tx_pos 1)) (s₁.service_quotas port)
    kept =
        ap (λ (qs : ℕ → Quota). qs port)
          (quotas-publish (charge s₁ port size) port msgid at size bytes flags data_msg)
        ∙ quotas-charge s₁ port size

-- A data message of up to a slot that fits in its service's quotas, at the start and at the end of a
-- wait for a slot, leaves no more in use than the quotas allow, however the slot is padded and
-- wherever the stream position wraps.
pub reserve_and_send_lem :
    (s s' : State) (port msgid size : ℕ) (callback : ℕ → ℕ → Chunk) (flags : Flags)
    (waits : List Wait)
    → is_message msgid ≡ true
    → s.local_tx_pos < 2 ^ 32
    → size + 8 ≤ slot_size
    → Fits (tx_end_index s (calc_stride size)) (s.service_quotas port)
    → OnResumed
        (λ qs. Fits (tx_end_index s (calc_stride size)) (qs port))
        (next_wait s (calc_stride size) waits)
    → reserve_and_send s (some port) msgid callback size flags waits ≡ returns success s'
    → InQuota (s'.service_quotas port)
unfolding reserve_and_send succeeded
reserve_and_send_lem s s' port msgid size callback flags waits data_msg word fits h hw e =
    go _ _ refl e
  where
    reserving : Option Place × State
    reserving =
        reserve_space s (calc_stride size) flags.is_blocking (next_wait s (calc_stride size) waits)

    go :
        (place : Option Place) (s₁ : State)
        → reserving ≡ (place, s₁)
        → option_case place
            (returns retry (release_unless flags.no_mutex_lock (count_no_slot s₁ (some port))))
            (λ at. send_at s₁ (some port) msgid callback size flags at)
          ≡ returns success s'
        → InQuota (s'.service_quotas port)
    go none s₁ r e' = absurd (cc (ap succeeded e'))
    go (some at) s₁ r e' =
        send_at-InQuota s₁ s' port msgid size callback flags at data_msg
          (reserved-Fits s s₁ port size flags.is_blocking (next_wait s (calc_stride size) waits) at
            word fits h hw r)
          (copy_message_data callback size) refl e'
