-- ===== src/Vchiq/Transmit/Await.antt =====
-- What the two loops of `queue_message` wait for.
use dkms_rpi_codec.Base.{
  ℕ, ◌≡◌, inl, inr, Bool, true, false, ◌||◌, List, [], ◌∷◌, ltb, ◌==◌, Bool-cases,
}
use dkms_rpi_codec.Vchiq.State.{State, Quota}
use dkms_rpi_codec.Vchiq.Reserve.{Wait, interrupted, resumed}
use dkms_rpi_codec.Vchiq.Transmit.Quotas.{InQuota, Fits, OnWaits, OnPass, over_service_quota-Fits}
use dkms_rpi_codec.Vchiq.Transmit.{
  tx_end_index, Passage, pass, stop, blocked, over_data_quota, await_data_quota, over_service_quota,
  await_service_quota, await_quotas, relocked, is_open, is_closing,
}

module _ (P : (ℕ → Quota) → Type 0) where
  -- What is known where a check passes.
  Kept : State → List Wait → Type 0
  Kept s waits = P s.service_quotas × OnWaits P waits

  await_data_quota-OnPass :
      (s : State) (stride : ℕ) (waits : List Wait)
      → P s.service_quotas
      → OnWaits P waits
      → OnPass Kept (await_data_quota s stride waits)
  unfolding await_data_quota Kept
  await_data_quota-OnPass s stride [] h hw = elim (Bool-cases (over_data_quota s stride)) [
    | inl over ↦ rw over tt
    | inr free ↦ rw free (h, tt)
  ]
  await_data_quota-OnPass s stride (interrupted s' ∷ waits) h hw =
      elim (Bool-cases (over_data_quota s stride)) [
        | inl over ↦ rw over tt
        | inr free ↦ rw free (h, hw)
      ]
  await_data_quota-OnPass s stride (resumed s' ∷ waits) h hw =
      elim (Bool-cases (over_data_quota s stride)) [
        | inr free ↦ rw free (h, hw)
        | inl over ↦
            elim (Bool-cases (
              (tx_end_index s' stride == s'.previous_data_index)
              || ltb s'.data_use_count s'.data_quota)) [
                | inl enough ↦ rw (over, enough) hw
                | inr more ↦
                    rw (over, more) (await_data_quota-OnPass (relocked s') stride waits hw.0 hw.1)
              ]
      ]

  -- What is known where the second check passes.
  Free : ℕ → ℕ → State → List Wait → Type 0
  Free port stride s waits =
      P s.service_quotas × (over_service_quota s stride (s.service_quotas port) ≡ false)

  over : State → ℕ → ℕ → Bool
  over s port stride = over_service_quota s stride (s.service_quotas port)

  await_service_quota-Free :
      (s : State) (port stride : ℕ) (waits : List Wait)
      → P s.service_quotas
      → over s port stride ≡ false
      → OnPass (Free port stride) (await_service_quota s port stride waits)
  unfolding await_service_quota Free over
  await_service_quota-Free s port stride [] h free = rw free (h, free)
  await_service_quota-Free s port stride (interrupted s' ∷ ws) h free = rw free (h, free)
  await_service_quota-Free s port stride (resumed s' ∷ []) h free = rw free (h, free)
  await_service_quota-Free s port stride (resumed s' ∷ interrupted s'' ∷ ws) h free =
      rw free (h, free)
  await_service_quota-Free s port stride (resumed s' ∷ resumed s'' ∷ ws) h free = rw free (h, free)

  await_service_quota_round :
      (s s' s'' : State) (port stride : ℕ) (ws : List Wait)
      → over s port stride ≡ true
      → OnPass (Free port stride) (await_service_quota (relocked s'') port stride ws)
      → OnPass
          (Free port stride)
          (await_service_quota s port stride (resumed s' ∷ resumed s'' ∷ ws))
  unfolding await_service_quota Free over
  await_service_quota_round s s' s'' port stride ws full again =
      elim (Bool-cases (is_closing s' port)) [
        | inl closing ↦ rw (full, closing) tt
        | inr going ↦ elim (Bool-cases (is_open s'' port)) [
          | inr closed ↦ rw (full, going, closed) tt
          | inl still ↦ rw (full, going, still) again
        ]
      ]

  await_service_quota_cut :
      (s s' : State) (port stride : ℕ)
      → over s port stride ≡ true
      → OnPass (Free port stride) (await_service_quota s port stride (resumed s' ∷ []))
  unfolding await_service_quota Free over
  await_service_quota_cut s s' port stride full = elim (Bool-cases (is_closing s' port)) [
    | inl closing ↦ rw (full, closing) tt
    | inr going ↦ rw (full, going) tt
  ]

  await_service_quota_killed :
      (s s' s'' : State) (port stride : ℕ) (ws : List Wait)
      → over s port stride ≡ true
      → OnPass
          (Free port stride)
          (await_service_quota s port stride (resumed s' ∷ interrupted s'' ∷ ws))
  unfolding await_service_quota Free over
  await_service_quota_killed s s' s'' port stride ws full = elim (Bool-cases (is_closing s' port)) [
    | inl closing ↦ rw (full, closing) tt
    | inr going ↦ rw (full, going) tt
  ]

  await_service_quota-OnPass :
      (s : State) (port stride : ℕ) (waits : List Wait)
      → P s.service_quotas
      → OnWaits P waits
      → OnPass (Free port stride) (await_service_quota s port stride waits)
  unfolding await_service_quota Free over
  await_service_quota-OnPass s port stride [] h hw = elim (Bool-cases (over s port stride)) [
    | inr free ↦ await_service_quota-Free s port stride [] h free
    | inl full ↦ rw full tt
  ]
  await_service_quota-OnPass s port stride (interrupted s' ∷ ws) h hw =
      elim (Bool-cases (over s port stride)) [
        | inr free ↦ await_service_quota-Free s port stride (interrupted s' ∷ ws) h free
        | inl full ↦ rw full tt
      ]
  await_service_quota-OnPass s port stride (resumed s' ∷ []) h hw =
      elim (Bool-cases (over s port stride)) [
        | inr free ↦ await_service_quota-Free s port stride (resumed s' ∷ []) h free
        | inl full ↦ await_service_quota_cut s s' port stride full
      ]
  await_service_quota-OnPass s port stride (resumed s' ∷ interrupted x ∷ ws) h hw =
      elim (Bool-cases (over s port stride)) [
        | inr free ↦ await_service_quota-Free s port stride (resumed s' ∷ interrupted x ∷ ws) h free
        | inl full ↦ await_service_quota_killed s s' x port stride ws full
      ]
  await_service_quota-OnPass s port stride (resumed s' ∷ resumed x ∷ ws) h hw =
      elim (Bool-cases (over s port stride)) [
        | inr free ↦ await_service_quota-Free s port stride (resumed s' ∷ resumed x ∷ ws) h free
        | inl full ↦
            await_service_quota_round s s' x port stride ws full
              (await_service_quota-OnPass (relocked x) port stride ws hw.1.0 hw.1.1)
      ]

module _ (port stride : ℕ) where
  abbrev QuotaKept : (ℕ → Quota) → Type 0
  QuotaKept qs = InQuota (qs port)

  -- What passing both loops gives.
  abbrev pub Room : State → List Wait → Type 0
  Room s waits = Fits (tx_end_index s stride) (s.service_quotas port)

  Room-Free : (c : Passage) → OnPass (Free QuotaKept port stride) c → OnPass Room c
  unfolding Free
  Room-Free (pass s waits) h = over_service_quota-Fits s stride (s.service_quotas port) h.0 h.1
  Room-Free (stop st s) h = tt
  Room-Free (blocked s) h = tt

  -- However long the two loops wait, and whatever other threads do in the meantime short of using more
  -- of the service's quota than there is, a data message that passes them fits in the service's
  -- message quota and in its slot quota.
  pub await_quotas_lem :
      (s : State) (waits : List Wait)
      → InQuota (s.service_quotas port)
      → OnWaits (λ qs. InQuota (qs port)) waits
      → OnPass Room (await_quotas s port stride waits)
  unfolding await_quotas Kept
  await_quotas_lem s waits h hw =
      go (await_data_quota s stride waits) (await_data_quota-OnPass QuotaKept s stride waits h hw)
    where
      go :
          (c : Passage)
          → OnPass (Kept QuotaKept) c
          → OnPass Room (elim c [
            | pass s' rest ↦ await_service_quota s' port stride rest
            | stop st s' ↦ stop st s'
            | blocked s' ↦ blocked s'
          ])
      go (pass s' rest) k =
          Room-Free _ (await_service_quota-OnPass QuotaKept s' port stride rest k.0 k.1)
      go (stop st s') k = tt
      go (blocked s') k = tt
