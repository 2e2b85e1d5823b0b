-- ===== src/Vchiq/Register/Add.antt =====
-- That `vchiq_add_service_internal` keeps the table well formed and that its handle finds the service.
use dkms_rpi_codec.Base.{
  ℕ, ◌+◌, ◌*◌, ◌/◌, ◌%◌, ◌^◌, ◌≤◌, ◌<◌, bit_or, ◌≡◌, refl, sym, ap, ap₂, ◌∙◌, subst, ◌⊎◌, inl, inr,
  true, false, Option, none, some, some-injective, arith, bit_or_disjoint, ◌==◌, if◌then◌else◌,
  ==_iff, Bool-cases, Option-cases, update, update_self, add32,
}
use dkms_rpi_codec.Vchiq.State.{free, State, Service, SrvState, in_state, max_services}
use dkms_rpi_codec.Vchiq.Service.{take_ref, find_service_by_handle}
use dkms_rpi_codec.Vchiq.Register.{
  Params, Fresh, place_for, new_service, live_seq, start_quota, add_service_internal,
}
use dkms_rpi_codec.Vchiq.Service.Table.{find_service_by_handle_lem, HasHandle, IsEntry, IsTable}
use dkms_rpi_codec.Vchiq.Register.Place.{place_for-empty}

live_seq_aligned :
    (s : State) → IsTable s → (live_seq s.handle_seq % 4096 ≡ 0) × (live_seq s.handle_seq < 2 ^ 32)
unfolding live_seq
live_seq_aligned s t = elim (Bool-cases (s.handle_seq == 0)) [
  | inl e ↦ rw e (omega arith)
  | inr e ↦ rw e (t.seq_aligned, t.seq_word)
]

-- The handle has its port in its low twelve bits and the sequence number above them.
handle-eq-sum : (seq port : ℕ) → seq % 4096 ≡ 0 → port < 4096 → bit_or seq port ≡ seq + port
handle-eq-sum seq port a h =
    ap (λ (t : ℕ). bit_or t port) {y = seq / 4096 * 2 ^ 12} (omega arith)
    ∙ bit_or_disjoint 12 (seq / 4096) port (omega arith)
    ∙ omega arith

module _ (s : State) (params : Params) (st : SrvState) (inst : ℕ) (fresh : Fresh) (t : IsTable s)
    (alive : in_state st free ≡ false) where
  -- The service that is added at a port.
  abbrev pub added : ℕ → Service
  added port = new_service params st inst fresh port (bit_or (live_seq s.handle_seq) port)

  -- The state with that service.
  abbrev pub with_added : ℕ → State
  with_added port = record s {
    services = update s.services port (some (added port));
    handle_seq = add32 (live_seq s.handle_seq) max_services;
    unused_service = if port == s.unused_service then s.unused_service + 1 else s.unused_service;
    service_quotas = update s.service_quotas port (start_quota s (s.service_quotas port));
  }

  handle-added : (port : ℕ) → port < 4096 → (added port).handle % 4096 ≡ port
  unfolding new_service
  handle-added port h = omega (
    arith,
    handle-eq-sum (live_seq s.handle_seq) port (live_seq_aligned s t).0 h,
    live_seq_aligned s t,
  )

  more_used : (port p : ℕ) → p < s.unused_service → p < (with_added port).unused_service
  more_used port p h = ground arith

  added-IsEntry :
      (port : ℕ)
      → port ≤ s.unused_service
      → port < max_services
      → IsEntry (with_added port) port (added port)
  unfolding new_service
  added-IsEntry port le lt = (refl, ground arith, omega arith, handle-added port lt)

  with_added-IsTable :
      (port : ℕ) → port ≤ s.unused_service → port < max_services → IsTable (with_added port)
  with_added-IsTable port le lt = record {
    entries = λ p svc h. elim (Bool-cases (port == p)) [
      | inl same ↦ here p svc same (rw same at h)
      | inr other ↦ there p svc (t.entries p svc (rw other at h))
    ];
    bounded = ground (arith, t.bounded);
    seq_aligned = omega (arith, live_seq_aligned s t);
    seq_word = omega arith;
  }
    where
      here :
          (p : ℕ) (svc : Service)
          → (port == p) ≡ true
          → some (added port) ≡ some svc
          → IsEntry (with_added port) p svc
      here p svc same h =
          subst (λ o. IsEntry (with_added port) p o) (some-injective _ _ h)
            (subst (λ k. IsEntry (with_added port) k (added port)) ((==_iff port p).0 same)
              (added-IsEntry port le lt))

      there : (p : ℕ) (svc : Service) → IsEntry s p svc → IsEntry (with_added port) p svc
      there p svc e = (e.0, more_used port p e.1, e.2, e.3)

  added-HasHandle : (port : ℕ) → HasHandle (with_added port) (added port).handle port (added port)
  unfolding new_service
  added-HasHandle port = record {
    stands = update_self s.services port (some (added port));
    live = alive;
    matches = refl;
  }

  found_by_handle :
      (port : ℕ)
      → port ≤ s.unused_service
      → port < max_services
      → find_service_by_handle (with_added port) (added port).handle
        ≡ (some port, take_ref (with_added port) port (added port))
  found_by_handle port le lt =
      elim (find_service_by_handle_lem (with_added port) (added port).handle
        (with_added-IsTable port le lt)) [
          | inl (p, svc, h, e) ↦ e ∙ same p svc h
          | inr (none_has, e) ↦ absurd (none_has port (added port) (added-HasHandle port))
        ]
    where
      found : ℕ → Service → Option ℕ × State
      found k o = (some k, take_ref (with_added port) k o)

      same :
          (p : ℕ) (svc : Service)
          → HasHandle (with_added port) (added port).handle p svc
          → found p svc ≡ found port (added port)
      same p svc h = ap₂ found at_port (
          some-injective _ _ (
            sym h.stands
            ∙ ap (with_added port).services at_port
            ∙ update_self s.services port (some (added port))))
        where
          at_port : p ≡ port
          at_port = omega (
            arith,
            (with_added-IsTable port le lt).entries p svc h.stands,
            h.matches,
            handle-added port lt,
          )

  -- From a well-formed table, a service that is added finds an empty place, keeps the table well
  -- formed, changes no other place, and is found at that place by its handle; where there is no
  -- place, nothing changes.
  pub add_service_internal_lem :
      (place_for s params st inst ≡ none)
        × (add_service_internal s params st inst (some fresh) ≡ (none, s))
      ⊎ ((port : ℕ) × (svc : Service) × (s' : State) × (add_service_internal s params st inst
              (some fresh)
            ≡ (some port, s'))
          × (s.services port ≡ none)
          × (s'.services ≡ update s.services port (some svc))
          × IsTable s'
          × (find_service_by_handle s' svc.handle ≡ (some port, take_ref s' port svc)))
  unfolding add_service_internal
  add_service_internal_lem = elim (Option-cases (place_for s params st inst)) [
    | inl e ↦ inl (e, rw e)
    | inr (port, e) ↦ inr (placed port e (place_for-empty s params st inst port t e))
  ]
    where
      placed :
          (port : ℕ)
          → place_for s params st inst ≡ some port
          → (s.services port ≡ none) × (port ≤ s.unused_service) × (port < max_services)
          → (p : ℕ) × (svc : Service) × (s' : State) × (add_service_internal s params st inst
                (some fresh)
              ≡ (some p, s'))
            × (s.services p ≡ none)
            × (s'.services ≡ update s.services p (some svc))
            × IsTable s'
            × (find_service_by_handle s' svc.handle ≡ (some p, take_ref s' p svc))
      placed port e free_place = (
        port,
        added port,
        with_added port,
        rw e,
        free_place.0,
        refl,
        with_added-IsTable port free_place.1 free_place.2,
        found_by_handle port free_place.1 free_place.2,
      )
