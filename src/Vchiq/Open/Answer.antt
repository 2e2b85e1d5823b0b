-- ===== src/Vchiq/Open/Answer.antt =====
-- A client that cannot take a new connection yet.
use dkms_rpi_codec.Base.{
  ℕ, ◌-◌, ◌^◌, ◌<◌, ◌≡◌, refl, ap, ◌∙◌, ◌≢◌, inl, inr, Bool, true, false, ◌||◌, some, arith,
  ==_refl, Bool-cases, update_self, update_ne,
}
use dkms_rpi_codec.Vchiq.State.{
  State, Status, success, error, retry, Service, open_, listening, in_state, put_service, port_free,
}
use dkms_rpi_codec.Vchiq.Service.{accepts_open, unlock_service, with_ref}
use dkms_rpi_codec.Vchiq.Service.Reference.{unlock_service_lem}
use dkms_rpi_codec.Vchiq.Service.Table.{IsTable, put_service-IsTable}
use dkms_rpi_codec.Vchiq.Bulk.{callback_status}
use dkms_rpi_codec.Vchiq.Open.{after_ack, on_service}

-- The service as it is left, without the reference of this call.
abbrev pub left : Service → ℕ → ℕ → Service
left svc remoteport client_id = record svc {
  remoteport = remoteport;
  client_id = client_id;
  ref_count = svc.ref_count - 1;
}

-- What the answer of the callback leads to.
abbrev pub AfterAck : State → ℕ → Service → ℕ → ℕ → Status → Bool × State → Type 0
AfterAck s port svc remoteport client_id retry (dealt, s') =
    (dealt ≡ false)
    × (s'.services port ≡ some (left svc port_free client_id))
    × (accepts_open svc.public_fourcc (left svc port_free client_id)
        ≡ (in_state svc.srvstate listening || in_state svc.srvstate open_))
AfterAck s port svc remoteport client_id st (dealt, s') =
    (dealt ≡ true) × (s'.services port ≡ some (left svc remoteport client_id))

dropped_at :
    (s : State) (port : ℕ) (svc : Service)
    → IsTable s
    → s.services port ≡ some svc
    → 1 < svc.ref_count
    → svc.ref_count < 2 ^ 32
    → (unlock_service s port).0.services port ≡ some (with_ref svc (svc.ref_count - 1))
dropped_at s port svc t e more word = elim (unlock_service_lem s port svc t e word) [
  | inl last ↦ absurd (omega (arith, last.0))
  | inr kept ↦ ap (λ (r : State × Bool). r.0.services port) kept.1 ∙ update_self s.services port _
]

others_dropped :
    (s : State) (port : ℕ) (svc : Service) (j : ℕ)
    → IsTable s
    → s.services port ≡ some svc
    → 1 < svc.ref_count
    → svc.ref_count < 2 ^ 32
    → port ≢ j
    → (unlock_service s port).0.services j ≡ s.services j
others_dropped s port svc j t e more word ne = elim (unlock_service_lem s port svc t e word) [
  | inl last ↦ absurd (omega (arith, last.0))
  | inr kept ↦ ap (λ (r : State × Bool). r.0.services j) kept.1 ∙ update_ne s.services port _ j ne
]

on_service-at :
    (s : State) (port : ℕ) (svc : Service) (f : Service → Service)
    → s.services port ≡ some svc
    → on_service s port f ≡ put_service s port (some (f svc))
on_service-at s port svc f e = rw e refl

-- The service once the other side's port and client id are noted.
abbrev noted : Service → ℕ → ℕ → Service
noted svc remoteport client_id = record svc { remoteport = remoteport; client_id = client_id }

module _ (s : State) (port : ℕ) (svc : Service) (remoteport client_id : ℕ) (t : IsTable s)
    (e : s.services port ≡ some svc) (more : 1 < svc.ref_count)
    (word : svc.ref_count < 2 ^ 32) where
  first : State
  first = put_service s port (some (noted svc remoteport client_id))

  first-IsTable : IsTable first
  unfolding first
  first-IsTable =
      put_service-IsTable s port (noted svc remoteport client_id) t (t.entries port svc e)

  second : State
  unfolding first
  second = put_service first port (some (noted svc port_free client_id))

  second-IsTable : IsTable second
  unfolding second first
  second-IsTable =
      put_service-IsTable first port (noted svc port_free client_id) first-IsTable (
        first-IsTable.entries port (noted svc remoteport client_id) (update_self s.services port _))

  kept_first : (unlock_service first port).0.services port ≡ some (left svc remoteport client_id)
  unfolding first
  kept_first =
      dropped_at first port (noted svc remoteport client_id) first-IsTable
        (update_self s.services port _) more word

  kept_second : (unlock_service second port).0.services port ≡ some (left svc port_free client_id)
  unfolding second first
  kept_second =
      dropped_at second port (noted svc port_free client_id) second-IsTable
        (update_self first.services port _) more word

  noted_first :
      on_service s port (λ v. record v { remoteport = remoteport; client_id = client_id }) ≡ first
  unfolding first
  noted_first = on_service-at s port svc _ e

  noted_second :
      on_service
        (on_service s port (λ v. record v { remoteport = remoteport; client_id = client_id }))
        port
        (λ v. record v { remoteport = port_free })
      ≡ second
  unfolding second first
  noted_second =
      ap (λ (u : State). on_service u port (λ v. record v { remoteport = port_free })) noted_first
      ∙ on_service-at first port (noted svc remoteport client_id) _ (update_self s.services port _)

  others_second : (j : ℕ) → port ≢ j → (unlock_service second port).0.services j ≡ s.services j
  unfolding second first
  others_second j ne =
      others_dropped second port (noted svc port_free client_id) j second-IsTable
        (update_self first.services port _) more word ne
      ∙ update_ne first.services port _ j ne
      ∙ update_ne s.services port _ j ne

  accepted_again :
      accepts_open svc.public_fourcc (left svc port_free client_id)
      ≡ (in_state svc.srvstate listening || in_state svc.srvstate open_)
  accepted_again = elim (Bool-cases (in_state svc.srvstate listening)) [
    | inl listens ↦ rw (==_refl svc.public_fourcc, listens) refl
    | inr quiet ↦ elim (Bool-cases (in_state svc.srvstate open_)) [
      | inl is_open ↦ rw (==_refl svc.public_fourcc, quiet, is_open) refl
      | inr not_open ↦ rw (==_refl svc.public_fourcc, quiet, not_open) refl
    ]
  ]

-- Once an OPEN is acknowledged, the service has the other side's port and client id unless its
-- callback asks for a retry, and the reference to it is dropped. After a retry the message is not
-- dealt with, the service has no remote port, and a lookup for the same name accepts it exactly if it
-- is in state LISTENING or OPEN.
pub after_ack_lem :
    (s : State) (port : ℕ) (svc : Service) (remoteport client_id : ℕ) (answer : Status)
    → IsTable s
    → s.services port ≡ some svc
    → 1 < svc.ref_count
    → svc.ref_count < 2 ^ 32
    → AfterAck s port svc remoteport client_id answer (after_ack s port remoteport client_id answer)
unfolding after_ack callback_status
after_ack_lem s port svc remoteport client_id success t e more word = (
  refl,
  ap (λ (u : State). (unlock_service u port).0.services port)
        (noted_first s port svc remoteport client_id t e more word)
      ∙ kept_first s port svc remoteport client_id t e more word,
)
after_ack_lem s port svc remoteport client_id error t e more word = (
  refl,
  ap (λ (u : State). (unlock_service u port).0.services port)
        (noted_first s port svc remoteport client_id t e more word)
      ∙ kept_first s port svc remoteport client_id t e more word,
)
after_ack_lem s port svc remoteport client_id retry t e more word = (
  refl,
  ap (λ (u : State). (unlock_service u port).0.services port)
        (noted_second s port svc remoteport client_id t e more word)
      ∙ kept_second s port svc remoteport client_id t e more word,
  accepted_again s port svc remoteport client_id t e more word,
)

-- After a retry the other services are as they were.
pub after_ack-others :
    (s : State) (port : ℕ) (svc : Service) (remoteport client_id j : ℕ)
    → IsTable s
    → s.services port ≡ some svc
    → 1 < svc.ref_count
    → svc.ref_count < 2 ^ 32
    → port ≢ j
    → (after_ack s port remoteport client_id retry).1.services j ≡ s.services j
unfolding after_ack callback_status
after_ack-others s port svc remoteport client_id j t e more word ne =
    ap (λ (u : State). (unlock_service u port).0.services j)
      (noted_second s port svc remoteport client_id t e more word)
    ∙ others_second s port svc remoteport client_id t e more word j ne
