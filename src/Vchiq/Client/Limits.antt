-- ===== src/Vchiq/Client/Limits.antt =====
-- The quotas that a client may set.
use dkms_rpi_codec.Base.{
  ℕ, ◌^◌, ◌≤◌, ◌<◌, ◌≡◌, refl, sym, subst, inl, inr, Bool, true, false, not, ◌&&◌, ◌||◌, Option,
  none, some, arith, ◌==◌, Bool-cases, Option-cases, option_case, sub32,
}
use dkms_rpi_codec.Vchiq.State.{
  free, State, Status, error, Service, Quota, hidden, listening, in_state, put_quota,
}
use dkms_rpi_codec.Vchiq.Service.{port_of_handle, find_service_by_handle, unlock_service}
use dkms_rpi_codec.Vchiq.Transmit.Quotas.{InQuota}
use dkms_rpi_codec.Vchiq.Client.{
  with_service, ServiceOption, autoclose, slot_limit, message_limit, synchronous, tracing,
  set_slot_quota, set_message_quota, set_option, set_service_option, or_default, is_limit,
  signal_if,
}

is_limit_bounds : (v used : ℕ) → is_limit v used ≡ true → (used ≤ v) × (v < 2 ^ 16)
is_limit_bounds v used e = ground arith

signalled-InQuota : (b : Bool) (q : Quota) → InQuota q → InQuota (signal_if b q)
signalled-InQuota true q h = h
signalled-InQuota false q h = h

put-InQuota :
    (s : State) (port p : ℕ) (q : Quota)
    → InQuota q
    → InQuota (s.service_quotas p)
    → InQuota ((put_quota s port q).service_quotas p)
put-InQuota s port p q h k = elim (Bool-cases (port == p)) [
  | inl same ↦ rw same h
  | inr other ↦ rw other k
]

set_slot_quota-InQuota :
    (s : State) (port value : ℕ)
    → ((p : ℕ) → InQuota (s.service_quotas p))
    → (p : ℕ) → InQuota ((set_slot_quota s port value).1.service_quotas p)
unfolding set_slot_quota
set_slot_quota-InQuota s port value h p =
    elim (Bool-cases
      (is_limit (or_default value s.default_slot_quota) (s.service_quotas port).slot_use_count)) [
        | inr bad ↦ rw bad (h p)
        | inl fine ↦
            rw fine (put-InQuota s port p _ (signalled-InQuota _ _ (limited (h port) fine)) (h p))
      ]
  where
    limited :
        InQuota (s.service_quotas port)
        → is_limit (or_default value s.default_slot_quota) (s.service_quotas port).slot_use_count
          ≡ true
        → InQuota
            (record (s.service_quotas port) { slot_quota = or_default value s.default_slot_quota })
    limited k fine = (k.0, (is_limit_bounds _ _ fine).0, k.2, (is_limit_bounds _ _ fine).1)

set_message_quota-InQuota :
    (s : State) (port value : ℕ)
    → ((p : ℕ) → InQuota (s.service_quotas p))
    → (p : ℕ) → InQuota ((set_message_quota s port value).1.service_quotas p)
unfolding set_message_quota
set_message_quota-InQuota s port value h p =
    elim (Bool-cases (
      is_limit (or_default value s.default_message_quota)
        (s.service_quotas port).message_use_count)) [
          | inr bad ↦ rw bad (h p)
          | inl fine ↦
              rw fine (put-InQuota s port p _ (signalled-InQuota _ _ (limited (h port) fine)) (h p))
        ]
  where
    limited :
        InQuota (s.service_quotas port)
        → is_limit
            (or_default value s.default_message_quota)
            (s.service_quotas port).message_use_count
          ≡ true
        → InQuota (record (s.service_quotas port) {
          message_quota = or_default value s.default_message_quota;
        })
    limited k fine = ((is_limit_bounds _ _ fine).0, k.1, (is_limit_bounds _ _ fine).1, k.3)

-- Every quota is kept.
abbrev pub AllInQuota : State → Type 0
AllInQuota s = (port : ℕ) → InQuota (s.service_quotas port)

set_option-AllInQuota :
    (option : ServiceOption) (value port : ℕ) (svc : Service) (s : State)
    → AllInQuota s
    → AllInQuota (set_option option value port svc s).1
unfolding set_option
set_option-AllInQuota autoclose value port svc s h = h
set_option-AllInQuota slot_limit value port svc s h = set_slot_quota-InQuota s svc.localport value h
set_option-AllInQuota message_limit value port svc s h =
    set_message_quota-InQuota s svc.localport value h
set_option-AllInQuota synchronous value port svc s h =
    elim (Bool-cases (in_state svc.srvstate hidden || in_state svc.srvstate listening)) [
      | inl fine ↦ rw fine h
      | inr bad ↦ rw bad h
    ]
set_option-AllInQuota tracing value port svc s h = h

quotas-unlock_service :
    (s : State) (port : ℕ) → (unlock_service s port).0.service_quotas ≡ s.service_quotas
unfolding unlock_service
quotas-unlock_service s port = elim (Option-cases (s.services port)) [
  | inl e ↦ rw e refl
  | inr (svc, e) ↦ elim (Bool-cases (svc.ref_count == 0)) [
    | inl dead ↦ rw (e, dead) refl
    | inr live ↦ elim (Bool-cases (sub32 svc.ref_count 1 == 0)) [
      | inl last ↦ rw (e, live, last) refl
      | inr more ↦ rw (e, live, more) refl
    ]
  ]
]

quotas-find_service_by_handle :
    (s : State) (handle : ℕ) → (find_service_by_handle s handle).1.service_quotas ≡ s.service_quotas
unfolding find_service_by_handle
quotas-find_service_by_handle s handle = elim (Option-cases (s.services (port_of_handle handle))) [
  | inl e ↦ rw e refl
  | inr (svc, e) ↦ elim (Bool-cases (not (in_state svc.srvstate free) && (svc.handle == handle))) [
    | inl fit ↦ rw (e, fit) refl
    | inr unfit ↦ rw (e, unfit) refl
  ]
]

-- Whatever a client sets, and whatever it is answered, no service comes to use more than its quota.
pub set_service_option-AllInQuota :
    (s : State) (handle : ℕ) (option : ServiceOption) (value : ℕ)
    → AllInQuota s
    → AllInQuota (set_service_option s handle option value).1
unfolding set_service_option with_service
set_service_option-AllInQuota s handle option value h =
    finish (find_service_by_handle s handle) (λ p.
      subst (λ (qs : ℕ → Quota). InQuota (qs p)) (sym (quotas-find_service_by_handle s handle))
        (h p))
  where
    finish :
        (f : Option ℕ × State)
        → AllInQuota f.1
        → AllInQuota
            (option_case {B = Status × State} f.0
              (error, f.1)
              λ port.
                option_case {B = Status × State}
                  (f.1.services port)
                  (error, f.1)
                  λ svc.
                    let (result, u) = set_option option value port svc f.1 in
                    (result, (unlock_service u port).0)).1
    finish (none, u) k = k
    finish (some port, u) k = elim (Option-cases (u.services port)) [
      | inl e ↦ rw e k
      | inr (svc, e) ↦ rw e λ p.
          subst (λ (qs : ℕ → Quota). InQuota (qs p))
            (sym (quotas-unlock_service (set_option option value port svc u).1 port))
            (set_option-AllInQuota option value port svc u k p)
    ]
