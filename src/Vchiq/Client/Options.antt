-- ===== src/Vchiq/Client/Options.antt =====
-- What `vchiq_set_service_option` leaves, and that calls give their reference back.
use dkms_rpi_codec.Base.{
  ℕ, suc, ◌^◌, ◌<◌, ◌≡◌, refl, sym, ap, ◌∙◌, ◌⊎◌, inl, inr, Bool, false, ◌||◌, Option, none, some,
  Bool-cases, option_case, update_self, add32,
}
use dkms_rpi_codec.Vchiq.State.{State, Status, error, Service, hidden, listening, in_state}
use dkms_rpi_codec.Vchiq.Service.{
  find_service_by_handle, unlock_service, lock_service, take_ref, with_ref,
}
use dkms_rpi_codec.Vchiq.Service.Table.{IsTable, HasHandle, find_service_by_handle_lem}
use dkms_rpi_codec.Vchiq.Service.Reference.{unlock-lock}
use dkms_rpi_codec.Vchiq.Client.{
  client_id_of, with_service, ServiceOption, autoclose, slot_limit, message_limit, synchronous,
  tracing, set_slot_quota, set_message_quota, set_option, set_service_option, get_client_id,
  or_default, is_limit,
}

-- No count of users is about to wrap.
abbrev pub HasRoom : State → Type 0
HasRoom s = (port : ℕ) (svc : Service) → s.services port ≡ some svc → suc svc.ref_count < 2 ^ 32

unlock-take_ref :
    (s : State) (port : ℕ) (svc : Service)
    → IsTable s
    → HasRoom s
    → s.services port ≡ some svc
    → unlock_service (take_ref s port svc) port ≡ (s, false)
unfolding lock_service
unlock-take_ref s port svc t room e =
    ap (λ (u : State). unlock_service u port) (sym locked)
    ∙ unlock-lock s port svc e ((t.entries port svc e).2) (room port svc e)
  where
    locked : lock_service s port ≡ take_ref s port svc
    locked = rw e refl

-- The service as a call has it, with one more reference.
abbrev pub held : Service → Service
held svc = with_ref svc (add32 svc.ref_count 1)

abbrev pub dropped {ℓ} : {A : Type ℓ} → ℕ → A × State → A × State
dropped port r = (r.0, (unlock_service r.1 port).0)

-- A call on a service that is found is its body on the service with a reference taken, which is
-- dropped after it.
with_service-found :
    {A : Type 0} (absent : A) (s : State) (handle : ℕ) (body : ℕ → Service → State → A × State)
    (port : ℕ) (svc : Service)
    → find_service_by_handle s handle ≡ (some port, take_ref s port svc)
    → with_service absent s handle body ≡ dropped port (body port (held svc) (take_ref s port svc))
unfolding with_service
with_service-found {A = A} absent s handle body port svc found =
    ap finish found ∙ ap at_entry (update_self s.services port (some (held svc)))
  where
    at_entry : Option Service → A × State
    at_entry entry =
        option_case entry (absent, take_ref s port svc)
          (λ v. dropped port (body port v (take_ref s port svc)))

    finish : Option ℕ × State → A × State
    finish f =
        option_case f.0 (absent, f.1)
          λ p. option_case (f.1.services p) (absent, f.1) λ v. dropped p (body p v f.1)

-- A call whose body only reads gives its reference back: the state is as it was.
with_service-reads :
    {A : Type 0} (absent : A) (s : State) (handle : ℕ) (body : ℕ → Service → State → A × State)
    (port : ℕ) (svc : Service) (result : A)
    → IsTable s
    → HasRoom s
    → s.services port ≡ some svc
    → find_service_by_handle s handle ≡ (some port, take_ref s port svc)
    → body port (held svc) (take_ref s port svc) ≡ (result, take_ref s port svc)
    → with_service absent s handle body ≡ (result, s)
with_service-reads absent s handle body port svc result t room e found reads =
    with_service-found absent s handle body port svc found
    ∙ ap (dropped port) reads
    ∙ ap (λ (u : State × Bool). (result, u.0)) (unlock-take_ref s port svc t room e)

-- Where no service has the handle, nothing changes.
with_service-none :
    {A : Type 0} (absent : A) (s : State) (handle : ℕ) (body : ℕ → Service → State → A × State)
    → find_service_by_handle s handle ≡ (none, s)
    → with_service absent s handle body ≡ (absent, s)
unfolding with_service
with_service-none {A = A} absent s handle body e = ap finish e
  where
    finish : Option ℕ × State → A × State
    finish f =
        option_case f.0 (absent, f.1)
          λ p.
            option_case (f.1.services p) (absent, f.1)
              λ v. let (r, u) = body p v f.1 in (r, (unlock_service u p).0)

-- Asking for a client's id gives the id of the live service that has the handle, or 0 where there is
-- none, and leaves the state as it was.
pub get_client_id_lem :
    (s : State) (handle : ℕ)
    → IsTable s
    → HasRoom s
    → ((port : ℕ) × (svc : Service) × HasHandle s handle port svc
        × (get_client_id s handle ≡ (svc.client_id, s)))
      ⊎ (((port : ℕ) (svc : Service) → ¬ HasHandle s handle port svc)
          × (get_client_id s handle ≡ (0, s)))
unfolding get_client_id
get_client_id_lem s handle t room = elim (find_service_by_handle_lem s handle t) [
  | inl (port, svc, h, e) ↦ inl (
    port,
    svc,
    h,
    with_service-reads 0 s handle client_id_of port svc svc.client_id t room h.stands e refl,
  )
  | inr (absent, e) ↦ inr (absent, with_service-none 0 s handle client_id_of e)
]

-- An option that is refused gives an error.
refused_limit :
    (s : State) (port value : ℕ)
    → ((set_slot_quota s port value).0 ≡ error → (set_slot_quota s port value).1 ≡ s)
      × ((set_message_quota s port value).0 ≡ error → (set_message_quota s port value).1 ≡ s)
unfolding set_slot_quota set_message_quota
refused_limit s port value = (
  λ e.
      elim (Bool-cases
        (is_limit (or_default value s.default_slot_quota) (s.service_quotas port).slot_use_count)) [
          | inl fine ↦ absurd (cc (rw fine at e))
          | inr bad ↦ rw bad refl
        ],
  λ e.
      elim (Bool-cases (
        is_limit (or_default value s.default_message_quota)
          (s.service_quotas port).message_use_count)) [
            | inl fine ↦ absurd (cc (rw fine at e))
            | inr bad ↦ rw bad refl
          ],
)

refused_option :
    (option : ServiceOption) (value port : ℕ) (svc : Service) (s : State)
    → (set_option option value port svc s).0 ≡ error
    → (set_option option value port svc s).1 ≡ s
unfolding set_option
refused_option autoclose value port svc s e = absurd (cc e)
refused_option slot_limit value port svc s e = (refused_limit s svc.localport value).0 e
refused_option message_limit value port svc s e = (refused_limit s svc.localport value).1 e
refused_option synchronous value port svc s e =
    elim (Bool-cases (in_state svc.srvstate hidden || in_state svc.srvstate listening)) [
      | inl fine ↦ absurd (cc (rw fine at e))
      | inr bad ↦ rw bad refl
    ]
refused_option tracing value port svc s e = absurd (cc e)

-- An option that is refused, and one for a handle that no service has, leaves everything as it was:
-- the quotas, the service, and its count of users.
pub set_service_option_refused :
    (s : State) (handle : ℕ) (option : ServiceOption) (value : ℕ)
    → IsTable s
    → HasRoom s
    → (set_service_option s handle option value).0 ≡ error
    → (set_service_option s handle option value).1 ≡ s
unfolding set_service_option
set_service_option_refused s handle option value t room e =
    elim (find_service_by_handle_lem s handle t) [
      | inr (absent, none_found) ↦
          ap state_of (with_service-none error s handle (set_option option value) none_found)
      | inl (port, svc, h, found) ↦
          ap state_of (
            with_service-found error s handle (set_option option value) port svc found
            ∙ ap
                (λ (u : State). (
                  (set_option option value port (held svc) (take_ref s port svc)).0,
                  (unlock_service u port).0,
                ))
                (refused_option option value port (held svc) (take_ref s port svc) (
                  ap status_of (
                    sym
                      (with_service-found error s handle (set_option option value) port svc found))
                  ∙ e)))
          ∙ ap (λ (u : State × Bool). u.0) (unlock-take_ref s port svc t room h.stands)
    ]
  where
    state_of : Status × State → State
    state_of r = r.1

    status_of : Status × State → Status
    status_of r = r.0
