-- ===== src/Vchiq/Service/Reference.antt =====
-- How long a service stays in the table.
use dkms_rpi_codec.Base.{
  ℕ, suc, ◌+◌, ◌-◌, ◌^◌, ◌<◌, ◌≡◌, sym, ap, ◌∙◌, fun_ext, ◌⊎◌, inl, inr, true, false, Option, none,
  some, arith, ◌==◌, ==_iff, ==_refl, Bool-cases, update, update_self, add32, sub32,
}
use dkms_rpi_codec.Vchiq.State.{State, Service, free, put_service}
use dkms_rpi_codec.Vchiq.Service.{
  with_ref, lock_service, unlock_service, free_service_internal, may_free,
}
use dkms_rpi_codec.Vchiq.Service.Table.{IsTable, IsEntry, put_service-IsTable}

update_twice {ℓ} :
    {A : Type ℓ} (f : ℕ → A) (i : ℕ) (a b : A) → update (update f i a) i b ≡ update f i b
update_twice f i a b = fun_ext λ j. elim (Bool-cases (i == j)) [ inl e ↦ rw e | inr e ↦ rw e ]

update_same {ℓ} : {A : Type ℓ} (f : ℕ → A) (i : ℕ) (a : A) → f i ≡ a → update f i a ≡ f
update_same f i a h = fun_ext λ j. elim (Bool-cases (i == j)) [
  | inl e ↦ rw e (sym h ∙ ap f ((==_iff i j).0 e))
  | inr e ↦ rw e
]

-- A reference that is taken and dropped leaves the state as it was and frees nothing, as long as the
-- count has room.
pub unlock-lock :
    (s : State) (port : ℕ) (svc : Service)
    → s.services port ≡ some svc
    → 0 < svc.ref_count
    → suc svc.ref_count < 2 ^ 32
    → unlock_service (lock_service s port) port ≡ (s, false)
unfolding unlock_service lock_service
unlock-lock s port svc e pos room =
    rw (e, ==_refl port, more, fewer, back)
      (ap (λ (t : ℕ → Option Service). (record s { services = t }, false)) same)
  where
    more : (add32 svc.ref_count 1 == 0) ≡ false
    more = ground arith

    fewer : (sub32 (add32 svc.ref_count 1) 1 == 0) ≡ false
    fewer = ground arith

    back : sub32 (add32 svc.ref_count 1) 1 ≡ svc.ref_count
    back = omega arith

    same :
        update
          (update s.services port (some (with_ref svc (add32 svc.ref_count 1))))
          port
          (some svc)
        ≡ s.services
    same = update_twice s.services port _ (some svc) ∙ update_same s.services port (some svc) e

-- The last user of a service takes it out of the table and frees it; before that, dropping a
-- reference counts it and keeps the service.
pub unlock_service_lem :
    (s : State) (port : ℕ) (svc : Service)
    → IsTable s
    → s.services port ≡ some svc
    → svc.ref_count < 2 ^ 32
    → (svc.ref_count ≡ 1) × (unlock_service s port ≡ (put_service s port none, true))
      ⊎ (1 < svc.ref_count)
        × (unlock_service s port
            ≡ (put_service s port (some (with_ref svc (svc.ref_count - 1))), false))
unfolding unlock_service
unlock_service_lem s port svc t e word = elim (Bool-cases (svc.ref_count == 1)) [
  | inl last ↦ inl ((==_iff _ 1).0 last, rw (e, live, gone last, (t.entries port svc e).0))
  | inr more ↦ inr (ground (arith, pos), rw (e, live, stays more, fewer))
]
  where
    pos : 0 < svc.ref_count
    pos = (t.entries port svc e).2

    live : (svc.ref_count == 0) ≡ false
    live = ground (arith, pos)

    gone : (svc.ref_count == 1) ≡ true → (sub32 svc.ref_count 1 == 0) ≡ true
    gone h = ground arith

    stays : (svc.ref_count == 1) ≡ false → (sub32 svc.ref_count 1 == 0) ≡ false
    stays h = ground (arith, pos)

    fewer : sub32 svc.ref_count 1 ≡ svc.ref_count - 1
    fewer = omega (arith, pos)

-- Every operation on one reference keeps the table well formed.
pub lock_service-IsTable :
    (s : State) (port : ℕ) (svc : Service)
    → IsTable s
    → s.services port ≡ some svc
    → suc svc.ref_count < 2 ^ 32
    → IsTable (lock_service s port)
unfolding lock_service
lock_service-IsTable s port svc t e room = rw e (
    put_service-IsTable s port (with_ref svc (add32 svc.ref_count 1)) t
      (place.0, place.1, omega arith, place.3))
  where
    place : IsEntry s port svc
    place = t.entries port svc e

pub remove-IsTable : (s : State) (port : ℕ) → IsTable s → IsTable (put_service s port none)
remove-IsTable s port t = record {
  entries = λ p svc h. elim (Bool-cases (port == p)) [
    | inl same ↦ absurd (none_at p svc same (rw same at h))
    | inr other ↦ t.entries p svc (rw other at h)
  ];
  bounded = t.bounded;
  seq_aligned = t.seq_aligned;
  seq_word = t.seq_word;
}
  where
    none_at : (p : ℕ) (svc : Service) → (port == p) ≡ true → none ≡ some svc → ⊥
    none_at p svc same h = cc

pub unlock_service-IsTable :
    (s : State) (port : ℕ) (svc : Service)
    → IsTable s
    → s.services port ≡ some svc
    → svc.ref_count < 2 ^ 32
    → IsTable (unlock_service s port).0
unlock_service-IsTable s port svc t e word = elim (unlock_service_lem s port svc t e word) [
  | inl last ↦ rw last.1 (remove-IsTable s port t)
  | inr more ↦ rw more.1 (
      put_service-IsTable s port (with_ref svc (svc.ref_count - 1)) t
        (place.0, place.1, omega (arith, more.0), place.3))
]
  where
    place : IsEntry s port svc
    place = t.entries port svc e

-- Freeing a service in a state that allows it leaves it to its other users as free, or, without any,
-- takes it out of the table; in another state nothing changes.
pub free_service_internal_lem :
    (s : State) (port : ℕ) (svc : Service)
    → IsTable s
    → s.services port ≡ some svc
    → svc.ref_count < 2 ^ 32
    → (may_free svc.srvstate ≡ false) × (free_service_internal s port ≡ s)
      ⊎ (may_free svc.srvstate ≡ true)
        × (svc.ref_count ≡ 1)
        × ((free_service_internal s port).services port ≡ none)
      ⊎ (may_free svc.srvstate ≡ true)
        × (1 < svc.ref_count)
        × ((free_service_internal s port).services port
            ≡ some (record svc {
              srvstate = free;
              remove_event = svc.remove_event + 1;
              ref_count = svc.ref_count - 1;
            }))
unfolding free_service_internal
free_service_internal_lem s port svc t e word = elim (Bool-cases (may_free svc.srvstate)) [
  | inr kept ↦ inl (kept, rw (e, kept))
  | inl frees ↦ inr (
      freed frees
        (unlock_service_lem freeing port svc' table (update_self s.services port (some svc')) word))
]
  where
    svc' : Service
    svc' = record svc { srvstate = free; remove_event = svc.remove_event + 1 }

    freeing : State
    freeing = put_service s port (some svc')

    table : IsTable freeing
    table = put_service-IsTable s port svc' t (t.entries port svc e)

    freed :
        may_free svc.srvstate ≡ true
        → (svc.ref_count ≡ 1)
            × (unlock_service freeing port ≡ (put_service freeing port none, true))
          ⊎ (1 < svc.ref_count)
            × (unlock_service freeing port
                ≡ (put_service freeing port (some (with_ref svc' (svc.ref_count - 1))), false))
        → (may_free svc.srvstate ≡ true)
            × (svc.ref_count ≡ 1)
            × ((free_service_internal s port).services port ≡ none)
          ⊎ (may_free svc.srvstate ≡ true)
            × (1 < svc.ref_count)
            × ((free_service_internal s port).services port
                ≡ some (with_ref svc' (svc.ref_count - 1)))
    freed frees (inl last) =
        inl (frees, last.0, rw (e, frees, last.1) (update_self freeing.services port none))
    freed frees (inr more) =
        inr (frees, more.0, rw (e, frees, more.1) (update_self freeing.services port _))
