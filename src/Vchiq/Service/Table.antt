-- ===== src/Vchiq/Service/Table.antt =====
-- What the table of services holds, and what a lookup finds in it.
use dkms_rpi_codec.Base.{
  ℕ, ◌%◌, ◌^◌, ◌≤◌, ◌<◌, ◌≡◌, sym, ap, ◌∙◌, subst, ◌⊎◌, inl, inr, Bool, true, false, not, ◌&&◌,
  none, some, some-injective, arith, bit_and_mask, ◌==◌, ==_iff, Bool-cases, Option-cases,
}
use dkms_rpi_codec.Vchiq.State.{State, Service, free, in_state, put_service, max_services}
use dkms_rpi_codec.Vchiq.Service.{take_ref, port_of_handle, find_service_by_handle}

-- A service stands at its own port, below the first unused one, has users, and has its port in its
-- handle.
abbrev pub IsEntry : State → ℕ → Service → Type 0
IsEntry s port svc =
    (svc.localport ≡ port)
    × (port < s.unused_service)
    × (0 < svc.ref_count)
    × (svc.handle % 4096 ≡ port)

pub record IsTable (s : State) : Type 0 where
  pub entries : (port : ℕ) (svc : Service) → s.services port ≡ some svc → IsEntry s port svc
  pub bounded : s.unused_service ≤ max_services
  pub seq_aligned : s.handle_seq % 4096 ≡ 0
  pub seq_word : s.handle_seq < 2 ^ 32

pub port_of_handle-eq-mod : (handle : ℕ) → port_of_handle handle ≡ handle % 4096
port_of_handle-eq-mod handle = bit_and_mask 12 handle

-- A write to one place of the table keeps it well formed if the new entry is.
pub put_service-IsTable :
    (s : State) (port : ℕ) (svc : Service)
    → IsTable s
    → IsEntry s port svc
    → IsTable (put_service s port (some svc))
put_service-IsTable s port svc t e = record {
  entries = λ p old h. elim (Bool-cases (port == p)) [
    | inl same ↦ entry p old same (rw same at h)
    | inr other ↦ t.entries p old (rw other at h)
  ];
  bounded = t.bounded;
  seq_aligned = t.seq_aligned;
  seq_word = t.seq_word;
}
  where
    entry : (p : ℕ) (old : Service) → (port == p) ≡ true → some svc ≡ some old → IsEntry s p old
    entry p old same h =
        subst (λ o. IsEntry s p o) (some-injective _ _ h)
          (subst (λ k. IsEntry s k svc) ((==_iff port p).0 same) e)

-- A live service with the given handle.
pub record HasHandle (s : State) (handle port : ℕ) (svc : Service) : Type 0 where
  pub stands : s.services port ≡ some svc
  pub live : in_state svc.srvstate free ≡ false
  pub matches : svc.handle ≡ handle

abbrev wanted : ℕ → Service → Bool
wanted handle svc = not (in_state svc.srvstate free) && (svc.handle == handle)

wanted-HasHandle :
    (s : State) (handle port : ℕ) (svc : Service)
    → s.services port ≡ some svc
    → wanted handle svc ≡ true
    → HasHandle s handle port svc
wanted-HasHandle s handle port svc e h = record {
  stands = e;
  live = ground arith;
  matches = ground arith;
}

unwanted :
    (s : State) (handle : ℕ)
    → IsTable s
    → ((svc : Service) → s.services (port_of_handle handle) ≡ some svc → wanted handle svc ≡ false)
    → (port : ℕ) (svc : Service) → ¬ HasHandle s handle port svc
unwanted s handle t no_fit port svc h = ground (arith, no_fit svc at_port, h.live, h.matches)
  where
    at_port : s.services (port_of_handle handle) ≡ some svc
    at_port =
        ap s.services
          (omega (arith, port_of_handle-eq-mod handle, (t.entries port svc h.stands).3, h.matches))
        ∙ h.stands

-- In a well-formed table, looking up a handle finds the live service that has it, wherever it stands,
-- and takes one more reference to it; where none has it, nothing is found and nothing changes.
pub find_service_by_handle_lem :
    (s : State) (handle : ℕ)
    → IsTable s
    → ((port : ℕ) × (svc : Service) × HasHandle s handle port svc
        × (find_service_by_handle s handle ≡ (some port, take_ref s port svc)))
      ⊎ (((port : ℕ) (svc : Service) → ¬ HasHandle s handle port svc)
          × (find_service_by_handle s handle ≡ (none, s)))
unfolding find_service_by_handle
find_service_by_handle_lem s handle t = elim (Option-cases (s.services (port_of_handle handle))) [
  | inl e ↦ inr (unwanted s handle t (λ svc h. cc), rw e)
  | inr (svc, e) ↦ elim (Bool-cases (wanted handle svc)) [
    | inl fit ↦ inl (port_of_handle handle, svc, wanted-HasHandle s handle _ svc e fit, rw (e, fit))
    | inr unfit ↦ inr (
      unwanted s handle t
          (λ other h. subst (λ o. wanted handle o ≡ false) (some-injective _ _ (sym e ∙ h)) unfit),
      rw (e, unfit),
    )
  ]
]
