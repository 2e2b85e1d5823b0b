-- ===== src/Vchiq/Service/Tests.antt =====
-- A table with one service, at port 5.
use dkms_rpi_codec.Base.{
  ℕ, ◌*◌, ◌≡◌, refl, subst, inl, inr, none, some, some-injective, arith, ◌==◌, ==_iff, Bool-cases,
  update,
}
use dkms_rpi_codec.Vchiq.State.{State, Service}
use dkms_rpi_codec.Vchiq.Bulk.Tests.{busy}
use dkms_rpi_codec.Vchiq.Slots.Tests.{started}
use dkms_rpi_codec.Vchiq.Service.{find_service_by_handle}
use dkms_rpi_codec.Vchiq.Service.Table.{IsEntry, IsTable}

abbrev pub peopled : State
peopled = record started {
  services = update (λ i. none) 5 (some busy);
  unused_service = 6;
  handle_seq = 2 * 4096;
}

pub only-busy :
    (port : ℕ) (svc : Service) → peopled.services port ≡ some svc → (5 ≡ port) × (busy ≡ svc)
only-busy port svc e = elim (Bool-cases (5 == port)) [
  | inl same ↦ ((==_iff 5 port).0 same, some-injective _ _ (rw same at e))
  | inr other ↦ absurd (cc (rw other at e))
]

pub peopled-IsTable : IsTable peopled
peopled-IsTable = record {
  entries = λ port svc e.
      let (at, is) = only-busy port svc e in
      subst (λ o. IsEntry peopled port o) is
        (at, omega (arith, at), omega arith, omega (arith, at));
  bounded = omega arith;
  seq_aligned = refl;
  seq_word = omega arith;
}

finds : (find_service_by_handle peopled 4101).0 ≡ some 5
unfolding find_service_by_handle
finds = refl
