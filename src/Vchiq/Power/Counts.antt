-- ===== src/Vchiq/Power/Counts.antt =====
-- The use counts add up: the total is that of the services and of the peer.
use dkms_rpi_codec.Base.{
  ℕ, zero, suc, ◌+◌, ◌^◌, ◌≤◌, ◌<◌, ◌≡◌, refl, ap, inl, inr, Option, none, some, arith, ◌==◌,
  ==_iff, ==_ne, Bool-cases, option_case, update,
}
use dkms_rpi_codec.Vchiq.State.{State, Service}
use dkms_rpi_codec.Vchiq.Power.{ArmState, with_arm, use_count_of, set_use_count}

-- The counts of the services below a port.
unfoldable pub total : ℕ → (ℕ → Option Service) → ℕ
total zero services = 0
total (suc n) services =
    total n services + option_case (services n) 0 (λ svc. svc.service_use_count)

abbrev pub used_at : (ℕ → Option Service) → ℕ → ℕ
used_at services port = option_case (services port) 0 (λ svc. svc.service_use_count)

abbrev pub Tally : Type 0
Tally = ℕ × ℕ × ℕ × (ℕ → Option Service)

abbrev pub tally : State → Tally
tally s = (
  s.platform_state.videocore_use_count, s.platform_state.peer_use_count, s.unused_service,
  s.services,
)

-- The total is that of the services and of the peer, and fits in a word.
pub record IsTallied (t : Tally) : Type 0 where
  pub adds_up : t.0 ≡ t.1 + total t.2 t.3
  pub word : t.0 < 2 ^ 32
  pub below : (port : ℕ) (svc : Service) → t.3 port ≡ some svc → port < t.2

abbrev pub IsCounted : State → Type 0
IsCounted s = IsTallied (tally s)

-- A write beyond the ports does not count, one below them counts once.
total-above :
    (n port : ℕ) (services : ℕ → Option Service) (o : Option Service)
    → n ≤ port
    → total n (update services port o) ≡ total n services
unfolding total
total-above zero port services o h = refl
total-above (suc n) port services o h =
    rw (total-above n port services o (omega arith), ==_ne port n (ground arith)) refl

pub total-update :
    (n port : ℕ) (services : ℕ → Option Service) (svc : Service)
    → port < n
    → total n (update services port (some svc)) + used_at services port
      ≡ total n services + svc.service_use_count
unfolding total
total-update zero port services svc h = elim h [ ]
total-update (suc n) port services svc h = elim (Bool-cases (port == n)) [
  | inl same ↦ rw same (
      omega (
        arith,
        total-above n port services (some svc) (omega (arith, (==_iff port n).0 same)),
        ap (used_at services) ((==_iff port n).0 same),
      ))
  | inr other ↦ rw other (omega (arith, total-update n port services svc (ground arith)))
]

-- Who uses the VideoCore is there: the peer, or a service of the table.
abbrev pub IsThere : State → Option ℕ → Type 0
IsThere s none = Unit
IsThere s (some port) = (svc : Service) × (s.services port ≡ some svc)

-- The counts after a change of a user's count by as much as of the total.
pub set_use_count-IsCounted :
    (s : State) (a : ArmState) (entity : Option ℕ) (n : ℕ)
    → IsCounted s
    → IsThere s entity
    → a.peer_use_count ≡ s.platform_state.peer_use_count
    → a.videocore_use_count + use_count_of s entity ≡ s.platform_state.videocore_use_count + n
    → a.videocore_use_count < 2 ^ 32
    → IsCounted (set_use_count (with_arm s a) entity n)
unfolding set_use_count use_count_of
set_use_count-IsCounted s a none n c there peer same word = record {
  adds_up = omega (arith, c.adds_up);
  word = word;
  below = c.below;
}
set_use_count-IsCounted s a (some port) n c (svc, e) peer same word = rw e (record {
  adds_up = omega (
    arith,
    c.adds_up,
    total-update s.unused_service port s.services (record svc { service_use_count = n })
        (c.below port svc e),
    ap used e,
    same,
  );
  word = word;
  below = λ p other o. elim (Bool-cases (port == p)) [
    | inl here ↦ omega (arith, (==_iff port p).0 here, c.below port svc e)
    | inr away ↦ c.below p other (rw away at o)
  ];
})
  where
    used : Option Service → ℕ
    used o = option_case o 0 (λ v. v.service_use_count)
