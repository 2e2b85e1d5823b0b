-- ===== src/Vchiq/Close/Uses.antt =====
-- The uses that a closing service gives back.
use dkms_rpi_codec.Base.{
  ℕ, zero, suc, ◌+◌, ◌^◌, ◌<◌, ◌≡◌, refl, ap, ap₂, ◌∙◌, Option, some, arith, ==_refl, sub32,
}
use dkms_rpi_codec.Vchiq.State.{State, Service}
use dkms_rpi_codec.Vchiq.Power.{use_count_of, set_use_count, uncount_use, release_internal}
use dkms_rpi_codec.Vchiq.Power.Counts.{Tally}
use dkms_rpi_codec.Vchiq.Power.Released.{tally-release_internal}
use dkms_rpi_codec.Vchiq.Close.{release_uses}

-- A service of the table, and the total count.
abbrev pub Standing : Type 0
Standing = Option Service × ℕ

abbrev pub standing : State → ℕ → Standing
standing s port = (s.services port, s.platform_state.videocore_use_count)

uncount_use-at :
    (s : State) (port : ℕ) (svc : Service)
    → s.services port ≡ some svc
    → standing (uncount_use s (some port)) port ≡ (
      some (record svc { service_use_count = sub32 svc.service_use_count 1 }),
      sub32 s.platform_state.videocore_use_count 1,
    )
unfolding uncount_use use_count_of set_use_count
uncount_use-at s port svc e = rw (e, ==_refl port) refl

release_internal-at :
    (s : State) (port : ℕ) (svc : Service) (n v : ℕ)
    → standing s port ≡ (some svc, suc v)
    → svc.service_use_count ≡ suc n
    → suc v < 2 ^ 32
    → suc n < 2 ^ 32
    → standing (release_internal s (some port)).1 port
      ≡ (some (record svc { service_use_count = n }), v)
unfolding use_count_of
release_internal-at s port svc n v e uses word word' =
    ap (λ (t : Tally). (t.3 port, t.0))
      (tally-release_internal s (some port) (omega (arith, total)) (rw there (omega (arith, uses))))
    ∙ uncount_use-at s port svc there
    ∙ ap₂ (λ (a b : ℕ). (some (record svc { service_use_count = a }), b)) (omega (arith, uses))
        (omega (arith, total))
  where
    there : s.services port ≡ some svc
    there = ap (λ (t : Standing). t.0) e

    total : s.platform_state.videocore_use_count ≡ suc v
    total = ap (λ (t : Standing). t.1) e

-- A service that has `n` uses of a total of `n + v` gives back all of its own, and no other.
pub release_uses-at :
    (n v : ℕ) (s : State) (port : ℕ) (svc : Service)
    → standing s port ≡ (some svc, n + v)
    → svc.service_use_count ≡ n
    → n + v < 2 ^ 32
    → standing (release_uses n s port) port ≡ (some (record svc { service_use_count = 0 }), v)
unfolding release_uses
release_uses-at zero v s port svc e uses word =
    e ∙ ap₂ (λ (a b : ℕ). (some (record svc { service_use_count = a }), b)) uses (omega arith)
release_uses-at (suc n) v s port svc e uses word =
    release_uses-at n v (release_internal s (some port)).1 port
      (record svc { service_use_count = n })
      (release_internal-at s port svc n (n + v) (e ∙ ap (λ (t : ℕ). (some svc, t)) (omega arith))
        uses (omega arith) (omega arith))
      refl (omega arith)
