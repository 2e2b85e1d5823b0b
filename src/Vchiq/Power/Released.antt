-- ===== src/Vchiq/Power/Released.antt =====
-- A release moves the total and the user's count together.
use dkms_rpi_codec.Base.{
  ℕ, zero, suc, ◌^◌, ◌≤◌, ◌<◌, ◌≡◌, refl, sym, ap, subst, ◌⊎◌, inl, inr, false, ◌||◌, Option, none,
  some, arith, ◌==◌, ==_iff, ==_ne, Bool-cases, Option-cases, ℕ-cases, sub32,
}
use dkms_rpi_codec.Vchiq.State.{State, Service, error}
use dkms_rpi_codec.Vchiq.Suspend.{SuspendStatus, videocore_wanted}
use dkms_rpi_codec.Vchiq.Power.{
  suspend_from, use_count_of, uncount_use, after_release, release_internal, arm_vcsuspend,
}
use dkms_rpi_codec.Vchiq.Power.Counts.{
  total, used_at, tally, IsTallied, IsCounted, IsThere, set_use_count-IsCounted,
}

tally-suspend_from : (st : SuspendStatus) (s : State) → tally (suspend_from st s) ≡ tally s
unfolding suspend_from
tally-suspend_from SuspendStatus.requested s = refl
tally-suspend_from SuspendStatus.in_progress s = refl
tally-suspend_from _ s = refl

tally-after_release : (s : State) → tally (after_release s).1 ≡ tally s
unfolding after_release arm_vcsuspend
tally-after_release s = elim (Bool-cases (videocore_wanted s.platform_state)) [
  | inl e ↦ rw e refl
  | inr e ↦ rw e (tally-suspend_from s.platform_state.vc_suspend_state s)
]

-- A release is refused where nothing is in use.
pub release_internal_refused :
    (s : State) (entity : Option ℕ)
    → (s.platform_state.videocore_use_count ≡ 0) ⊎ (use_count_of s entity ≡ 0)
    → release_internal s entity ≡ (error, s)
unfolding release_internal
release_internal_refused s entity (inl e) = rw ((==_iff _ 0).1 e) refl
release_internal_refused s entity (inr e) =
    elim (Bool-cases (s.platform_state.videocore_use_count == 0)) [
      | inl z ↦ rw z refl
      | inr z ↦ rw (z, (==_iff (use_count_of s entity) 0).1 e) refl
    ]

pub tally-release_internal :
    (s : State) (entity : Option ℕ)
    → 0 < s.platform_state.videocore_use_count
    → 0 < use_count_of s entity
    → tally (release_internal s entity).1 ≡ tally (uncount_use s entity)
unfolding release_internal
tally-release_internal s entity h k = rw counted (tally-after_release (uncount_use s entity))
  where
    counted : ((s.platform_state.videocore_use_count == 0) || (use_count_of s entity == 0)) ≡ false
    counted =
        rw (==_ne s.platform_state.videocore_use_count 0 (λ e. omega (arith, e)))
          (==_ne (use_count_of s entity) 0 (λ e. omega (arith, e)))

-- A user with uses is there.
used-IsThere : (s : State) (entity : Option ℕ) → 0 < use_count_of s entity → IsThere s entity
unfolding use_count_of
used-IsThere s none h = tt
used-IsThere s (some port) h = elim (Option-cases (s.services port)) [
  | inl e ↦ absurd (not_below_zero (rw e at h))
  | inr found ↦ found
]
  where
    not_below_zero : 0 < 0 → ⊥
    not_below_zero k = omega arith

uncount_use-IsCounted :
    (s : State) (entity : Option ℕ)
    → IsCounted s
    → 0 < s.platform_state.videocore_use_count
    → 0 < use_count_of s entity
    → use_count_of s entity < 2 ^ 32
    → IsCounted (uncount_use s entity)
unfolding uncount_use
uncount_use-IsCounted s entity c h k word =
    set_use_count-IsCounted s
      (record s.platform_state {
        videocore_use_count = sub32 s.platform_state.videocore_use_count 1;
      })
      entity (sub32 (use_count_of s entity) 1) c (used-IsThere s entity k) refl
      (omega (arith, c.word)) (omega arith)

-- Each user's count is part of the total.
use_count-le-total :
    (n port : ℕ) (services : ℕ → Option Service)
    → port < n
    → used_at services port ≤ total n services
unfolding total
use_count-le-total zero port services h = elim h [ ]
use_count-le-total (suc n) port services h = elim (Bool-cases (port == n)) [
  | inl same ↦ omega (arith, ap (used_at services) ((==_iff port n).0 same))
  | inr other ↦ omega (arith, use_count-le-total n port services (ground arith))
]

pub use_count_of-le :
    (s : State) (entity : Option ℕ)
    → IsCounted s
    → IsThere s entity
    → use_count_of s entity ≤ s.platform_state.videocore_use_count
unfolding use_count_of
use_count_of-le s none c there = omega (arith, c.adds_up)
use_count_of-le s (some port) c (svc, e) =
    omega
      (arith, c.adds_up, use_count-le-total s.unused_service port s.services (c.below port svc e))

-- After any release, counted or refused, the total is still the sum of the services' counts and the
-- peer's.
pub release_internal-IsCounted :
    (s : State) (entity : Option ℕ) → IsCounted s → IsCounted (release_internal s entity).1
release_internal-IsCounted s entity c = elim (ℕ-cases s.platform_state.videocore_use_count) [
  | inl z ↦ rw (release_internal_refused s entity (inl z)) c
  | inr (v, vc) ↦ elim (ℕ-cases (use_count_of s entity)) [
    | inl z ↦ rw (release_internal_refused s entity (inr z)) c
    | inr (u, uc) ↦
        subst IsTallied (sym (tally-release_internal s entity (omega arith) (omega arith))) (
          uncount_use-IsCounted s entity c (omega arith) (omega arith) (
            omega
              (arith, c.word, use_count_of-le s entity c (used-IsThere s entity (omega arith)))))
  ]
]
