-- ===== src/Vchiq/Wake/Counted.antt =====
-- A use moves the total and the user's count together.
use dkms_rpi_codec.Base.{
  ℕ, suc, ◌+◌, ◌^◌, ◌<◌, ◌≡◌, refl, sym, ap, ◌∙◌, subst, inl, inr, Bool, true, false, Option, none,
  arith, leb, if◌then◌else◌, Bool-cases, add32,
}
use dkms_rpi_codec.Vchiq.State.{State}
use dkms_rpi_codec.Vchiq.Suspend.{
  ArmState, ResumeStatus, SuspendStatus, set_suspend_state, set_resume_state, suspend_code,
  stop_suspend_timer,
}
use dkms_rpi_codec.Vchiq.Poll.{request_poll}
use dkms_rpi_codec.Vchiq.Power.{UseType, with_arm, use_count_of, set_use_count}
use dkms_rpi_codec.Vchiq.Power.Counts.{
  tally, IsTallied, IsCounted, IsThere, set_use_count-IsCounted,
}
use dkms_rpi_codec.Vchiq.Power.Released.{use_count_of-le}
use dkms_rpi_codec.Vchiq.Wake.{clear_request, wants_resume, count_use}

-- The two counts of the link, which the machines leave alone.
abbrev counters : ArmState → ℕ × ℕ
counters a = (a.videocore_use_count, a.peer_use_count)

counters-clear_request : (a : ArmState) → counters (clear_request a) ≡ counters a
unfolding clear_request set_suspend_state
counters-clear_request a =
    elim (Bool-cases
      (leb (suspend_code a.vc_suspend_state) (suspend_code SuspendStatus.requested))) [
        | inl e ↦ rw e refl
        | inr e ↦ rw e refl
      ]

counters-stop_suspend_timer : (a : ArmState) → counters (stop_suspend_timer a) ≡ counters a
counters-stop_suspend_timer a = finish a.suspend_timer_running
  where
    finish :
        (b : Bool)
        → counters (if b then record a { suspend_timer_running = false } else a) ≡ counters a
    finish true = refl
    finish false = refl

tally-settle :
    (s : State) (b : ArmState) (resumes : Bool)
    → counters b ≡ counters s.platform_state
    → tally (
        if resumes
        then request_poll (with_arm s (set_resume_state b ResumeStatus.requested)) none 0
        else with_arm s b)
      ≡ tally s
unfolding request_poll set_resume_state
tally-settle s b true e = ap (λ (c : ℕ × ℕ). (c.0, c.1, s.unused_service, s.services)) e
tally-settle s b false e = ap (λ (c : ℕ × ℕ). (c.0, c.1, s.unused_service, s.services)) e

-- A use of a service of the table or by the peer keeps the total the sum of the services' counts and
-- the peer's, as long as the total has room for one more.
pub count_use-IsCounted :
    (s : State) (use_type : UseType) (entity : Option ℕ)
    → IsCounted s
    → IsThere s entity
    → suc s.platform_state.videocore_use_count < 2 ^ 32
    → IsCounted (count_use s use_type entity)
unfolding count_use
count_use-IsCounted s use_type entity c there room =
    subst IsTallied (sym (tally-settle counted_state _ (wants_resume use_type _) machine)) (
      set_use_count-IsCounted s counted entity (add32 (use_count_of s entity) 1) c there
        (ap (λ (p : ℕ × ℕ). p.1) (counters-stop_suspend_timer s.platform_state))
        (omega (arith, sum, use_count_of-le s entity c there)) (omega (arith, sum)))
  where
    counted : ArmState
    counted =
        let a = stop_suspend_timer s.platform_state in
        record a { videocore_use_count = add32 a.videocore_use_count 1 }

    counted_state : State
    counted_state = set_use_count (with_arm s counted) entity (add32 (use_count_of s entity) 1)

    sum : counted.videocore_use_count ≡ s.platform_state.videocore_use_count + 1
    sum =
        ap (λ (p : ℕ × ℕ). add32 p.0 1) (counters-stop_suspend_timer s.platform_state) ∙ omega arith

    machine :
        counters (clear_request counted_state.platform_state)
        ≡ counters counted_state.platform_state
    machine = counters-clear_request counted_state.platform_state
