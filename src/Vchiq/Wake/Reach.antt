-- ===== src/Vchiq/Wake/Reach.antt =====
-- Uses and releases, in any order, never suspend the VideoCore.
use dkms_rpi_codec.Base.{
  ℕ, ◌≡◌, refl, sym, ap, ◌∙◌, subst, inl, inr, Bool, true, false, not, ◌&&◌, ◌||◌, Option, none,
  List, ltb, ◌==◌, if◌then◌else◌, Bool-cases, sub32,
}
use dkms_rpi_codec.Vchiq.State.{State, Status, success}
use dkms_rpi_codec.Vchiq.Suspend.{
  ArmState, SuspendStatus, ResumeStatus, arm_init_state, zero_arm_state, need_resume,
  videocore_wanted, suspend_code, resume_code, is_suspend, is_resume, set_suspend_state,
  set_resume_state, start_suspend_timer, platform_use_suspend_timer, platform_videocore_wanted,
}
use dkms_rpi_codec.Vchiq.Reserve.{Wait}
use dkms_rpi_codec.Vchiq.Transmit.{returns}
use dkms_rpi_codec.Vchiq.Poll.{request_poll}
use dkms_rpi_codec.Vchiq.Power.{
  UseType, with_arm, use_count_of, release_internal, check_suspend, uncount_use, check_resume,
  arm_vcsuspend, after_release, platform_check_suspend, on_remote_use, on_remote_release,
}
use dkms_rpi_codec.Vchiq.Wake.{use_internal}
use dkms_rpi_codec.Vchiq.Wake.Awake.{
  Watch, watch, watch-set_use_count, IsAwake, IsServed, HasUser, use_internal_awake,
}

videocore_wanted-awake :
    (a : ArmState)
    → watch a ≡ (SuspendStatus.idle, ResumeStatus.resumed, true, false)
    → videocore_wanted a ≡ true
unfolding videocore_wanted
videocore_wanted-awake a w = elim (Bool-cases (a.blocked_count == 0)) [
  | inr waiting ↦ rw waiting refl
  | inl quiet ↦ elim (Bool-cases (a.videocore_use_count == 0)) [
    | inr used ↦ rw (quiet, used) refl
    | inl idle ↦
        rw (quiet, idle) (ap (λ (t : Watch). if t.3 then false else platform_videocore_wanted) w)
  ]
]

pick_true {ℓ κ} :
    {A : Type ℓ} (P : A → Type κ) (b : Bool) (x y : A) → b ≡ true → P x → P (if b then x else y)
pick_true P b x y e h = rw e h

pick_false {ℓ κ} :
    {A : Type ℓ} (P : A → Type κ) (b : Bool) (x y : A) → b ≡ false → P y → P (if b then x else y)
pick_false P b x y e h = rw e h

after_release-IsAwake : (s : State) → IsAwake s → IsAwake (after_release s).1
unfolding after_release
after_release-IsAwake s w =
    pick_true (λ (r : Status × State). IsAwake r.1) (videocore_wanted s.platform_state) (success, s)
      (if platform_use_suspend_timer && not s.platform_state.resume_blocked
        then (success, with_arm s (start_suspend_timer s.platform_state))
        else (success, (arm_vcsuspend s).1))
      (videocore_wanted-awake s.platform_state w) w

uncount_use-IsAwake : (s : State) (entity : Option ℕ) → IsAwake s → IsAwake (uncount_use s entity)
unfolding uncount_use
uncount_use-IsAwake s entity w =
    watch-set_use_count
      (with_arm s (record s.platform_state {
        videocore_use_count = sub32 s.platform_state.videocore_use_count 1;
      }))
      entity (sub32 (use_count_of s entity) 1)
    ∙ w

release_internal-IsAwake :
    (s : State) (entity : Option ℕ) → IsAwake s → IsAwake (release_internal s entity).1
unfolding release_internal
release_internal-IsAwake s entity w =
    elim (Bool-cases
      ((s.platform_state.videocore_use_count == 0) || (use_count_of s entity == 0))) [
        | inl refused ↦ rw refused w
        | inr counted ↦ rw counted (after_release-IsAwake (uncount_use s entity) kept)
      ]
  where
    kept : IsAwake (uncount_use s entity)
    kept = uncount_use-IsAwake s entity w

check_suspend-IsAwake : (s : State) → IsAwake s → IsAwake (check_suspend s)
unfolding check_suspend
check_suspend-IsAwake s w = pick_false IsAwake _ (arm_vcsuspend s).1 s unwanted w
  where
    unwanted :
        (not (is_suspend s.platform_state.vc_suspend_state SuspendStatus.suspended)
          && s.platform_state.first_connect
          && not (videocore_wanted s.platform_state))
        ≡ false
    unwanted =
        rw (videocore_wanted-awake s.platform_state w)
          (elim (Bool-cases
            (is_suspend s.platform_state.vc_suspend_state SuspendStatus.suspended)) [
              | inl e ↦ rw e refl
              | inr e ↦ elim (Bool-cases s.platform_state.first_connect) [
                | inl f ↦ rw (e, f) refl
                | inr f ↦ rw (e, f) refl
              ]
            ])

check_resume-IsAwake : (s : State) → IsAwake s → IsAwake (check_resume s).1
unfolding check_resume need_resume
check_resume-IsAwake s w =
    pick_false (λ (r : Bool × State). IsAwake r.1) (need_resume s.platform_state)
      (
        true,
        request_poll (with_arm s (set_resume_state s.platform_state ResumeStatus.requested)) none 0,
      )
      (false, s)
      (ap
        (λ (t : Watch).
          ltb 3 (suspend_code t.0) && ltb (resume_code t.1) 2 && videocore_wanted s.platform_state)
        w)
      w

platform_check_suspend-IsAwake : (s : State) → IsAwake s → IsAwake (platform_check_suspend s)
unfolding platform_check_suspend
platform_check_suspend-IsAwake s w =
    pick_false IsAwake
      (is_suspend s.platform_state.vc_suspend_state SuspendStatus.requested
        && is_resume s.platform_state.vc_resume_state ResumeStatus.resumed)
      (with_arm s (set_suspend_state s.platform_state SuspendStatus.in_progress)) s
      (ap
        (λ (t : Watch).
          is_suspend t.0 SuspendStatus.requested && is_resume t.1 ResumeStatus.resumed)
        w)
      w

-- The steps that the driver takes on the use counts: a use by a service or by the peer that returned,
-- a release, the two notes of the other side, and the checks of the two machines.
pub data Step (s : State) : State → Type 0 where
  used :
      (t : UseType) (entity : Option ℕ) (waits : List Wait) (locked : Bool) (s' : State)
      → HasUser t entity
      → use_internal s t entity waits locked ≡ returns success s'
      → Step s s'
  released : (entity : Option ℕ) → Step s (release_internal s entity).1
  remote_use : Step s (on_remote_use s)
  remote_release : Step s (on_remote_release s)
  suspend_checked : Step s (check_suspend s)
  resume_checked : Step s (check_resume s).1
  polled : Step s (platform_check_suspend s)

pub data Reach (s : State) : State → Type 0 where
  here : Reach s s
  next : {t u : State} → Reach s t → Step t u → Reach s u

returns-injective : {st st' : Status} {s s' : State} → returns st s ≡ returns st' s' → s ≡ s'
returns-injective e = cc e

Step-IsAwake : {s u : State} → Step s u → IsAwake s → IsAwake u
unfolding on_remote_use on_remote_release
Step-IsAwake {s} (used t entity waits locked s' user e) w =
    let (v, e', k) = use_internal_awake s t entity waits locked user w in
    subst IsAwake (returns-injective (sym e' ∙ e)) k
Step-IsAwake {s} (released entity) w = release_internal-IsAwake s entity w
Step-IsAwake remote_use w = w
Step-IsAwake remote_release w = w
Step-IsAwake {s} suspend_checked w = check_suspend-IsAwake s w
Step-IsAwake {s} resume_checked w = check_resume-IsAwake s w
Step-IsAwake {s} polled w = platform_check_suspend-IsAwake s w

-- From the state that the driver starts with, whatever uses, releases and checks follow, a use by a
-- service or by the peer is served: it succeeds at once, with no wait for the VideoCore, and
-- leaves it running.
pub use_internal-IsServed :
    (s t : State) (use_type : UseType) (service : Option ℕ) (waits : List Wait) (locked : Bool)
    → s.platform_state ≡ arm_init_state zero_arm_state
    → Reach s t
    → HasUser use_type service
    → IsServed (use_internal t use_type service waits locked)
unfolding arm_init_state set_resume_state
use_internal-IsServed s t use_type service waits locked start r user =
    use_internal_awake t use_type service waits locked user (awake r)
  where
    awake : {u : State} → Reach s u → IsAwake u
    awake here = ap watch start
    awake (next before st) = Step-IsAwake st (awake before)
