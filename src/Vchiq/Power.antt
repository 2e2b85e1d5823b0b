-- ===== src/Vchiq/Power.antt =====
-- The counts of the users of the VideoCore (interface/vchiq_arm/vchiq_arm.c): a release
-- moves the count of the service and the total, and may start the suspend machine.
pub mod Counts
pub mod Released
use dkms_rpi_codec.Base.{
  ℕ, ◌+◌, Bool, true, false, not, ◌&&◌, ◌||◌, Option, none, some, ◌==◌, if◌then◌else◌, option_case,
  add32, sub32,
}
use dkms_rpi_codec.Vchiq.State.{State, Status, success, error}
use dkms_rpi_codec.Vchiq.Suspend.{
  ArmState, SuspendStatus, ResumeStatus, is_suspend, set_suspend_state, set_resume_state, is_resume,
  start_suspend_timer, platform_use_suspend_timer, videocore_wanted, need_resume,
}
use dkms_rpi_codec.Vchiq.Service.{find_service_by_handle, unlock_service}
use dkms_rpi_codec.Vchiq.Open.{on_service}
use dkms_rpi_codec.Vchiq.Poll.{request_poll}

-- enum USE_TYPE_E
pub data UseType : Type 0 where
  use_type_service use_type_service_no_resume use_type_vchiq : UseType

abbrev pub with_arm : State → ArmState → State
with_arm s a = record s { platform_state = a }

-- A peer's use has no service.
unfoldable pub use_count_of : State → Option ℕ → ℕ
use_count_of s entity =
    option_case entity s.platform_state.peer_use_count
      (λ port. option_case (s.services port) 0 (λ svc. svc.service_use_count))

unfoldable pub set_use_count : State → Option ℕ → ℕ → State
set_use_count s entity n =
    option_case entity (with_arm s (record s.platform_state { peer_use_count = n }))
      (λ port. on_service s port (λ svc. record svc { service_use_count = n }))

-- `vchiq_arm_vcsuspend`, by the state of the machine; the states that it does not expect are first
-- reset.
unfoldable pub suspend_from : SuspendStatus → State → State
unfolding set_suspend_state request_poll
suspend_from SuspendStatus.requested s = s
suspend_from SuspendStatus.in_progress s = s
suspend_from SuspendStatus.idle s =
    request_poll (with_arm s (set_suspend_state s.platform_state SuspendStatus.requested)) none 0
suspend_from _ s =
    request_poll
      (with_arm s (
        set_suspend_state (set_suspend_state s.platform_state SuspendStatus.idle)
          SuspendStatus.requested))
      none 0

unfoldable pub arm_vcsuspend : State → Status × State
unfolding suspend_from
arm_vcsuspend s = (success, suspend_from s.platform_state.vc_suspend_state s)

-- `vchiq_check_resume`, and whether it asked for a resume.
unfoldable pub check_resume : State → Bool × State
unfolding set_resume_state request_poll need_resume
check_resume s =
    if need_resume s.platform_state
    then (
      true,
      request_poll (with_arm s (set_resume_state s.platform_state ResumeStatus.requested)) none 0,
    )
    else (false, s)

-- `vchiq_check_suspend`
unfoldable pub check_suspend : State → State
unfolding arm_vcsuspend videocore_wanted
check_suspend s =
    let a = s.platform_state in
    if not (is_suspend a.vc_suspend_state SuspendStatus.suspended)
      && a.first_connect
      && not (videocore_wanted a)
    then (arm_vcsuspend s).1
    else s

-- `vchiq_platform_check_suspend`; the platform's own suspend does nothing.
unfoldable pub platform_check_suspend : State → State
unfolding set_suspend_state
platform_check_suspend s =
    let a = s.platform_state in
    if is_suspend a.vc_suspend_state SuspendStatus.requested
      && is_resume a.vc_resume_state ResumeStatus.resumed
    then with_arm s (set_suspend_state a SuspendStatus.in_progress)
    else s

-- What a release leads to once it is counted.
unfoldable pub after_release : State → Status × State
unfolding arm_vcsuspend videocore_wanted
after_release s =
    if videocore_wanted s.platform_state
    then (success, s)
    else if platform_use_suspend_timer && not s.platform_state.resume_blocked
    then (success, with_arm s (start_suspend_timer s.platform_state))
    else (success, (arm_vcsuspend s).1)

-- One use fewer, in total and of the user.
unfoldable pub uncount_use : State → Option ℕ → State
unfolding use_count_of set_use_count
uncount_use s entity =
    let a = s.platform_state in
    set_use_count (with_arm s (record a { videocore_use_count = sub32 a.videocore_use_count 1 }))
      entity (sub32 (use_count_of s entity) 1)

-- `vchiq_release_internal`
unfoldable pub release_internal : State → Option ℕ → Status × State
unfolding use_count_of uncount_use after_release
release_internal s entity =
    let a = s.platform_state in
    if (a.videocore_use_count == 0) || (use_count_of s entity == 0)
    then (error, s)
    else after_release (uncount_use s entity)

-- `vchiq_release_service`, by handle.
unfoldable pub release_service : State → ℕ → Status × State
unfolding release_internal
release_service s handle =
    let (found, s') = find_service_by_handle s handle in
    option_case found (error, s')
      λ port. let (st, s'') = release_internal s' (some port) in (st, (unlock_service s'' port).0)

-- `vchiq_on_remote_use` and `vchiq_on_remote_release`
unfoldable pub on_remote_use : State → State
on_remote_use s =
    let a = s.platform_state in
    with_arm s (record a { ka_use_count = add32 a.ka_use_count 1; ka_evt = a.ka_evt + 1 })

unfoldable pub on_remote_release : State → State
on_remote_release s =
    let a = s.platform_state in
    with_arm s (record a { ka_release_count = add32 a.ka_release_count 1; ka_evt = a.ka_evt + 1 })
