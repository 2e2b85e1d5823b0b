-- ===== src/Vchiq/Suspend.antt =====
-- The state that vchiq_arm.c keeps beside a link (`struct vchiq_arm_state` of
-- interface/vchiq_arm/vchiq_arm.h), and its suspend and resume machines (vchiq_arm.c). The completions
-- are only completed for all, so each is a flag; locks, threads and times are left out.
use dkms_rpi_codec.Base.{ℕ, Bool, true, false, not, ◌&&◌, ltb, ◌==◌, if◌then◌else◌}

-- enum vc_suspend_status
pub data SuspendStatus : Type 0 where
  force_canceled rejected failed idle requested in_progress suspended : SuspendStatus

-- enum vc_resume_status
pub data ResumeStatus : Type 0 where
  failed idle requested in_progress resumed : ResumeStatus

-- struct vchiq_arm_state
pub record ArmState : Type 0 where
  pub ka_evt : ℕ
  pub ka_use_count : ℕ
  pub ka_use_ack_count : ℕ
  pub ka_release_count : ℕ
  pub vc_suspend_complete : Bool
  pub vc_resume_complete : Bool
  pub vc_suspend_state : SuspendStatus
  pub vc_resume_state : ResumeStatus
  pub suspend_timer_running : Bool
  pub videocore_use_count : ℕ
  pub peer_use_count : ℕ
  pub resume_blocker : Bool
  pub resume_blocked : Bool
  pub blocked_blocker : Bool
  pub blocked_count : ℕ
  pub first_connect : Bool

-- The numbers of the enumerations, three and one above the source's.
abbrev pub suspend_code : SuspendStatus → ℕ
suspend_code SuspendStatus.force_canceled = 0
suspend_code SuspendStatus.rejected = 1
suspend_code SuspendStatus.failed = 2
suspend_code SuspendStatus.idle = 3
suspend_code SuspendStatus.requested = 4
suspend_code SuspendStatus.in_progress = 5
suspend_code SuspendStatus.suspended = 6

abbrev pub resume_code : ResumeStatus → ℕ
resume_code ResumeStatus.failed = 0
resume_code ResumeStatus.idle = 1
resume_code ResumeStatus.requested = 2
resume_code ResumeStatus.in_progress = 3
resume_code ResumeStatus.resumed = 4

abbrev pub is_suspend : SuspendStatus → SuspendStatus → Bool
is_suspend a b = suspend_code a == suspend_code b

abbrev pub is_resume : ResumeStatus → ResumeStatus → Bool
is_resume a b = resume_code a == resume_code b

-- `set_suspend_state` with VC_SUSPEND_IDLE, the one call of it that `set_resume_state` makes.
abbrev pub suspend_idle : ArmState → ArmState
suspend_idle a = record a { vc_suspend_state = SuspendStatus.idle; vc_suspend_complete = false }

unfoldable pub set_resume_state : ArmState → ResumeStatus → ArmState
set_resume_state a ResumeStatus.failed = record a { vc_resume_state = ResumeStatus.failed }
set_resume_state a ResumeStatus.idle = record a {
  vc_resume_state = ResumeStatus.idle;
  vc_resume_complete = false;
}
set_resume_state a ResumeStatus.requested = record a { vc_resume_state = ResumeStatus.requested }
set_resume_state a ResumeStatus.in_progress = record a {
  vc_resume_state = ResumeStatus.in_progress;
}
set_resume_state a ResumeStatus.resumed =
    suspend_idle (record a { vc_resume_state = ResumeStatus.resumed; vc_resume_complete = true })

unfoldable pub set_suspend_state : ArmState → SuspendStatus → ArmState
unfolding set_resume_state
set_suspend_state a SuspendStatus.force_canceled = record a {
  vc_suspend_state = SuspendStatus.force_canceled;
  vc_suspend_complete = true;
}
set_suspend_state a SuspendStatus.rejected = record a {
  vc_suspend_state = SuspendStatus.rejected;
  vc_suspend_complete = true;
}
set_suspend_state a SuspendStatus.failed = record a {
  vc_suspend_state = SuspendStatus.failed;
  vc_suspend_complete = true;
  vc_resume_state = ResumeStatus.resumed;
  vc_resume_complete = true;
}
set_suspend_state a SuspendStatus.idle = suspend_idle a
set_suspend_state a SuspendStatus.requested = record a {
  vc_suspend_state = SuspendStatus.requested;
}
set_suspend_state a SuspendStatus.in_progress =
    set_resume_state (record a { vc_suspend_state = SuspendStatus.in_progress }) ResumeStatus.idle
set_suspend_state a SuspendStatus.suspended = record a {
  vc_suspend_state = SuspendStatus.suspended;
  vc_suspend_complete = true;
}

abbrev pub stop_suspend_timer : ArmState → ArmState
stop_suspend_timer a =
    if a.suspend_timer_running then record a { suspend_timer_running = false } else a

abbrev pub start_suspend_timer : ArmState → ArmState
start_suspend_timer a = record a { suspend_timer_running = true }

-- `unblock_resume`
unfoldable pub unblock_resume : ArmState → ArmState
unblock_resume a = record a { resume_blocker = true; resume_blocked = false }

-- `vchiq_platform_videocore_wanted` and `vchiq_platform_use_suspend_timer` of vchiq_2835_arm.c.
abbrev pub platform_videocore_wanted : Bool
platform_videocore_wanted = true

abbrev pub platform_use_suspend_timer : Bool
platform_use_suspend_timer = false

-- `vchiq_videocore_wanted`; there is an arm state.
unfoldable pub videocore_wanted : ArmState → Bool
videocore_wanted a =
    if not (a.blocked_count == 0)
    then true
    else if a.videocore_use_count == 0
    then (if a.resume_blocked then false else platform_videocore_wanted)
    else true

unfoldable pub need_resume : ArmState → Bool
unfolding videocore_wanted
need_resume a =
    ltb (suspend_code SuspendStatus.idle) (suspend_code a.vc_suspend_state)
    && ltb (resume_code a.vc_resume_state) (resume_code ResumeStatus.requested)
    && videocore_wanted a

-- The memory that `kzalloc` gives.
abbrev pub zero_arm_state : ArmState
zero_arm_state = record {
  ka_evt = 0;
  ka_use_count = 0;
  ka_use_ack_count = 0;
  ka_release_count = 0;
  vc_suspend_complete = false;
  vc_resume_complete = false;
  vc_suspend_state = SuspendStatus.idle;
  vc_resume_state = ResumeStatus.idle;
  suspend_timer_running = false;
  videocore_use_count = 0;
  peer_use_count = 0;
  resume_blocker = false;
  resume_blocked = false;
  blocked_blocker = false;
  blocked_count = 0;
  first_connect = false;
}

-- `vchiq_arm_init_state`
unfoldable pub arm_init_state : ArmState → ArmState
unfolding set_resume_state
arm_init_state a =
    let a' = record a {
      ka_evt = 0;
      ka_use_count = 0;
      ka_use_ack_count = 0;
      ka_release_count = 0;
      vc_suspend_complete = false;
      vc_resume_complete = false;
    } in
    record (set_resume_state a' ResumeStatus.resumed) {
      resume_blocker = true;
      blocked_blocker = true;
      suspend_timer_running = false;
      first_connect = false;
    }
