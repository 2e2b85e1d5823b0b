-- ===== src/Vchiq/Wake.antt =====
-- Using the VideoCore: `vchiq_use_internal` (interface/vchiq_arm/vchiq_arm.c) counts a user, stops a
-- suspend that has not begun, starts a resume where one is needed and waits for it.
pub mod Awake
pub mod Reach
pub mod Counted
mod Tests
use dkms_rpi_codec.Base.{
  ℕ, zero, suc, Bool, true, false, not, Option, none, some, List, [], ◌∷◌, leb, ◌==◌, if◌then◌else◌,
  option_case, add32, sub32,
}
use dkms_rpi_codec.Vchiq.Message.{make_msg}
use dkms_rpi_codec.Vchiq.State.{State, Status, success, error, retry, disconnected}
use dkms_rpi_codec.Vchiq.Suspend.{
  ArmState, SuspendStatus, ResumeStatus, suspend_code, is_suspend, set_suspend_state,
  set_resume_state, stop_suspend_timer, need_resume,
}
use dkms_rpi_codec.Vchiq.Service.{find_service_by_handle, unlock_service}
use dkms_rpi_codec.Vchiq.Reserve.{Wait, interrupted, resumed}
use dkms_rpi_codec.Vchiq.Transmit.{
  Passage, stop, blocked, pass, Sent, returns, waits_on, queue_message,
}
use dkms_rpi_codec.Vchiq.Transfer.{memcpy_copy_callback}
use dkms_rpi_codec.Vchiq.Open.{answered, no_flags}
use dkms_rpi_codec.Vchiq.Poll.{request_poll}
use dkms_rpi_codec.Vchiq.Power.{
  UseType, use_type_service, use_type_service_no_resume, use_type_vchiq, with_arm, use_count_of,
  set_use_count,
}

-- One look at `resume_blocked` in `vchiq_use_internal`: how its loop ends without a wait, if it does.
-- With the blocker open and the flag still set it turns round for ever, under its lock.
abbrev pub look : State → List Wait → Option Passage
look s waits =
    let a = s.platform_state in
    if not a.resume_blocked
    then some (pass s waits)
    else if is_suspend a.vc_suspend_state SuspendStatus.idle
    then some (pass (with_arm s (set_suspend_state a SuspendStatus.force_canceled)) waits)
    else if a.resume_blocker
    then some (blocked s)
    else none

abbrev pub count_blocked : State → State
count_blocked s =
    with_arm s (record s.platform_state { blocked_count = add32 s.platform_state.blocked_count 1 })

abbrev pub uncount_blocked : State → State
uncount_blocked s =
    with_arm s (record s.platform_state { blocked_count = sub32 s.platform_state.blocked_count 1 })

-- After the wait the last thread opens `blocked_blocker`.
abbrev pub leave_blocker : State → State
leave_blocker s =
    let s' = uncount_blocked s in
    if s'.platform_state.blocked_count == 0
    then with_arm s' (record s'.platform_state { blocked_blocker = true })
    else s'

-- The loop on `resume_blocked`.
unfoldable pub await_resume_blocker : State → List Wait → Passage
unfolding set_suspend_state
await_resume_blocker s [] = option_case (look s []) (blocked (count_blocked s)) (λ p. p)
await_resume_blocker s (interrupted s' ∷ waits) =
    option_case (look s (interrupted s' ∷ waits)) (stop error (uncount_blocked s')) (λ p. p)
await_resume_blocker s (resumed s' ∷ waits) =
    let again = await_resume_blocker (leave_blocker s') waits in
    option_case (look s (resumed s' ∷ waits)) again (λ p. p)

-- A request to suspend that is not served yet is cleared.
unfoldable pub clear_request : ArmState → ArmState
unfolding set_suspend_state
clear_request a =
    if leb (suspend_code a.vc_suspend_state) (suspend_code SuspendStatus.requested)
    then set_suspend_state a SuspendStatus.idle
    else a

unfoldable pub wants_resume : UseType → ArmState → Bool
unfolding need_resume
wants_resume use_type_service a = need_resume a
wants_resume use_type_service_no_resume a = false
wants_resume use_type_vchiq a = need_resume a

-- The part under the lock: the counts, and the two machines.
unfoldable pub count_use : State → UseType → Option ℕ → State
unfolding use_count_of set_use_count clear_request wants_resume set_resume_state request_poll
count_use s use_type entity =
    let a = stop_suspend_timer s.platform_state in
    let counted = record a { videocore_use_count = add32 a.videocore_use_count 1 } in
    let s' = set_use_count (with_arm s counted) entity (add32 (use_count_of s entity) 1) in
    let b = clear_request s'.platform_state in
    if wants_resume use_type b
    then request_poll (with_arm s' (set_resume_state b ResumeStatus.requested)) none 0
    else with_arm s' b

-- `vchiq_send_remote_use_active`, whose message is of type VCHIQ_MSG_REMOTE_USE_ACTIVE.
unfoldable pub send_remote_use_active : State → Bool → Status × State
send_remote_use_active s locked = elim s.conn_state [
  | disconnected ↦ (retry, s)
  | _ ↦
      answered
        (queue_message s none (make_msg 14 0 0) (memcpy_copy_callback []) 0 no_flags locked [])
]

-- The loop that acknowledges the uses of the other side.
unfoldable pub send_acks : ℕ → State → Bool → State
send_acks zero s locked = s
send_acks (suc left) s locked =
    let (st, s') = send_remote_use_active s locked in
    let rest = send_acks left s' locked in
    let a = s'.platform_state in
    elim st [
      | success ↦ rest
      | _ ↦ with_arm s' (record a { ka_use_ack_count = add32 a.ka_use_ack_count (suc left) })
    ]

-- What follows the wait for the VideoCore to run.
unfoldable pub acknowledge_use : State → Bool → Status × State
unfolding send_acks
acknowledge_use s locked =
    let a = s.platform_state in
    (success, send_acks a.ka_use_ack_count (with_arm s (record a { ka_use_ack_count = 0 })) locked)

abbrev pub finished : Status × State → Sent
finished r = returns r.0 r.1

unfoldable pub await_resume : State → List Wait → Bool → Sent
unfolding acknowledge_use
await_resume s [] locked =
    if s.platform_state.vc_resume_complete then finished (acknowledge_use s locked) else waits_on s
await_resume s (interrupted s' ∷ waits) locked =
    if s.platform_state.vc_resume_complete
    then finished (acknowledge_use s locked)
    else returns error s'
await_resume s (resumed s' ∷ waits) locked =
    if s.platform_state.vc_resume_complete
    then finished (acknowledge_use s locked)
    else finished (acknowledge_use s' locked)

-- `vchiq_use_internal`; a service type without a service is refused.
unfoldable pub use_internal : State → UseType → Option ℕ → List Wait → Bool → Sent
unfolding await_resume_blocker count_use await_resume
use_internal s use_type service waits locked =
    let entity : Option ℕ = elim use_type [ use_type_vchiq ↦ none | _ ↦ service ] in
    let result : Sent = elim (await_resume_blocker s waits) [
      | stop st s' ↦ returns st s'
      | blocked s' ↦ waits_on s'
      | pass s' rest ↦ await_resume (count_use s' use_type entity) rest locked
    ] in
    elim use_type [
      | use_type_vchiq ↦ result
      | _ ↦ option_case service (returns error s) (λ port. result)
    ]

-- `vchiq_use_service`, by handle.
abbrev pub unlock_sent : ℕ → Sent → Sent
unlock_sent port (returns st s) = returns st (unlock_service s port).0
unlock_sent port (waits_on s) = waits_on s

unfoldable pub use_service : State → ℕ → List Wait → Bool → Sent
unfolding use_internal
use_service s handle waits locked =
    let (found, s') = find_service_by_handle s handle in
    option_case found (returns error s')
      (λ port. unlock_sent port (use_internal s' use_type_service (some port) waits locked))
