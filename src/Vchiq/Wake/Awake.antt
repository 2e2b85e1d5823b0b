-- ===== src/Vchiq/Wake/Awake.antt =====
-- The VideoCore of a BCM2835 is never suspended: the platform always wants it.
use dkms_rpi_codec.Base.{
  ℕ, zero, suc, ◌≡◌, refl, ap, ◌∙◌, inl, inr, Bool, true, false, ◌&&◌, Option, none, some, List, [],
  ◌∷◌, ltb, leb, if◌then◌else◌, Option-cases, option_case, add32,
}
use dkms_rpi_codec.Vchiq.Message.{make_msg, msg_type}
use dkms_rpi_codec.Vchiq.State.{State, Status, success, error, retry, ConnState, disconnected}
use dkms_rpi_codec.Vchiq.Suspend.{
  resume_code, set_resume_state, suspend_code, ArmState, SuspendStatus, ResumeStatus, need_resume,
  stop_suspend_timer, set_suspend_state, videocore_wanted,
}
use dkms_rpi_codec.Vchiq.Reserve.{resumed, interrupted, Wait}
use dkms_rpi_codec.Vchiq.Transmit.{blocked, stop, pass, Passage, Sent, returns, waits_on}
use dkms_rpi_codec.Vchiq.Transmit.Frame.{Frame, frame-queue_message}
use dkms_rpi_codec.Vchiq.Power.{
  UseType, use_type_service, use_type_service_no_resume, use_type_vchiq, with_arm, use_count_of,
  set_use_count,
}
use dkms_rpi_codec.Vchiq.Wake.{
  wants_resume, clear_request, no_flags, request_poll, memcpy_copy_callback, make_msg,
  await_resume_blocker, count_use, send_remote_use_active, send_acks, acknowledge_use, await_resume,
  use_internal,
}

abbrev pub Watch : Type 0
Watch = SuspendStatus × ResumeStatus × Bool × Bool

-- What decides whether a use must wait.
abbrev pub watch : ArmState → Watch
watch a = (a.vc_suspend_state, a.vc_resume_state, a.vc_resume_complete, a.resume_blocked)

-- The VideoCore runs, and nothing holds up a use.
abbrev pub IsAwake : State → Type 0
IsAwake s = watch s.platform_state ≡ (SuspendStatus.idle, ResumeStatus.resumed, true, false)

pub watch-set_use_count :
    (s : State) (entity : Option ℕ) (n : ℕ)
    → watch (set_use_count s entity n).platform_state ≡ watch s.platform_state
unfolding set_use_count
watch-set_use_count s none n = refl
watch-set_use_count s (some port) n = elim (Option-cases (s.services port)) [
  | inl e ↦ rw e refl
  | inr (svc, e) ↦ rw e refl
]

watch-stop_suspend_timer : (a : ArmState) → watch (stop_suspend_timer a) ≡ watch a
watch-stop_suspend_timer a = finish a.suspend_timer_running
  where
    finish :
        (b : Bool) → watch (if b then record a { suspend_timer_running = false } else a) ≡ watch a
    finish true = refl
    finish false = refl

arm-send_remote_use_active :
    (s : State) (locked : Bool)
    → (send_remote_use_active s locked).1.platform_state ≡ s.platform_state
unfolding send_remote_use_active make_msg msg_type
arm-send_remote_use_active s locked = finish s.conn_state _ (
    ap (λ (f : Frame). f.0)
      (frame-queue_message s (make_msg 14 0 0) (memcpy_copy_callback []) 0 no_flags locked refl
        refl))
  where
    finish :
        (c : ConnState) (sent : Status × State)
        → sent.1.platform_state ≡ s.platform_state
        → let r : Status × State = elim c [ disconnected ↦ (retry, s) | _ ↦ sent ] in
          r.1.platform_state ≡ s.platform_state
    finish disconnected sent h = refl
    finish c sent h = h

send_acks-IsAwake :
    (left : ℕ) (s : State) (locked : Bool) → IsAwake s → IsAwake (send_acks left s locked)
unfolding send_acks
send_acks-IsAwake zero s locked w = w
send_acks-IsAwake (suc left) s locked w =
    finish (send_remote_use_active s locked).0 (send_remote_use_active s locked).1
      (ap watch (arm-send_remote_use_active s locked) ∙ w)
      (send_acks-IsAwake left (send_remote_use_active s locked).1 locked)
  where
    finish :
        (st : Status) (s' : State)
        → IsAwake s'
        → (IsAwake s' → IsAwake (send_acks left s' locked))
        → let a = s'.platform_state in
          let r : State = elim st [
            | success ↦ send_acks left s' locked
            | _ ↦ with_arm s' (record a { ka_use_ack_count = add32 a.ka_use_ack_count (suc left) })
          ] in
          IsAwake r
    finish success s' k h = h k
    finish st s' k h = k

acknowledge_use-IsAwake :
    (s : State) (locked : Bool) → IsAwake s → IsAwake (acknowledge_use s locked).1
unfolding acknowledge_use
acknowledge_use-IsAwake s locked w = send_acks-IsAwake _ _ locked w

clear_request-awake :
    (a : ArmState)
    → watch a ≡ (SuspendStatus.idle, ResumeStatus.resumed, true, false)
    → watch (clear_request a) ≡ (SuspendStatus.idle, ResumeStatus.resumed, true, false)
unfolding clear_request set_suspend_state
clear_request-awake a w =
    ap
      (λ (t : Watch).
        watch (if leb (suspend_code t.0) 4 then set_suspend_state a SuspendStatus.idle else a))
      w
    ∙ ap (λ (t : Watch). (SuspendStatus.idle, t.1, t.2, t.3)) w

wants_resume-awake :
    (use_type : UseType) (a : ArmState)
    → watch a ≡ (SuspendStatus.idle, ResumeStatus.resumed, true, false)
    → wants_resume use_type a ≡ false
unfolding wants_resume need_resume
wants_resume-awake use_type_service a w =
    ap (λ (t : Watch). ltb 3 (suspend_code t.0) && ltb (resume_code t.1) 2 && videocore_wanted a) w
wants_resume-awake use_type_service_no_resume a w = refl
wants_resume-awake use_type_vchiq a w =
    ap (λ (t : Watch). ltb 3 (suspend_code t.0) && ltb (resume_code t.1) 2 && videocore_wanted a) w

settle-IsAwake :
    (s : State) (use_type : UseType) (b : ArmState)
    → watch b ≡ (SuspendStatus.idle, ResumeStatus.resumed, true, false)
    → IsAwake (
        if wants_resume use_type b
        then request_poll (with_arm s (set_resume_state b ResumeStatus.requested)) none 0
        else with_arm s b)
settle-IsAwake s use_type b w =
    ap
      (λ (r : Bool).
        watch
          (if r
            then request_poll (with_arm s (set_resume_state b ResumeStatus.requested)) none 0
            else with_arm s b).platform_state)
      (wants_resume-awake use_type b w)
    ∙ w

count_use-IsAwake :
    (s : State) (use_type : UseType) (entity : Option ℕ)
    → IsAwake s
    → IsAwake (count_use s use_type entity)
unfolding count_use
count_use-IsAwake s use_type entity w =
    settle-IsAwake (set_use_count (with_arm s counted) entity (add32 (use_count_of s entity) 1))
      use_type _ (clear_request-awake _ kept)
  where
    counted : ArmState
    counted =
        let a = stop_suspend_timer s.platform_state in
        record a { videocore_use_count = add32 a.videocore_use_count 1 }

    kept :
        watch
          (set_use_count
            (with_arm s counted)
            entity
            (add32 (use_count_of s entity) 1)).platform_state
        ≡ (SuspendStatus.idle, ResumeStatus.resumed, true, false)
    kept =
        watch-set_use_count (with_arm s counted) entity (add32 (use_count_of s entity) 1)
        ∙ watch-stop_suspend_timer s.platform_state
        ∙ w

-- How a use ends that does not wait.
abbrev pub IsServed : Sent → Type 0
IsServed r = (s : State) × (r ≡ returns success s) × IsAwake s

await_resume-IsServed :
    (s : State) (waits : List Wait) (locked : Bool)
    → IsAwake s
    → IsServed (await_resume s waits locked)
unfolding await_resume acknowledge_use
await_resume-IsServed s waits locked w = ((acknowledge_use s locked).1, served waits, kept)
  where
    done : s.platform_state.vc_resume_complete ≡ true
    done = ap (λ (t : Watch). t.2) w

    kept : IsAwake (acknowledge_use s locked).1
    kept = acknowledge_use-IsAwake s locked w

    served :
        (waits' : List Wait)
        → await_resume s waits' locked ≡ returns success (acknowledge_use s locked).1
    served [] = rw done refl
    served (interrupted s' ∷ rest) = rw done refl
    served (resumed s' ∷ rest) = rw done refl

await_resume_blocker-awake :
    (s : State) (waits : List Wait) → IsAwake s → await_resume_blocker s waits ≡ pass s waits
unfolding await_resume_blocker
await_resume_blocker-awake s waits w = finish waits (ap (λ (t : Watch). t.3) w)
  where
    finish :
        (waits' : List Wait)
        → s.platform_state.resume_blocked ≡ false
        → await_resume_blocker s waits' ≡ pass s waits'
    finish [] e = rw e refl
    finish (interrupted s' ∷ rest) e = rw e refl
    finish (resumed s' ∷ rest) e = rw e refl

-- Who uses the VideoCore is there: the peer, or a service that is given.
abbrev pub HasUser : UseType → Option ℕ → Type 0
HasUser use_type_vchiq service = Unit
HasUser use_type none = ⊥
HasUser use_type (some port) = Unit

pub use_internal_awake :
    (s : State) (use_type : UseType) (service : Option ℕ) (waits : List Wait) (locked : Bool)
    → HasUser use_type service
    → IsAwake s
    → IsServed (use_internal s use_type service waits locked)
unfolding use_internal
use_internal_awake s use_type service waits locked user w =
    finish use_type service (await_resume_blocker s waits) user
      (await_resume_blocker-awake s waits w)
  where
    served :
        (u : UseType) (entity : Option ℕ) (p : Passage)
        → p ≡ pass s waits
        → let result : Sent = elim p [
          | stop st s' ↦ returns st s'
          | blocked s' ↦ waits_on s'
          | pass s' rest ↦ await_resume (count_use s' u entity) rest locked
        ] in
          IsServed result
    served u entity p e =
        rw e (
          await_resume-IsServed (count_use s u entity) waits locked
            (count_use-IsAwake s u entity w))

    finish :
        (u : UseType) (port : Option ℕ) (p : Passage)
        → HasUser u port
        → p ≡ pass s waits
        → let entity : Option ℕ = elim u [ use_type_vchiq ↦ none | _ ↦ port ] in
          let result : Sent = elim p [
            | stop st s' ↦ returns st s'
            | blocked s' ↦ waits_on s'
            | pass s' rest ↦ await_resume (count_use s' u entity) rest locked
          ] in
          let whole : Sent = elim u [
            | use_type_vchiq ↦ result
            | _ ↦ option_case port (returns error s) (λ at. result)
          ] in
          IsServed whole
    finish use_type_vchiq port p h e = served use_type_vchiq none p e
    finish use_type_service (some at) p h e = served use_type_service (some at) p e
    finish use_type_service none p h e = absurd h
    finish use_type_service_no_resume (some at) p h e =
        served use_type_service_no_resume (some at) p e
    finish use_type_service_no_resume none p h e = absurd h
