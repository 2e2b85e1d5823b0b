-- ===== src/Vchiq/Await.antt =====
-- Telling a process of its completions: VCHIQ_IOC_AWAIT_COMPLETION of `vchiq_ioctl`
-- (interface/vchiq_arm/vchiq_arm.c).
pub mod Telling
pub mod Touch
pub mod Oldest
pub mod Run
pub mod Order
pub mod Told
pub mod Stall
mod Tests
use dkms_rpi_codec.Base.{
  ℕ, zero, suc, ◌+◌, ◌-◌, ◌*◌, ◌/◌, ◌%◌, ◌^◌, ◌≤◌, ◌<◌, min, max, bit_and, bit_or, ◌≡◌, refl, sym,
  ap, ap₂, ◌∙◌, fun_ext, subst, ◌≢◌, ◌↔◌, ◌⊎◌, inl, inr, Bool, true, false, not, ◌&&◌, ◌||◌, Option,
  none, some, some-injective, List, [], ◌∷◌, ◌++◌, map, append-nil, append_assoc, arith,
  bit_and_mask, bit_or_disjoint, ltb, leb, ◌==◌, if◌then◌else◌, ==_iff, ==_refl, ==_ne, Bool-cases,
  Option-cases, ℕ-cases, option_case, length, get_elem?, set, length-append, take, drop,
  length-take, length-drop, drop-all, take-append-drop_from, update, update_self, update_ne, All,
  add32, sub32, u16, nonneg32,
}
use dkms_rpi_codec.Vchiq.State.{State, Reason, service_closed}
use dkms_rpi_codec.Vchiq.Message.{header_size}
use dkms_rpi_codec.Vchiq.Service.{unlock_service}
use dkms_rpi_codec.Vchiq.Reserve.{Place}
use dkms_rpi_codec.Vchiq.Release.{release_message}
use dkms_rpi_codec.Vchiq.Completion.{
  Device, Completion, Userdata, HeaderRef, kernel_service, user_pointer, no_header, in_slot,
  in_msgbuf, Woken, by_signal, by_event, completion_index,
}

-- struct vchiq_await_completion, with what the copies from and to the user do in each round.
pub record Args : Type 0 where
  pub count : ℕ
  pub msgbufsize : ℕ
  pub msgbufcount : ℕ
  pub msgbufs : ℕ → ℕ
  pub buffer_read : ℕ → Bool
  pub message_written : ℕ → Bool
  pub completion_written : ℕ → Bool
  pub count_written : Bool
  pub args_read : Bool

-- The `long ret` of the call: a number of completions, or the number of an error.
pub data Ret : Type 0 where
  told : ℕ → Ret
  failed : ℕ → Ret

-- An error counts only if nothing was told before.
abbrev pub or_failed : ℕ → ℕ → Ret
or_failed zero errno = failed errno
or_failed (suc n) errno = told (suc n)

-- What a call leaves: its result, the state, the buffers that are left and the completions that were
-- copied to the user. A dereference of a user's pointer as a service is a fault.
pub data Outcome : Type 0 where
  fault : Outcome
  ended : Ret → Device → ℕ → List Completion → Outcome

abbrev pub prepend_told : Completion → Outcome → Outcome
prepend_told c fault = fault
prepend_told c (ended ret d bufs out) = ended ret d bufs (c ∷ out)

abbrev pub put_completion : Device → ℕ → Completion → Device
put_completion d remove c = record d {
  completions = update d.completions (completion_index remove) c;
}

abbrev pub handle_at : State → ℕ → ℕ
handle_at s port = option_case (s.services port) 0 (λ svc. svc.handle)

-- What becomes of the message of a completion: the loop stops with a result, or goes on with the state,
-- the buffers that are left and the completion.
pub data Copied : Type 0 where
  stops : Ret → Device → ℕ → Copied
  goes_on : Device → ℕ → Completion → Copied

-- The length is an `int`, which the first test takes as unsigned; the count of buffers is signed.
abbrev pub copy_message : Args → ℕ → Device → ℕ → ℕ → ℕ → Completion → Place → Copied
copy_message a n d remove port bufs c at =
    let d' = record d { link = release_message d.link (handle_at d.link port) at.0 at.1 } in
    let c' = record c { header = in_msgbuf (a.msgbufs (bufs - 1)) } in
    if ltb a.msgbufsize (add32 (d.link.slots at.0 at.1).size header_size)
    then stops (or_failed n 90) d bufs
    else if bufs == 0 || not (nonneg32 bufs)
    then stops (told n) d bufs
    else if not (a.buffer_read n) || not (a.message_written n)
    then stops (or_failed n 14) d (bufs - 1)
    else goes_on (put_completion d' remove c') (bufs - 1) c'

-- The message of the completion, where it has one.
abbrev pub copy_header : Args → ℕ → Device → ℕ → ℕ → ℕ → Completion → HeaderRef → Copied
copy_header a n d remove port bufs c no_header = goes_on d bufs c
copy_header a n d remove port bufs c (in_msgbuf p) = goes_on d bufs c
copy_header a n d remove port bufs c (in_slot at) = copy_message a n d remove port bufs c at

-- A CLOSED notification gives up its reference, unless the user says when it has got it.
abbrev pub drop_closed : Device → Reason → ℕ → Device
drop_closed d service_closed port =
    if d.use_close_delivered then d else record d { link = (unlock_service d.link port).0 }
drop_closed d reason port = d

-- The end of a round, after which `rest` goes on with the next position.
abbrev pub after_copy : Args → ℕ → ℕ → Copied → (Device → ℕ → Outcome) → Outcome
after_copy a n port (stops ret d bufs) rest = ended ret d bufs []
after_copy a n port (goes_on d bufs c) rest =
    let d' = drop_closed d c.reason port in
    if a.completion_written n
    then prepend_told c (rest d' bufs)
    else ended (or_failed n 14) d' bufs []

-- A round from the read of the service on, at position `remove`.
abbrev pub tell_one : Args → ℕ → Device → ℕ → ℕ → Userdata → (Device → ℕ → Outcome) → Outcome
tell_one a n d remove bufs (user_pointer p) rest = fault
tell_one a n d remove bufs (kernel_service port) rest =
    let c : Completion = record (d.completions (completion_index remove)) {
      service_userdata = user_pointer (d.users port).userdata;
    } in
    after_copy a n port (copy_header a n (put_completion d remove c) remove port bufs c c.header)
      rest

-- The loop over the completions; `left` may still be told, `n` have been.
unfoldable pub tell_loop : ℕ → Args → ℕ → Device → ℕ → ℕ → Outcome
tell_loop zero a n d remove bufs = ended (told n) d bufs []
tell_loop (suc left) a n d remove bufs =
    let rest = λ (d' : Device) (bufs' : ℕ).
      tell_loop left a (suc n) (record d' { completion_remove = add32 remove 1 }) (add32 remove 1)
        bufs' in
    if remove == d.completion_insert
    then ended (told n) d bufs []
    else tell_one a n d remove bufs (d.completions (completion_index remove)).service_userdata rest

-- A producer that waits for room is woken where something was told, or the call failed.
abbrev pub signal_told : Device → Ret → Device
signal_told d (told zero) = d
signal_told d ret = record d { remove_event = d.remove_event + 1 }

-- The end of the call: the count of buffers is written back where it changed.
abbrev pub finish_call : Args → Outcome → Outcome
finish_call a fault = fault
finish_call a (ended ret d bufs out) =
    let ret' : Ret =
      if not (bufs == a.msgbufcount) && not a.count_written then failed 14 else ret in
    ended ret' (signal_told d ret') bufs out

-- VCHIQ_IOC_AWAIT_COMPLETION from the end of its wait.
unfoldable pub tell_completions : Device → Args → Outcome
unfolding tell_loop
tell_completions d a = finish_call a (tell_loop a.count a 0 d d.completion_remove a.msgbufcount)

abbrev pub nothing_to_tell : Device → Bool
nothing_to_tell d = (d.completion_remove == d.completion_insert) && not d.closing

-- How the call ends with its wait; ENOTCONN where the process is not connected,
-- EFAULT where the arguments cannot be read, EINTR where it is interrupted.
pub data Awaited : Type 0 where
  outcome : Outcome → Awaited
  waits_in : Device → Awaited

unfoldable pub await_loop : Device → Args → List Woken → Awaited
unfolding tell_completions
await_loop d a [] = if nothing_to_tell d then waits_in d else outcome (tell_completions d a)
await_loop d a (by_signal d' ∷ waits) =
    if nothing_to_tell d
    then outcome
        (ended (failed 4) (record d' { remove_event = d'.remove_event + 1 }) a.msgbufcount [])
    else outcome (tell_completions d a)
await_loop d a (by_event d' ∷ waits) =
    let again = await_loop d' a waits in
    if nothing_to_tell d then again else outcome (tell_completions d a)

unfoldable pub await_completion : Device → Args → List Woken → Awaited
unfolding await_loop
await_completion d a waits =
    if not d.connected
    then outcome (ended (failed 107) d a.msgbufcount [])
    else if not a.args_read
    then outcome (ended (failed 14) d a.msgbufcount [])
    else await_loop d a waits
