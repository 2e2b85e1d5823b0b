-- ===== src/Vchiq/Await/Stall.antt =====
-- A call that stalls for lack of a buffer leaves a completion that the next call cannot read.
use dkms_rpi_codec.Base.{
  ℕ, suc, ◌+◌, ◌-◌, ◌≤◌, ◌≡◌, ap, ap₂, ◌∙◌, ◌≢◌, Bool, true, false, not, ◌&&◌, ◌||◌, List, [],
  arith, ltb, ◌==◌, if◌then◌else◌, ==_ne, update_self, add32, nonneg32,
}
use dkms_rpi_codec.Vchiq.Message.{header_size}
use dkms_rpi_codec.Vchiq.Reserve.{Place}
use dkms_rpi_codec.Vchiq.Release.{release_message}
use dkms_rpi_codec.Vchiq.Completion.{
  in_msgbuf, Device, Completion, kernel_service, user_pointer, in_slot, Woken, completion_index,
}
use dkms_rpi_codec.Vchiq.Await.{
  copy_message, stops, goes_on, or_failed, Ret, failed, signal_told, handle_at, Args, told, Outcome,
  fault, ended, outcome, put_completion, copy_header, after_copy, tell_one, tell_loop, finish_call,
  tell_completions, await_completion,
}
use dkms_rpi_codec.Vchiq.Await.Telling.{oldest_of}
use dkms_rpi_codec.Vchiq.Await.Told.{
  nothing_to_tell-apart, await_loop-tells, await_completion-waits,
}

-- What the process is not told of yet, and what it asks for, when a call can do something.
pub record IsAsking (d : Device) (a : Args) : Type 0 where
  pub connected : d.connected ≡ true
  pub args_read : a.args_read ≡ true
  pub asks : 1 ≤ a.count
  pub to_tell : d.completion_remove ≢ d.completion_insert

-- The state in which a stalled call leaves the ring.
stalled : Device → ℕ → Device
stalled d port =
    put_completion d d.completion_remove
      (record (oldest_of d) { service_userdata = user_pointer (d.users port).userdata })

-- A call starts with the oldest completion.
await_completion-starts :
    (d : Device) (a : Args) (waits : List Woken)
    → IsAsking d a
    → (rest : Device → ℕ → Outcome) × (await_completion d a waits
        ≡ outcome (
            finish_call a (
              tell_one a 0 d d.completion_remove a.msgbufcount
                (oldest_of d).service_userdata
                rest)))
unfolding tell_completions tell_loop
await_completion-starts d a waits v = (
  rest,
  await_completion-waits d a waits v.connected v.args_read
      ∙ await_loop-tells d a waits (nothing_to_tell-apart d v.to_tell)
      ∙ ap
          (λ (k : ℕ). outcome (finish_call a (tell_loop k a 0 d d.completion_remove a.msgbufcount)))
          counted
      ∙ ap
          (λ (b : Bool). outcome (
            finish_call a (
              if b
              then ended (told 0) d a.msgbufcount []
              else tell_one a 0 d d.completion_remove a.msgbufcount (oldest_of d).service_userdata
                  rest)))
          (==_ne d.completion_remove d.completion_insert v.to_tell),
)
  where
    counted : a.count ≡ suc (a.count - 1)
    counted = omega (arith, v.asks)

    rest : Device → ℕ → Outcome
    rest e bufs' =
        tell_loop (a.count - 1) a 1 (record e { completion_remove = add32 d.completion_remove 1 })
          (add32 d.completion_remove 1) bufs'

-- A completion whose service has been replaced by its user's pointer is a fault.
await_completion-faults :
    (d : Device) (a : Args) (waits : List Woken) (p : ℕ)
    → IsAsking d a
    → (oldest_of d).service_userdata ≡ user_pointer p
    → await_completion d a waits ≡ outcome fault
await_completion-faults d a waits p v e =
    let (rest, starts) = await_completion-starts d a waits v in
    starts
    ∙ ap (λ u. outcome (finish_call a (tell_one a 0 d d.completion_remove a.msgbufcount u rest))) e

-- Without buffers the count of buffers does not change, so nothing is written back.
finish_call-unchanged :
    (a : Args) (e : Device)
    → a.msgbufcount ≡ 0
    → finish_call a (ended (told 0) e 0 []) ≡ ended (told 0) e 0 []
finish_call-unchanged a e none_given =
    ap
      (λ (k : ℕ).
        let ret : Ret = if not (0 == k) && not a.count_written then failed 14 else told 0 in
        ended ret (signal_told e ret) 0 [])
      none_given

-- A message that fits stops the loop where there is no buffer for it.
copy_message-stalls :
    (a : Args) (e : Device) (remove port bufs : ℕ) (c : Completion) (at : Place)
    → ltb a.msgbufsize (add32 (e.link.slots at.0 at.1).size header_size) ≡ false
    → bufs ≡ 0
    → copy_message a 0 e remove port bufs c at ≡ stops (told 0) e 0
copy_message-stalls a e remove port bufs c at fits none_left =
    ap₂
      (λ (b : Bool) (k : ℕ).
        if b
        then stops (or_failed 0 90) e k
        else if k == 0 || not (nonneg32 k)
        then stops (told 0) e k
        else if not (a.buffer_read 0) || not (a.message_written 0)
        then stops (or_failed 0 14) e (k - 1)
        else goes_on
            (put_completion
              (record e { link = release_message e.link (handle_at e.link port) at.0 at.1 }) remove
              (record c { header = in_msgbuf (a.msgbufs (k - 1)) }))
            (k - 1) (record c { header = in_msgbuf (a.msgbufs (k - 1)) }))
      fits none_left

-- A call that finds a message for which the process gave no buffer stalls and tells nothing; the
-- next call, whatever it asks for, takes the pointer of the service's user for the service.
pub await_completion_stalls :
    (d : Device) (a a' : Args) (waits waits' : List Woken) (port : ℕ) (at : Place)
    → IsAsking d a
    → IsAsking d a'
    → (oldest_of d).service_userdata ≡ kernel_service port
    → (oldest_of d).header ≡ in_slot at
    → a.msgbufcount ≡ 0
    → (d.link.slots at.0 at.1).size + header_size ≤ a.msgbufsize
    → (d' : Device) × (await_completion d a waits ≡ outcome (ended (told 0) d' 0 []))
      × (await_completion d' a' waits' ≡ outcome fault)
unfolding stalled
await_completion_stalls d a a' waits waits' port at v v' svc hdr none_given fits = (
  stalled d port,
  stalls,
  await_completion-faults (stalled d port) a' waits' (d.users port).userdata
      (record {
        connected = v'.connected;
        args_read = v'.args_read;
        asks = v'.asks;
        to_tell = v'.to_tell;
      })
      (ap (λ (c : Completion). c.service_userdata)
        (update_self d.completions (completion_index d.completion_remove) _)),
)
  where
    fitting : ltb a.msgbufsize (add32 (d.link.slots at.0 at.1).size header_size) ≡ false
    fitting =
        let enough : add32 (d.link.slots at.0 at.1).size header_size ≤ a.msgbufsize =
          omega (arith, fits) in
        ground (arith, enough)

    c₁ : Completion
    c₁ = record (oldest_of d) { service_userdata = user_pointer (d.users port).userdata }

    stalls : await_completion d a waits ≡ outcome (ended (told 0) (stalled d port) 0 [])
    stalls =
        let (rest, starts) = await_completion-starts d a waits v in
        starts
        ∙ ap
            (λ u. outcome (finish_call a (tell_one a 0 d d.completion_remove a.msgbufcount u rest)))
            svc
        ∙ ap
            (λ h. outcome (
              finish_call a (
                after_copy a 0 port
                  (copy_header a 0 (stalled d port) d.completion_remove port a.msgbufcount c₁ h)
                  rest)))
            hdr
        ∙ ap (λ r. outcome (finish_call a (after_copy a 0 port r rest)))
            (copy_message-stalls a (stalled d port) d.completion_remove port a.msgbufcount c₁ at
              fitting none_given)
        ∙ ap outcome (finish_call-unchanged a (stalled d port) none_given)
