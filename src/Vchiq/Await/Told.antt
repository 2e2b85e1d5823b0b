-- ===== src/Vchiq/Await/Told.antt =====
-- A process is told of its completions in the order in which they came, and none is lost or told twice.
use dkms_rpi_codec.Base.{
  ℕ, zero, suc, ◌+◌, ◌≤◌, ◌≡◌, refl, ap, ap₂, ◌∙◌, subst, ◌≢◌, inr, Bool, true, false, not, ◌&&◌,
  List, [], ◌∷◌, ◌++◌, map, arith, ◌==◌, if◌then◌else◌, ==_ne, length, All,
}
use dkms_rpi_codec.Vchiq.Completion.{Woken, by_signal, by_event, Device, Completion}
use dkms_rpi_codec.Vchiq.Completion.Fifo.{pending, IsCompletionRing}
use dkms_rpi_codec.Vchiq.Await.{
  nothing_to_tell, tell_completions, signal_told, failed, await_completion, outcome, await_loop,
  finish_call, tell_completions, told, Args, Ret, Outcome, ended, tell_loop, finish_call,
  tell_completions,
}
use dkms_rpi_codec.Vchiq.Await.Touch.{subject, IsFresh}
use dkms_rpi_codec.Vchiq.Await.Telling.{AreToldFor, HasStopped, IsResult}
use dkms_rpi_codec.Vchiq.Await.Order.{tell_loop-IsTold}
use dkms_rpi_codec.Vchiq.Await.Run.{IsRun, IsTold}

-- What waking a producer leaves as it was.
signal_told-keeps :
    (a : Args) (n left bufs bufs' : ℕ) (d d' : Device) (ret r : Ret) (out : List Completion)
    → IsRun a n left bufs d ret d' bufs' out
    → IsRun a n left bufs d ret (signal_told d' r) bufs' out
signal_told-keeps a n left bufs bufs' d d' ret (told zero) out run = run
signal_told-keeps a n left bufs bufs' d d' ret (told (suc k)) out run = record {
  short = run.short;
  ring = record {
    insert_word = run.ring.insert_word;
    remove_word = run.ring.remove_word;
    within = run.ring.within;
  };
  same = run.same;
  told_for = run.told_for;
  stopped = run.stopped;
  result = run.result;
}
signal_told-keeps a n left bufs bufs' d d' ret (failed e) out run = record {
  short = run.short;
  ring = record {
    insert_word = run.ring.insert_word;
    remove_word = run.ring.remove_word;
    within = run.ring.within;
  };
  same = run.same;
  told_for = run.told_for;
  stopped = run.stopped;
  result = run.result;
}

written-IsResult :
    (a : Args) (ret : Ret) (k : ℕ) (same written : Bool)
    → a.count_written ≡ written
    → IsResult a ret k
    → IsResult a (if not same && not written then failed 14 else ret) k
written-IsResult a ret k true written e h = h
written-IsResult a ret k false true e h = h
written-IsResult a ret k false false e h = inr (14, refl, inr e)

finish_call-IsTold :
    (a : Args) (n left bufs : ℕ) (d : Device) (o : Outcome)
    → IsTold a n left bufs d o
    → IsTold a n left bufs d (finish_call a o)
unfolding IsTold
finish_call-IsTold a n left bufs d o (ret, d', bufs', out, ends, run) = (
  ret',
  signal_told d' ret',
  bufs',
  out,
  ap (finish_call a) ends,
  signal_told-keeps a n left bufs bufs' d d' ret' ret' out (record {
    short = run.short;
    ring = run.ring;
    same = run.same;
    told_for = run.told_for;
    stopped = run.stopped;
    result =
        written-IsResult a ret (n + length out) (bufs' == a.msgbufcount) a.count_written refl
          run.result;
  }),
)
  where
    ret' : Ret
    ret' = if not (bufs' == a.msgbufcount) && not a.count_written then failed 14 else ret

pub nothing_to_tell-apart :
    (d : Device) → d.completion_remove ≢ d.completion_insert → nothing_to_tell d ≡ false
nothing_to_tell-apart d ne =
    ap (λ b. b && not d.closing) (==_ne d.completion_remove d.completion_insert ne)

pub await_loop-tells :
    (d : Device) (a : Args) (waits : List Woken)
    → nothing_to_tell d ≡ false
    → await_loop d a waits ≡ outcome (tell_completions d a)
unfolding await_loop
await_loop-tells d a [] e = rw e refl
await_loop-tells d a (by_signal d' ∷ waits) e = rw e refl
await_loop-tells d a (by_event d' ∷ waits) e = rw e refl

pub await_completion-waits :
    (d : Device) (a : Args) (waits : List Woken)
    → d.connected ≡ true
    → a.args_read ≡ true
    → await_completion d a waits ≡ await_loop d a waits
unfolding await_completion
await_completion-waits d a waits c r =
    ap₂
      (λ (b b' : Bool).
        if not b
        then outcome (ended (failed 107) d a.msgbufcount [])
        else if not b'
        then outcome (ended (failed 14) d a.msgbufcount [])
        else await_loop d a waits)
      c r

-- A connected process that asks for completions while some wait to be told, none of which was begun
-- to be told before, is told the oldest ones, at most as many as it asks for and in the order in which
-- they came, and the others still wait in that order. For each one it is told the reason, the userdata of
-- the bulk transfer and the pointer that it gave for the service, with the message in the last of its
-- buffers that is left. The call tells as many as it asks for or all that wait, unless the next one
-- cannot be told: its message is larger than the buffers or finds none left, or a copy to or from the
-- process fails there. The result is how many were told; it is an error only where none was, or where
-- the count of buffers cannot be written back.
pub await_completion_lem :
    (d : Device) (a : Args) (waits : List Woken)
    → IsCompletionRing d
    → All IsFresh (pending d)
    → d.connected ≡ true
    → a.args_read ≡ true
    → d.completion_remove ≢ d.completion_insert
    → (ret : Ret) × (d' : Device) × (bufs : ℕ) × (out : List Completion) × (await_completion d a
          waits
        ≡ outcome (ended ret d' bufs out))
      × (length out ≤ a.count)
      × IsCompletionRing d'
      × (map subject (pending d) ≡ map subject out ++ map subject (pending d'))
      × AreToldFor a d.users a.msgbufcount (pending d) out
      × HasStopped a a.count 0 d' bufs out
      × IsResult a ret (length out)
unfolding tell_completions IsTold
await_completion_lem d a waits v fresh c r ne =
    let (ret, d', bufs, out, ends, run) =
      finish_call-IsTold a 0 a.count a.msgbufcount d
        (tell_loop a.count a 0 d d.completion_remove a.msgbufcount)
        (tell_loop-IsTold a a.count 0 d a.msgbufcount v fresh) in
    (
      ret,
      d',
      bufs,
      out,
      await_completion-waits d a waits c r
          ∙ await_loop-tells d a waits (nothing_to_tell-apart d ne)
          ∙ ap outcome ends,
      run.short,
      run.ring,
      run.same,
      run.told_for,
      run.stopped,
      subst (IsResult a ret) {x = 0 + length out} (omega arith) run.result,
    )
