-- ===== src/Vchiq/Await/Order.antt =====
-- The loop that tells completions tells the oldest ones in the order in which they came, and goes on as
-- long as it can.
use dkms_rpi_codec.Base.{
  ℕ, zero, suc, ◌≡◌, refl, sym, ap, ◌∙◌, subst, ◌≢◌, ◌⊎◌, inl, inr, Bool, true, false, [], ◌∷◌,
  arith, ◌==◌, if◌then◌else◌, ==_iff, Bool-cases, update_self, All, add32,
}
use dkms_rpi_codec.Vchiq.Completion.{
  Device, Completion, Userdata, kernel_service, user_pointer, completion_index,
}
use dkms_rpi_codec.Vchiq.Completion.Fifo.{pending, IsCompletionRing}
use dkms_rpi_codec.Vchiq.Window.{window}
use dkms_rpi_codec.Vchiq.Await.{
  told, Args, Ret, Outcome, ended, prepend_told, put_completion, Copied, stops, goes_on,
  drop_closed, after_copy, tell_one, tell_loop,
}
use dkms_rpi_codec.Vchiq.Await.Telling.{
  oldest_of, bufs_left, IsToldFor, CannotTell, HasStopped, IsResult,
}
use dkms_rpi_codec.Vchiq.Await.Run.{IsTold, none-IsRun, more-IsRun}
use dkms_rpi_codec.Vchiq.Await.Touch.{
  IsFresh, IsTouched, Touches, put_completion-IsTouched, drop_closed-IsTouched, copy_header-Touches,
  or_failed-IsResult,
}
use dkms_rpi_codec.Vchiq.Await.Oldest.{
  touched-IsCompletionRing, tail_of, pending-split, advance, advance-pending,
  advance-IsCompletionRing, touched-subjects,
}

module _ (a : Args) (n left bufs : ℕ) (d : Device) (v : IsCompletionRing d)
    (ne : d.completion_remove ≢ d.completion_insert) where
  -- What the rounds after this one do.
  abbrev GoesOn : (Device → ℕ → Outcome) → Type 0
  GoesOn rest =
      (e : Device) (bufs' : ℕ)
      → IsTouched d e
      → IsTold a (suc n) left bufs' (advance e d.completion_remove) (rest e bufs')

  stop-IsTold :
      (e : Device) (ret : Ret) (bufs' : ℕ)
      → IsTouched d e
      → IsResult a ret n
      → CannotTell a n e bufs'
      → IsTold a n (suc left) bufs d (ended ret e bufs' [])
  unfolding IsTold
  stop-IsTold e ret bufs' t res why = (
    ret,
    e,
    bufs',
    [],
    refl,
    none-IsRun a n (suc left) bufs bufs' d e ret (touched-IsCompletionRing d e v t)
        (touched-subjects d e v ne t)
        (inr (inr (subst (λ (k : ℕ). CannotTell a k e bufs') {x = n} (omega arith) why))) res,
  )

  prepend-IsTold :
      (e : Device) (c : Completion) (o : Outcome)
      → IsTouched d e
      → IsToldFor a d.users bufs (oldest_of d) c
      → IsTold a
          (suc n)
          left
          (bufs_left (oldest_of d).header bufs)
          (advance e d.completion_remove)
          o
      → IsTold a n (suc left) bufs d (prepend_told c o)
  unfolding IsTold
  prepend-IsTold e c o t tells (ret, d', bufs', out, ends, r) = (
    ret,
    d',
    bufs',
    c ∷ out,
    ap (prepend_told c) ends,
    more-IsRun a n left bufs d v ne e d' c ret bufs' out t tells r,
  )

  if-IsTold :
      (b : Bool) (x y : Outcome)
      → (b ≡ true → IsTold a n (suc left) bufs d x)
      → (b ≡ false → IsTold a n (suc left) bufs d y)
      → IsTold a n (suc left) bufs d (if b then x else y)
  if-IsTold true x y h k = h refl
  if-IsTold false x y h k = k refl

  after_copy-IsTold :
      (port : ℕ) (r : Copied) (rest : Device → ℕ → Outcome)
      → Touches a n d bufs r
      → GoesOn rest
      → IsTold a n (suc left) bufs d (after_copy a n port r rest)
  after_copy-IsTold port (stops ret e bufs') rest (t, res, why) go =
      stop-IsTold e ret bufs' t res why
  after_copy-IsTold port (goes_on e bufs' c) rest (t, tells, used) go =
      let e' = drop_closed e c.reason port in
      let t' = drop_closed-IsTouched d e c.reason port t in
      if-IsTold (a.completion_written n) _ _
        (λ _. prepend-IsTold e' c (rest e' bufs') t' tells (
          subst
            (λ (k : ℕ). IsTold a (suc n) left k (advance e' d.completion_remove) (rest e' bufs'))
            used (go e' bufs' t')))
        (λ fails. stop-IsTold e' _ bufs' t' (or_failed-IsResult a n 14) (inl fails))

  tell_one-IsTold :
      (port : ℕ) (rest : Device → ℕ → Outcome)
      → (oldest_of d).service_userdata ≡ kernel_service port
      → GoesOn rest
      → IsTold a n
          (suc left)
          bufs
          d
          (tell_one a n d d.completion_remove bufs (kernel_service port) rest)
  tell_one-IsTold port rest is go =
      after_copy-IsTold port _ rest
        (copy_header-Touches a n d (put_completion d d.completion_remove rewritten) port bufs
          rewritten rewritten.header (put_completion-IsTouched d d rewritten untouched refl)
          (record { reason = refl; bulk_userdata = refl; service = (port, is, refl) }) refl
          (ap (λ (c : Completion). c.header)
            (update_self d.completions (completion_index d.completion_remove) rewritten))
          refl)
        go
    where
      rewritten : Completion
      rewritten = record (d.completions (completion_index d.completion_remove)) {
        service_userdata = user_pointer (d.users port).userdata;
      }

      untouched : IsTouched d d
      untouched = record {
        same_insert = refl;
        same_remove = refl;
        others = λ i h. refl;
        same_users = refl;
        oldest = refl;
      }

nothing-IsTold :
    (a : Args) (left n : ℕ) (d : Device) (bufs : ℕ)
    → IsCompletionRing d
    → (0 ≡ left) ⊎ (pending d ≡ [])
    → IsTold a n left bufs d (ended (told n) d bufs [])
unfolding IsTold
nothing-IsTold a left n d bufs v why = (
  told n,
  d,
  bufs,
  [],
  refl,
  none-IsRun a n left bufs bufs d d (told n) v refl (stop why) (inl refl),
)
  where
    stop : (0 ≡ left) ⊎ (pending d ≡ []) → HasStopped a left n d bufs []
    stop (inl all) = inl all
    stop (inr none_left) = inr (inl none_left)

none_pending : (d : Device) → d.completion_remove ≡ d.completion_insert → pending d ≡ []
none_pending d e =
    ap (window completion_index d.completions d.completion_remove) {y = 0} (omega (arith, e))

pub tell_loop-IsTold :
    (a : Args) (left n : ℕ) (d : Device) (bufs : ℕ)
    → IsCompletionRing d
    → All IsFresh (pending d)
    → IsTold a n left bufs d (tell_loop left a n d d.completion_remove bufs)
unfolding tell_loop
tell_loop-IsTold a zero n d bufs v fresh = nothing-IsTold a 0 n d bufs v (inl refl)
tell_loop-IsTold a (suc left) n d bufs v fresh =
    let again = λ (e : Device) (bufs' : ℕ).
      tell_loop-IsTold a left (suc n) (advance e d.completion_remove) bufs' in
    elim (Bool-cases (d.completion_remove == d.completion_insert)) [
      | inl e ↦ subst chosen (sym e) (
          nothing-IsTold a (suc left) n d bufs v
            (inr (none_pending d ((==_iff d.completion_remove d.completion_insert).0 e))))
      | inr e ↦
          subst chosen (sym e)
            (started again (apart e) (subst (All IsFresh) (pending-split d v (apart e)) fresh))
    ]
  where
    rest : Device → ℕ → Outcome
    rest e bufs' =
        tell_loop left a (suc n) (advance e d.completion_remove) (add32 d.completion_remove 1) bufs'

    first : Userdata
    first = (d.completions (completion_index d.completion_remove)).service_userdata

    chosen : Bool → Type 0
    chosen b =
        IsTold a n (suc left) bufs d (
          if b
          then ended (told n) d bufs []
          else tell_one a n d d.completion_remove bufs first rest)

    apart :
        (d.completion_remove == d.completion_insert) ≡ false
        → d.completion_remove ≢ d.completion_insert
    apart e same = cc (sym e ∙ (==_iff d.completion_remove d.completion_insert).1 same)

    started :
        ((e : Device) (bufs' : ℕ)
          → IsCompletionRing (advance e d.completion_remove)
          → All IsFresh (pending (advance e d.completion_remove))
          → IsTold a (suc n) left bufs' (advance e d.completion_remove) (rest e bufs'))
        → (ne : d.completion_remove ≢ d.completion_insert)
        → All IsFresh (d.completions (completion_index d.completion_remove) ∷ tail_of d)
        → IsTold a n (suc left) bufs d (tell_one a n d d.completion_remove bufs first rest)
    started again ne ((port, p), later) =
        subst (λ u. IsTold a n (suc left) bufs d (tell_one a n d d.completion_remove bufs u rest))
          (sym p)
          (tell_one-IsTold a n left bufs d v ne port rest p (λ e bufs' t.
            again e bufs' (advance-IsCompletionRing d e v ne t)
              (subst (All IsFresh) (sym (advance-pending d e v ne t)) later)))
