-- ===== src/Vchiq/Await/Touch.antt =====
-- What a round of VCHIQ_IOC_AWAIT_COMPLETION changes in the ring of completions.
use dkms_rpi_codec.Base.{
  ℕ, zero, suc, ◌-◌, ◌^◌, ◌≤◌, ◌<◌, ◌≡◌, refl, sym, ap, ap₂, ◌∙◌, ◌≢◌, ◌⊎◌, inl, inr, Bool, true,
  false, not, ◌||◌, arith, ltb, ◌==◌, if◌then◌else◌, Bool-cases, update_self, update_ne, add32,
  nonneg32,
}
use dkms_rpi_codec.Vchiq.State.{Reason, service_closed, State}
use dkms_rpi_codec.Vchiq.Message.{header_size}
use dkms_rpi_codec.Vchiq.Reserve.{Place}
use dkms_rpi_codec.Vchiq.Release.{release_message}
use dkms_rpi_codec.Vchiq.Service.{unlock_service}
use dkms_rpi_codec.Vchiq.Completion.{
  Device, Completion, kernel_service, user_pointer, completion_index, HeaderRef, no_header,
  in_msgbuf, in_slot,
}
use dkms_rpi_codec.Vchiq.Await.Telling.{
  oldest_of, header_told, bufs_left, IsToldFor, CannotTell, IsResult,
}
use dkms_rpi_codec.Vchiq.Await.{
  or_failed, Args, put_completion, Copied, stops, goes_on, copy_header, copy_message, handle_at,
  drop_closed,
}

-- What a completion is about, without the fields that are rewritten when it is told.
abbrev pub subject : Completion → Reason × ℕ
subject c = (c.reason, c.bulk_userdata)

-- The completion's service has not been replaced by its user's pointer yet.
abbrev pub IsFresh : Completion → Type 0
IsFresh c = (port : ℕ) × (c.service_userdata ≡ kernel_service port)

-- A state that differs in the ring only by what the oldest completion's rewritten fields are.
pub record IsTouched (d e : Device) : Type 0 where
  pub same_insert : e.completion_insert ≡ d.completion_insert
  pub same_remove : e.completion_remove ≡ d.completion_remove
  pub others :
      (i : ℕ) → completion_index d.completion_remove ≢ i → e.completions i ≡ d.completions i
  pub same_users : e.users ≡ d.users
  pub oldest :
      subject (e.completions (completion_index d.completion_remove))
      ≡ subject (d.completions (completion_index d.completion_remove))

-- What a round that starts with `bufs` buffers may leave: it stops for a reason, or has a completion to tell.
abbrev pub Touches : Args → ℕ → Device → ℕ → Copied → Type 0
Touches a n d bufs (stops ret e bufs') = IsTouched d e × IsResult a ret n × CannotTell a n e bufs'
Touches a n d bufs (goes_on e bufs' c) =
    IsTouched d e
    × IsToldFor a d.users bufs (oldest_of d) c
    × (bufs' ≡ bufs_left (oldest_of d).header bufs)

pub put_completion-IsTouched :
    (d e : Device) (c : Completion)
    → IsTouched d e
    → subject c ≡ subject (d.completions (completion_index d.completion_remove))
    → IsTouched d (put_completion e d.completion_remove c)
put_completion-IsTouched d e c t p = record {
  same_insert = t.same_insert;
  same_remove = t.same_remove;
  others =
      λ i ne. update_ne e.completions (completion_index d.completion_remove) c i ne ∙ t.others i ne;
  same_users = t.same_users;
  oldest = ap subject (update_self e.completions (completion_index d.completion_remove) c) ∙ p;
}

link-IsTouched : (d e : Device) (s : State) → IsTouched d e → IsTouched d (record e { link = s })
link-IsTouched d e s t = record {
  same_insert = t.same_insert;
  same_remove = t.same_remove;
  others = t.others;
  same_users = t.same_users;
  oldest = t.oldest;
}

if-IsTouched :
    (d : Device) (b : Bool) (x y : Device)
    → IsTouched d x
    → IsTouched d y
    → IsTouched d (if b then x else y)
if-IsTouched d true x y h k = h
if-IsTouched d false x y h k = k

pub drop_closed-IsTouched :
    (d e : Device) (reason : Reason) (port : ℕ)
    → IsTouched d e
    → IsTouched d (drop_closed e reason port)
drop_closed-IsTouched d e reason port t = elim reason as (λ r. IsTouched d (drop_closed e r port)) [
  | service_closed ↦
      if-IsTouched d e.use_close_delivered e (record e { link = (unlock_service e.link port).0 }) t
        (link-IsTouched d e (unlock_service e.link port).0 t)
  | _ ↦ t
]

if-Touches :
    (a : Args) (n : ℕ) (d : Device) (bufs : ℕ) (b : Bool) (x y : Copied)
    → (b ≡ true → Touches a n d bufs x)
    → (b ≡ false → Touches a n d bufs y)
    → Touches a n d bufs (if b then x else y)
if-Touches a n d bufs true x y h k = h refl
if-Touches a n d bufs false x y h k = k refl

pub or_failed-IsResult : (a : Args) (n errno : ℕ) → IsResult a (or_failed n errno) n
or_failed-IsResult a zero errno = inr (errno, refl, inl refl)
or_failed-IsResult a (suc n) errno = inl refl

no_buffer : (bufs : ℕ) → (bufs == 0 || not (nonneg32 bufs)) ≡ true → (bufs ≡ 0) ⊎ (2 ^ 31 ≤ bufs)
no_buffer bufs e = ground (arith, e)

not_copied :
    (a : Args) (n : ℕ)
    → (not (a.buffer_read n) || not (a.message_written n)) ≡ true
    → (a.buffer_read n ≡ false) ⊎ (a.message_written n ≡ false)
not_copied a n e = elim (Bool-cases (a.buffer_read n)) [
  | inl read ↦ elim (Bool-cases (a.message_written n)) [
    | inl written ↦ absurd (cc (rw (read, written) at e))
    | inr failing ↦ inr failing
  ]
  | inr failing ↦ inl failing
]

-- The completion as a round reads it, with the user's pointer in place of the service.
pub record IsRewritten (d : Device) (c : Completion) : Type 0 where
  pub reason : c.reason ≡ (oldest_of d).reason
  pub bulk_userdata : c.bulk_userdata ≡ (oldest_of d).bulk_userdata
  pub service :
      (port : ℕ) × ((oldest_of d).service_userdata ≡ kernel_service port)
      × (c.service_userdata ≡ user_pointer (d.users port).userdata)

copy_message-Touches :
    (a : Args) (n : ℕ) (d e : Device) (port bufs : ℕ) (c : Completion) (at : Place)
    → IsTouched d e
    → IsRewritten d c
    → (oldest_of d).header ≡ in_slot at
    → (oldest_of e).header ≡ in_slot at
    → Touches a n d bufs (copy_message a n e d.completion_remove port bufs c at)
copy_message-Touches a n d e port bufs c at t v hd he =
    if-Touches a n d bufs (ltb a.msgbufsize (add32 size header_size)) _ _
      (λ large.
        let is_large : a.msgbufsize < add32 size header_size = ground (arith, large) in
        (t, or_failed-IsResult a n 90, inr (at, he, inl is_large)))
      (λ _.
        if-Touches a n d bufs (bufs == 0 || not (nonneg32 bufs)) _ _
          (λ none_left. (t, inl refl, inr (at, he, inr (inl (no_buffer bufs none_left)))))
          (λ _.
            if-Touches a n d bufs (not (a.buffer_read n) || not (a.message_written n)) _ _
              (λ fails.
                (t, or_failed-IsResult a n 14, inr (at, he, inr (inr (not_copied a n fails)))))
              (λ _. (
                put_completion-IsTouched d released copied (link-IsTouched d e released.link t)
                    (ap₂ (λ r b. (r, b)) v.reason v.bulk_userdata),
                record {
                  reason = v.reason;
                  bulk_userdata = v.bulk_userdata;
                  header = ap (header_told a bufs) (sym hd);
                  service = v.service;
                },
                ap (λ h. bufs_left h bufs) (sym hd),
              ))))
  where
    size : ℕ
    size = (e.link.slots at.0 at.1).size

    released : Device
    released = record e { link = release_message e.link (handle_at e.link port) at.0 at.1 }

    copied : Completion
    copied = record c { header = in_msgbuf (a.msgbufs (bufs - 1)) }

kept-IsToldFor :
    (a : Args) (d : Device) (bufs : ℕ) (c : Completion) (h : HeaderRef)
    → IsRewritten d c
    → (oldest_of d).header ≡ h
    → c.header ≡ h
    → header_told a bufs h ≡ h
    → IsToldFor a d.users bufs (oldest_of d) c
kept-IsToldFor a d bufs c h v hd hc same = record {
  reason = v.reason;
  bulk_userdata = v.bulk_userdata;
  header = hc ∙ sym same ∙ ap (header_told a bufs) (sym hd);
  service = v.service;
}

pub copy_header-Touches :
    (a : Args) (n : ℕ) (d e : Device) (port bufs : ℕ) (c : Completion) (h : HeaderRef)
    → IsTouched d e
    → IsRewritten d c
    → (oldest_of d).header ≡ h
    → (oldest_of e).header ≡ h
    → c.header ≡ h
    → Touches a n d bufs (copy_header a n e d.completion_remove port bufs c h)
copy_header-Touches a n d e port bufs c no_header t v hd he hc =
    (t, kept-IsToldFor a d bufs c no_header v hd hc refl, ap (λ h. bufs_left h bufs) (sym hd))
copy_header-Touches a n d e port bufs c (in_msgbuf m) t v hd he hc =
    (t, kept-IsToldFor a d bufs c (in_msgbuf m) v hd hc refl, ap (λ h. bufs_left h bufs) (sym hd))
copy_header-Touches a n d e port bufs c (in_slot at) t v hd he hc =
    copy_message-Touches a n d e port bufs c at t v hd he
