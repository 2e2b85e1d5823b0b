-- ===== src/Vchiq/Callback/Queue.antt =====
-- The messages of a service that a process opened as a VCHI one are a first-in, first-out queue of at
-- most 128.
use dkms_rpi_codec.Base.{
  ℕ, suc, ◌+◌, ◌%◌, ◌^◌, ◌≤◌, ◌<◌, ◌≡◌, refl, ap, ◌∙◌, ◌≢◌, ◌⊎◌, inl, inr, Bool, true, false, not,
  ◌||◌, some, List, [], ◌∷◌, ◌++◌, arith, bit_and_mask, if◌then◌else◌, Bool-cases, update, add32,
  sub32,
}
use dkms_rpi_codec.Vchiq.State.{Reason, success}
use dkms_rpi_codec.Vchiq.Reserve.{Place}
use dkms_rpi_codec.Vchiq.Window.{window, window-push}
use dkms_rpi_codec.Vchiq.Completion.{
  Device, UserService, Woken, Added, added, no_header, in_slot, with_user, add_completion,
  announced, msg_queue_full,
}
use dkms_rpi_codec.Vchiq.Callback.{
  by_event, by_signal, msg_index, Round, enqueue_message, callback_loop, service_callback,
}

-- The messages in the queue.
abbrev pub messages : UserService → List Place
messages u = window msg_index u.msg_queue u.msg_remove (sub32 u.msg_insert u.msg_remove)

pub record IsMessageRing (u : UserService) : Type 0 where
  pub insert_word : u.msg_insert < 2 ^ 32
  pub remove_word : u.msg_remove < 2 ^ 32
  pub within : sub32 u.msg_insert u.msg_remove ≤ 128

msg_index-eq-mod : (c : ℕ) → msg_index c ≡ c % 128
msg_index-eq-mod c = bit_and_mask 7 c

-- The service with one message more.
abbrev pub with_message : UserService → Place → UserService
with_message u at = record u {
  msg_queue = update u.msg_queue (msg_index u.msg_insert) at;
  msg_insert = add32 u.msg_insert 1;
  insert_event = u.insert_event + 1;
}

with_message-IsMessageRing :
    (u : UserService) (at : Place)
    → IsMessageRing u
    → sub32 u.msg_insert u.msg_remove < 128
    → IsMessageRing (with_message u at) × (messages (with_message u at) ≡ messages u ++ at ∷ [])
with_message-IsMessageRing u at v room = (
  record {
    insert_word = omega arith;
    remove_word = v.remove_word;
    within = omega (arith, v.remove_word, v.insert_word);
  },
  ap (window msg_index (with_message u at).msg_queue u.msg_remove) grown
      ∙ window-push msg_index u.msg_queue at (sub32 u.msg_insert u.msg_remove) u.msg_remove
          u.msg_insert v.remove_word (omega (arith, v.remove_word, v.insert_word)) apart,
)
  where
    grown : sub32 (add32 u.msg_insert 1) u.msg_remove ≡ suc (sub32 u.msg_insert u.msg_remove)
    grown = omega (arith, v.remove_word, v.insert_word)

    apart :
        (j : ℕ)
        → j < sub32 u.msg_insert u.msg_remove
        → msg_index u.msg_insert ≢ msg_index (add32 u.msg_remove j)
    apart j h = omega (
      arith,
      v.remove_word,
      v.insert_word,
      msg_index-eq-mod u.msg_insert,
      msg_index-eq-mod (add32 u.msg_remove j),
    )

callback_loop-room :
    (d : Device) (reason : Reason) (at : Place) (port bulk : ℕ) (rounds : List Round)
    (waits : List Woken)
    → msg_queue_full d port ≡ false
    → callback_loop d reason at port bulk rounds waits ≡ enqueue_message d reason at port bulk waits
unfolding callback_loop
callback_loop-room d reason at port bulk [] waits e = rw e refl
callback_loop-room d reason at port bulk ((adds, by_signal d') ∷ rounds) waits e = rw e refl
callback_loop-room d reason at port bulk ((adds, by_event d') ∷ rounds) waits e = rw e refl

-- While its process is not closing, a message for a service that takes them by
-- VCHIQ_IOC_DEQUEUE_MESSAGE, of which fewer than 128 wait, is put behind the others. Where an earlier
-- announcement is still to be told or a thread waits for a message, that is all and the callback
-- succeeds; else it goes on to add a completion without a header.
pub service_callback_lem :
    (d : Device) (reason : Reason) (at : Place) (port bulk : ℕ) (rounds : List Round)
    (waits : List Woken)
    → IsMessageRing (d.users port)
    → (d.users port).has_instance ≡ true
    → d.closing ≡ false
    → (d.users port).is_vchi ≡ true
    → sub32 (d.users port).msg_insert (d.users port).msg_remove < 128
    → (u : UserService) × IsMessageRing u
      × (messages u ≡ messages (d.users port) ++ at ∷ [])
      × ((announced d port || (d.users port).dequeue_pending ≡ true)
            × (service_callback d reason (some at) port bulk rounds waits
                ≡ added success (with_user d port (record u { dequeue_pending = false })))
          ⊎ (announced d port || (d.users port).dequeue_pending ≡ false)
            × (service_callback d reason (some at) port bulk rounds waits
                ≡ add_completion (with_user d port u) reason no_header port bulk waits))
unfolding service_callback enqueue_message
service_callback_lem d reason at port bulk rounds waits v inst closing vchi room = (
  with_message (d.users port) at,
  (with_message-IsMessageRing (d.users port) at v room).0,
  (with_message-IsMessageRing (d.users port) at v room).1,
  elim (Bool-cases (announced d port || (d.users port).dequeue_pending)) [
    | inl e ↦ inl (e, reaches ∙ ap chosen e)
    | inr e ↦ inr (e, reaches ∙ ap chosen e)
  ],
)
  where
    chosen : Bool → Added
    chosen b =
        if b
        then added success
            (with_user d port (record (with_message (d.users port) at) { dequeue_pending = false }))
        else add_completion (with_user d port (with_message (d.users port) at)) reason no_header
            port bulk waits

    by_kind : Bool → Added
    by_kind b =
        if b
        then callback_loop d reason at port bulk rounds waits
        else add_completion d reason (in_slot at) port bulk waits

    not_full : msg_queue_full d port ≡ false
    not_full = ground (arith, room, v.insert_word, v.remove_word)

    reaches :
        service_callback d reason (some at) port bulk rounds waits
        ≡ chosen (announced d port || (d.users port).dequeue_pending)
    reaches =
        ap
          (λ (b : Bool).
            if not b || d.closing then added success d else by_kind (d.users port).is_vchi)
          inst
        ∙ ap (λ (b : Bool). if b then added success d else by_kind (d.users port).is_vchi) closing
        ∙ ap by_kind vchi
        ∙ callback_loop-room d reason at port bulk rounds waits not_full
