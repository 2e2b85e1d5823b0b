-- ===== src/Vchiq/Callback/Dequeue.antt =====
-- A process that dequeues messages gets them in order.
use dkms_rpi_codec.Base.{
  ℕ, suc, ◌+◌, ◌≡◌, sym, ap, ap₂, ◌∙◌, ◌≢◌, Bool, true, not, Option, none, some, some-injective,
  List, [], ◌∷◌, arith, leb, if◌then◌else◌, ==_ne, add32, sub32,
}
use dkms_rpi_codec.Vchiq.Reserve.{Place}
use dkms_rpi_codec.Vchiq.Release.{release_message}
use dkms_rpi_codec.Vchiq.Window.{window}
use dkms_rpi_codec.Vchiq.Completion.{Device, UserService, Woken, with_user}
use dkms_rpi_codec.Vchiq.Callback.{
  await_message, Dequeued, refused, took, take_message, dequeue_message, msg_index,
}
use dkms_rpi_codec.Vchiq.Callback.Queue.{messages, IsMessageRing}

-- How a message leaves the queue: with its size and released, with EFAULT, or with EMSGSIZE; `d'` is
-- the state without it.
abbrev pub handed_over : Device → ℕ → Place → ℕ → Bool → Device → Dequeued
handed_over d handle at bufsize copies d' =
    let size = (d.link.slots at.0 at.1).size in
    if leb size bufsize
    then if copies
      then took size (record d' { link = release_message d.link handle at.0 at.1 })
      else refused 14 d'
    else refused 90 d'

-- A dequeue from a service that takes messages so, and has some, takes the oldest: it is copied and
-- released if it fits and the copy succeeds, and is lost otherwise, with an error. The others stay in
-- order.
pub dequeue_message_lem :
    (d : Device) (handle port bufsize : ℕ) (blocks copies : Bool) (waits : List Woken)
    → IsMessageRing (d.users port)
    → (d.users port).is_vchi ≡ true
    → (at : Place) (rest : List Place) → messages (d.users port) ≡ at ∷ rest
    → (u : UserService) × IsMessageRing u
      × (messages u ≡ rest)
      × (dequeue_message d handle port bufsize blocks copies waits
          ≡ handed_over d handle at bufsize copies (with_user d port u))
unfolding dequeue_message take_message
dequeue_message_lem d handle port bufsize blocks copies waits v vchi at rest oldest = (
  taken,
  record {
    insert_word = v.insert_word;
    remove_word = omega arith;
    within = omega (arith, one_more, v.within);
  },
  tail,
  reaches ∙ ap (λ a. handed_over d handle a bufsize copies (with_user d port taken)) head,
)
  where
    u : UserService
    u = d.users port

    taken : UserService
    taken = record u { msg_remove = add32 u.msg_remove 1; remove_event = u.remove_event + 1 }

    some_there : u.msg_remove ≢ u.msg_insert
    some_there same =
        cc (sym oldest ∙ ap (window msg_index u.msg_queue u.msg_remove) (none_left same))
      where
        none_left : u.msg_remove ≡ u.msg_insert → sub32 u.msg_insert u.msg_remove ≡ 0
        none_left same = omega (arith, v.remove_word)

    one_more : sub32 u.msg_insert u.msg_remove ≡ suc (sub32 u.msg_insert (add32 u.msg_remove 1))
    one_more = omega (arith, some_there, v.insert_word, v.remove_word)

    split :
        messages u
        ≡ u.msg_queue (msg_index u.msg_remove)
          ∷ window msg_index u.msg_queue
              (add32 u.msg_remove 1)
              (sub32 u.msg_insert (add32 u.msg_remove 1))
    split = ap (window msg_index u.msg_queue u.msg_remove) one_more

    tail : messages taken ≡ rest
    tail = ap tail_of (sym split ∙ oldest)
      where
        tail_of : List Place → List Place
        tail_of [] = []
        tail_of (x ∷ xs) = xs

    head : u.msg_queue (msg_index u.msg_remove) ≡ at
    head = some-injective _ _ (ap first_of (sym split ∙ oldest))
      where
        first_of : List Place → Option Place
        first_of [] = none
        first_of (x ∷ xs) = some x

    reaches :
        dequeue_message d handle port bufsize blocks copies waits
        ≡ handed_over d handle
            (u.msg_queue (msg_index u.msg_remove))
            bufsize
            copies
            (with_user d port taken)
    reaches = ap₂ tests vchi (==_ne u.msg_remove u.msg_insert some_there)
      where
        tests : Bool → Bool → Dequeued
        tests is_vchi is_empty =
            if not is_vchi
            then refused 22 d
            else if not is_empty
            then handed_over d handle (u.msg_queue (msg_index u.msg_remove)) bufsize copies
                (with_user d port taken)
            else if blocks
            then await_message (with_user d port (record u { dequeue_pending = true })) handle port
                bufsize copies waits
            else refused 11 d
