-- ===== src/Vchiq/Callback.antt =====
-- The callback of the services that a process opened: `service_callback`, and the dequeuing of their
-- messages (interface/vchiq_arm/vchiq_arm.c).
pub mod Queue
pub mod Dequeue
mod Tests
use dkms_rpi_codec.Base.{
  ℕ, ◌+◌, ◌-◌, bit_and, Bool, true, false, not, ◌||◌, Option, List, [], ◌∷◌, leb, ◌==◌,
  if◌then◌else◌, option_case, update, add32,
}
use dkms_rpi_codec.Vchiq.State.{success, error, retry, Reason}
use dkms_rpi_codec.Vchiq.Reserve.{Place}
use dkms_rpi_codec.Vchiq.Release.{release_message}
use dkms_rpi_codec.Vchiq.Completion.{
  Device, no_header, in_slot, Woken, by_signal, by_event, Added, added, waiting_in, with_user,
  add_completion, announced, msg_queue_full, msg_queue_size,
}

abbrev pub msg_index : ℕ → ℕ
msg_index pos = bit_and pos (msg_queue_size - 1)

-- The message is put into the service's queue. A thread that waits for it, or that will be told of an
-- earlier one, needs no completion.
unfoldable pub enqueue_message : Device → Reason → Place → ℕ → ℕ → List Woken → Added
unfolding add_completion
enqueue_message d reason header port bulk waits =
    let u = d.users port in
    let u' = record u {
      msg_queue = update u.msg_queue (msg_index u.msg_insert) header;
      msg_insert = add32 u.msg_insert 1;
      insert_event = u.insert_event + 1;
    } in
    if announced d port || u.dequeue_pending
    then added success (with_user d port (record u' { dequeue_pending = false }))
    else add_completion (with_user d port u') reason no_header port bulk waits

-- A round of the wait for room: the waits of an extra MESSAGE_AVAILABLE, and the wait for a message to
-- be taken.
abbrev pub Round : Type 0
Round = List Woken × Woken

-- The extra completion for a full queue.
abbrev pub announce : Device → Reason → ℕ → ℕ → List Woken → Added
announce d reason port bulk waits =
    if announced d port then added success d else add_completion d reason no_header port bulk waits

-- The loop on a full queue.
unfoldable pub callback_loop : Device → Reason → Place → ℕ → ℕ → List Round → List Woken → Added
unfolding enqueue_message
callback_loop d reason header port bulk [] waits =
    if msg_queue_full d port then waiting_in d else enqueue_message d reason header port bulk waits
callback_loop d reason header port bulk ((adds, by_signal d') ∷ rounds) waits =
    if msg_queue_full d port
    then elim (announce d reason port bulk adds) [
      | waiting_in e ↦ waiting_in e
      | added st e ↦ elim st [
        | success ↦ added retry d'
        | error ↦ added error e
        | retry ↦ added retry e
      ]
    ]
    else enqueue_message d reason header port bulk waits
callback_loop d reason header port bulk ((adds, by_event d') ∷ rounds) waits =
    let again = callback_loop d' reason header port bulk rounds waits in
    if msg_queue_full d port
    then elim (announce d reason port bulk adds) [
      | waiting_in e ↦ waiting_in e
      | added st e ↦ elim st [
        | success ↦ if d'.closing then added error d' else again
        | error ↦ added error e
        | retry ↦ added retry e
      ]
    ]
    else enqueue_message d reason header port bulk waits

-- `service_callback`, for the service at a port.
unfoldable pub service_callback :
    Device → Reason → Option Place → ℕ → ℕ → List Round → List Woken → Added
unfolding callback_loop add_completion
service_callback d reason header port bulk rounds waits =
    let plain =
      add_completion d reason (option_case header no_header (λ at. in_slot at)) port bulk waits in
    if not (d.users port).has_instance || d.closing
    then added success d
    else if (d.users port).is_vchi
    then option_case header plain (λ at. callback_loop d reason at port bulk rounds waits)
    else plain

-- How VCHIQ_IOC_DEQUEUE_MESSAGE ends: with a length, an error's number, or still waiting.
pub data Dequeued : Type 0 where
  took : ℕ → Device → Dequeued
  refused : ℕ → Device → Dequeued
  waits_for : Device → Dequeued

-- From a queue with a message on: the message is copied and released. `copies` says whether the copy
-- to the user succeeds; a NULL buffer is none. There are no NULL headers in the queue.
unfoldable pub take_message : Device → ℕ → ℕ → ℕ → Bool → Dequeued
take_message d handle port bufsize copies =
    let u = d.users port in
    let at = u.msg_queue (msg_index u.msg_remove) in
    let h = d.link.slots at.0 at.1 in
    let d' =
      with_user d port
        (record u { msg_remove = add32 u.msg_remove 1; remove_event = u.remove_event + 1 }) in
    if leb h.size bufsize
    then if copies
      then took h.size (record d' { link = release_message d.link handle at.0 at.1 })
      else refused 14 d'
    else refused 90 d'

abbrev pub msg_queue_empty : Device → ℕ → Bool
msg_queue_empty d port = (d.users port).msg_remove == (d.users port).msg_insert

-- VCHIQ_IOC_DEQUEUE_MESSAGE on the service that was found. The errors are EINVAL, EWOULDBLOCK and
-- EINTR.
unfoldable pub await_message : Device → ℕ → ℕ → ℕ → Bool → List Woken → Dequeued
unfolding take_message
await_message d handle port bufsize copies [] =
    if msg_queue_empty d port then waits_for d else take_message d handle port bufsize copies
await_message d handle port bufsize copies (by_signal d' ∷ waits) =
    if msg_queue_empty d port then refused 4 d' else take_message d handle port bufsize copies
await_message d handle port bufsize copies (by_event d' ∷ waits) =
    let again = await_message d' handle port bufsize copies waits in
    if msg_queue_empty d port then again else take_message d handle port bufsize copies

unfoldable pub dequeue_message : Device → ℕ → ℕ → ℕ → Bool → Bool → List Woken → Dequeued
unfolding await_message
dequeue_message d handle port bufsize blocking copies waits =
    let u = d.users port in
    if not u.is_vchi
    then refused 22 d
    else if not (msg_queue_empty d port)
    then take_message d handle port bufsize copies
    else if blocking
    then await_message (with_user d port (record u { dequeue_pending = true })) handle port bufsize
        copies waits
    else refused 11 d
