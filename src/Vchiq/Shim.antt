-- ===== src/Vchiq/Shim.antt =====
-- The VCHI layer over a service: its callback, which queues the messages, and the calls that take them
-- (interface/vchiq_arm/vchiq_shim.c). A header is the number of its address, which is its slot and
-- the place in it; NULL is 0, as no message stands in slot 0. Memory for a service can be had or not.
pub mod Deliver
pub mod Calls
mod Tests
use dkms_rpi_codec.Base.{
  ℕ, zero, suc, ◌+◌, ◌-◌, ◌*◌, ◌/◌, ◌%◌, ◌^◌, ◌≤◌, ◌<◌, min, max, bit_and, bit_or, ◌≡◌, refl, sym,
  ap, ap₂, ◌∙◌, fun_ext, subst, ◌≢◌, ◌↔◌, ◌⊎◌, inl, inr, Bool, true, false, not, ◌&&◌, ◌||◌, Option,
  none, some, some-injective, List, [], ◌∷◌, ◌++◌, map, append-nil, append_assoc, arith,
  bit_and_mask, bit_or_disjoint, ltb, leb, ◌==◌, if◌then◌else◌, ==_iff, ==_refl, ==_ne, Bool-cases,
  Option-cases, ℕ-cases, option_case, length, get_elem?, set, length-append, take, drop,
  length-take, length-drop, drop-all, take-append-drop_from, update, update_self, update_ne, All,
  add32, sub32, u16, nonneg32,
}
use dkms_rpi_codec.Vchiq.Message.{slot_size}
use dkms_rpi_codec.Vchiq.State.{
  State, Status, success, error, retry, BulkMode, callback, blocking, nocallback, Reason,
  service_opened, service_closed, message_available, bulk_transmit_done, bulk_receive_done,
  bulk_transmit_aborted, bulk_receive_aborted, Header,
}
use dkms_rpi_codec.Vchiq.Release.{release_message}
use dkms_rpi_codec.Vchiq.Client.{ServiceOption, synchronous, tracing, set_service_option}
use dkms_rpi_codec.Vchiq.HeaderQueue.{
  HeaderQueue, queue_init, queue_is_empty, queue_push, queue_peek, queue_pop,
}

-- struct shim_service, with the link that its calls reach.
pub record Shim : Type 0 where
  pub link : State
  pub handle : ℕ
  pub queue : HeaderQueue
  pub has_callback : Bool

-- The reasons of VCHI_CALLBACK_REASON_T that are given to the callback, and the bulk's handle.
pub data VchiCall : Type 0 where
  msg_available vchi_closed : VchiCall
  bulk_sent bulk_received transmit_aborted receive_aborted : ℕ → VchiCall

abbrev pub header_at : State → ℕ → Header
header_at s header = s.slots (header / slot_size) (header % slot_size)

abbrev pub release_header : Shim → ℕ → Shim
release_header x header = record x {
  link = release_message x.link x.handle (header / slot_size) (header % slot_size);
}

-- A MESSAGE_AVAILABLE is queued before the callback; `waits` are the waits for room.
abbrev pub queue_header : Shim → ℕ → List HeaderQueue → Option (Shim × List VchiCall)
queue_header x header waits =
    option_case (queue_push x.queue header waits) none
      (λ q. some (record x { queue = q }, msg_available ∷ []))

abbrev pub on_reason : Shim → Reason → ℕ → ℕ → List HeaderQueue → Option (Shim × List VchiCall)
on_reason x message_available header bulk waits = queue_header x header waits
on_reason x bulk_transmit_done header bulk waits =
    some (release_header x header, bulk_sent bulk ∷ [])
on_reason x bulk_receive_done header bulk waits =
    some (release_header x header, bulk_received bulk ∷ [])
on_reason x service_closed header bulk waits = some (release_header x header, vchi_closed ∷ [])
on_reason x service_opened header bulk waits = some (release_header x header, [])
on_reason x bulk_transmit_aborted header bulk waits =
    some (release_header x header, transmit_aborted bulk ∷ [])
on_reason x bulk_receive_aborted header bulk waits =
    some (release_header x header, receive_aborted bulk ∷ [])

-- `shim_callback`: the calls of the client's callback, and no result while it waits for room.
unfoldable pub shim_callback :
    Shim → Reason → ℕ → ℕ → List HeaderQueue → Option (Shim × List VchiCall)
shim_callback x reason header bulk waits =
    if x.has_callback
    then on_reason x reason header bulk waits
    else some (release_header x header, [])

-- How a call that reads a message ends: with -1, with what it read, or still waiting.
pub data Read (A : Type 0) : Type 0 where
  no_message : Read A
  got : A → Shim → Read A
  still_waits : Read A

-- A read by `step`; without VCHI_FLAGS_BLOCK_UNTIL_OP_COMPLETE it does not wait for a message.
abbrev pub read_with : {A : Type 0} → Shim → Bool → Option (A × Shim) → Read A
read_with x blocks step =
    if not blocks && queue_is_empty x.queue
    then no_message
    else option_case step still_waits (λ r. got r.0 r.1)

-- `vchi_msg_peek`: the header and its size.
unfoldable pub msg_peek : Shim → Bool → List HeaderQueue → Read (ℕ × ℕ)
msg_peek x blocks waits = read_with x blocks (
    option_case (queue_peek x.queue waits) none
      (λ r. some ((r.0, (header_at x.link r.0).size), record x { queue = r.1 })))

-- `vchi_msg_remove`
unfoldable pub msg_remove : Shim → List HeaderQueue → Option Shim
msg_remove x waits =
    option_case (queue_pop x.queue waits) none
      (λ r. some (release_header (record x { queue = r.1 }) r.0))

-- What `vchi_msg_dequeue` copies, and the size that it gives.
abbrev pub read_header : Header → ℕ → List ℕ × ℕ
read_header h most = (take (if ltb h.size most then h.size else most) h.bytes, h.size)

-- A header that was popped is read and released.
abbrev pub read_popped : Shim → ℕ → ℕ × HeaderQueue → (List ℕ × ℕ) × Shim
read_popped x most (header, q) =
    (read_header (header_at x.link header) most, release_header (record x { queue = q }) header)

-- `vchi_msg_dequeue`
unfoldable pub msg_dequeue : Shim → ℕ → Bool → List HeaderQueue → Read (List ℕ × ℕ)
msg_dequeue x most blocks waits =
    read_with x blocks
      (option_case (queue_pop x.queue waits) none (λ r. some (read_popped x most r)))

-- struct vchi_held_msg
pub record HeldMsg : Type 0 where
  pub service : ℕ
  pub message : ℕ

-- `vchi_msg_hold`: the size of the message, and the message that is held.
unfoldable pub msg_hold : Shim → Bool → List HeaderQueue → Read (ℕ × HeldMsg)
msg_hold x blocks waits = read_with x blocks (
    option_case (queue_pop x.queue waits) none (λ r. some (
      ((header_at x.link r.0).size, record { service = x.handle; message = r.0 }),
      record x { queue = r.1 },
    )))

-- `vchi_held_msg_release`
unfoldable pub held_msg_release : State → HeldMsg → State
held_msg_release s m = release_message s m.service (m.message / slot_size) (m.message % slot_size)

-- The modes of `vchi_bulk_queue_receive` and `vchi_bulk_queue_transmit`; other flags are an error.
abbrev pub receive_mode : ℕ → Option BulkMode
receive_mode flags =
    if flags == 6
    then some callback
    else if flags == 1
    then some blocking
    else if (flags == 4) || (flags == 0)
    then some nocallback
    else none

abbrev pub transmit_mode : ℕ → Option BulkMode
transmit_mode flags =
    if flags == 6
    then some callback
    else if (flags == 16) || (flags == 1)
    then some blocking
    else if (flags == 4) || (flags == 0)
    then some nocallback
    else none

-- A call that is made again while it asks for a retry, with what its tries return.
unfoldable pub until_done : List Status → Option Status
until_done [] = none
until_done (retry ∷ tries) = until_done tries
until_done (success ∷ tries) = some success
until_done (error ∷ tries) = some error

-- `service_alloc`, but for the handle, which is zeroed; `memory` is what is there before.
unfoldable pub service_alloc : State → HeaderQueue → Bool → Bool → Bool → Option Shim
service_alloc s memory has_callback has_memory has_storage =
    let (ready, q) = queue_init memory 64 has_storage in
    if has_memory && ready
    then some (record { link = s; handle = 0; queue = q; has_callback = has_callback })
    else none

-- VCHI_SERVICE_OPTION_TRACE and VCHI_SERVICE_OPTION_SYNCHRONOUS; the bounds of the enumeration are
-- no options.
abbrev pub vchi_option : ℕ → Option ServiceOption
vchi_option option =
    if option == 1 then some tracing else if option == 2 then some synchronous else none

-- `vchi_service_set_option`: -1 where there is no service or no such option, else the status.
unfoldable pub service_set_option : Option Shim → ℕ → ℕ → Option (Status × State)
service_set_option none option value = none
service_set_option (some x) option value =
    option_case (vchi_option option) none (λ o. some (set_service_option x.link x.handle o value))
