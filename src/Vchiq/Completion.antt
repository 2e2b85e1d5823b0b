-- ===== src/Vchiq/Completion.antt =====
-- The completions that a process of the character device is told of: `add_completion` and
-- `service_callback` (interface/vchiq_arm/vchiq_arm.c). A header is its slot and byte position, a
-- service is its port; a user's pointer is a number.
pub mod Fifo
pub mod Tests
use dkms_rpi_codec.Base.{
  ℕ, ◌+◌, ◌-◌, bit_and, Bool, true, false, ◌&&◌, List, [], ◌∷◌, leb, ◌==◌, if◌then◌else◌, update,
  add32, sub32, nonneg32,
}
use dkms_rpi_codec.Vchiq.State.{
  State, Status, success, retry, Reason, service_closed, message_available,
}
use dkms_rpi_codec.Vchiq.Service.{lock_service, unlock_service}
use dkms_rpi_codec.Vchiq.Reserve.{Place}

-- MAX_COMPLETIONS, MSG_QUEUE_SIZE
abbrev pub max_completions : ℕ
max_completions = 128

abbrev pub msg_queue_size : ℕ
msg_queue_size = 128

-- The field `service_userdata` first holds the service, and later what its user gave with it.
pub data Userdata : Type 0 where
  kernel_service : ℕ → Userdata
  user_pointer : ℕ → Userdata

-- The field `header` first holds the message, and later the user's buffer.
pub data HeaderRef : Type 0 where
  no_header : HeaderRef
  in_slot : Place → HeaderRef
  in_msgbuf : ℕ → HeaderRef

-- struct vchiq_completion_data
pub record Completion : Type 0 where
  pub reason : Reason
  pub header : HeaderRef
  pub service_userdata : Userdata
  pub bulk_userdata : ℕ

-- struct user_service, of the service at the port under which it is kept.
pub record UserService : Type 0 where
  pub userdata : ℕ
  pub has_instance : Bool
  pub is_vchi : Bool
  pub dequeue_pending : Bool
  pub close_pending : Bool
  pub message_available_pos : ℕ
  pub msg_insert : ℕ
  pub msg_remove : ℕ
  pub insert_event : ℕ
  pub remove_event : ℕ
  pub close_event : ℕ
  pub msg_queue : ℕ → Place

-- struct vchiq_instance_struct, with the link and the user services that its functions reach.
pub record Device : Type 0 where
  pub link : State
  pub users : ℕ → UserService
  pub completions : ℕ → Completion
  pub completion_insert : ℕ
  pub completion_remove : ℕ
  pub insert_event : ℕ
  pub remove_event : ℕ
  pub connected : Bool
  pub closing : Bool
  pub use_close_delivered : Bool

-- How a wait of a thread ends, with the state in which it ends.
pub data Woken : Type 0 where
  by_signal : Device → Woken
  by_event : Device → Woken

-- How a function that may wait ends.
pub data Added : Type 0 where
  added : Status → Device → Added
  waiting_in : Device → Added

abbrev pub with_user : Device → ℕ → UserService → Device
with_user d port u = record d { users = update d.users port u }

abbrev pub completion_index : ℕ → ℕ
completion_index pos = bit_and pos (max_completions - 1)

-- `(insert - instance->completion_remove) >= MAX_COMPLETIONS`, on `int`s.
abbrev pub completions_full : Device → ℕ → Bool
completions_full d insert =
    nonneg32 (sub32 insert d.completion_remove)
    && leb max_completions (sub32 insert d.completion_remove)

-- The reference that a CLOSED notification holds.
abbrev pub hold_closed : Device → Reason → ℕ → Device
hold_closed d service_closed port =
    let u = d.users port in
    let d' = record d { link = lock_service d.link port } in
    if d.use_close_delivered then with_user d' port (record u { close_pending = true }) else d'
hold_closed d reason port = d

abbrev pub note_available : Device → Reason → ℕ → ℕ → Device
note_available d message_available port insert =
    with_user d port (record (d.users port) { message_available_pos = insert })
note_available d reason port insert = d

-- `add_completion` once there is room.
unfoldable pub insert_completion : Device → ℕ → Reason → HeaderRef → ℕ → ℕ → Device
insert_completion d insert reason header port bulk_userdata =
    let c : Completion = record {
      reason = reason;
      header = header;
      service_userdata = kernel_service port;
      bulk_userdata = bulk_userdata;
    } in
    let written = record d { completions = update d.completions (completion_index insert) c } in
    let noted = note_available (hold_closed written reason port) reason port insert in
    record noted { completion_insert = add32 insert 1; insert_event = noted.insert_event + 1 }

-- The loop of `add_completion`, for a position that was read before it.
unfoldable pub add_loop : Device → ℕ → Reason → HeaderRef → ℕ → ℕ → List Woken → Added
unfolding insert_completion
add_loop d insert reason header port bulk [] =
    if completions_full d insert
    then waiting_in d
    else added success (insert_completion d insert reason header port bulk)
add_loop d insert reason header port bulk (by_signal d' ∷ waits) =
    if completions_full d insert
    then added retry d'
    else added success (insert_completion d insert reason header port bulk)
add_loop d insert reason header port bulk (by_event d' ∷ waits) =
    let again = add_loop d' insert reason header port bulk waits in
    if completions_full d insert
    then if d'.closing then added success d' else again
    else added success (insert_completion d insert reason header port bulk)

-- `add_completion`
unfoldable pub add_completion : Device → Reason → HeaderRef → ℕ → ℕ → List Woken → Added
unfolding add_loop
add_completion d reason header port bulk waits =
    add_loop d d.completion_insert reason header port bulk waits

-- Whether a MESSAGE_AVAILABLE of the service is still among the completions.
abbrev pub announced : Device → ℕ → Bool
announced d port = nonneg32 (sub32 (d.users port).message_available_pos d.completion_remove)

abbrev pub msg_queue_full : Device → ℕ → Bool
msg_queue_full d port = (d.users port).msg_insert == add32 (d.users port).msg_remove msg_queue_size

-- `close_delivered`
unfoldable pub close_delivered : Device → ℕ → Device
close_delivered d port =
    let u = d.users port in
    if u.close_pending
    then with_user (record d { link = (unlock_service d.link port).0 }) port
        (record u { close_event = u.close_event + 1; close_pending = false })
    else d
