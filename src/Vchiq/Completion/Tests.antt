-- ===== src/Vchiq/Completion/Tests.antt =====
-- A process with one completion, at counter 2 ^ 32 - 1, of a message of 16 bytes.
use dkms_rpi_codec.Base.{◌<◌, ◌≡◌, ◌⊎◌, true, false, List, [], ◌∷◌, ◌++◌, arith, sub32}
use dkms_rpi_codec.Vchiq.State.{success, message_available}
use dkms_rpi_codec.Vchiq.Service.Tests.{peopled}
use dkms_rpi_codec.Vchiq.Completion.{
  UserService, Device, Completion, no_header, in_slot, add_completion, added, waiting_in, Woken,
  by_event,
}
use dkms_rpi_codec.Vchiq.Completion.Fifo.{
  pending, IsCompletionRing, new_completion, add_completion_lem,
}

abbrev pub user : UserService
user = record {
  userdata = 70;
  has_instance = true;
  is_vchi = false;
  dequeue_pending = false;
  close_pending = false;
  message_available_pos = 0;
  msg_insert = 0;
  msg_remove = 0;
  insert_event = 0;
  remove_event = 0;
  close_event = 0;
  msg_queue = λ i. (0, 0);
}

abbrev available : Completion
available = new_completion message_available (in_slot (1, 0)) 5 0

abbrev pub one_to_tell : Device
one_to_tell = record {
  link = record peopled { slots = λ slot pos. record { msgid = 0; size = 16; bytes = [] } };
  users = λ port. user;
  completions = λ i. available;
  completion_insert = 0;
  completion_remove = 0xffff_ffff;
  insert_event = 0;
  remove_event = 0;
  connected = true;
  closing = false;
  use_close_delivered = false;
}

pub one_to_tell-IsCompletionRing : IsCompletionRing one_to_tell
one_to_tell-IsCompletionRing = record {
  insert_word = omega arith;
  remove_word = omega arith;
  within = omega arith;
}

add_completion_lem_example :
    (sub32 one_to_tell.completion_insert one_to_tell.completion_remove < 128)
      × ((d' : Device) × (add_completion one_to_tell message_available no_header 5 9 []
            ≡ added success d')
          × IsCompletionRing d'
          × (pending d'
              ≡ pending one_to_tell ++ new_completion message_available no_header 5 9 ∷ []))
    ⊎ (sub32 one_to_tell.completion_insert one_to_tell.completion_remove ≡ 128)
      × (add_completion one_to_tell message_available no_header 5 9 [] ≡ waiting_in one_to_tell)
      × ((d' : Device) (waits' : List Woken)
          → d'.closing ≡ true
          → add_completion one_to_tell message_available no_header 5 9 (by_event d' ∷ waits')
            ≡ added success d')
add_completion_lem_example =
    add_completion_lem one_to_tell message_available no_header 5 9 [] one_to_tell-IsCompletionRing
