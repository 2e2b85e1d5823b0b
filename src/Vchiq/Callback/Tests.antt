-- ===== src/Vchiq/Callback/Tests.antt =====
-- A VCHI service with one message, at counter 2 ^ 32 - 1.
use dkms_rpi_codec.Base.{◌≡◌, refl, ◌⊎◌, true, false, ◌||◌, some, [], ◌∷◌, ◌++◌, arith}
use dkms_rpi_codec.Vchiq.State.{success, message_available}
use dkms_rpi_codec.Vchiq.Completion.{
  UserService, Device, added, no_header, with_user, add_completion, announced,
}
use dkms_rpi_codec.Vchiq.Completion.Tests.{user, one_to_tell}
use dkms_rpi_codec.Vchiq.Callback.{service_callback, dequeue_message}
use dkms_rpi_codec.Vchiq.Callback.Queue.{messages, IsMessageRing, service_callback_lem}
use dkms_rpi_codec.Vchiq.Callback.Dequeue.{handed_over, dequeue_message_lem}

abbrev vchi_user : UserService
vchi_user = record user {
  is_vchi = true;
  msg_insert = 0;
  msg_remove = 0xffff_ffff;
  msg_queue = λ i. (1, 0);
}

abbrev serving : Device
serving = record one_to_tell { users = λ port. vchi_user }

vchi_user-IsMessageRing : IsMessageRing vchi_user
vchi_user-IsMessageRing = record {
  insert_word = omega arith;
  remove_word = omega arith;
  within = omega arith;
}

service_callback_lem_example :
    (u : UserService) × IsMessageRing u
    × (messages u ≡ messages vchi_user ++ (1, 16) ∷ [])
    × ((announced serving 5 || false ≡ true)
          × (service_callback serving message_available (some (1, 16)) 5 0 [] []
              ≡ added success (with_user serving 5 (record u { dequeue_pending = false })))
        ⊎ (announced serving 5 || false ≡ false)
          × (service_callback serving message_available (some (1, 16)) 5 0 [] []
              ≡ add_completion (with_user serving 5 u) message_available no_header 5 0 []))
service_callback_lem_example =
    service_callback_lem serving message_available (1, 16) 5 0 [] [] vchi_user-IsMessageRing refl
      refl refl (omega arith)

dequeue_message_lem_example :
    (u : UserService) × IsMessageRing u
    × (messages u ≡ [])
    × (dequeue_message serving 4101 5 64 false true []
        ≡ handed_over serving 4101 (1, 0) 64 true (with_user serving 5 u))
dequeue_message_lem_example =
    dequeue_message_lem serving 4101 5 64 false true [] vchi_user-IsMessageRing refl (1, 0) [] refl
