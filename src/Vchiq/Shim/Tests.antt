-- ===== src/Vchiq/Shim/Tests.antt =====
-- A service with one message.
use dkms_rpi_codec.Base.{
  ℕ, ◌<◌, min, ◌≡◌, refl, ◌⊎◌, true, false, none, some, List, [], ◌∷◌, ◌++◌, take, sub32,
}
use dkms_rpi_codec.Vchiq.State.{message_available}
use dkms_rpi_codec.Vchiq.Service.Tests.{peopled}
use dkms_rpi_codec.Vchiq.HeaderQueue.{HeaderQueue}
use dkms_rpi_codec.Vchiq.HeaderQueue.Fifo.{contents, IsRing}
use dkms_rpi_codec.Vchiq.HeaderQueue.Tests.{one, one-IsRing}
use dkms_rpi_codec.Vchiq.Shim.{
  Shim, msg_available, shim_callback, no_message, got, still_waits, header_at, release_header,
  msg_dequeue,
}
use dkms_rpi_codec.Vchiq.Shim.Deliver.{shim_callback_lem, msg_dequeue_lem}

abbrev reader : Shim
reader = record { link = peopled; handle = 4101; queue = one; has_callback = true }

shim_callback_lem_example :
    (sub32 one.write one.read < 64)
      × ((q : HeaderQueue) × (shim_callback reader message_available 4096 0 []
            ≡ some (record reader { queue = q }, msg_available ∷ []))
          × IsRing q
          × (contents q ≡ contents one ++ 4096 ∷ []))
    ⊎ (sub32 one.write one.read ≡ 64) × (shim_callback reader message_available 4096 0 [] ≡ none)
shim_callback_lem_example = shim_callback_lem reader 4096 0 [] one-IsRing refl

msg_dequeue_lem_example :
    (contents one ≡ [])
      × (msg_dequeue reader 8 false [] ≡ no_message)
      × (msg_dequeue reader 8 true [] ≡ still_waits)
    ⊎ ((header : ℕ) × (rest : List ℕ) × (q : HeaderQueue) × (contents one ≡ header ∷ rest)
        × (msg_dequeue reader 8 false []
            ≡ got
                (
                  take (min (header_at peopled header).size 8) (header_at peopled header).bytes,
                  (header_at peopled header).size,
                )
                (release_header (record reader { queue = q }) header))
        × IsRing q
        × (contents q ≡ rest))
msg_dequeue_lem_example = msg_dequeue_lem reader 8 false [] one-IsRing
