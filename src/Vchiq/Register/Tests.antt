-- ===== src/Vchiq/Register/Tests.antt =====
-- A client that opens a service beside another one, and a server.
use dkms_rpi_codec.Base.{ℕ, ◌≡◌, refl, ◌⊎◌, none, some, update}
use dkms_rpi_codec.Vchiq.State.{State, Service, opening, hidden}
use dkms_rpi_codec.Vchiq.Bulk.Tests.{cell, busy}
use dkms_rpi_codec.Vchiq.Service.Tests.{peopled, peopled-IsTable}
use dkms_rpi_codec.Vchiq.Service.{take_ref, find_service_by_handle}
use dkms_rpi_codec.Vchiq.Service.Table.{IsTable}
use dkms_rpi_codec.Vchiq.Register.{
  Params, Fresh, client_place, server_place, place_for, add_service_internal,
}
use dkms_rpi_codec.Vchiq.Register.Add.{add_service_internal_lem}

abbrev pub mmal : Params
mmal = record { fourcc = 0x6d6d_616c; callback = 7; userdata = 8; version = 16; version_min = 10 }

abbrev pub junk : Fresh
junk = record { tx_bulks = λ i. cell; rx_bulks = λ i. cell; old_peer_version = 3 }

add_service_internal_lem_example :
    (place_for peopled mmal opening 4 ≡ none)
      × (add_service_internal peopled mmal opening 4 (some junk) ≡ (none, peopled))
    ⊎ ((port : ℕ) × (svc : Service) × (s' : State) × (add_service_internal peopled mmal opening 4
            (some junk)
          ≡ (some port, s'))
        × (peopled.services port ≡ none)
        × (s'.services ≡ update peopled.services port (some svc))
        × IsTable s'
        × (find_service_by_handle s' svc.handle ≡ (some port, take_ref s' port svc)))
add_service_internal_lem_example =
    add_service_internal_lem peopled mmal opening 4 junk peopled-IsTable refl

-- With port 0 taken the client goes to port 1.
abbrev two_services : State
two_services = record peopled { services = update peopled.services 0 (some busy) }

at_one : place_for two_services mmal opening 4 ≡ some 1
unfolding place_for client_place
at_one = refl

server_at_zero : place_for peopled mmal hidden 4 ≡ some 0
unfolding place_for server_place
server_at_zero = refl
