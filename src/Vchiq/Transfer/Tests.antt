-- ===== src/Vchiq/Transfer/Tests.antt =====
-- A transfer of 64 bytes for the service at port 5, which another thread closes in the meantime.
use dkms_rpi_codec.Base.{refl, some, []}
use dkms_rpi_codec.Vchiq.State.{State, callback, transmit, closesent}
use dkms_rpi_codec.Vchiq.Bulk.Tests.{busy}
use dkms_rpi_codec.Vchiq.Slots.{start_state}
use dkms_rpi_codec.Vchiq.Service.Tests.{peopled}
use dkms_rpi_codec.Vchiq.Service.{set_service_state}
use dkms_rpi_codec.Vchiq.Transfer.{Request, start_bulk}
use dkms_rpi_codec.Vchiq.Transfer.Pages.{created, IsBalanced, start_bulk-IsBalanced}

abbrev request : Request
request = record { offset = 0x1000; size = 64; userdata = 3; mode = callback; dir = transmit }

abbrev closed_by_other : State → State
closed_by_other s = set_service_state s 5 closesent

start_bulk-IsBalanced_example :
    IsBalanced
      (created (some (0xd000, 0x8000)))
      (start_bulk peopled 5 busy request (some (0xd000, 0x8000)) (some closed_by_other) [])
start_bulk-IsBalanced_example =
    start_bulk-IsBalanced peopled 5 busy request (some (0xd000, 0x8000)) (some closed_by_other) []
      (unfold start_state in refl)
