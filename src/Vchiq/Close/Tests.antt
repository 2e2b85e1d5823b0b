-- ===== src/Vchiq/Close/Tests.antt =====
-- Closing the service at port 5, a client with one use out of four.
use dkms_rpi_codec.Base.{refl, none, some, arith, update}
use dkms_rpi_codec.Vchiq.State.{State, Service, closerecvd, success}
use dkms_rpi_codec.Vchiq.Suspend.{zero_arm_state}
use dkms_rpi_codec.Vchiq.Bulk.Tests.{busy}
use dkms_rpi_codec.Vchiq.Service.{with_ref}
use dkms_rpi_codec.Vchiq.Service.Tests.{peopled}
use dkms_rpi_codec.Vchiq.Close.{close_service_complete}
use dkms_rpi_codec.Vchiq.Close.Complete.{AfterClose, from_open, close_service_complete_lem}

abbrev held : Service
held = with_ref busy 2

abbrev in_use : State
in_use = record peopled {
  services = update (λ i. none) 5 (some held);
  platform_state = record zero_arm_state { videocore_use_count = 4 };
}

close_service_complete_lem_example :
    AfterClose 5 held 3 closerecvd success (close_service_complete in_use 5 closerecvd success)
close_service_complete_lem_example =
    close_service_complete_lem in_use 5 held 3 closerecvd success from_open refl (omega arith)
      (omega arith) (omega arith) (omega arith)
