-- ===== src/Vchiq/Wake/Tests.antt =====
-- The driver's start, a use by the peer, and a use of the service at port 5.
use dkms_rpi_codec.Base.{refl, true, some, [], ◌∷◌, arith}
use dkms_rpi_codec.Vchiq.State.{State}
use dkms_rpi_codec.Vchiq.Suspend.{arm_init_state, zero_arm_state}
use dkms_rpi_codec.Vchiq.Bulk.Tests.{busy}
use dkms_rpi_codec.Vchiq.Service.Tests.{peopled, only-busy}
use dkms_rpi_codec.Vchiq.Reserve.{interrupted}
use dkms_rpi_codec.Vchiq.Power.{use_type_service, release_internal}
use dkms_rpi_codec.Vchiq.Power.Counts.{IsCounted, total}
use dkms_rpi_codec.Vchiq.Power.Released.{release_internal-IsCounted}
use dkms_rpi_codec.Vchiq.Wake.{use_internal, count_use}
use dkms_rpi_codec.Vchiq.Wake.Awake.{IsServed}
use dkms_rpi_codec.Vchiq.Wake.Reach.{here, next, released, use_internal-IsServed}
use dkms_rpi_codec.Vchiq.Wake.Counted.{count_use-IsCounted}

abbrev ready : State
ready = record peopled { platform_state = arm_init_state zero_arm_state }

abbrev noted : State
noted = (release_internal ready (some 5)).1

use_internal-IsServed_example :
    IsServed (use_internal noted use_type_service (some 5) (interrupted ready ∷ []) true)
use_internal-IsServed_example =
    use_internal-IsServed ready noted use_type_service (some 5) (interrupted ready ∷ []) true refl
      (next here (released (some 5))) tt

-- The service's one use is the total.
abbrev counted : State
counted = record peopled { platform_state = record zero_arm_state { videocore_use_count = 1 } }

counted-IsCounted : IsCounted counted
unfolding total
counted-IsCounted = record {
  adds_up = refl;
  word = omega arith;
  below = λ port svc e. omega (arith, (only-busy port svc e).0);
}

count_use-IsCounted_example : IsCounted (count_use counted use_type_service (some 5))
count_use-IsCounted_example =
    count_use-IsCounted counted use_type_service (some 5) counted-IsCounted (busy, refl)
      (omega arith)

release_internal-IsCounted_example : IsCounted (release_internal counted (some 5)).1
release_internal-IsCounted_example = release_internal-IsCounted counted (some 5) counted-IsCounted
