-- ===== src/Vchiq/Shim/Calls.antt =====
-- The calls of the VCHI layer that pass a service on to the core: `vchi_service_close`,
-- `vchi_service_destroy`, `vchi_service_use`, `vchi_service_release` and `vchi_get_peer_version`
-- (interface/vchiq_arm/vchiq_shim.c).
use dkms_rpi_codec.Base.{ℕ, Bool, Option, none, some, List, option_case}
use dkms_rpi_codec.Vchiq.State.{State, Status, success, error, retry}
use dkms_rpi_codec.Vchiq.Reserve.{Wait}
use dkms_rpi_codec.Vchiq.Transmit.{Sent, returns, waits_on}
use dkms_rpi_codec.Vchiq.Close.{Inputs}
use dkms_rpi_codec.Vchiq.Shutdown.{close_service, remove_service}
use dkms_rpi_codec.Vchiq.Wake.{use_service}
use dkms_rpi_codec.Vchiq.Power.{release_service}
use dkms_rpi_codec.Vchiq.Client.{get_peer_version}
use dkms_rpi_codec.Vchiq.Shim.{Shim}

-- How such a call ends: with -1 for no service, or with a status and what is left of the service; or it
-- still waits.
pub data Passed : Type 0 where
  no_service : Passed
  passed : Status → Option Shim → State → Passed
  waits_in : State → Passed

-- A service that was closed is freed.
abbrev pub freed_on_success : Shim → Sent → Passed
freed_on_success x (returns success s) = passed success none s
freed_on_success x (returns error s) = passed error (some (record x { link = s })) s
freed_on_success x (returns retry s) = passed retry (some (record x { link = s })) s
freed_on_success x (waits_on s) = waits_in s

abbrev pub kept : Shim → Sent → Passed
kept x (returns st s) = passed st (some (record x { link = s })) s
kept x (waits_on s) = waits_in s

-- `vchi_service_close`
unfoldable pub service_close : Option Shim → Bool → Inputs → List Wait → Passed
service_close none handler i waits = no_service
service_close (some x) handler i waits =
    freed_on_success x (close_service x.link x.handle handler i waits)

-- `vchi_service_destroy`
unfoldable pub service_destroy : Option Shim → Bool → Inputs → List Wait → Passed
service_destroy none handler i waits = no_service
service_destroy (some x) handler i waits =
    freed_on_success x (remove_service x.link x.handle handler i waits)

-- `vchi_service_use`
unfoldable pub service_use : Option Shim → List Wait → Bool → Passed
service_use none waits locked = no_service
service_use (some x) waits locked = kept x (use_service x.link x.handle waits locked)

-- `vchi_service_release`
unfoldable pub service_release : Option Shim → Passed
service_release none = no_service
service_release (some x) =
    let (st, s) = release_service x.link x.handle in passed st (some (record x { link = s })) s

-- `vchi_get_peer_version`: the version where the status is a success.
unfoldable pub peer_version : Option Shim → Option ℕ × Passed
peer_version none = (none, no_service)
peer_version (some x) =
    let (version, s) = get_peer_version x.link x.handle in
    (version, passed (option_case version error (λ v. success)) (some (record x { link = s })) s)
