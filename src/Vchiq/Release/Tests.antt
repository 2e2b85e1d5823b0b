-- ===== src/Vchiq/Release/Tests.antt =====
-- A slot with two uses, one of them a message that is claimed.
use dkms_rpi_codec.Base.{◌≡◌, some, [], arith}
use dkms_rpi_codec.Vchiq.State.{State}
use dkms_rpi_codec.Vchiq.Service.Tests.{peopled}
use dkms_rpi_codec.Vchiq.Release.{release_slot}
use dkms_rpi_codec.Vchiq.Release.Once.{release_slot_twice, releases, releases_lem, IsGivenBack}

abbrev reading : State
reading = record peopled {
  slots = λ slot pos. record { msgid = 0x4500_9005; size = 12; bytes = [] };
  slot_info = λ slot. record { use_count = 3; release_count = 1 };
}

release_slot_twice_example :
    let s' = release_slot reading 3 (some 64) (some 5) in release_slot s' 3 (some 64) (some 5) ≡ s'
release_slot_twice_example = release_slot_twice reading 3 64 (some 5) (omega arith)

releases_lem_example :
    ((releases 1 reading 3).remote ≡ reading.remote) × IsGivenBack reading (releases 2 reading 3) 3
releases_lem_example = releases_lem 1 reading 3 (omega arith)
