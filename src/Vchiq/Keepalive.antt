-- ===== src/Vchiq/Keepalive.antt =====
-- The uses and releases of the VideoCore, which a thread makes through a service of its own:
-- `vchiq_keepalive_thread_func` once its service is there (interface/vchiq_arm/vchiq_arm.c).
use dkms_rpi_codec.Base.{ℕ, zero, suc, Bool, List, add32}
use dkms_rpi_codec.Vchiq.State.{State}
use dkms_rpi_codec.Vchiq.Power.{with_arm, release_service}
use dkms_rpi_codec.Vchiq.Wake.{use_service}
use dkms_rpi_codec.Vchiq.Reserve.{Wait}
use dkms_rpi_codec.Vchiq.Transmit.{returns, waits_on}

-- What the waits and the lock do in the use before which so many are left to be made.
abbrev pub UseInputs : Type 0
UseInputs = ℕ → List Wait × Bool

-- How a round ends: with the state, or still in a wait.
pub data KeptAlive : Type 0 where
  round_done : State → KeptAlive
  round_waits : State → KeptAlive

-- A use that fails is only logged.
unfoldable pub make_uses : ℕ → State → ℕ → UseInputs → KeptAlive
make_uses zero s handle inputs = round_done s
make_uses (suc left) s handle inputs =
    let a = s.platform_state in
    let s' = with_arm s (record a { ka_use_ack_count = add32 a.ka_use_ack_count 1 }) in
    let next = λ (s'' : State). make_uses left s'' handle inputs in
    elim (use_service s' handle (inputs left).0 (inputs left).1) [
      | returns st s'' ↦ next s''
      | waits_on s'' ↦ round_waits s''
    ]

unfoldable pub make_releases : ℕ → State → ℕ → State
make_releases zero s handle = s
make_releases (suc left) s handle = make_releases left (release_service s handle).1 handle

-- A round after the event: both counters are read and cleared, and the uses come first.
unfoldable pub keepalive_round : State → ℕ → UseInputs → KeptAlive
unfolding make_uses make_releases
keepalive_round s handle inputs =
    let a = s.platform_state in
    let cleared = with_arm s (record a { ka_release_count = 0; ka_use_count = 0 }) in
    elim (make_uses a.ka_use_count cleared handle inputs) [
      | round_done s' ↦ round_done (make_releases a.ka_release_count s' handle)
      | round_waits s' ↦ round_waits s'
    ]
