-- ===== src/Vchiq/Slots/Tests.antt =====
-- A shared memory of 64 KiB.
use dkms_rpi_codec.Base.{ℕ, ◌≡◌, refl, some, [], arith}
use dkms_rpi_codec.Vchiq.State.{State, Header}
use dkms_rpi_codec.Vchiq.Slots.{SlotZero, slot_zero, mem_align, init_slots, start_state}
use dkms_rpi_codec.Vchiq.Slots.Partition.{IsPartition, init_slots-IsPartition}

-- What is in the memory before.
abbrev pub blank : ℕ → ℕ → Header
blank i pos = record { msgid = 0; size = 0; bytes = [] }

abbrev pub zero_block : SlotZero
zero_block = slot_zero 15

abbrev pub started : State
started = start_state zero_block blank

sixteen_slots : init_slots 0x8000_1000 0x1_0000 ≡ some zero_block
unfolding init_slots slot_zero mem_align
sixteen_slots = refl

init_slots-IsPartition_example : IsPartition 0x8000_1000 0x1_0000 zero_block
init_slots-IsPartition_example =
    init_slots-IsPartition 0x8000_1000 0x1_0000 zero_block (omega arith) sixteen_slots
