-- ===== src/Vchiq/Slots/Partition.antt =====
-- The cut of the shared memory into slots.
use dkms_rpi_codec.Base.{
  ℕ, suc, ◌+◌, ◌-◌, ◌*◌, ◌%◌, ◌^◌, ◌≤◌, ◌<◌, ◌≡◌, ◌∙◌, ◌↔◌, none, some, arith, bit_and_mask, sub32,
}
use dkms_rpi_codec.Vchiq.Message.{slot_size}
use dkms_rpi_codec.Vchiq.State.{max_slots, max_slots_per_side}
use dkms_rpi_codec.Vchiq.Slots.{SlotZero, slot_zero_slots, mem_align, init_slots}

pub mem_align-eq-mod :
    (mem_base : ℕ) → mem_base < 2 ^ 32 → mem_align mem_base ≡ (2 ^ 32 - mem_base) % 4096
unfolding mem_align
mem_align-eq-mod mem_base h = bit_and_mask 12 (sub32 slot_size mem_base) ∙ omega arith

-- The slots after slot zero belong, in order and with nothing between, to the master's synchronous
-- messages, the master's data, the slave's synchronous messages and the slave's data; the first
-- slot is aligned, and the last ends in the memory with less than a slot to spare.
pub record IsPartition (mem_base mem_size : ℕ) (z : SlotZero) : Type 0 where
  pub aligned : (mem_base + mem_align mem_base) % slot_size ≡ 0
  pub master_sync : z.master.slot_sync ≡ slot_zero_slots
  pub master_first : z.master.slot_first ≡ suc z.master.slot_sync
  pub master_some : z.master.slot_first ≤ z.master.slot_last
  pub slave_sync : z.slave.slot_sync ≡ suc z.master.slot_last
  pub slave_first : z.slave.slot_first ≡ suc z.slave.slot_sync
  pub slave_some : z.slave.slot_first ≤ z.slave.slot_last
  pub fits : mem_align mem_base + suc z.slave.slot_last * slot_size ≤ mem_size
  pub fills : mem_size < mem_align mem_base + suc (suc z.slave.slot_last) * slot_size

-- Whatever memory `vchiq_init_slots` accepts is cut into slots without overlap or gap: those of the
-- header, then one for synchronous messages and at least one for data of the master, then the same of
-- the slave, aligned and up to the last whole slot that fits.
pub init_slots-IsPartition :
    (mem_base mem_size : ℕ) (z : SlotZero)
    → mem_base < 2 ^ 32
    → init_slots mem_base mem_size ≡ some z
    → IsPartition mem_base mem_size z
unfolding init_slots
init_slots-IsPartition mem_base mem_size z h e = ground (arith, mem_align-eq-mod mem_base h)

-- It refuses exactly the sizes that leave fewer than four slots after alignment and slot zero.
pub init_slots-none :
    (mem_base mem_size : ℕ)
    → (init_slots mem_base mem_size ≡ none)
      ↔ (mem_size < mem_align mem_base + (slot_zero_slots + 4) * slot_size)
unfolding init_slots
init_slots-none mem_base mem_size = (λ e. ground arith, λ h. ground arith)

-- A memory of at most 128 slots gives every slot an index below VCHIQ_MAX_SLOTS and neither side
-- more data slots than its slot queue holds.
pub init_slots_bounds :
    (mem_base mem_size : ℕ) (z : SlotZero)
    → mem_size < (max_slots + 1) * slot_size
    → init_slots mem_base mem_size ≡ some z
    → (z.slave.slot_last < max_slots)
      × (suc z.master.slot_last - z.master.slot_first ≤ max_slots_per_side)
      × (suc z.slave.slot_last - z.slave.slot_first ≤ max_slots_per_side)
unfolding init_slots
init_slots_bounds mem_base mem_size z h e = ground arith
