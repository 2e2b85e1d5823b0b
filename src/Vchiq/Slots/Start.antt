-- ===== src/Vchiq/Slots/Start.antt =====
-- What the link's state holds after `vchiq_init_state`.
use dkms_rpi_codec.Base.{
  ℕ, zero, suc, ◌+◌, ◌-◌, ◌≤◌, ◌<◌, ◌≡◌, refl, ap, ◌∙◌, ◌⊎◌, inl, inr, Bool, true, false, ◌||◌,
  none, some, arith, Bool-cases, update, update_self, update_ne,
}
use dkms_rpi_codec.Vchiq.State.{State, success, error, Header, max_slots_per_side}
use dkms_rpi_codec.Vchiq.Slots.{SlotZero, fill_queue, start_state, init_state}

fill_queue-count :
    (left i available : ℕ) (q : ℕ → ℕ) → (fill_queue left i available q).1 ≡ available + left
unfolding fill_queue
fill_queue-count zero i available q = omega arith
fill_queue-count (suc left) i available q =
    omega (arith, fill_queue-count left (i + 1) (available + 1) (update q available i))

fill_queue_before :
    (left i available : ℕ) (q : ℕ → ℕ) (k : ℕ)
    → k < available
    → (fill_queue left i available q).0 k ≡ q k
unfolding fill_queue
fill_queue_before zero i available q k h = refl
fill_queue_before (suc left) i available q k h =
    fill_queue_before left (i + 1) (available + 1) (update q available i) k (omega arith)
    ∙ update_ne q available i k (omega arith)

fill_queue_within :
    (left i available : ℕ) (q : ℕ → ℕ) (k : ℕ)
    → k < left
    → (fill_queue left i available q).0 (available + k) ≡ i + k
unfolding fill_queue
fill_queue_within zero i available q k h = absurd (omega arith)
fill_queue_within (suc left) i available q zero h =
    ap (fill_queue left (i + 1) (available + 1) (update q available i)).0 (omega arith)
    ∙ fill_queue_before left (i + 1) (available + 1) (update q available i) available (omega arith)
    ∙ update_self q available i
    ∙ omega arith
fill_queue_within (suc left) i available q (suc k) h =
    ap (fill_queue left (i + 1) (available + 1) (update q available i)).0 (omega arith)
    ∙ fill_queue_within left (i + 1) (available + 1) (update q available i) k (omega arith)
    ∙ omega arith

-- The slave's data slots are all free at the start: they stand in the slot queue in order, each has
-- one signal of `slot_available_event`, the other side is told of all of them, and one of them is
-- kept from data messages.
pub record IsStart (z : SlotZero) (s : State) : Type 0 where
  pub all_available : s.slot_queue_available ≡ suc z.slave.slot_last - z.slave.slot_first
  pub all_signalled : s.slot_available_event ≡ s.slot_queue_available
  pub all_recycled : s.here.slot_queue_recycle ≡ s.slot_queue_available
  pub in_order : (k : ℕ) → k < s.slot_queue_available → s.here.slot_queue k ≡ z.slave.slot_first + k
  pub quota : suc s.data_quota ≡ s.slot_queue_available
  pub nothing_sent : (s.local_tx_pos ≡ 0) × (s.here.tx_pos ≡ 0) × (s.data_use_count ≡ 0)
  pub sync_free : s.here.sync_release.fired ≡ true

start_state-IsStart :
    (z : SlotZero) (memory : ℕ → ℕ → Header)
    → z.slave.slot_first ≤ z.slave.slot_last
    → suc z.slave.slot_last - z.slave.slot_first ≤ max_slots_per_side
    → IsStart z (start_state z memory)
unfolding start_state
start_state-IsStart z memory some_slot bound = record {
  all_available = count;
  all_signalled = refl;
  all_recycled = refl;
  in_order = λ k h. ap queue (omega arith) ∙ within k (omega (arith, count));
  quota = omega (arith, count);
  nothing_sent = (refl, refl, refl);
  sync_free = refl;
}
  where
    open z use {slave}

    left : ℕ
    left = suc slave.slot_last - slave.slot_first

    queue : ℕ → ℕ
    queue = (fill_queue left slave.slot_first 0 slave.slot_queue).0

    within : (k : ℕ) → k < left → queue (0 + k) ≡ slave.slot_first + k
    within = fill_queue_within left slave.slot_first 0 slave.slot_queue

    count : (fill_queue left slave.slot_first 0 slave.slot_queue).1 ≡ left
    count = omega (arith, fill_queue-count left slave.slot_first 0 slave.slot_queue)

-- Up to the setup of the platform and the start of its threads, `vchiq_init_state` fails exactly where
-- a state exists or the slave's half is in use; otherwise, over one to 64 data slots, it goes on with
-- such a start.
pub init_state_lem :
    (other : Bool) (z : SlotZero) (memory : ℕ → ℕ → Header)
    → z.slave.slot_first ≤ z.slave.slot_last
    → suc z.slave.slot_last - z.slave.slot_first ≤ max_slots_per_side
    → ((other || z.slave.initialised) ≡ true) × (init_state other z memory ≡ (error, none))
      ⊎ ((other || z.slave.initialised) ≡ false)
        × ((s : State) × (init_state other z memory ≡ (success, some s)) × IsStart z s)
unfolding init_state
init_state_lem true z memory some_slot bound = inl (refl, refl)
init_state_lem false z memory some_slot bound = elim (Bool-cases z.slave.initialised) [
  | inl used ↦ inl (used, rw used)
  | inr fresh ↦
      inr (fresh, (start_state z memory, rw fresh, start_state-IsStart z memory some_slot bound))
]
