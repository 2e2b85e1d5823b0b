-- ===== src/Vchiq/FreeQueue/Drain.antt =====
-- What a call of `process_free_queue` leaves.
use dkms_rpi_codec.Base.{
  ℕ, zero, suc, ◌+◌, ◌-◌, ◌%◌, ◌^◌, ◌≤◌, ◌<◌, ◌≡◌, refl, ◌∙◌, Bool, true, false, arith,
  if◌then◌else◌, sub32,
}
use dkms_rpi_codec.Vchiq.State.{State, Quota}
use dkms_rpi_codec.Vchiq.FreeQueue.{free_slot, free_slots, process_free_queue}
use dkms_rpi_codec.Vchiq.FreeQueue.Counts.{IsReturned, free_slot-IsReturned}

-- No more is in use than before, of the same quota.
pub record IsLowered (q q' : Quota) : Type 0 where
  pub messages : q'.message_use_count ≤ q.message_use_count
  pub slots : q'.slot_use_count ≤ q.slot_use_count
  pub limits : (q'.message_quota ≡ q.message_quota) × (q'.slot_quota ≡ q.slot_quota)
  pub last_slot : q'.previous_tx_index ≡ q.previous_tx_index

-- The state once `n` slots were taken from the queue.
pub record IsDrained (n : ℕ) (s s' : State) : Type 0 where
  pub available : s'.slot_queue_available ≡ (s.slot_queue_available + n) % 2 ^ 32
  pub signalled : s'.slot_available_event ≡ s.slot_available_event + n
  pub same_shared : s'.here ≡ s.here
  pub same_memory : s'.slots ≡ s.slots
  pub same_position : s'.local_tx_pos ≡ s.local_tx_pos
  pub data_use : s'.data_use_count ≤ s.data_use_count
  pub lowered : (port : ℕ) → IsLowered (s.service_quotas port) (s'.service_quotas port)

IsLowered-refl : (q : Quota) → IsLowered q q
IsLowered-refl q = record {
  messages = omega arith;
  slots = omega arith;
  limits = (refl, refl);
  last_slot = refl;
}

IsLowered-trans : (a b c : Quota) → IsLowered a b → IsLowered b c → IsLowered a c
IsLowered-trans a b c h k = record {
  messages = omega (arith, h.messages, k.messages);
  slots = omega (arith, h.slots, k.slots);
  limits = (k.limits.0 ∙ h.limits.0, k.limits.1 ∙ h.limits.1);
  last_slot = k.last_slot ∙ h.last_slot;
}

IsReturned-IsLowered :
    (q q' : Quota) (seen : Bool) (n : ℕ) → IsReturned q q' seen n → IsLowered q q'
IsReturned-IsLowered q q' seen n r = record {
  messages = omega (arith, r.fewer);
  slots = ground (arith, r.slots);
  limits = r.limits;
  last_slot = r.last_slot;
}

one_less : (b : Bool) (n : ℕ) → (if b then n - 1 else n) ≤ n
one_less true n = omega arith
one_less false n = omega arith

free_slot-IsDrained : (s : State) → IsDrained 1 s (free_slot s)
unfolding free_slot
free_slot-IsDrained s = record {
  available = omega arith;
  signalled = omega arith;
  same_shared = refl;
  same_memory = refl;
  same_position = refl;
  data_use = one_less _ s.data_use_count;
  lowered = λ port. IsReturned-IsLowered _ _ false _ (free_slot-IsReturned s port);
}

IsDrained-step : (n : ℕ) (s t u : State) → IsDrained 1 s t → IsDrained n t u → IsDrained (suc n) s u
IsDrained-step n s t u first rest = record {
  available = omega (arith, first.available, rest.available);
  signalled = omega (arith, first.signalled, rest.signalled);
  same_shared = rest.same_shared ∙ first.same_shared;
  same_memory = rest.same_memory ∙ first.same_memory;
  same_position = rest.same_position ∙ first.same_position;
  data_use = omega (arith, first.data_use, rest.data_use);
  lowered = λ port. IsLowered-trans _ _ _ (first.lowered port) (rest.lowered port);
}

free_slots-IsDrained :
    (n : ℕ) (s : State) → s.slot_queue_available < 2 ^ 32 → IsDrained n s (free_slots n s)
unfolding free_slots
free_slots-IsDrained zero s h = record {
  available = omega arith;
  signalled = omega arith;
  same_shared = refl;
  same_memory = refl;
  same_position = refl;
  data_use = omega arith;
  lowered = λ port. IsLowered-refl (s.service_quotas port);
}
free_slots-IsDrained (suc n) s h =
    IsDrained-step n s (free_slot s) (free_slots n (free_slot s)) (free_slot-IsDrained s)
      (free_slots-IsDrained n (free_slot s) (omega (arith, (free_slot-IsDrained s).available)))

-- A call takes every slot that the other side had given back, signals once for each, and leaves the
-- memory, what is shared and the stream position as they are; no service and no count of slots with
-- data uses more than before.
pub process_free_queue_lem :
    (s : State)
    → s.slot_queue_available < 2 ^ 32
    → s.here.slot_queue_recycle < 2 ^ 32
    → IsDrained (sub32 s.here.slot_queue_recycle s.slot_queue_available) s (process_free_queue s)
      × ((process_free_queue s).slot_queue_available ≡ s.here.slot_queue_recycle)
unfolding process_free_queue
process_free_queue_lem s h k = (d, omega (arith, d.available))
  where
    d : IsDrained (sub32 s.here.slot_queue_recycle s.slot_queue_available) s (process_free_queue s)
    d = free_slots-IsDrained (sub32 s.here.slot_queue_recycle s.slot_queue_available) s h
