-- ===== src/Vchiq/FreeQueue/Counts.antt =====
-- What a freed slot gives back to each service.
use dkms_rpi_codec.Base.{
  ℕ, suc, ◌-◌, ◌≡◌, refl, sym, ap, ◌∙◌, subst, inl, inr, Bool, true, false, ◌&&◌, ◌||◌, List, [],
  ◌∷◌, arith, ◌==◌, if◌then◌else◌, Bool-cases, update, update_self, update_ne,
}
use dkms_rpi_codec.Vchiq.Message.{msg_type, msg_srcport}
use dkms_rpi_codec.Vchiq.State.{Quota}
use dkms_rpi_codec.Vchiq.FreeQueue.{
  next_free, free_steps, State, free_slot, Freed, return_message, return_slot, return_quota,
  free_message,
}
use dkms_rpi_codec.Vchiq.FreeQueue.Walk.{free_walk-eq-free_all, messages, free_all}

abbrev pub is_data_of : ℕ → ℕ → Bool
is_data_of port msgid = (msg_type msgid == 5) && (msg_srcport msgid == port)

-- How many data messages a service has in a list.
pub count_data : ℕ → List ℕ → ℕ
count_data port [] = 0
count_data port (m ∷ ms) =
    if is_data_of port m then suc (count_data port ms) else count_data port ms

-- A quota to which `n` messages of a slot were given back, and the slot itself unless it already was.
pub record IsReturned (q q' : Quota) (seen : Bool) (n : ℕ) : Type 0 where
  pub fewer : q'.message_use_count ≡ q.message_use_count - n
  pub slots :
      q'.slot_use_count ≡ (if seen || (n == 0) then q.slot_use_count else q.slot_use_count - 1)
  pub limits : (q'.message_quota ≡ q.message_quota) × (q'.slot_quota ≡ q.slot_quota)
  pub last_slot : q'.previous_tx_index ≡ q.previous_tx_index

return_quota-IsReturned :
    (q q' : Quota) (seen : Bool) (n : ℕ)
    → IsReturned (return_quota seen q) q' true n
    → IsReturned q q' seen (suc n)
unfolding return_quota return_message return_slot
return_quota-IsReturned q q' true n r = record {
  fewer = omega (arith, r.fewer);
  slots = r.slots;
  limits = r.limits;
  last_slot = r.last_slot;
}
return_quota-IsReturned q q' false n r = record {
  fewer = omega (arith, r.fewer);
  slots = ground (arith, r.slots);
  limits = r.limits;
  last_slot = r.last_slot;
}

-- A data message of a service gives back to it, and any other leaves its quota alone.
free_message_own :
    (w : Freed) (m port : ℕ)
    → is_data_of port m ≡ true
    → ((free_message w m).found port ≡ true)
      × ((free_message w m).quotas port ≡ return_quota (w.found port) (w.quotas port))
unfolding free_message
free_message_own w m port own = rw data_msg (
  ap (update w.found (msg_srcport m) true) (sym at) ∙ update_self w.found (msg_srcport m) true,
  ap (update w.quotas (msg_srcport m) (given (msg_srcport m))) (sym at)
      ∙ update_self w.quotas (msg_srcport m) (given (msg_srcport m))
      ∙ ap given at,
)
  where
    data_msg : (msg_type m == 5) ≡ true
    data_msg = ground arith

    at : msg_srcport m ≡ port
    at = ground arith

    given : ℕ → Quota
    given p = return_quota (w.found p) (w.quotas p)

free_message_other :
    (w : Freed) (m port : ℕ)
    → is_data_of port m ≡ false
    → ((free_message w m).found port ≡ w.found port)
      × ((free_message w m).quotas port ≡ w.quotas port)
unfolding free_message
free_message_other w m port other = elim (Bool-cases (msg_type m == 5)) [
  | inr control ↦ rw control (refl, refl)
  | inl data_msg ↦ rw data_msg (
    update_ne w.found (msg_srcport m) true port (ground arith),
    update_ne w.quotas (msg_srcport m) _ port (ground arith),
  )
]

free_all-IsReturned :
    (ms : List ℕ) (w : Freed) (port : ℕ)
    → IsReturned (w.quotas port) ((free_all w ms).quotas port) (w.found port) (count_data port ms)
unfolding free_all count_data
free_all-IsReturned [] w port = record {
  fewer = omega arith;
  slots = kept (w.found port);
  limits = (refl, refl);
  last_slot = refl;
}
  where
    kept :
        (seen : Bool)
        → (w.quotas port).slot_use_count ≡ (
            if seen || (0 == 0)
            then (w.quotas port).slot_use_count
            else (w.quotas port).slot_use_count - 1)
    kept true = refl
    kept false = refl
free_all-IsReturned (m ∷ ms) w port = elim (Bool-cases (is_data_of port m)) [
  | inl own ↦ rw own (
      return_quota-IsReturned (w.quotas port) _ (w.found port) (count_data port ms)
        (moved (free_message_own w m port own) (free_all-IsReturned ms (free_message w m) port)))
  | inr other ↦
      rw other
        (moved (free_message_other w m port other) (free_all-IsReturned ms (free_message w m) port))
]
  where
    moved :
        {seen : Bool} {q q' : Quota}
        → ((free_message w m).found port ≡ seen) × ((free_message w m).quotas port ≡ q)
        → IsReturned
            ((free_message w m).quotas port)
            q'
            ((free_message w m).found port)
            (count_data port ms)
        → IsReturned q q' seen (count_data port ms)
    moved {seen} {q} {q'} same r =
        subst (λ b. IsReturned q q' b (count_data port ms)) same.0
          (subst (λ p. IsReturned p q' ((free_message w m).found port) (count_data port ms)) same.1
            r)

-- A slot that the other side has given back returns, to each service, as many messages of its quota
-- as it has data messages in that slot, down to none, and one slot of its quota if it has any there;
-- the limits and the last slot of the service stay.
pub free_slot-IsReturned :
    (s : State) (port : ℕ)
    → IsReturned
        (s.service_quotas port)
        ((free_slot s).service_quotas port)
        false
        (count_data port (messages free_steps (s.slots (next_free s)) 0))
unfolding free_slot
free_slot-IsReturned s port =
    subst
      (λ (w : Freed).
        IsReturned (s.service_quotas port) (w.quotas port) false
          (count_data port (messages free_steps (s.slots (next_free s)) 0)))
      (sym (free_walk-eq-free_all free_steps (s.slots (next_free s)) 0 start))
      (free_all-IsReturned (messages free_steps (s.slots (next_free s)) 0) start port)
  where
    start : Freed
    start = record { found = λ p. false; data_found = false; quotas = s.service_quotas }
