-- ===== src/Vchiq/Client/Messages.antt =====
-- Which messages `vchiq_queue_message` sends.
use dkms_rpi_codec.Base.{
  ℕ, ◌≤◌, ◌<◌, ◌≡◌, refl, sym, ap, ◌∙◌, ◌⊎◌, inl, inr, Bool, true, false, Option, List, arith, ltb,
  ◌==◌, Bool-cases, option_case, update_self, add32,
}
use dkms_rpi_codec.Vchiq.Message.{max_msg_size}
use dkms_rpi_codec.Vchiq.State.{State, success, error, retry, Service, open_, opensync, in_state}
use dkms_rpi_codec.Vchiq.Service.{take_ref, with_ref}
use dkms_rpi_codec.Vchiq.Service.Table.{IsTable, HasHandle, find_service_by_handle_lem}
use dkms_rpi_codec.Vchiq.Copy.{Chunk}
use dkms_rpi_codec.Vchiq.Reserve.{Wait}
use dkms_rpi_codec.Vchiq.Transmit.{Sent, returns, waits_on}
use dkms_rpi_codec.Vchiq.Client.{check_service, send_data, dropping, queue_data}

-- What a call needs for its message to be sent.
pub record MaySend (svc : Service) (size : ℕ) : Type 0 where
  pub used : (svc.service_use_count == 0) ≡ false
  pub some_data : 0 < size
  pub fits : size ≤ max_msg_size
  pub opened : (in_state svc.srvstate open_ ≡ true) ⊎ (in_state svc.srvstate opensync ≡ true)

is_success : Sent → Bool
is_success (returns success s) = true
is_success t = false

send_data-MaySend :
    (callback : ℕ → ℕ → Chunk) (size : ℕ) (locked : Bool) (waits : List Wait) (port : ℕ)
    (svc : Service) (s : State)
    → is_success (send_data callback size locked waits port svc s) ≡ true
    → MaySend svc size
unfolding send_data check_service is_success
send_data-MaySend callback size locked waits port svc s e =
    elim (Bool-cases (svc.service_use_count == 0)) [
      | inl unused ↦ absurd (cc (rw (unused, is_success) at e))
      | inr used ↦ elim (Bool-cases (size == 0)) [
        | inl empty ↦ absurd (cc (rw (used, empty, is_success) at e))
        | inr full ↦ elim (Bool-cases (ltb max_msg_size size)) [
          | inl long ↦ absurd (cc (rw (used, full, long, is_success) at e))
          | inr short ↦ elim (Bool-cases (in_state svc.srvstate open_)) [
            | inl is_open ↦ record {
              used = used;
              some_data = ground arith;
              fits = ground arith;
              opened = inl is_open;
            }
            | inr not_open ↦ elim (Bool-cases (in_state svc.srvstate opensync)) [
              | inl sync ↦ record {
                used = used;
                some_data = ground arith;
                fits = ground arith;
                opened = inr sync;
              }
              | inr closed ↦ absurd (cc (rw (used, full, short, not_open, closed, is_success) at e))
            ]
          ]
        ]
      ]
    ]

dropping-success : (port : ℕ) (t : Sent) → is_success (dropping port t) ≡ is_success t
unfolding is_success
dropping-success port (returns success s) = refl
dropping-success port (returns error s) = refl
dropping-success port (returns retry s) = refl
dropping-success port (waits_on s) = refl

-- A message that is sent has from one byte to as many as fit in a slot, and goes to the live service
-- that has the handle, which is in use and open, for messages of either kind.
pub queue_data_lem :
    (s s' : State) (handle size : ℕ) (callback : ℕ → ℕ → Chunk) (locked : Bool) (waits : List Wait)
    → IsTable s
    → queue_data s handle callback size locked waits ≡ returns success s'
    → (port : ℕ) × (svc : Service) × HasHandle s handle port svc × MaySend svc size
unfolding queue_data is_success
queue_data_lem s s' handle size callback locked waits t e =
    elim (find_service_by_handle_lem s handle t) [
      | inr (absent, none_found) ↦ absurd (cc (ap is_success (sym (ap finish none_found) ∙ e)))
      | inl (port, svc, h, found) ↦ (
        port,
        svc,
        h,
        moved (
            send_data-MaySend callback size locked waits port (with_ref svc (add32 svc.ref_count 1))
              (take_ref s port svc)
              (sym (dropping-success port _)
                ∙ ap is_success (
                    sym (ap finish found ∙ ap (at_entry port svc) (update_self s.services port _))
                    ∙ e))),
      )
    ]
  where
    at_entry : ℕ → Service → Option Service → Sent
    at_entry port svc entry =
        option_case entry (returns error (take_ref s port svc))
          (λ v. dropping port (send_data callback size locked waits port v (take_ref s port svc)))

    finish : Option ℕ × State → Sent
    finish f = option_case f.0 (returns error f.1) λ p.
        option_case (f.1.services p) (returns error f.1)
          λ v. dropping p (send_data callback size locked waits p v f.1)

    moved : {svc : Service} {n : ℕ} → MaySend (with_ref svc n) size → MaySend svc size
    moved m = record { used = m.used; some_data = m.some_data; fits = m.fits; opened = m.opened }
