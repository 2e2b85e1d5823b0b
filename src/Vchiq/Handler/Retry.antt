-- ===== src/Vchiq/Handler/Retry.antt =====
-- What becomes of a data message whose callback asks for a retry.
use dkms_rpi_codec.Base.{
  ℕ, ◌+◌, ◌^◌, ◌≤◌, ◌<◌, ◌≡◌, refl, ap, ◌∙◌, inl, inr, Bool, true, false, not, ◌&&◌, Option, some,
  arith, ◌==◌, if◌then◌else◌, ==_refl, Bool-cases, Option-cases, option_case, sub32, u16,
}
use dkms_rpi_codec.Vchiq.Message.{
  MsgType, other, msg_type, msg_srcport, msg_dstport, claim, type_of_code,
}
use dkms_rpi_codec.Vchiq.Message.Claim.{unclaim-claim}
use dkms_rpi_codec.Vchiq.State.{port_free, SlotInfo, State, Service, Header, retry, open_}
use dkms_rpi_codec.Vchiq.Bulk.{callback_status}
use dkms_rpi_codec.Vchiq.Service.{get_connected_service, find_service_by_port, unlock_service}
use dkms_rpi_codec.Vchiq.Reserve.{write_header}
use dkms_rpi_codec.Vchiq.Release.{claim_slot}
use dkms_rpi_codec.Vchiq.Close.{Inputs}
use dkms_rpi_codec.Vchiq.Receive.{
  receive_served, receive_control, needs_service, find_target, remoteport_at, receive_for,
  receive_other, receive_data,
}
use dkms_rpi_codec.Vchiq.Handler.{dispatch}

-- The number of a claimed message is above all that the receiver knows.
type_of_claimed : (c : ℕ) → 64 ≤ c → type_of_code c ≡ other
unfolding type_of_code
type_of_claimed c h = ground arith

not-needs_service : (c : ℕ) → 64 ≤ c → needs_service c ≡ false
not-needs_service c h = ground arith

dispatch_claimed :
    (s : State) (slot pos : ℕ) (h : Header) (version : ℕ) (i : Inputs)
    → 64 ≤ msg_type h.msgid
    → dispatch s slot pos h version i ≡ (true, s)
unfolding dispatch receive_other receive_control
dispatch_claimed s slot pos h version i high =
    rw (not-needs_service (msg_type h.msgid) high)
      (unknown (type_of_claimed (msg_type h.msgid) high))
  where
    unknown : type_of_code (msg_type h.msgid) ≡ other → receive_other s version h i ≡ (true, s)
    unknown e = ap (λ (m : MsgType). receive_control m s version h i) e

abbrev pub claimed_header : Header → Header
claimed_header h = record h { msgid = claim h.msgid }

abbrev memory : State → (ℕ → ℕ → Header) × (ℕ → SlotInfo)
memory s = (s.slots, s.slot_info)

memory-unlock_service : (s : State) (port : ℕ) → memory (unlock_service s port).0 ≡ memory s
unfolding unlock_service
memory-unlock_service s port = elim (Option-cases (s.services port)) [
  | inl e ↦ rw e refl
  | inr (svc, e) ↦ elim (Bool-cases (svc.ref_count == 0)) [
    | inl dead ↦ rw (e, dead) refl
    | inr live ↦ elim (Bool-cases (sub32 svc.ref_count 1 == 0)) [
      | inl last ↦ rw (e, live, last) refl
      | inr kept ↦ rw (e, live, kept) refl
    ]
  ]
]

shut : (a b : Bool) (x y : Option ℕ × State) → (if a && b && false then x else y) ≡ y
shut true true x y = refl
shut true false x y = refl
shut false b x y = refl

find_target_data :
    (s : State) (type localport remoteport : ℕ)
    → type ≡ 5
    → find_target s type localport remoteport ≡ find_service_by_port s localport
unfolding find_target
find_target_data s type localport remoteport data_type =
    rw data_type (finish (find_service_by_port s localport))
  where
    finish :
        (f : Option ℕ × State)
        → let other = option_case f.0 true λ port.
          not (remoteport_at f.1 port == remoteport) && not (remoteport_at f.1 port == port_free) in
          (if other && (localport == 0) && (5 == 4)
            then get_connected_service
                (option_case f.0 f.1 (λ port. (unlock_service f.1 port).0))
                remoteport
            else (f.0, f.1))
          ≡ f
    finish (found, u) = shut _ (localport == 0) _ (found, u)

-- A data message for an open service, found under a port, whose callback asks for a retry.
module _ (s s' : State) (slot pos port version : ℕ) (h : Header) (svc : Service) (i : Inputs)
    (data_type : msg_type h.msgid ≡ 5)
    (found : find_service_by_port s (msg_dstport h.msgid) ≡ (some port, s'))
    (entry : s'.services port ≡ some svc) (connected_to : svc.remoteport ≡ msg_srcport h.msgid)
    (is_open : svc.srvstate ≡ open_) (retries : i.answer ≡ retry) where
  claimed : State
  claimed = claim_slot (write_header s' (some slot) pos (claimed_header h)) slot

  receive_data-retry : receive_for s' port slot pos h i ≡ (false, claimed)
  unfolding receive_for receive_served receive_data claimed callback_status type_of_code
  receive_data-retry =
      ap (λ (c : ℕ). receive_served (type_of_code c) s' port slot pos h i) data_type ∙ taken
    where
      taken : receive_data s' port slot pos h i.answer ≡ (false, claimed)
      taken = rw (entry, connected_to, is_open, retries, ==_refl (msg_srcport h.msgid)) refl

  dispatch-retry : dispatch s slot pos h version i ≡ (false, (unlock_service claimed port).0)
  unfolding dispatch claimed
  dispatch-retry =
      ap then_receive
        (find_target_data s _ (msg_dstport h.msgid) (msg_srcport h.msgid) data_type ∙ found)
      ∙ rw (ap needs_service data_type)
          (ap (λ (r : Bool × State). (r.0, (unlock_service r.1 port).0)) receive_data-retry)
    where
      then_receive : Option ℕ × State → Bool × State
      then_receive f =
          if needs_service (msg_type h.msgid)
          then option_case f.0 (true, f.1)
              (λ p.
                let (done, s'') = receive_for f.1 p slot pos h i in
                (done, (unlock_service s'' p).0))
          else receive_other s version h i

  -- A data message for an open service whose callback asks for a retry is claimed in its slot, which
  -- counts one use more, and the handler stops there. When it reads the message again, whatever the
  -- state is then, it does not know the type of the claimed message and passes over it: the service
  -- is not told of it again, and the use is left.
  pub dispatch-retry_lem :
      h.msgid < 2 ^ 32
      → let (done, t) = dispatch s slot pos h version i in
        (done ≡ false)
        × (t.slots slot pos ≡ claimed_header h)
        × ((t.slot_info slot).use_count ≡ u16 ((s'.slot_info slot).use_count + 1))
        × ((u : State) (i' : Inputs)
            → dispatch u slot pos (claimed_header h) version i' ≡ (true, u))
  unfolding claimed claim_slot
  dispatch-retry_lem word = rw dispatch-retry (
    refl,
    ap (λ (m : (ℕ → ℕ → Header) × (ℕ → SlotInfo)). m.0 slot pos)
          (memory-unlock_service claimed port)
        ∙ rw (==_refl slot, ==_refl pos) refl,
    ap (λ (m : (ℕ → ℕ → Header) × (ℕ → SlotInfo)). (m.1 slot).use_count)
          (memory-unlock_service claimed port)
        ∙ rw (==_refl slot) refl,
    λ u i'.
        dispatch_claimed u slot pos (claimed_header h) version i' (unclaim-claim h.msgid word).3,
  )
