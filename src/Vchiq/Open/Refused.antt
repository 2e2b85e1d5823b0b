-- ===== src/Vchiq/Open/Refused.antt =====
-- An OPEN that is read again after a retry, for a service that is in no state to be found for it.
use dkms_rpi_codec.Base.{
  ℕ, zero, suc, ◌+◌, ◌^◌, ◌<◌, ◌≡◌, refl, sym, ap, ◌∙◌, subst, ◌≢◌, inl, inr, Bool, true, false,
  not, ◌&&◌, Option, none, some, some-injective, [], ltb, ◌==◌, if◌then◌else◌, ==_iff, Bool-cases,
  option_case,
}
use dkms_rpi_codec.Vchiq.State.{
  State, Status, retry, Service, Header, listening, open_, in_state, port_free,
}
use dkms_rpi_codec.Vchiq.Message.{make_msg, msg_srcport}
use dkms_rpi_codec.Vchiq.Service.{accepts_open, scan, get_listening_service, take_ref}
use dkms_rpi_codec.Vchiq.Service.Table.{IsTable}
use dkms_rpi_codec.Vchiq.Transmit.{queue_message}
use dkms_rpi_codec.Vchiq.Bulk.{is_retry}
use dkms_rpi_codec.Vchiq.Transfer.{memcpy_copy_callback}
use dkms_rpi_codec.Vchiq.Open.{
  answered, no_flags, after_ack, open_payload, refuse_open, accept_open, parse_open,
}
use dkms_rpi_codec.Vchiq.Open.Answer.{left, after_ack_lem, after_ack-others}

-- A lookup finds nothing where nothing passes its test.
scan-none :
    (test : Service → Bool) (services : ℕ → Option Service) (n i : ℕ)
    → ((j : ℕ) (o : Service) → services j ≡ some o → test o ≡ false)
    → scan test services n i ≡ none
unfolding scan
scan-none test services zero i h = refl
scan-none test services (suc n) i h = passed (services i) refl ∙ scan-none test services n (i + 1) h
  where
    rest : Option (ℕ × Service)
    rest = scan test services n (i + 1)

    passed :
        (o : Option Service)
        → services i ≡ o
        → option_case o rest (λ svc. if test svc then some (i, svc) else rest) ≡ rest
    passed none e = refl
    passed (some svc) e = ap (λ (b : Bool). if b then some (i, svc) else rest) (h i svc e)

get_listening_service-none :
    (s : State) (fourcc : ℕ)
    → ((j : ℕ) (o : Service) → s.services j ≡ some o → accepts_open fourcc o ≡ false)
    → get_listening_service s fourcc ≡ (none, s)
unfolding get_listening_service
get_listening_service-none s fourcc quiet =
    ap (λ o. option_case o (none, s) (λ f. (some f.0, take_ref s f.0 f.1)))
      (scan-none (accepts_open fourcc) s.services s.unused_service 0 quiet)

if_same {ℓ} : {A : Type ℓ} (b : Bool) (x : A) → (if b then x else x) ≡ x
if_same true x = refl
if_same false x = refl

-- With no service that accepts it, an OPEN is answered by a CLOSE.
parse_open-refuses :
    (s : State) (h : Header) (locked : Bool) (answer : Status)
    → ((j : ℕ) (o : Service)
        → s.services j ≡ some o
        → accepts_open (open_payload h.bytes).fourcc o ≡ false)
    → parse_open s h locked answer ≡ refuse_open s (msg_srcport h.msgid) locked
unfolding parse_open
parse_open-refuses s h locked answer quiet =
    ap (λ (r : Option ℕ × State). if ltb h.size 12 then refused else looked_up r)
      (get_listening_service-none s (open_payload h.bytes).fourcc quiet)
    ∙ if_same (ltb h.size 12) refused
  where
    refused : Bool × State
    refused = refuse_open s (msg_srcport h.msgid) locked

    looked_up : Option ℕ × State → Bool × State
    looked_up (found, s') = option_case found refused λ port.
        option_case (s'.services port) refused (λ svc.
          accept_open s' port svc (open_payload h.bytes) (msg_srcport h.msgid) locked answer)

and_false : (b : Bool) → (b && false) ≡ false
and_false true = refl
and_false false = refl

-- An OPEN whose callback asked for a retry, on a service that is neither LISTENING nor OPEN, such as
-- one that is open for synchronous messages, is not dealt with; and when the message is read again and no
-- other service accepts its name, it is answered by a CLOSE (message type 4) without a payload to the port
-- that asked, and is dealt with unless that message cannot be sent.
pub reparsed_open_refused :
    (s : State) (port : ℕ) (svc : Service) (remoteport client_id : ℕ) (h : Header) (locked : Bool)
    (answer : Status)
    → IsTable s
    → s.services port ≡ some svc
    → 1 < svc.ref_count
    → svc.ref_count < 2 ^ 32
    → in_state svc.srvstate listening ≡ false
    → in_state svc.srvstate open_ ≡ false
    → ((i : ℕ) (o : Service)
        → port ≢ i
        → s.services i ≡ some o
        → accepts_open (open_payload h.bytes).fourcc o ≡ false)
    → let (dealt, s') = after_ack s port remoteport client_id retry in
      (dealt ≡ false)
      × (let (st, s'') = answered (
            queue_message s' none
              (make_msg 4 0 (msg_srcport h.msgid))
              (memcpy_copy_callback [])
              0
              no_flags
              locked
              []) in
          parse_open s' h locked answer ≡ (not (is_retry st), s''))
unfolding refuse_open
reparsed_open_refused s port svc remoteport client_id h locked answer t e more word quiet not_open
      others =
    let (undealt, kept, _) = after_ack_lem s port svc remoteport client_id retry t e more word in
    (undealt, parse_open-refuses _ h locked answer (none_accepts kept))
  where
    unaccepted : accepts_open (open_payload h.bytes).fourcc (left svc port_free client_id) ≡ false
    unaccepted =
        rw (quiet, not_open) (and_false (svc.public_fourcc == (open_payload h.bytes).fourcc))

    none_accepts :
        (after_ack s port remoteport client_id retry).1.services port
          ≡ some (left svc port_free client_id)
        → (j : ℕ) (o : Service)
        → (after_ack s port remoteport client_id retry).1.services j ≡ some o
        → accepts_open (open_payload h.bytes).fourcc o ≡ false
    none_accepts kept j o found = elim (Bool-cases (port == j)) [
      | inl same ↦
          let at : port ≡ j = (==_iff port j).0 same in
          let is : left svc port_free client_id ≡ o =
            some-injective _ _
              (sym kept ∙ ap (after_ack s port remoteport client_id retry).1.services at ∙ found) in
          subst (λ o'. accepts_open (open_payload h.bytes).fourcc o' ≡ false) is unaccepted
      | inr other ↦
          let ne : port ≢ j = λ same. cc (sym other ∙ (==_iff port j).1 same) in
          others j o ne
            (sym (after_ack-others s port svc remoteport client_id j t e more word ne) ∙ found)
    ]
