-- ===== src/Vchiq/Open/Tests.antt =====
-- A service that is open for synchronous messages and whose client cannot take the connection yet.
use dkms_rpi_codec.Base.{
  ℕ, ◌≡◌, refl, subst, ◌≢◌, inl, inr, true, false, not, none, some, some-injective, [], ◌∷◌, arith,
  ◌==◌, ==_iff, Bool-cases, update,
}
use dkms_rpi_codec.Vchiq.State.{State, Service, Header, opensync, retry, success}
use dkms_rpi_codec.Vchiq.Bulk.Tests.{busy}
use dkms_rpi_codec.Vchiq.Service.Tests.{peopled}
use dkms_rpi_codec.Vchiq.Service.Table.{IsTable, IsEntry}
use dkms_rpi_codec.Vchiq.Open.{
  after_ack, short_lt, int_at, open_payload, parse_open, answered, no_flags,
}
use dkms_rpi_codec.Vchiq.Transmit.{queue_message}
use dkms_rpi_codec.Vchiq.Bulk.{is_retry}
use dkms_rpi_codec.Vchiq.Transfer.{memcpy_copy_callback}
use dkms_rpi_codec.Vchiq.Open.Refused.{reparsed_open_refused}
use dkms_rpi_codec.Vchiq.Message.{make_msg, msg_srcport}
use dkms_rpi_codec.Vchiq.Service.{accepts_open}
use dkms_rpi_codec.Vchiq.Open.Answer.{AfterAck, after_ack_lem}

abbrev opening_service : Service
opening_service = record busy { ref_count = 2; srvstate = opensync; public_fourcc = 7 }

abbrev asked : State
asked = record peopled { services = update (λ i. none) 5 (some opening_service) }

only_one :
    (port : ℕ) (svc : Service)
    → asked.services port ≡ some svc
    → (5 ≡ port) × (opening_service ≡ svc)
only_one port svc e = elim (Bool-cases (5 == port)) [
  | inl same ↦ ((==_iff 5 port).0 same, some-injective _ _ (rw same at e))
  | inr other ↦ absurd (cc (rw other at e))
]

asked-IsTable : IsTable asked
asked-IsTable = record {
  entries = λ port svc e.
      let (at, is) = only_one port svc e in
      subst (λ o. IsEntry asked port o) is (at, omega (arith, at), omega arith, omega (arith, at));
  bounded = omega arith;
  seq_aligned = refl;
  seq_word = omega arith;
}

after_ack_lem_example : AfterAck asked 5 opening_service 9 3 retry (after_ack asked 5 9 3 retry)
after_ack_lem_example =
    after_ack_lem asked 5 opening_service 9 3 retry asked-IsTable refl (omega arith) (omega arith)

-- The OPEN of fourcc 7 that it was asked with.
abbrev open_again : Header
open_again = record { msgid = 0; size = 12; bytes = 7 ∷ 0 ∷ 0 ∷ 0 ∷ 3 ∷ [] }

others_refuse :
    (i : ℕ) (o : Service)
    → 5 ≢ i
    → asked.services i ≡ some o
    → accepts_open (open_payload open_again.bytes).fourcc o ≡ false
others_refuse i o ne e = absurd (ne (only_one i o e).0)

reparsed_open_refused_example :
    let (dealt, s') = after_ack asked 5 9 3 retry in
    (dealt ≡ false)
    × (let (st, s'') = answered (
          queue_message s' none
            (make_msg 4 0 (msg_srcport open_again.msgid))
            (memcpy_copy_callback [])
            0
            no_flags
            true
            []) in
        parse_open s' open_again true success ≡ (not (is_retry st), s''))
reparsed_open_refused_example =
    reparsed_open_refused asked 5 opening_service 9 3 open_again true success asked-IsTable refl
      (omega arith) (omega arith) refl refl others_refuse

signed_versions :
    (short_lt 0xffff 3 ≡ true) × (short_lt 8 3 ≡ false) × (int_at (1 ∷ 2 ∷ 0 ∷ 0 ∷ []) 0 ≡ 513)
signed_versions = (refl, refl, refl)
