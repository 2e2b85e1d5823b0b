-- ===== src/Vchiq/Message/Fields.antt =====
-- VCHIQ_MAKE_MSG and the three macros that take a `msgid` apart are inverse to one another.
use dkms_rpi_codec.Base.{
  ℕ, ◌+◌, ◌*◌, ◌/◌, ◌%◌, ◌^◌, ◌<◌, ◌≡◌, ◌∙◌, ap, refl, arith, bit_or, bit_or_disjoint, bit_and_mask,
}
use dkms_rpi_codec.Vchiq.Message.{
  MsgType, type_code, type_of_code, make_msg, msg_type, msg_srcport, msg_dstport,
}

pub make_msg-eq-sum :
    (type srcport dstport : ℕ)
    → type < 256
    → srcport < 4096
    → dstport < 4096
    → make_msg type srcport dstport ≡ type * 2 ^ 24 + srcport * 2 ^ 12 + dstport
unfolding make_msg
make_msg-eq-sum type srcport dstport ht hs hd =
    ap (λ (t : ℕ). bit_or (bit_or t (srcport * 2 ^ 12 % 2 ^ 32)) dstport) (omega arith)
    ∙ ap (λ (t : ℕ). bit_or (bit_or (type * 2 ^ 24) t) dstport) (omega arith)
    ∙ ap (λ (t : ℕ). bit_or t dstport) high
    ∙ bit_or_disjoint 12 (type * 2 ^ 12 + srcport) dstport (omega arith)
    ∙ omega arith
  where
    high : bit_or (type * 2 ^ 24) (srcport * 2 ^ 12) ≡ (type * 2 ^ 12 + srcport) * 2 ^ 12
    high = bit_or_disjoint 24 type (srcport * 2 ^ 12) (omega arith) ∙ omega arith

pub msg_srcport-eq-div : (msgid : ℕ) → msg_srcport msgid ≡ msgid / 2 ^ 12 % 2 ^ 12
unfolding msg_srcport
msg_srcport-eq-div msgid = omega (arith, bit_and_mask 12 (msgid / 2 ^ 12))

pub msg_dstport-eq-mod : (msgid : ℕ) → msg_dstport msgid ≡ msgid % 2 ^ 12
unfolding msg_dstport
msg_dstport-eq-mod msgid = omega (arith, bit_and_mask 12 (msgid % 2 ^ 16))

-- A `msgid` that is made of a type below 256 and two ports below 4096 is a 32-bit word, and gives
-- back that type and those ports.
pub make_msg_fields :
    (type srcport dstport : ℕ)
    → type < 256
    → srcport < 4096
    → dstport < 4096
    → let msgid = make_msg type srcport dstport in
      (msgid < 2 ^ 32)
      × (msg_type msgid ≡ type)
      × (msg_srcport msgid ≡ srcport)
      × (msg_dstport msgid ≡ dstport)
unfolding msg_type
make_msg_fields type srcport dstport ht hs hd = omega (
  arith,
  make_msg-eq-sum type srcport dstport ht hs hd,
  msg_srcport-eq-div (make_msg type srcport dstport),
  msg_dstport-eq-mod (make_msg type srcport dstport),
)

-- Every 32-bit word is the `msgid` that is made of its own type and ports, so the header loses and
-- invents nothing.
pub make_msg_onto :
    (msgid : ℕ)
    → msgid < 2 ^ 32
    → make_msg (msg_type msgid) (msg_srcport msgid) (msg_dstport msgid) ≡ msgid
unfolding msg_type
make_msg_onto msgid h =
    make_msg-eq-sum (msgid / 2 ^ 24) (msg_srcport msgid) (msg_dstport msgid) (omega arith)
      (omega (arith, msg_srcport-eq-div msgid)) (omega (arith, msg_dstport-eq-mod msgid))
    ∙ omega (arith, msg_srcport-eq-div msgid, msg_dstport-eq-mod msgid)

pub type_of_code-type_code : (t : MsgType) → type_of_code (type_code t) ≡ t
unfolding type_of_code
type_of_code-type_code MsgType.padding = refl
type_of_code-type_code t = refl
