-- ===== src/Vchiq/Message.antt =====
-- Message identifiers and sizes (interface/vchiq_arm/vchiq_core.h, and `calc_stride` of
-- vchiq_core.c). A `msgid` is the bit pattern of an `int`, a number below 2 ^ 32.
pub mod Fields
pub mod Claim
pub mod Stride
mod Tests
use dkms_rpi_codec.Base.{
  ℕ, ◌+◌, ◌-◌, ◌*◌, ◌/◌, ◌%◌, ◌^◌, bit_and, bit_or, Bool, not, ◌==◌, if◌then◌else◌, add32,
}

-- VCHIQ_SLOT_SIZE, `sizeof(struct vchiq_header)`, VCHIQ_MAX_MSG_SIZE.
abbrev pub slot_size : ℕ
slot_size = 4096

abbrev pub header_size : ℕ
header_size = 8

abbrev pub max_msg_size : ℕ
max_msg_size = slot_size - header_size

-- The VCHIQ_MSG_ numbers; `other` stands for every number that has no name.
pub data MsgType : Type 0 where
  padding connect open_ openack close message bulk_rx bulk_tx bulk_rx_done bulk_tx_done pause
        resume :
      MsgType
  remote_use remote_release remote_use_active other : MsgType

abbrev pub type_code : MsgType → ℕ
type_code padding = 0
type_code connect = 1
type_code open_ = 2
type_code openack = 3
type_code close = 4
type_code message = 5
type_code bulk_rx = 6
type_code bulk_tx = 7
type_code bulk_rx_done = 8
type_code bulk_tx_done = 9
type_code pause = 10
type_code resume = 11
type_code remote_use = 12
type_code remote_release = 13
type_code remote_use_active = 14
type_code other = 15

-- The cases of the receiver's `switch (type)`.
unfoldable pub type_of_code : ℕ → MsgType
type_of_code c =
    if c == 0
    then padding
    else if c == 1
    then connect
    else if c == 2
    then open_
    else if c == 3
    then openack
    else if c == 4
    then close
    else if c == 5
    then message
    else if c == 6
    then bulk_rx
    else if c == 7
    then bulk_tx
    else if c == 8
    then bulk_rx_done
    else if c == 9
    then bulk_tx_done
    else if c == 10
    then pause
    else if c == 11
    then resume
    else if c == 12
    then remote_use
    else if c == 13
    then remote_release
    else if c == 14
    then remote_use_active
    else other

-- `x << k` of an `int`.
abbrev pub shl : ℕ → ℕ → ℕ
shl x k = x * 2 ^ k % 2 ^ 32

-- VCHIQ_MAKE_MSG.
unfoldable pub make_msg : ℕ → ℕ → ℕ → ℕ
make_msg type srcport dstport = bit_or (bit_or (shl type 24) (shl srcport 12)) dstport

-- VCHIQ_MSG_TYPE, VCHIQ_MSG_SRCPORT, VCHIQ_MSG_DSTPORT.
unfoldable pub msg_type : ℕ → ℕ
msg_type msgid = msgid / 2 ^ 24

unfoldable pub msg_srcport : ℕ → ℕ
msg_srcport msgid = bit_and (msgid / 2 ^ 12) 0xfff % 2 ^ 16

unfoldable pub msg_dstport : ℕ → ℕ
msg_dstport msgid = bit_and (msgid % 2 ^ 16) 0xfff

-- VCHIQ_MSGID_PADDING is `VCHIQ_MAKE_MSG(VCHIQ_MSG_PADDING, 0, 0)`.
abbrev pub padding_msgid : ℕ
padding_msgid = 0

-- VCHIQ_MSGID_CLAIMED: the bit that marks a message which a service has still to release.
abbrev pub claimed_bit : ℕ
claimed_bit = 0x4000_0000

unfoldable pub is_claimed : ℕ → Bool
is_claimed msgid = not (bit_and msgid claimed_bit == 0)

unfoldable pub claim : ℕ → ℕ
claim msgid = bit_or msgid claimed_bit

-- `msgid & ~VCHIQ_MSGID_CLAIMED`
unfoldable pub unclaim : ℕ → ℕ
unclaim msgid = bit_and msgid 0xbfff_ffff

-- `calc_stride`, with the `size_t` of the 32-bit build; on a 64-bit one the result is cut to the
-- same 32 bits where it is added to a position.
unfoldable pub calc_stride : ℕ → ℕ
calc_stride size = bit_and (add32 (add32 size header_size) (header_size - 1)) 0xffff_fff8
