-- ===== src/Vchiq/Copy.antt =====
-- Copying a payload: `copy_message_data` (interface/vchiq_arm/vchiq_core.c).
pub mod Total
pub mod Tests
use dkms_rpi_codec.Base.{
  ℕ, zero, suc, ◌+◌, ◌-◌, true, false, ◌||◌, List, [], ◌++◌, ltb, ◌==◌, length,
}

-- What a copy callback returns: a negative error, or the bytes that it copied, as many as it says.
pub data Chunk : Type 0 where
  failed : ℕ → Chunk
  chunk : List ℕ → Chunk

pub data Copied : Type 0 where
  copy_error : ℕ → Copied
  copied : List ℕ → Copied

abbrev eio : ℕ
eio = 5

abbrev pub prepend_bytes : List ℕ → Copied → Copied
prepend_bytes b (copy_error e) = copy_error e
prepend_bytes b (copied c) = copied (b ++ c)

-- The loop of `copy_message_data` from `pos`: the callback is given the offset and what is left.
-- Each round copies a byte at least, so `left` rounds are enough.
unfoldable pub copy_loop : (ℕ → ℕ → Chunk) → ℕ → ℕ → ℕ → Copied
copy_loop callback zero pos size = copied []
copy_loop callback (suc fuel) pos size = elim (ltb pos size) [
  | false ↦ copied []
  | true ↦ elim (callback pos (size - pos)) [
    | failed e ↦ copy_error e
    | chunk bytes ↦ elim ((length bytes == 0) || ltb (size - pos) (length bytes)) [
      | true ↦ copy_error eio
      | false ↦ prepend_bytes bytes (copy_loop callback fuel (pos + length bytes) size)
    ]
  ]
]

unfoldable pub copy_message_data : (ℕ → ℕ → Chunk) → ℕ → Copied
copy_message_data callback size = copy_loop callback size 0 size
