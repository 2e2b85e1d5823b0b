-- ===== src/Vchiq/Fragments.antt =====
-- The parts of cache lines at the ends of a buffer that is read into, which the VideoCore delivers in a
-- fragment: the ends of `create_pagelist` and the start of `free_pagelist`
-- (interface/vchiq_arm/vchiq_2835_arm.c).
pub mod Ends
pub mod Restored
mod Tests
use dkms_rpi_codec.Base.{
  ℕ, ◌+◌, ◌-◌, ◌*◌, ◌/◌, ◌%◌, min, bit_and, Bool, not, ◌&&◌, ◌||◌, Option, none, some, List, [],
  ◌∷◌, ◌++◌, ltb, ◌==◌, if◌then◌else◌, length, sub32,
}
use dkms_rpi_codec.Vchiq.PageList.{page_size}

-- A copy by `memcpy` out of the fragment into the pages of the buffer, numbered from the first one on.
pub record FragmentCopy : Type 0 where
  pub to : ℕ
  pub from : ℕ
  pub len : ℕ

-- Whether the ends of the buffer are not ends of cache lines.
abbrev pub needs_fragments : ℕ → ℕ → ℕ → Bool
needs_fragments line offset length =
    not (bit_and offset (line - 1) == 0) || not (bit_and (offset + length) (line - 1) == 0)

abbrev pub head_bytes : ℕ → ℕ → ℕ
head_bytes line offset = bit_and (sub32 line offset) (line - 1)

abbrev pub tail_bytes : ℕ → ℕ → ℕ → ℕ
tail_bytes line offset actual = bit_and (offset + actual) (line - 1)

-- The place of the tail, on the last page.
abbrev pub tail_place : ℕ → ℕ → ℕ → ℕ → ℕ
tail_place line pages offset actual =
    (pages - 1) * page_size + (offset + actual) % page_size / line * line

-- The head of `free_pagelist`, for an `actual` that is not negative.
abbrev pub head_copy : ℕ → ℕ → ℕ → List FragmentCopy
head_copy line offset actual =
    if head_bytes line offset == 0
    then []
    else record { to = offset; from = 0; len = min (head_bytes line offset) actual } ∷ []

abbrev pub tail_copy : ℕ → ℕ → ℕ → ℕ → List FragmentCopy
tail_copy line pages offset actual =
    if ltb (head_bytes line offset) actual && not (tail_bytes line offset actual == 0)
    then record {
      to = tail_place line pages offset actual;
      from = line;
      len = tail_bytes line offset actual;
    }
      ∷ []
    else []

-- What `free_pagelist` copies out of the fragment; `aborted` is a negative `actual`.
unfoldable pub restore_ends : ℕ → ℕ → ℕ → ℕ → Bool → List FragmentCopy
restore_ends line pages offset actual aborted =
    if aborted then [] else head_copy line offset actual ++ tail_copy line pages offset actual

-- The free fragments: `g_free_fragments` is a list in the memory of the fragments. One is taken with a
-- page list and given back with it.
unfoldable pub take_fragment : List ℕ → Option (ℕ × List ℕ)
take_fragment [] = none
take_fragment (f ∷ fs) = some (f, fs)

abbrev pub give_fragment : ℕ → List ℕ → List ℕ
give_fragment f fs = f ∷ fs
