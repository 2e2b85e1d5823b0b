-- ===== src/Vchiq/PageList/Parts.antt =====
-- The parts of a buffer on its pages.
use dkms_rpi_codec.Base.{
  ℕ, zero, suc, ◌+◌, ◌-◌, ◌/◌, ◌%◌, ◌≤◌, ◌<◌, min, ◌≡◌, refl, ap, List, [], ◌∷◌, arith,
  bit_and_mask, length,
}
use dkms_rpi_codec.Vchiq.PageList.{page_size, page_count, page_offset, set_pages}

-- The bytes of the parts together.
abbrev pub part_bytes : List (ℕ × ℕ) → ℕ
part_bytes [] = 0
part_bytes ((offset, len) ∷ parts) = len + part_bytes parts

-- Every part has some bytes and lies within its page; the first starts at `start` and the others where
-- their page does, and all but the last go on to its end.
abbrev pub IsCut : ℕ → List (ℕ × ℕ) → Type 0
IsCut start [] = Unit
IsCut start ((offset, len) ∷ []) = (offset ≡ start) × (1 ≤ len) × (offset + len ≤ page_size)
IsCut start ((offset, len) ∷ part ∷ parts) =
    (offset ≡ start) × (offset < page_size) × (offset + len ≡ page_size) × IsCut 0 (part ∷ parts)

set_pages-IsCut :
    (left offset count : ℕ)
    → offset < page_size
    → 1 ≤ count
    → (count + offset + 4095) / page_size ≡ left
    → (part_bytes (set_pages left offset count) ≡ count)
      × IsCut offset (set_pages left offset count)
unfolding set_pages
set_pages-IsCut zero offset count small some_bytes pages = absurd (omega arith)
set_pages-IsCut (suc zero) offset count small some_bytes pages =
    (omega arith, (refl, omega arith, omega arith))
set_pages-IsCut (suc (suc left)) offset count small some_bytes pages =
    let (sum, cut) =
      set_pages-IsCut (suc left) 0 (count - min (page_size - offset) count) (omega arith)
        (omega arith) (omega arith) in
    (omega (arith, sum), (refl, small, omega arith, cut))

length-set_pages : (left offset count : ℕ) → length (set_pages left offset count) ≡ left
unfolding set_pages
length-set_pages zero offset count = refl
length-set_pages (suc left) offset count =
    ap suc (length-set_pages left 0 (count - min (page_size - offset) count))

-- The pages of a buffer of some bytes, and of as many as `create_pagelist` takes at most, are just
-- enough: its parts on them are all of its bytes, none of them is empty, and only the first may start
-- and only the last may end within its page.
pub set_pages_lem :
    (buf count : ℕ)
    → 1 ≤ count
    → count < 2147483647 - page_size
    → (part_bytes (set_pages (page_count count (page_offset buf)) (page_offset buf) count) ≡ count)
      × IsCut
          (page_offset buf)
          (set_pages (page_count count (page_offset buf)) (page_offset buf) count)
      × (length (set_pages (page_count count (page_offset buf)) (page_offset buf) count)
          ≡ page_count count (page_offset buf))
set_pages_lem buf count some_bytes short =
    let (sum, cut) =
      set_pages-IsCut pages offset count (omega (arith, offset-in_page)) some_bytes
        (omega (arith, offset-in_page)) in
    (sum, cut, length-set_pages pages offset count)
  where
    offset : ℕ
    offset = page_offset buf

    pages : ℕ
    pages = page_count count offset

    offset-in_page : page_offset buf ≡ buf % 4096
    offset-in_page = bit_and_mask 12 buf
