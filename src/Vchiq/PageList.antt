-- ===== src/Vchiq/PageList.antt =====
-- The page list of a bulk transfer: `create_pagelist` and `free_pagelist`
-- (interface/vchiq_arm/vchiq_2835_arm.c), but for the pinning and the mapping of pages, which the
-- kernel does.
pub mod Pages
pub mod Wide
pub mod Narrow
pub mod Parts
mod Tests
use dkms_rpi_codec.Base.{
  ℕ, zero, suc, ◌+◌, ◌-◌, ◌*◌, ◌/◌, ◌%◌, ◌^◌, min, bit_and, bit_or, List, [], ◌∷◌, ◌==◌,
  if◌then◌else◌, add32, sub32,
}

-- PAGE_SIZE
abbrev pub page_size : ℕ
page_size = 4096

-- The place of the buffer in its first page, and the number of pages that it lies on.
abbrev pub page_offset : ℕ → ℕ
page_offset buf = bit_and buf (page_size - 1)

abbrev pub page_count : ℕ → ℕ → ℕ
page_count count offset = (count + offset + (page_size - 1)) % 2 ^ 32 / page_size

-- The offset and length of the part of the buffer on each page, of which `left` are still to be set.
unfoldable pub set_pages : ℕ → ℕ → ℕ → List (ℕ × ℕ)
set_pages zero offset count = []
set_pages (suc left) offset count =
    let len = min (page_size - offset) count in (offset, len) ∷ set_pages left 0 (count - len)

-- A block of memory as the device sees it, after `dma_map_sg`.
pub record Block : Type 0 where
  pub addr : ℕ
  pub len : ℕ

-- `(len + PAGE_SIZE - 1) >> PAGE_SHIFT`
abbrev pub block_pages : Block → ℕ
block_pages b = (b.len + (page_size - 1)) % 2 ^ 32 / page_size

-- `(u32)((addr >> 4) & ~0xff)`
abbrev pub page_id : Block → ℕ
page_id b = b.addr / 2 ^ 4 / 2 ^ 8 * 2 ^ 8 % 2 ^ 32

-- A block whose pages are being listed: the words of `addrs`, the last one first, and the number of
-- the next page with how many are left.
pub record Listing : Type 0 where
  pub addrs : List ℕ
  pub next_id : ℕ
  pub left : ℕ

-- A block that goes on where the last word ends is counted into that word, up to 256 pages.
unfoldable pub extend_last : List ℕ → ℕ → ℕ → Listing
extend_last [] id pages = record { addrs = []; next_id = id; left = pages }
extend_last (w ∷ ws) id pages =
    let inc = min pages (255 - w % 2 ^ 8) in
    if add32 (w / 2 ^ 8 * 2 ^ 8) ((w % 2 ^ 8 + 1) * 2 ^ 8 % 2 ^ 32) == id
    then record {
      addrs = add32 w inc ∷ ws;
      next_id = add32 id (inc * 2 ^ 8 % 2 ^ 32);
      left = pages - inc;
    }
    else record { addrs = w ∷ ws; next_id = id; left = pages }

-- The loop over the pages that are left, of which each round lists one at least.
unfoldable pub list_pages : ℕ → List ℕ → ℕ → ℕ → List ℕ
list_pages zero addrs id left = addrs
list_pages (suc fuel) addrs id left =
    let inc = min left 256 in
    let rest =
      list_pages fuel (bit_or id (inc - 1) ∷ addrs) (add32 id (inc * 2 ^ 8 % 2 ^ 32))
        (left - inc) in
    if left == 0 then addrs else rest

unfoldable pub list_block : List ℕ → Block → List ℕ
unfolding extend_last list_pages
list_block addrs b =
    let l = extend_last addrs (page_id b) (block_pages b) in
    list_pages l.left l.addrs l.next_id l.left

-- The words of `addrs` for addresses of 36 bits, the last one first.
unfoldable pub combine_blocks : List Block → List ℕ → List ℕ
unfolding list_block
combine_blocks [] addrs = addrs
combine_blocks (b ∷ bs) addrs = combine_blocks bs (list_block addrs b)

-- The step for addresses of 32 bits, in which the count of a word has 12 bits.
unfoldable pub add_block : List ℕ → Block → List ℕ
add_block [] b = bit_or (b.addr / page_size * page_size) (sub32 (block_pages b) 1) ∷ []
add_block (w ∷ ws) b =
    if add32 (w / page_size * page_size) ((w % page_size + 1) * page_size % 2 ^ 32)
      == b.addr / page_size * page_size
    then add32 w (block_pages b) ∷ ws
    else bit_or (b.addr / page_size * page_size) (sub32 (block_pages b) 1) ∷ w ∷ ws

unfoldable pub add_blocks : List Block → List ℕ → List ℕ
unfolding add_block
add_blocks [] addrs = addrs
add_blocks (b ∷ bs) addrs = add_blocks bs (add_block addrs b)
