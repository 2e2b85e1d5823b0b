-- ===== src/Vchiq/PageList/Tests.antt =====
-- Page lists of a few blocks.
use dkms_rpi_codec.Base.{ℕ, ◌-◌, ◌*◌, ◌≡◌, ◌≢◌, inl, inr, List, [], ◌∷◌, arith, length, All}
use dkms_rpi_codec.Vchiq.PageList.{
  page_count, page_offset, set_pages, Block, combine_blocks, add_blocks,
}
use dkms_rpi_codec.Vchiq.PageList.Pages.{pages_of_blocks, wide_pages, FitsWide, IsWhole}
use dkms_rpi_codec.Vchiq.PageList.Wide.{combine_blocks_lem}
use dkms_rpi_codec.Vchiq.PageList.Narrow.{narrow_pages, add_blocks_lem, add_blocks_overflow}
use dkms_rpi_codec.Vchiq.PageList.Parts.{part_bytes, IsCut, set_pages_lem}

-- `n` pages from page `p` on.
abbrev block : ℕ → ℕ → Block
block p n = record { addr = p * 4096; len = n * 4096 }

-- 200 pages, 100 that follow them, and 10000 bytes elsewhere that end with a page.
abbrev some_blocks : List Block
some_blocks =
    block 1000 200 ∷ block 1200 100 ∷ record { addr = 53 * 4096 - 10000; len = 10000 } ∷ []

some_blocks-IsWhole : All IsWhole some_blocks
some_blocks-IsWhole = (
  record { some_bytes = omega arith; len_word = omega arith; bordered = inl (omega arith) },
  (
    record { some_bytes = omega arith; len_word = omega arith; bordered = inl (omega arith) },
    (
      record {
        some_bytes = omega arith;
        len_word = omega arith;
        bordered = inr (inl (omega arith));
      },
      tt,
    ),
  ),
)

combine_blocks_lem_example :
    All FitsWide (combine_blocks some_blocks [])
    × (wide_pages (combine_blocks some_blocks []) ≡ pages_of_blocks some_blocks)
combine_blocks_lem_example =
    combine_blocks_lem some_blocks
      (
        record { in_memory = omega arith },
        (record { in_memory = omega arith }, (record { in_memory = omega arith }, tt)),
      )
      some_blocks-IsWhole

add_blocks_lem_example : narrow_pages (add_blocks some_blocks []) ≡ pages_of_blocks some_blocks
add_blocks_lem_example =
    add_blocks_lem some_blocks
      (
        record { in_memory = omega arith; some_pages = omega arith },
        (
          record { in_memory = omega arith; some_pages = omega arith },
          (record { in_memory = omega arith; some_pages = omega arith }, tt),
        ),
      )
      some_blocks-IsWhole (omega arith)

-- 16 MiB and one page.
abbrev many : Block
many = block 1000 4096

abbrev one_more : Block
one_more = block 5096 1

add_blocks_overflow_example :
    narrow_pages (add_blocks (many ∷ one_more ∷ []) []) ≢ pages_of_blocks (many ∷ one_more ∷ [])
add_blocks_overflow_example =
    add_blocks_overflow many one_more (record { in_memory = omega arith; some_pages = omega arith })
      (record { in_memory = omega arith; some_pages = omega arith }) (omega arith) (omega arith)
      (omega arith) (omega arith)

set_pages_lem_example :
    (part_bytes (set_pages (page_count 5000 (page_offset 4000)) (page_offset 4000) 5000) ≡ 5000)
    × IsCut
        (page_offset 4000)
        (set_pages (page_count 5000 (page_offset 4000)) (page_offset 4000) 5000)
    × (length (set_pages (page_count 5000 (page_offset 4000)) (page_offset 4000) 5000)
        ≡ page_count 5000 (page_offset 4000))
set_pages_lem_example = set_pages_lem 4000 5000 (omega arith) (omega arith)
