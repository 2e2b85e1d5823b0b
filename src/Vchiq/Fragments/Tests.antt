-- ===== src/Vchiq/Fragments/Tests.antt =====
-- A buffer of 200 bytes at offset 100, of lines of 64 bytes; and one of three pages of which 100 bytes
-- were read.
use dkms_rpi_codec.Base.{ℕ, ◌+◌, ◌/◌, ◌<◌, ◌≡◌, refl, inr, true, false, arith}
use dkms_rpi_codec.Vchiq.PageList.{page_count, page_size}
use dkms_rpi_codec.Vchiq.Fragments.{restore_ends}
use dkms_rpi_codec.Vchiq.Fragments.Ends.{is_written}
use dkms_rpi_codec.Vchiq.Fragments.Restored.{IsAtEnd, restore_ends_lem, restore_ends_misplaced}

restore_ends_lem_example :
    (is_written (restore_ends 64 1 100 200 false) 110 ≡ true → IsAtEnd 64 100 200 110)
    × (IsAtEnd 64 100 200 110 → is_written (restore_ends 64 1 100 200 false) 110 ≡ true)
restore_ends_lem_example = restore_ends_lem 64 100 200 110 (inr refl) (omega arith) (omega arith)

restore_ends_misplaced_example :
    (x : ℕ) × (200 < x)
    × (x / page_size + 1 ≡ page_count 9000 100)
    × (is_written (restore_ends 64 (page_count 9000 100) 100 100 false) x ≡ true)
restore_ends_misplaced_example =
    restore_ends_misplaced 64 100 9000 100 (inr refl) (omega arith) (omega arith) (omega arith)
      (omega arith) (omega arith)
