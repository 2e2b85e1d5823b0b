-- ===== src/Vchiq/Fragments/Restored.antt =====
-- Which bytes of a buffer come out of its fragment.
use dkms_rpi_codec.Base.{
  ℕ, ◌+◌, ◌-◌, ◌*◌, ◌/◌, ◌%◌, ◌≤◌, ◌<◌, ◌≡◌, sym, ◌∙◌, subst, ◌⊎◌, inl, inr, true, false, arith,
  bit_and_mask, ltb, Bool-cases, sub32,
}
use dkms_rpi_codec.Vchiq.PageList.{page_size, page_count}
use dkms_rpi_codec.Vchiq.Fragments.{head_bytes, tail_bytes, tail_place, restore_ends}
use dkms_rpi_codec.Vchiq.Fragments.Ends.{is_written, IsInEnds, ends-written}

-- A cache line of the processors that the driver runs on.
abbrev pub IsLine : ℕ → Type 0
IsLine line = (line ≡ 32) ⊎ (line ≡ 64)

-- A byte of the transfer whose cache line is not all within the transfer.
abbrev pub IsAtEnd : ℕ → ℕ → ℕ → ℕ → Type 0
IsAtEnd line offset actual x =
    (offset ≤ x)
    × (x < offset + actual)
    × ((x / line * line < offset) ⊎ (offset + actual < x / line * line + line))

head_bytes-32 : (offset : ℕ) → offset < page_size → head_bytes 32 offset ≡ (4096 - offset) % 32
head_bytes-32 offset small = bit_and_mask 5 (sub32 32 offset) ∙ omega (arith, small)

head_bytes-64 : (offset : ℕ) → offset < page_size → head_bytes 64 offset ≡ (4096 - offset) % 64
head_bytes-64 offset small = bit_and_mask 6 (sub32 64 offset) ∙ omega (arith, small)

-- The tail ends where the transfer does.
tail_place-32 :
    (offset count : ℕ)
    → offset < page_size
    → count < 2147483647 - page_size
    → 1 ≤ tail_bytes 32 offset count
    → tail_place 32 (page_count count offset) offset count ≡ (offset + count) / 32 * 32
tail_place-32 offset count small short some_tail = omega (arith, bit_and_mask 5 (offset + count))

tail_place-64 :
    (offset count : ℕ)
    → offset < page_size
    → count < 2147483647 - page_size
    → 1 ≤ tail_bytes 64 offset count
    → tail_place 64 (page_count count offset) offset count ≡ (offset + count) / 64 * 64
tail_place-64 offset count small short some_tail = omega (arith, bit_and_mask 6 (offset + count))

IsAtEnd-32 :
    (offset count x : ℕ)
    → offset < page_size
    → count < 2147483647 - page_size
    → (IsInEnds 32 (page_count count offset) offset count x → IsAtEnd 32 offset count x)
      × (IsAtEnd 32 offset count x → IsInEnds 32 (page_count count offset) offset count x)
unfolding IsInEnds
IsAtEnd-32 offset count x small short = (forth, back)
  where
    head : head_bytes 32 offset ≡ (4096 - offset) % 32
    head = head_bytes-32 offset small

    tail : tail_bytes 32 offset count ≡ (offset + count) % 32
    tail = bit_and_mask 5 (offset + count)

    forth : IsInEnds 32 (page_count count offset) offset count x → IsAtEnd 32 offset count x
    forth (inl (from, upto)) =
        (from, omega (arith, from, upto), inl (omega (arith, head, from, upto, small)))
    forth (inr (lt, from, upto)) =
        let place = tail_place-32 offset count small short (omega (arith, from, upto)) in
        (
          omega (arith, head, place, lt, from, small),
          omega (arith, tail, place, upto),
          inr (omega (arith, tail, place, from, upto)),
        )

    back : IsAtEnd 32 offset count x → IsInEnds 32 (page_count count offset) offset count x
    back (from, upto, inl before) = inl (from, omega (arith, head, from, upto, before, small))
    back (from, upto, inr after) = elim (Bool-cases (ltb (head_bytes 32 offset) count)) [
      | inl e ↦
          let lt : head_bytes 32 offset < count = ground (arith, e) in
          let place = tail_place-32 offset count small short (omega (arith, tail, upto, after)) in
          inr (lt, omega (arith, place, upto, after), omega (arith, tail, place, upto, after))
      | inr e ↦
          let ge : count ≤ head_bytes 32 offset = ground (arith, e) in
          inl (from, omega (arith, ge, upto))
    ]

IsAtEnd-64 :
    (offset count x : ℕ)
    → offset < page_size
    → count < 2147483647 - page_size
    → (IsInEnds 64 (page_count count offset) offset count x → IsAtEnd 64 offset count x)
      × (IsAtEnd 64 offset count x → IsInEnds 64 (page_count count offset) offset count x)
unfolding IsInEnds
IsAtEnd-64 offset count x small short = (forth, back)
  where
    head : head_bytes 64 offset ≡ (4096 - offset) % 64
    head = head_bytes-64 offset small

    tail : tail_bytes 64 offset count ≡ (offset + count) % 64
    tail = bit_and_mask 6 (offset + count)

    forth : IsInEnds 64 (page_count count offset) offset count x → IsAtEnd 64 offset count x
    forth (inl (from, upto)) =
        (from, omega (arith, from, upto), inl (omega (arith, head, from, upto, small)))
    forth (inr (lt, from, upto)) =
        let place = tail_place-64 offset count small short (omega (arith, from, upto)) in
        (
          omega (arith, head, place, lt, from, small),
          omega (arith, tail, place, upto),
          inr (omega (arith, tail, place, from, upto)),
        )

    back : IsAtEnd 64 offset count x → IsInEnds 64 (page_count count offset) offset count x
    back (from, upto, inl before) = inl (from, omega (arith, head, from, upto, before, small))
    back (from, upto, inr after) = elim (Bool-cases (ltb (head_bytes 64 offset) count)) [
      | inl e ↦
          let lt : head_bytes 64 offset < count = ground (arith, e) in
          let place = tail_place-64 offset count small short (omega (arith, tail, upto, after)) in
          inr (lt, omega (arith, place, upto, after), omega (arith, tail, place, upto, after))
      | inr e ↦
          let ge : count ≤ head_bytes 64 offset = ground (arith, e) in
          inl (from, omega (arith, ge, upto))
    ]

-- When a whole buffer was read, exactly those of its bytes come out of the fragment whose cache line
-- also has bytes that are not the buffer's, for lines of 32 and of 64 bytes.
pub restore_ends_lem :
    (line offset count x : ℕ)
    → IsLine line
    → offset < page_size
    → count < 2147483647 - page_size
    → (is_written (restore_ends line (page_count count offset) offset count false) x ≡ true
        → IsAtEnd line offset count x)
      × (IsAtEnd line offset count x
          → is_written (restore_ends line (page_count count offset) offset count false) x ≡ true)
restore_ends_lem line offset count x size small short =
    let written = ends-written line (page_count count offset) offset count x in
    let at_end = both_ways size in (λ w. at_end.0 (written.0 w), λ e. written.1 (at_end.1 e))
  where
    Both : ℕ → Type 0
    Both n =
        (IsInEnds n (page_count count offset) offset count x → IsAtEnd n offset count x)
        × (IsAtEnd n offset count x → IsInEnds n (page_count count offset) offset count x)

    both_ways : IsLine line → Both line
    both_ways (inl e) = subst Both (sym e) (IsAtEnd-32 offset count x small short)
    both_ways (inr e) = subst Both (sym e) (IsAtEnd-64 offset count x small short)

tail_place-page :
    (line pages offset actual : ℕ)
    → IsLine line
    → 1 ≤ pages
    → tail_place line pages offset actual / page_size + 1 ≡ pages
tail_place-page line pages offset actual (inl e) some_pages =
    subst (λ (l : ℕ). tail_place l pages offset actual / page_size + 1 ≡ pages) {x = 32} (sym e)
      (omega (arith, some_pages))
tail_place-page line pages offset actual (inr e) some_pages =
    subst (λ (l : ℕ). tail_place l pages offset actual / page_size + 1 ≡ pages) {x = 64} (sym e)
      (omega (arith, some_pages))

-- When so much less was read that the transfer, which has a tail, ends on another page than the buffer,
-- a byte of the buffer's last page is overwritten that is past the end of the transfer.
pub restore_ends_misplaced :
    (line offset count actual : ℕ)
    → IsLine line
    → offset < page_size
    → count < 2147483647 - page_size
    → head_bytes line offset < actual
    → 1 ≤ tail_bytes line offset actual
    → (offset + actual) / page_size + 1 < page_count count offset
    → (x : ℕ) × (offset + actual < x)
      × (x / page_size + 1 ≡ page_count count offset)
      × (is_written (restore_ends line (page_count count offset) offset actual false) x ≡ true)
unfolding IsInEnds
restore_ends_misplaced line offset count actual size small short lt some_tail other_page = (
  place,
  omega (arith, other_page),
  tail_place-page line (page_count count offset) offset actual size (omega (arith, other_page)),
  (ends-written line (page_count count offset) offset actual place).1
      (inr (lt, omega arith, omega (arith, some_tail))),
)
  where
    place : ℕ
    place = tail_place line (page_count count offset) offset actual
