-- ===== src/Vchiq/PageList/Narrow.antt =====
-- The words for addresses of 32 bits: what they list of up to 4096 pages, and that they go wrong on
-- more.
use dkms_rpi_codec.Base.{
  ℕ, zero, suc, ◌+◌, ◌-◌, ◌*◌, ◌/◌, ◌%◌, ◌^◌, ◌≤◌, ◌<◌, bit_or, ◌≡◌, refl, sym, ap, ap₂, ◌∙◌, subst,
  ◌≢◌, inl, inr, Bool, true, List, [], ◌∷◌, ◌++◌, append-nil, append_assoc, arith, bit_or_disjoint,
  ◌==◌, if◌then◌else◌, ==_iff, Bool-cases, All, add32, sub32,
}
use dkms_rpi_codec.Vchiq.PageList.{page_size, Block, block_pages, add_block, add_blocks}
use dkms_rpi_codec.Vchiq.PageList.Pages.{
  pages_from, pages_from-append, block_page, pages_of_blocks, IsWhole, listed_pages,
  listed_pages-pages_of_blocks, block_last,
}

-- The pages of words of 20 bits for a page and 12 for one less than a count; the last word comes first.
abbrev pub narrow_pages : List ℕ → List ℕ
narrow_pages [] = []
narrow_pages (w ∷ ws) = narrow_pages ws ++ pages_from (w / page_size) (w % page_size + 1)

-- A block of some pages that lies in 32 bits of addresses, and not on the last page.
pub record IsNarrow (b : Block) : Type 0 where
  pub in_memory : block_page b + block_pages b < 2 ^ 20
  pub some_pages : 1 ≤ block_pages b

abbrev pub total_pages : List Block → ℕ
total_pages [] = 0
total_pages (b ∷ bs) = block_pages b + total_pages bs

-- The last word can take so many pages more.
abbrev HasRoom : ℕ → List ℕ → Type 0
HasRoom room [] = Unit
HasRoom room (w ∷ ws) =
    (w % page_size + 1 + room ≤ page_size) × (w / page_size + w % page_size + 1 < 2 ^ 20)

new_word :
    (b : Block)
    → IsNarrow b
    → block_pages b ≤ page_size
    → bit_or (b.addr / page_size * page_size) (sub32 (block_pages b) 1)
      ≡ block_page b * page_size + (block_pages b - 1)
new_word b v few =
    ap (bit_or (block_page b * page_size)) (omega (arith, v.some_pages))
    ∙ bit_or_disjoint 12 (block_page b) (block_pages b - 1) (omega (arith, v.some_pages))

new_word-pages :
    (b : Block)
    → IsNarrow b
    → block_pages b ≤ page_size
    → (w : ℕ) → w ≡ block_page b * page_size + (block_pages b - 1)
    → pages_from (w / page_size) (w % page_size + 1) ≡ pages_from (block_page b) (block_pages b)
new_word-pages b v few w e =
    ap₂ pages_from (omega (arith, v.some_pages)) (omega (arith, v.some_pages))

add_block-narrow :
    (addrs : List ℕ) (b : Block) (room : ℕ)
    → HasRoom (block_pages b + room) addrs
    → IsNarrow b
    → block_pages b + room ≤ page_size
    → HasRoom room (add_block addrs b)
      × (narrow_pages (add_block addrs b)
          ≡ narrow_pages addrs ++ pages_from (block_page b) (block_pages b))
unfolding add_block
add_block-narrow [] b room fits v few = (
  (
    omega (arith, new_word b v (omega arith), v.some_pages),
    omega (arith, new_word b v (omega arith), v.some_pages, v.in_memory),
  ),
  new_word-pages b v (omega arith) _ (new_word b v (omega arith)),
)
add_block-narrow (w ∷ ws) b room (fits, word) v few = elim (Bool-cases test) [
  | inl e ↦ subst chosen (sym e) (joined e)
  | inr e ↦ subst chosen (sym e) (
    (
      omega (arith, new_word b v (omega arith), v.some_pages),
      omega (arith, new_word b v (omega arith), v.some_pages, v.in_memory),
    ),
    ap (◌++◌ (narrow_pages (w ∷ ws)))
        (new_word-pages b v (omega arith) _ (new_word b v (omega arith))),
  )
]
  where
    test : Bool
    test =
        add32 (w / page_size * page_size) ((w % page_size + 1) * page_size % 2 ^ 32)
        == b.addr / page_size * page_size

    chosen : Bool → Type 0
    chosen t =
        HasRoom room (
          if t
          then add32 w (block_pages b) ∷ ws
          else bit_or (b.addr / page_size * page_size) (sub32 (block_pages b) 1) ∷ w ∷ ws)
        × (narrow_pages (
              if t
              then add32 w (block_pages b) ∷ ws
              else bit_or (b.addr / page_size * page_size) (sub32 (block_pages b) 1) ∷ w ∷ ws)
            ≡ narrow_pages (w ∷ ws) ++ pages_from (block_page b) (block_pages b))

    follows : test ≡ true → block_page b ≡ w / page_size + (w % page_size + 1)
    follows e = omega (
      arith,
      (==_iff (add32 (w / page_size * page_size) ((w % page_size + 1) * page_size % 2 ^ 32))
            (b.addr / page_size * page_size)).0
          e,
      word,
    )

    same_page : add32 w (block_pages b) / page_size ≡ w / page_size
    same_page = omega (arith, fits, word)

    more_pages : add32 w (block_pages b) % page_size + 1 ≡ w % page_size + 1 + block_pages b
    more_pages = omega (arith, fits, word)

    joined : test ≡ true → chosen true
    joined e = (
      (
        omega (arith, more_pages, fits),
        omega (arith, same_page, more_pages, follows e, v.in_memory),
      ),
      ap (◌++◌ (narrow_pages ws)) (
            ap₂ pages_from same_page more_pages
            ∙ pages_from-append (w / page_size) (w % page_size + 1) (block_pages b)
            ∙ ap
                (λ (k : ℕ).
                  pages_from (w / page_size) (w % page_size + 1) ++ pages_from k (block_pages b))
                (sym (follows e)))
          ∙ sym (
              append_assoc (narrow_pages ws) (pages_from (w / page_size) (w % page_size + 1))
                (pages_from (block_page b) (block_pages b))),
    )

add_blocks-narrow :
    (bs : List Block) (addrs : List ℕ)
    → HasRoom (total_pages bs) addrs
    → All IsNarrow bs
    → total_pages bs ≤ page_size
    → narrow_pages (add_blocks bs addrs) ≡ narrow_pages addrs ++ listed_pages bs
unfolding add_blocks
add_blocks-narrow [] addrs room v few = sym (append-nil (narrow_pages addrs))
add_blocks-narrow (b ∷ bs) addrs room (v, vs) few =
    let (room', listed) = add_block-narrow addrs b (total_pages bs) room v few in
    add_blocks-narrow bs (add_block addrs b) room' vs (omega arith)
    ∙ ap (λ xs. xs ++ listed_pages bs) listed
    ∙ append_assoc (narrow_pages addrs) (pages_from (block_page b) (block_pages b))
        (listed_pages bs)

-- With addresses of 32 bits the words stand for exactly the pages on which the bytes of the blocks lie,
-- in their order, if there are at most 4096 pages together, and all lie before the last page of the
-- memory. Each block has some bytes and starts or ends on a border of pages, or lies within one page.
pub add_blocks_lem :
    (bs : List Block)
    → All IsNarrow bs
    → All IsWhole bs
    → total_pages bs ≤ 4096
    → narrow_pages (add_blocks bs []) ≡ pages_of_blocks bs
add_blocks_lem bs v whole few =
    add_blocks-narrow bs [] tt v few ∙ listed_pages-pages_of_blocks bs whole

abbrev first : List ℕ → ℕ
first [] = 0
first (x ∷ xs) = x

first_page : (p n : ℕ) (xs : List ℕ) → 1 ≤ n → first (pages_from p n ++ xs) ≡ p
first_page p zero xs h = absurd (omega arith)
first_page p (suc n) xs h = refl

-- Two blocks that lie side by side and have more than 4096 pages together are joined all the same,
-- and their word stands for other pages.
pub add_blocks_overflow :
    (b b' : Block)
    → IsNarrow b
    → IsNarrow b'
    → block_pages b ≤ 4096
    → block_pages b' ≤ 4096
    → block_page b' ≡ block_page b + block_pages b
    → 4096 < block_pages b + block_pages b'
    → narrow_pages (add_blocks (b ∷ b' ∷ []) []) ≢ pages_of_blocks (b ∷ b' ∷ [])
unfolding add_blocks add_block
add_blocks_overflow b b' v v' few few' side many same = omega (
  arith,
  next_page,
  first_page (block_page b) (block_last b + 1 - block_page b) (pages_of_blocks (b' ∷ []))
      (omega (arith, v.some_pages)),
  listed,
)
  where
    w : ℕ
    w = bit_or (b.addr / page_size * page_size) (sub32 (block_pages b) 1)

    joins :
        (add32 (w / page_size * page_size) ((w % page_size + 1) * page_size % 2 ^ 32)
          == b'.addr / page_size * page_size)
        ≡ true
    joins =
        (==_iff (add32 (w / page_size * page_size) ((w % page_size + 1) * page_size % 2 ^ 32))
            (b'.addr / page_size * page_size)).1
          (omega (arith, new_word b v few, side, v.some_pages, v'.in_memory))

    next_page : add32 w (block_pages b') / page_size ≡ block_page b + 1
    next_page = omega (arith, new_word b v few, side, few, few', many, v.some_pages, v'.in_memory)

    listed : add32 w (block_pages b') / page_size ≡ first (pages_of_blocks (b ∷ b' ∷ []))
    listed =
        sym (
          first_page (add32 w (block_pages b') / page_size)
            (add32 w (block_pages b') % page_size + 1) [] (omega arith))
        ∙ ap first (
            append-nil (
              pages_from (add32 w (block_pages b') / page_size)
                (add32 w (block_pages b') % page_size + 1)))
        ∙ ap
            (λ t. first (
              narrow_pages (
                if t
                then add32 w (block_pages b') ∷ []
                else bit_or (b'.addr / page_size * page_size) (sub32 (block_pages b') 1) ∷ w ∷ [])))
            (sym joins)
        ∙ ap first same
