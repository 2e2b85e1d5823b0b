-- ===== src/Vchiq/PageList/Wide.antt =====
-- The words for addresses of 36 bits list exactly the pages of the blocks, in order.
use dkms_rpi_codec.Base.{
  ℕ, zero, suc, ◌+◌, ◌-◌, ◌*◌, ◌/◌, ◌%◌, ◌^◌, ◌≤◌, ◌<◌, min, bit_or, ◌≡◌, refl, sym, ap, ap₂, ◌∙◌,
  subst, inl, inr, Bool, true, false, List, [], ◌∷◌, ◌++◌, append-nil, append_assoc, arith,
  bit_or_disjoint, ◌==◌, if◌then◌else◌, ==_iff, Bool-cases, All, add32,
}
use dkms_rpi_codec.Vchiq.PageList.{
  Block, block_pages, page_id, Listing, extend_last, list_pages, list_block, combine_blocks,
}
use dkms_rpi_codec.Vchiq.PageList.Pages.{
  pages_from, pages_from-append, block_page, pages_of_blocks, wide_pages, IsWide, FitsWide,
  append-split, pages_from-split, IsWhole, listed_pages, listed_pages-pages_of_blocks,
}

page_id-page : (b : Block) → IsWide b → page_id b ≡ block_page b * 2 ^ 8
page_id-page b v = omega (arith, v.in_memory)

-- What the block's pages are between the two loops.
pub IsListing : List ℕ → Listing → Type 0
IsListing expected l =
    (p : ℕ) × (l.next_id ≡ p * 2 ^ 8)
    × (p + l.left < 2 ^ 24)
    × All FitsWide l.addrs
    × (wide_pages l.addrs ++ pages_from p l.left ≡ expected)

extend_last-IsListing :
    (addrs : List ℕ) (p n : ℕ)
    → All FitsWide addrs
    → p + n < 2 ^ 24
    → IsListing (wide_pages addrs ++ pages_from p n) (extend_last addrs (p * 2 ^ 8) n)
unfolding IsListing extend_last
extend_last-IsListing [] p n words h = (p, refl, h, tt, refl)
extend_last-IsListing (w ∷ ws) p n (word, words) h = elim (Bool-cases test) [
  | inl e ↦ subst chosen (sym e) (joined e)
  | inr e ↦ subst chosen (sym e) (p, refl, h, (word, words), refl)
]
  where
    test : Bool
    test = add32 (w / 2 ^ 8 * 2 ^ 8) ((w % 2 ^ 8 + 1) * 2 ^ 8 % 2 ^ 32) == p * 2 ^ 8

    inc : ℕ
    inc = min n (255 - w % 2 ^ 8)

    extended : Listing
    extended = record {
      addrs = add32 w inc ∷ ws;
      next_id = add32 (p * 2 ^ 8) (inc * 2 ^ 8 % 2 ^ 32);
      left = n - inc;
    }

    chosen : Bool → Type 0
    chosen b =
        IsListing (wide_pages (w ∷ ws) ++ pages_from p n)
          (if b then extended else record { addrs = w ∷ ws; next_id = p * 2 ^ 8; left = n })

    follows : test ≡ true → p ≡ w / 2 ^ 8 + (w % 2 ^ 8 + 1)
    follows e = omega (
      arith,
      (==_iff (add32 (w / 2 ^ 8 * 2 ^ 8) ((w % 2 ^ 8 + 1) * 2 ^ 8 % 2 ^ 32)) (p * 2 ^ 8)).0 e,
      word,
      h,
    )

    same_page : add32 w inc / 2 ^ 8 ≡ w / 2 ^ 8
    same_page = omega (arith, word)

    more_pages : add32 w inc % 2 ^ 8 + 1 ≡ w % 2 ^ 8 + 1 + inc
    more_pages = omega (arith, word)

    joined : test ≡ true → IsListing (wide_pages (w ∷ ws) ++ pages_from p n) extended
    joined e = (
      p + inc,
      omega (arith, h),
      omega (arith, h),
      (omega (arith, same_page, more_pages, follows e, h), words),
      ap (λ xs. (wide_pages ws ++ xs) ++ pages_from (p + inc) (n - inc))
            (ap₂ pages_from same_page more_pages
              ∙ pages_from-append (w / 2 ^ 8) (w % 2 ^ 8 + 1) inc
              ∙ ap (λ (k : ℕ). pages_from (w / 2 ^ 8) (w % 2 ^ 8 + 1) ++ pages_from k inc)
                  (sym (follows e)))
          ∙ append-split (wide_pages ws) (pages_from (w / 2 ^ 8) (w % 2 ^ 8 + 1)) (pages_from p inc)
              (pages_from (p + inc) (n - inc)) (pages_from p n)
              (pages_from-split p n inc (omega arith)),
    )

-- A word for up to 256 pages.
wide_word : (p inc : ℕ) → 1 ≤ inc → inc ≤ 256 → bit_or (p * 2 ^ 8) (inc - 1) ≡ p * 2 ^ 8 + (inc - 1)
wide_word p inc some_pages few = bit_or_disjoint 8 p (inc - 1) (omega arith)

-- Words that list given pages.
abbrev pub IsListed : List ℕ → List ℕ → Type 0
IsListed expected addrs = All FitsWide addrs × (wide_pages addrs ≡ expected)

list_pages-IsListed :
    (fuel : ℕ) (addrs : List ℕ) (p left : ℕ)
    → left ≤ fuel
    → p + left < 2 ^ 24
    → All FitsWide addrs
    → IsListed (wide_pages addrs ++ pages_from p left) (list_pages fuel addrs (p * 2 ^ 8) left)
unfolding list_pages
list_pages-IsListed zero addrs p left enough h words = (
  words,
  sym (append-nil (wide_pages addrs))
      ∙ ap (λ (k : ℕ). wide_pages addrs ++ pages_from p k) {x = 0} (omega arith),
)
list_pages-IsListed (suc fuel) addrs p left enough h words =
    let again = λ (i : 1 ≤ left) (fits : FitsWide (bit_or (p * 2 ^ 8) (min left 256 - 1))).
      list_pages-IsListed fuel (bit_or (p * 2 ^ 8) (min left 256 - 1) ∷ addrs) (p + min left 256)
        (left - min left 256) (omega arith) (omega arith) (fits, words) in
    elim (Bool-cases (left == 0)) [
      | inl e ↦ subst chosen (sym e) (words, none_left e)
      | inr e ↦
          subst chosen (sym e) (moved (some_left e) (again (some_left e) (fits (some_left e))))
    ]
  where
    inc : ℕ
    inc = min left 256

    word : ℕ
    word = bit_or (p * 2 ^ 8) (inc - 1)

    rest : ℕ → List ℕ
    rest id = list_pages fuel (word ∷ addrs) id (left - inc)

    chosen : Bool → Type 0
    chosen b =
        IsListed (wide_pages addrs ++ pages_from p left)
          (if b then addrs else rest (add32 (p * 2 ^ 8) (inc * 2 ^ 8 % 2 ^ 32)))

    none_left : (left == 0) ≡ true → wide_pages addrs ≡ wide_pages addrs ++ pages_from p left
    none_left e =
        sym (append-nil (wide_pages addrs))
        ∙ ap (λ (k : ℕ). wide_pages addrs ++ pages_from p k) {x = 0}
            (omega (arith, (==_iff left 0).0 e))

    some_left : (left == 0) ≡ false → 1 ≤ left
    some_left e = ground (arith, (==_iff left 0).1)

    fits : 1 ≤ left → FitsWide word
    fits i = omega (arith, wide_word p inc (omega arith) (omega arith))

    word_pages : 1 ≤ left → pages_from (word / 2 ^ 8) (word % 2 ^ 8 + 1) ≡ pages_from p inc
    word_pages i =
        ap₂ pages_from (omega (arith, wide_word p inc (omega arith) (omega arith)))
          (omega (arith, wide_word p inc (omega arith) (omega arith)))

    same_pages :
        1 ≤ left
        → wide_pages (word ∷ addrs) ++ pages_from (p + inc) (left - inc)
          ≡ wide_pages addrs ++ pages_from p left
    same_pages i =
        ap (λ xs. (wide_pages addrs ++ xs) ++ pages_from (p + inc) (left - inc)) (word_pages i)
        ∙ append_assoc (wide_pages addrs) (pages_from p inc) (pages_from (p + inc) (left - inc))
        ∙ ap (◌++◌ (wide_pages addrs)) (sym (pages_from-split p left inc (omega arith)))

    moved :
        1 ≤ left
        → IsListed
            (wide_pages (word ∷ addrs) ++ pages_from (p + inc) (left - inc))
            (rest ((p + inc) * 2 ^ 8))
        → chosen false
    moved i (ok, listed) =
        subst (λ (id : ℕ). IsListed (wide_pages addrs ++ pages_from p left) (rest id))
          {x = (p + inc) * 2 ^ 8} (omega (arith, h)) (ok, listed ∙ same_pages i)

list_block-IsListed :
    (addrs : List ℕ) (b : Block)
    → All FitsWide addrs
    → IsWide b
    → IsListed (wide_pages addrs ++ pages_from (block_page b) (block_pages b)) (list_block addrs b)
unfolding list_block IsListing
list_block-IsListed addrs b words v =
    subst (λ (id : ℕ). IsListed expected (listed (extend_last addrs id (block_pages b))))
      (sym (page_id-page b v))
      (finished (extend_last addrs (block_page b * 2 ^ 8) (block_pages b))
        (extend_last-IsListing addrs (block_page b) (block_pages b) words v.in_memory))
  where
    expected : List ℕ
    expected = wide_pages addrs ++ pages_from (block_page b) (block_pages b)

    listed : Listing → List ℕ
    listed l = list_pages l.left l.addrs l.next_id l.left

    finished : (l : Listing) → IsListing expected l → IsListed expected (listed l)
    finished l (p, id, h, ok, same) =
        subst (λ (k : ℕ). IsListed expected (list_pages l.left l.addrs k l.left)) (sym id)
          (subst (λ xs. IsListed xs (list_pages l.left l.addrs (p * 2 ^ 8) l.left)) same
            (list_pages-IsListed l.left l.addrs p l.left (omega arith) h ok))

combine_blocks-IsListed :
    (bs : List Block) (addrs : List ℕ)
    → All FitsWide addrs
    → All IsWide bs
    → IsListed (wide_pages addrs ++ listed_pages bs) (combine_blocks bs addrs)
unfolding combine_blocks
combine_blocks-IsListed [] addrs words v = (words, sym (append-nil (wide_pages addrs)))
combine_blocks-IsListed (b ∷ bs) addrs words (v, vs) =
    let (ok, listed) = list_block-IsListed addrs b words v in
    let (ok', listed') = combine_blocks-IsListed bs (list_block addrs b) ok vs in
    (
      ok',
      listed'
          ∙ ap (λ xs. xs ++ listed_pages bs) listed
          ∙ append_assoc (wide_pages addrs) (pages_from (block_page b) (block_pages b))
              (listed_pages bs),
    )

-- With addresses of 36 bits the words of a page list stand for exactly the pages on which the bytes of
-- the blocks lie, in their order, however the blocks are joined and cut, and none of them past the
-- memory. Each block has some bytes and starts or ends on a border of pages, or lies within one page;
-- and they lie before the last page of that memory.
pub combine_blocks_lem :
    (bs : List Block)
    → All IsWide bs
    → All IsWhole bs
    → All FitsWide (combine_blocks bs []) × (wide_pages (combine_blocks bs []) ≡ pages_of_blocks bs)
combine_blocks_lem bs v whole =
    let (ok, listed) = combine_blocks-IsListed bs [] tt v in
    (ok, listed ∙ listed_pages-pages_of_blocks bs whole)
