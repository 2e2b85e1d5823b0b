-- ===== src/Vchiq/PageList/Pages.antt =====
-- The pages that the words of a page list stand for.
use dkms_rpi_codec.Base.{
  ℕ, zero, suc, ◌+◌, ◌-◌, ◌/◌, ◌%◌, ◌^◌, ◌≤◌, ◌<◌, ◌≡◌, refl, sym, ap, ap₂, ◌∙◌, ◌⊎◌, inl, inr,
  List, [], ◌∷◌, ◌++◌, append_assoc, arith, All,
}
use dkms_rpi_codec.Vchiq.PageList.{page_size, Block, block_pages}

-- The numbers of `n` pages from one on.
abbrev pub pages_from : ℕ → ℕ → List ℕ
pages_from p zero = []
pages_from p (suc n) = p ∷ pages_from (p + 1) n

pub pages_from-append : (p n m : ℕ) → pages_from p (n + m) ≡ pages_from p n ++ pages_from (p + n) m
pages_from-append p zero m = ap₂ pages_from (omega arith) (omega arith)
pages_from-append p (suc n) m =
    ap (pages_from p) {y = suc (n + m)} (omega arith)
    ∙ ap (◌∷◌ p) (
        pages_from-append (p + 1) n m
        ∙ ap (λ (k : ℕ). pages_from (p + 1) n ++ pages_from k m) (omega arith))

-- The pages on which the first and the last byte of a block lie.
abbrev pub block_page : Block → ℕ
block_page b = b.addr / page_size

abbrev pub block_last : Block → ℕ
block_last b = (b.addr + b.len - 1) / page_size

-- The pages on which the bytes of blocks lie, one block behind the other.
abbrev pub pages_of_blocks : List Block → List ℕ
pages_of_blocks [] = []
pages_of_blocks (b ∷ bs) =
    pages_from (block_page b) (block_last b + 1 - block_page b) ++ pages_of_blocks bs

-- A block that is not empty and starts or ends on a border of pages, or lies within one page.
pub record IsWhole (b : Block) : Type 0 where
  pub some_bytes : 1 ≤ b.len
  pub len_word : b.len + page_size ≤ 2 ^ 32
  pub bordered :
      (b.addr % page_size ≡ 0)
      ⊎ ((b.addr + b.len) % page_size ≡ 0)
      ⊎ (b.addr % page_size + b.len ≤ page_size)

-- As many pages as the code counts, from the first one on.
abbrev pub listed_pages : List Block → List ℕ
listed_pages [] = []
listed_pages (b ∷ bs) = pages_from (block_page b) (block_pages b) ++ listed_pages bs

block_pages-IsWhole : (b : Block) → IsWhole b → block_pages b ≡ block_last b + 1 - block_page b
block_pages-IsWhole b v = elim v.bordered [
  | inl h ↦ omega (arith, v.some_bytes, v.len_word, h)
  | inr (inl h) ↦ omega (arith, v.some_bytes, v.len_word, h)
  | inr (inr h) ↦ omega (arith, v.some_bytes, v.len_word, h)
]

pub listed_pages-pages_of_blocks :
    (bs : List Block) → All IsWhole bs → listed_pages bs ≡ pages_of_blocks bs
listed_pages-pages_of_blocks [] v = refl
listed_pages-pages_of_blocks (b ∷ bs) (v, vs) =
    ap₂ ◌++◌ (ap (pages_from (block_page b)) (block_pages-IsWhole b v))
      (listed_pages-pages_of_blocks bs vs)

-- The pages of words of 24 bits for a page and 8 for one less than a count; the last word comes first.
abbrev pub wide_pages : List ℕ → List ℕ
wide_pages [] = []
wide_pages (w ∷ ws) = wide_pages ws ++ pages_from (w / 2 ^ 8) (w % 2 ^ 8 + 1)

-- A block that lies in 36 bits of addresses, and not on the last page.
pub record IsWide (b : Block) : Type 0 where
  pub in_memory : block_page b + block_pages b < 2 ^ 24

-- A word whose pages do.
abbrev pub FitsWide : ℕ → Type 0
FitsWide w = w / 2 ^ 8 + w % 2 ^ 8 + 1 < 2 ^ 24

pub append-split : (w a b c d : List ℕ) → d ≡ b ++ c → (w ++ (a ++ b)) ++ c ≡ (w ++ a) ++ d
append-split w a b c d h =
    ap (λ xs. xs ++ c) (sym (append_assoc w a b))
    ∙ append_assoc (w ++ a) b c
    ∙ ap (◌++◌ (w ++ a)) (sym h)

pub pages_from-split :
    (p n m : ℕ) → m ≤ n → pages_from p n ≡ pages_from p m ++ pages_from (p + m) (n - m)
pages_from-split p n m h =
    ap (pages_from p) {y = m + (n - m)} (omega arith) ∙ pages_from-append p m (n - m)
