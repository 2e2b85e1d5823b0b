-- ===== src/Vchiq/Gather/Message.antt =====
-- The payload of a message that a process sends is the bytes of its elements.
use dkms_rpi_codec.Base.{
  ℕ, zero, suc, ◌+◌, ◌^◌, ◌≤◌, ◌<◌, ◌≡◌, refl, sym, ap, ◌∙◌, false, List, [], ◌∷◌, append-nil,
  arith, ltb, length, length-append, take, All, add32,
}
use dkms_rpi_codec.Vchiq.Copy.{Chunk, chunk, prepend_bytes, copied, copy_loop, copy_message_data}
use dkms_rpi_codec.Vchiq.Copy.Total.{copy_loop_good}
use dkms_rpi_codec.Vchiq.Gather.{
  Element, slice, efault, gathered, Gathered, element_callback, total_size,
}
use dkms_rpi_codec.Vchiq.Gather.Bytes.{contents, IsReadable, length-slice, remaining-start}
use dkms_rpi_codec.Vchiq.Gather.Whole.{start-IsPlace, copy_elements_lem}

total_size-contents :
    (es : List Element) (total : ℕ)
    → total + length (contents es) < 2 ^ 32
    → total_size es total ≡ total + length (contents es)
total_size-contents [] total h = omega arith
total_size-contents (e ∷ es) total h =
    total_size-contents es (add32 total e.size) (omega (arith, len)) ∙ omega (arith, len)
  where
    len : length (contents (e ∷ es)) ≡ e.size + length (contents es)
    len =
        length-append (slice e.bytes 0 e.size) (contents es)
        ∙ ap (λ (k : ℕ). k + length (contents es)) (length-slice e.bytes 0 e.size)

take-all : (n : ℕ) (xs : List ℕ) → length xs ≤ n → take n xs ≡ xs
take-all zero [] h = refl
take-all zero (x ∷ xs) h = absurd (omega arith)
take-all (suc n) [] h = refl
take-all (suc n) (x ∷ xs) h = ap (◌∷◌ x) (take-all n xs (omega arith))

-- The first call of the callback gives all of the message, so there is no second one.
element_callback-gives :
    (es : List Element) (n : ℕ)
    → All IsReadable es
    → n ≡ length (contents es)
    → element_callback es 0 n ≡ chunk (contents es)
unfolding element_callback
element_callback-gives es n reads h =
    let (es', offset', ends, place, left) = copy_elements_lem es 0 n (start-IsPlace es) reads in
    ap given ends
    ∙ ap chunk (ap (take n) (remaining-start es) ∙ take-all n (contents es) (omega arith))
  where
    given : Gathered → Chunk
    given efault = Chunk.failed 14
    given (gathered ret bytes es' offset) = chunk bytes

copy_loop-done :
    (callback : ℕ → ℕ → Chunk) (fuel size : ℕ) → copy_loop callback fuel size size ≡ copied []
unfolding copy_loop
copy_loop-done callback zero size = refl
copy_loop-done callback (suc fuel) size = rw (not_less, copy_loop) refl
  where
    not_less : ltb size size ≡ false
    not_less = ground arith

copies :
    (es : List Element) (n : ℕ)
    → All IsReadable es
    → n ≡ length (contents es)
    → copy_message_data (element_callback es) n ≡ copied (contents es)
unfolding copy_message_data copy_loop
copies es zero reads h = ap copied (nil (contents es) (sym h))
  where
    nil : (xs : List ℕ) → length xs ≡ 0 → [] ≡ xs
    nil [] e = refl
    nil (x ∷ xs) e = absurd (omega arith)
copies es (suc k) reads h =
    copy_loop_good (element_callback es) k 0 (suc k) (contents es) (ground arith)
      (ap (element_callback es 0) {y = suc k} (omega arith)
        ∙ element_callback-gives es (suc k) reads h)
      (ground (arith, h))
    ∙ ap (λ (t : ℕ). prepend_bytes (contents es) (copy_loop (element_callback es) k t (suc k)))
        {y = suc k} (omega arith)
    ∙ ap (prepend_bytes (contents es)) (copy_loop-done (element_callback es) k (suc k))
    ∙ ap copied (append-nil (contents es))

-- For a message of a process that can be read, of less than 2 ^ 32 bytes, the size that is added up is
-- the one that its elements have together, and the payload that the callback copies is their bytes,
-- one element behind the other.
pub element_callback_lem :
    (es : List Element)
    → All IsReadable es
    → length (contents es) < 2 ^ 32
    → (total_size es 0 ≡ length (contents es))
      × (copy_message_data (element_callback es) (total_size es 0) ≡ copied (contents es))
element_callback_lem es reads h = (sized, copies es (total_size es 0) reads sized)
  where
    sized : total_size es 0 ≡ length (contents es)
    sized = total_size-contents es 0 (omega arith) ∙ omega arith
