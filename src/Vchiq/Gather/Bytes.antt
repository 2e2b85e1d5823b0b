-- ===== src/Vchiq/Gather/Bytes.antt =====
-- The bytes that elements stand for, and the cutting of lists of bytes.
use dkms_rpi_codec.Base.{
  ℕ, zero, suc, ◌+◌, ◌-◌, ◌≤◌, ◌≡◌, refl, ap, ap₂, ◌∙◌, true, List, [], ◌∷◌, ◌++◌, arith, length,
  take, drop,
}
use dkms_rpi_codec.Vchiq.Gather.{Element, slice}

-- The bytes of the elements, and those that are left in a place among them.
abbrev pub contents : List Element → List ℕ
contents [] = []
contents (e ∷ es) = slice e.bytes 0 e.size ++ contents es

abbrev pub remaining : List Element → ℕ → List ℕ
remaining [] offset = []
remaining (e ∷ es) offset = slice e.bytes offset (e.size - offset) ++ contents es

abbrev pub IsPlace : List Element → ℕ → Type 0
IsPlace [] offset = Unit
IsPlace (e ∷ es) offset = offset ≤ e.size

abbrev pub IsReadable : Element → Type 0
IsReadable e = (offset n : ℕ) → offset + n ≤ e.size → e.readable offset n ≡ true

pub length-slice : (bytes : ℕ → ℕ) (offset n : ℕ) → length (slice bytes offset n) ≡ n
length-slice bytes offset zero = refl
length-slice bytes offset (suc n) = ap suc (length-slice bytes (offset + 1) n)

pub slice-append :
    (bytes : ℕ → ℕ) (offset n m : ℕ)
    → slice bytes offset (n + m) ≡ slice bytes offset n ++ slice bytes (offset + n) m
slice-append bytes offset zero m = ap₂ (slice bytes) (omega arith) (omega arith)
slice-append bytes offset (suc n) m =
    ap (slice bytes offset) {y = suc (n + m)} (omega arith)
    ∙ ap (◌∷◌ (bytes offset)) (
        slice-append bytes (offset + 1) n m
        ∙ ap (λ (k : ℕ). slice bytes (offset + 1) n ++ slice bytes k m) (omega arith))

pub take-append :
    (xs ys : List ℕ) (n k : ℕ) → n ≡ length xs + k → take n (xs ++ ys) ≡ xs ++ take k ys
take-append [] ys n k h = ap (λ (t : ℕ). take t ys) {y = k} (omega arith)
take-append (x ∷ xs) ys zero k h = absurd (omega arith)
take-append (x ∷ xs) ys (suc n) k h = ap (◌∷◌ x) (take-append xs ys n k (omega arith))

pub drop-append : (xs ys : List ℕ) (n k : ℕ) → n ≡ length xs + k → drop n (xs ++ ys) ≡ drop k ys
drop-append [] ys n k h = ap (λ (t : ℕ). drop t ys) {y = k} (omega arith)
drop-append (x ∷ xs) ys zero k h = absurd (omega arith)
drop-append (x ∷ xs) ys (suc n) k h = drop-append xs ys n k (omega arith)

pub remaining-start : (es : List Element) → remaining es 0 ≡ contents es
remaining-start [] = refl
remaining-start (e ∷ es) = ap (λ (t : ℕ). slice e.bytes 0 t ++ contents es) (omega arith)

pub take-nil : (n : ℕ) → take {A = ℕ} n [] ≡ []
take-nil zero = refl
take-nil (suc n) = refl

pub drop-nil : (n : ℕ) → drop {A = ℕ} n [] ≡ []
drop-nil zero = refl
drop-nil (suc n) = refl
