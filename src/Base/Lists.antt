-- ===== src/Base/Lists.antt =====
-- Lists measured and indexed by native numbers, arrays as total functions, and predicates on lists.
use Prim.Native.Nat.{ℕ, zero, suc, ◌+◌, ◌≤◌}
use mathlib.Core.Path.{◌≡◌, refl, ap, ◌∙◌}
use mathlib.Core.Logic.{◌≢◌}
use mathlib.Core.List.{List, [], ◌∷◌, ◌++◌}
use mathlib.Core.Option.{Option, none, some}
use native.Mathlib.Omega.{arith}
use dkms_rpi_codec.Base.Tests.{◌==◌, if◌then◌else◌, ==_refl, ==_ne}

module _ {ℓ} {A : Type ℓ} where
  abbrev pub length : List A → ℕ
  length [] = 0
  length (x ∷ xs) = suc (length xs)

  abbrev pub get_elem? : List A → ℕ → Option A
  get_elem? [] i = none
  get_elem? (x ∷ xs) zero = some x
  get_elem? (x ∷ xs) (suc i) = get_elem? xs i

  -- A write out of bounds changes nothing.
  abbrev pub set : List A → ℕ → A → List A
  set [] i v = []
  set (x ∷ xs) zero v = v ∷ xs
  set (x ∷ xs) (suc i) v = x ∷ set xs i v

  pub length-append : (xs ys : List A) → length (xs ++ ys) ≡ length xs + length ys
  length-append [] ys = omega arith
  length-append (x ∷ xs) ys = omega (arith, length-append xs ys)

module _ {ℓ} {A : Type ℓ} where
  abbrev pub take : ℕ → List A → List A
  take zero xs = []
  take (suc n) [] = []
  take (suc n) (x ∷ xs) = x ∷ take n xs

  abbrev pub drop : ℕ → List A → List A
  drop zero xs = xs
  drop (suc n) [] = []
  drop (suc n) (x ∷ xs) = drop n xs

  pub length-take : (n : ℕ) (xs : List A) → n ≤ length xs → length (take n xs) ≡ n
  length-take zero xs h = refl
  length-take (suc n) [] h = absurd (omega arith)
  length-take (suc n) (x ∷ xs) h = ap suc (length-take n xs (omega arith))

  pub length-drop : (n : ℕ) (xs : List A) → n ≤ length xs → length (drop n xs) + n ≡ length xs
  length-drop zero xs h = omega arith
  length-drop (suc n) [] h = absurd (omega arith)
  length-drop (suc n) (x ∷ xs) h = omega (arith, length-drop n xs (omega arith))

  pub drop-all : (n : ℕ) (xs : List A) → length xs ≤ n → drop n xs ≡ []
  drop-all zero [] h = refl
  drop-all zero (x ∷ xs) h = absurd (omega arith)
  drop-all (suc n) [] h = refl
  drop-all (suc n) (x ∷ xs) h = drop-all n xs (omega arith)

  -- What is taken after a drop, and what a longer drop leaves.
  pub take-append-drop_from :
      (p k : ℕ) (xs : List A) → take k (drop p xs) ++ drop (p + k) xs ≡ drop p xs
  take-append-drop_from zero zero xs = refl
  take-append-drop_from zero (suc k) [] = drop-all (0 + suc k) [] (omega arith)
  take-append-drop_from zero (suc k) (x ∷ xs) =
      ap (λ (t : ℕ). x ∷ take k xs ++ drop t (x ∷ xs)) {y = suc (0 + k)} (omega arith)
      ∙ ap (◌∷◌ x) (take-append-drop_from zero k xs)
  take-append-drop_from (suc p) zero [] = drop-all (suc p + 0) [] (omega arith)
  take-append-drop_from (suc p) (suc k) [] = drop-all (suc p + suc k) [] (omega arith)
  take-append-drop_from (suc p) k (x ∷ xs) =
      ap (λ (t : ℕ). take k (drop p xs) ++ drop t (x ∷ xs)) {y = suc (p + k)} (omega arith)
      ∙ take-append-drop_from p k xs

-- A C array that is never read out of range, as a function of the index.
abbrev pub update {ℓ} : {A : Type ℓ} → (ℕ → A) → ℕ → A → ℕ → A
update f i v j = if i == j then v else f j

module _ {ℓ} {A : Type ℓ} (f : ℕ → A) (i : ℕ) (v : A) where
  pub update_self : update f i v i ≡ v
  update_self = rw (==_refl i)

  pub update_ne : (j : ℕ) → i ≢ j → update f i v j ≡ f j
  update_ne j h = rw (==_ne i j h)

-- A predicate of every element; it computes to tuples, which the tactics read.
abbrev pub All {ℓ κ} : {A : Type ℓ} → (A → Type κ) → List A → Type κ
All P [] = Unit
All P (x ∷ xs) = P x × All P xs
