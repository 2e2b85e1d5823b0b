-- ===== src/Vchiq/Bulk/Window.antt =====
-- The cells of a bulk queue from one counter to another, as a list.
use dkms_rpi_codec.Base.{
  ℕ, zero, suc, ◌+◌, ◌%◌, ◌^◌, ◌<◌, ◌≡◌, refl, ap, ap₂, ◌∙◌, ◌≢◌, List, [], ◌∷◌, ◌++◌, arith,
  bit_and_mask, length, update, update_ne, add32,
}
use dkms_rpi_codec.Vchiq.State.{Bulk}
use dkms_rpi_codec.Vchiq.Bulk.{bulk_index}

pub bulk_index-eq-mod : (x : ℕ) → bulk_index x ≡ x % 4
unfolding bulk_index
bulk_index-eq-mod x = bit_and_mask 2 x

abbrev pub window : (ℕ → Bulk) → ℕ → ℕ → List Bulk
window bulks c zero = []
window bulks c (suc n) = bulks (bulk_index c) ∷ window bulks (add32 c 1) n

-- A write at a counter beyond the window, and less than four from its start, leaves it alone.
pub window-update :
    (bulks : ℕ → Bulk) (i : ℕ) (b : Bulk) (n c k : ℕ)
    → i % 4 ≡ (c + n + k) % 4
    → n + k < 4
    → window (update bulks (bulk_index i) b) c n ≡ window bulks c n
window-update bulks i b zero c k e h = refl
window-update bulks i b (suc n) c k e h =
    ap₂ ◌∷◌ (update_ne bulks (bulk_index i) b (bulk_index c) apart)
      (window-update bulks i b n (add32 c 1) k (omega arith) (omega arith))
  where
    apart : bulk_index i ≢ bulk_index c
    apart = omega (arith, bulk_index-eq-mod i, bulk_index-eq-mod c)

pub window-snoc :
    (bulks : ℕ → Bulk) (n c : ℕ)
    → c < 2 ^ 32
    → window bulks c (suc n) ≡ window bulks c n ++ bulks (bulk_index (add32 c n)) ∷ []
window-snoc bulks zero c h = ap (λ (t : ℕ). bulks (bulk_index t) ∷ []) (omega arith)
window-snoc bulks (suc n) c h = ap (◌∷◌ (bulks (bulk_index c))) (
    window-snoc bulks n (add32 c 1) (omega arith)
    ∙ ap (λ (t : ℕ). window bulks (add32 c 1) n ++ bulks (bulk_index t) ∷ []) (omega arith))

pub length-window : (bulks : ℕ → Bulk) (n c : ℕ) → length (window bulks c n) ≡ n
length-window bulks zero c = refl
length-window bulks (suc n) c = ap suc (length-window bulks n (add32 c 1))

-- A window of one more, where the count is known by an equation.
pub window-suc :
    (bulks : ℕ → Bulk) (c m n : ℕ)
    → m ≡ suc n
    → window bulks c m ≡ bulks (bulk_index c) ∷ window bulks (add32 c 1) n
window-suc bulks c m n e = ap (window bulks c) e
