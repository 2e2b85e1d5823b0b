-- ===== src/Vchiq/Window.antt =====
-- The items of a ring between its two counters, words of 32 bits of which an index function takes
-- the place of an item. The rings of vchiq_util.c and vchiq_arm.c are read this way.
use dkms_rpi_codec.Base.{
  ℕ, zero, suc, ◌^◌, ◌<◌, ◌≡◌, refl, sym, ap, ap₂, ◌∙◌, subst, ◌≢◌, List, [], ◌∷◌, ◌++◌, arith,
  update, update_self, update_ne, add32,
}

-- The items from one counter on, as a list.
abbrev pub window : {A : Type 0} → (ℕ → ℕ) → (ℕ → A) → ℕ → ℕ → List A
window index storage c zero = []
window index storage c (suc n) = storage (index c) ∷ window index storage (add32 c 1) n

-- A write to a place that holds no item of the window leaves the window alone.
pub window-update :
    {A : Type 0} (index : ℕ → ℕ) (storage : ℕ → A) (i : ℕ) (x : A) (n c : ℕ)
    → c < 2 ^ 32
    → ((j : ℕ) → j < n → i ≢ index (add32 c j))
    → window index (update storage i x) c n ≡ window index storage c n
window-update index storage i x zero c w h = refl
window-update index storage i x (suc n) c w h =
    ap₂ ◌∷◌ (update_ne storage i x (index c) first)
      (window-update index storage i x n (add32 c 1) (omega arith) later)
  where
    first : i ≢ index c
    first e = h 0 (omega arith) (e ∙ ap index (omega arith))

    later : (j : ℕ) → j < n → i ≢ index (add32 (add32 c 1) j)
    later j b e = h (suc j) (omega arith) (e ∙ ap index (omega arith))

-- A window of one item more ends in that item.
pub window-snoc :
    {A : Type 0} (index : ℕ → ℕ) (storage : ℕ → A) (n c : ℕ)
    → c < 2 ^ 32
    → window index storage c (suc n) ≡ window index storage c n ++ storage (index (add32 c n)) ∷ []
window-snoc index storage zero c h = ap (λ (t : ℕ). window index storage t 1) (omega arith)
window-snoc index storage (suc n) c h = ap (◌∷◌ (storage (index c))) (
    window-snoc index storage n (add32 c 1) (omega arith)
    ∙ ap (λ (t : ℕ). window index storage (add32 c 1) n ++ storage (index t) ∷ []) (omega arith))

-- A write at the end of the window adds its item there.
pub window-push :
    {A : Type 0} (index : ℕ → ℕ) (storage : ℕ → A) (x : A) (n c e : ℕ)
    → c < 2 ^ 32
    → e ≡ add32 c n
    → ((j : ℕ) → j < n → index e ≢ index (add32 c j))
    → window index (update storage (index e) x) c (suc n) ≡ window index storage c n ++ x ∷ []
window-push index storage x n c e w p h =
    window-snoc index (update storage (index e) x) n c w
    ∙ ap₂ (λ xs y. xs ++ y ∷ []) (window-update index storage (index e) x n c w h)
        (ap (λ (t : ℕ). update storage (index e) x (index t)) (sym p)
          ∙ update_self storage (index e) x)

-- Storages that agree on the places of a window have the same window.
pub window-cong :
    {A : Type 0} (index : ℕ → ℕ) (storage storage' : ℕ → A) (n c : ℕ)
    → c < 2 ^ 32
    → ((j : ℕ) → j < n → storage' (index (add32 c j)) ≡ storage (index (add32 c j)))
    → window index storage' c n ≡ window index storage c n
window-cong index storage storage' zero c w h = refl
window-cong index storage storage' (suc n) c w h =
    ap₂ ◌∷◌ (subst (λ (k : ℕ). storage' (index k) ≡ storage (index k)) at (h 0 (omega arith)))
      (window-cong index storage storage' n (add32 c 1) (omega arith) later)
  where
    at : add32 c 0 ≡ c
    at = omega arith

    later :
        (j : ℕ)
        → j < n
        → storage' (index (add32 (add32 c 1) j)) ≡ storage (index (add32 (add32 c 1) j))
    later j b =
        subst (λ (k : ℕ). storage' (index k) ≡ storage (index k)) (shift j)
          (h (suc j) (omega arith))
      where
        shift : (j : ℕ) → add32 c (suc j) ≡ add32 (add32 c 1) j
        shift j = omega arith

-- An empty window has no length.
pub window-nil :
    {A : Type 0} (index : ℕ → ℕ) (storage : ℕ → A) (n c : ℕ) → window index storage c n ≡ [] → n ≡ 0
window-nil index storage zero c e = refl
window-nil index storage (suc n) c e = absurd (cc e)
