-- ===== src/Vchiq/Fragments/Ends.antt =====
-- The bytes that the copies out of a fragment write, as two intervals.
use dkms_rpi_codec.Base.{
  ℕ, ◌+◌, ◌≤◌, ◌<◌, min, ◌≡◌, refl, sym, ap, ◌∙◌, subst, ◌⊎◌, inl, inr, Bool, true, false, not,
  ◌&&◌, ◌||◌, List, [], ◌∷◌, ◌++◌, arith, ltb, leb, ◌==◌, if◌then◌else◌, ==_iff, Bool-cases,
}
use dkms_rpi_codec.Vchiq.Fragments.{
  tail_place, FragmentCopy, head_bytes, tail_bytes, head_copy, tail_copy, restore_ends,
}

-- Whether a byte is written by one of the copies.
abbrev pub is_written : List FragmentCopy → ℕ → Bool
is_written [] x = false
is_written (c ∷ cs) x = leb c.to x && ltb x (c.to + c.len) || is_written cs x

is_written-append :
    (cs ds : List FragmentCopy) (x : ℕ)
    → is_written (cs ++ ds) x ≡ (is_written cs x || is_written ds x)
is_written-append [] ds x = refl
is_written-append (c ∷ cs) ds x = ground (arith, is_written-append cs ds x)

interval :
    (c : FragmentCopy) (x : ℕ)
    → (is_written (c ∷ []) x ≡ true → (c.to ≤ x) × (x < c.to + c.len))
      × ((c.to ≤ x) × (x < c.to + c.len) → is_written (c ∷ []) x ≡ true)
interval c x = (λ e. ground (arith, e), λ h. ground (arith, h))

-- The head is written unless it is empty.
head-written :
    (line offset actual x : ℕ)
    → (is_written (head_copy line offset actual) x ≡ true
        → (offset ≤ x) × (x < offset + min (head_bytes line offset) actual))
      × ((offset ≤ x) × (x < offset + min (head_bytes line offset) actual)
          → is_written (head_copy line offset actual) x ≡ true)
head-written line offset actual x = elim (Bool-cases (head_bytes line offset == 0)) [
  | inl e ↦ subst chosen (sym e) (
    λ no_bytes. absurd (cc no_bytes),
    λ (le, lt). absurd (omega (arith, (==_iff (head_bytes line offset) 0).0 e, lt, le)),
  )
  | inr e ↦ subst chosen (sym e) (interval c x)
]
  where
    c : FragmentCopy
    c = record { to = offset; from = 0; len = min (head_bytes line offset) actual }

    chosen : Bool → Type 0
    chosen b =
        (is_written (if b then [] else c ∷ []) x ≡ true
          → (offset ≤ x) × (x < offset + min (head_bytes line offset) actual))
        × ((offset ≤ x) × (x < offset + min (head_bytes line offset) actual)
            → is_written (if b then [] else c ∷ []) x ≡ true)

-- The tail is written if the head does not take all.
tail-written :
    (line pages offset actual x : ℕ)
    → (is_written (tail_copy line pages offset actual) x ≡ true
        → (head_bytes line offset < actual)
          × (tail_place line pages offset actual ≤ x)
          × (x < tail_place line pages offset actual + tail_bytes line offset actual))
      × ((head_bytes line offset < actual)
            × (tail_place line pages offset actual ≤ x)
            × (x < tail_place line pages offset actual + tail_bytes line offset actual)
          → is_written (tail_copy line pages offset actual) x ≡ true)
tail-written line pages offset actual x = elim (Bool-cases test) [
  | inl e ↦ subst chosen (sym e) (
    λ w. (ground (arith, e), ((interval c x).0 w).0, ((interval c x).0 w).1),
    λ (lt, from, upto). (interval c x).1 (from, upto),
  )
  | inr e ↦
      subst chosen (sym e)
        (λ no_bytes. absurd (cc no_bytes), λ (lt, from, upto). none_there e lt from upto)
]
  where
    test : Bool
    test = ltb (head_bytes line offset) actual && not (tail_bytes line offset actual == 0)

    c : FragmentCopy
    c = record {
      to = tail_place line pages offset actual;
      from = line;
      len = tail_bytes line offset actual;
    }

    chosen : Bool → Type 0
    chosen b =
        (is_written (if b then c ∷ [] else []) x ≡ true
          → (head_bytes line offset < actual) × (c.to ≤ x) × (x < c.to + c.len))
        × ((head_bytes line offset < actual) × (c.to ≤ x) × (x < c.to + c.len)
            → is_written (if b then c ∷ [] else []) x ≡ true)

    none_there :
        test ≡ false → head_bytes line offset < actual → c.to ≤ x → x < c.to + c.len → false ≡ true
    none_there e lt from upto = ground (arith, e)

-- What is written, as two intervals.
unfoldable pub IsInEnds : ℕ → ℕ → ℕ → ℕ → ℕ → Type 0
IsInEnds line pages offset actual x =
    (offset ≤ x) × (x < offset + min (head_bytes line offset) actual)
    ⊎ (head_bytes line offset < actual)
      × (tail_place line pages offset actual ≤ x)
      × (x < tail_place line pages offset actual + tail_bytes line offset actual)

pub ends-written :
    (line pages offset actual x : ℕ)
    → (is_written (restore_ends line pages offset actual false) x ≡ true
        → IsInEnds line pages offset actual x)
      × (IsInEnds line pages offset actual x
          → is_written (restore_ends line pages offset actual false) x ≡ true)
unfolding restore_ends IsInEnds
ends-written line pages offset actual x = (
  λ e. elim (Bool-cases (is_written hs x)) [
    | inl h ↦ inl ((head-written line offset actual x).0 h)
    | inr h ↦ inr (
        (tail-written line pages offset actual x).0
          (ap (λ b. b || is_written ts x) (sym h) ∙ sym (is_written-append hs ts x) ∙ e))
  ],
  λ inside. is_written-append hs ts x ∙ elim inside [
    | inl h ↦ ap (λ b. b || is_written ts x) ((head-written line offset actual x).1 h)
    | inr t ↦
        or_true (is_written hs x) (is_written ts x) ((tail-written line pages offset actual x).1 t)
  ],
)
  where
    hs : List FragmentCopy
    hs = head_copy line offset actual

    ts : List FragmentCopy
    ts = tail_copy line pages offset actual

    or_true : (a b : Bool) → b ≡ true → (a || b) ≡ true
    or_true a b e = ground (arith, e)
