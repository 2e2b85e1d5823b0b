-- ===== src/Vchiq/FreeQueue/Walk.antt =====
-- The walk over a freed slot as a pass over the list of its messages.
use dkms_rpi_codec.Base.{
  ℕ, zero, suc, ◌+◌, ◌*◌, ◌≤◌, ◌≡◌, refl, sym, inl, inr, true, false, List, [], ◌∷◌, arith, ltb,
  if◌then◌else◌, Bool-cases, add32,
}
use dkms_rpi_codec.Vchiq.Message.{slot_size, calc_stride, max_msg_size}
use dkms_rpi_codec.Vchiq.Message.Stride.{calc_stride-eq-div}
use dkms_rpi_codec.Vchiq.State.{Header}
use dkms_rpi_codec.Vchiq.FreeQueue.{Freed, free_message, free_walk, free_steps}

-- The words of the messages that stand in a slot from a position on.
unfoldable pub messages : ℕ → (ℕ → Header) → ℕ → List ℕ
messages zero slot pos = []
messages (suc fuel) slot pos =
    let rest = messages fuel slot (add32 pos (calc_stride (slot pos).size)) in
    if ltb pos slot_size then (slot pos).msgid ∷ rest else []

unfoldable pub free_all : Freed → List ℕ → Freed
free_all w [] = w
free_all w (msgid ∷ ms) = free_all (free_message w msgid) ms

pub free_walk-eq-free_all :
    (fuel : ℕ) (slot : ℕ → Header) (pos : ℕ) (w : Freed)
    → free_walk fuel slot pos w ≡ free_all w (messages fuel slot pos)
unfolding free_walk messages free_all
free_walk-eq-free_all zero slot pos w = refl
free_walk-eq-free_all (suc fuel) slot pos w = elim (Bool-cases (ltb pos slot_size)) [
  | inl more ↦
      rw (more, free_walk, messages)
        (free_walk-eq-free_all fuel slot (add32 pos (calc_stride (slot pos).size))
          (free_message w (slot pos).msgid))
  | inr done ↦ rw (done, free_walk, messages) refl
]

free_walk_done :
    (fuel : ℕ) (slot : ℕ → Header) (pos : ℕ) (w : Freed)
    → slot_size ≤ pos
    → free_walk fuel slot pos w ≡ w
unfolding free_walk
free_walk_done zero slot pos w h = refl
free_walk_done (suc fuel) slot pos w h = rw (past, free_walk) refl
  where
    past : ltb pos slot_size ≡ false
    past = ground arith

-- Enough steps for what is left of the slot.
abbrev Enough : ℕ → ℕ → Type 0
Enough pos fuel = slot_size ≤ pos + 8 * fuel

free_walk_any :
    (slot : ℕ → Header)
    → ((p : ℕ) → (slot p).size ≤ max_msg_size)
    → (n m pos : ℕ) (w : Freed) → Enough pos n
    → Enough pos m
    → free_walk n slot pos w ≡ free_walk m slot pos w
unfolding free_walk
free_walk_any slot short zero m pos w a b = sym (free_walk_done m slot pos w (omega arith))
free_walk_any slot short (suc n) zero pos w a b = free_walk_done (suc n) slot pos w (omega arith)
free_walk_any slot short (suc n) (suc m) pos w a b = elim (Bool-cases (ltb pos slot_size)) [
  | inr done ↦ rw (done, free_walk) refl
  | inl more ↦
      rw (more, free_walk)
        (free_walk_any slot short n m (add32 pos (calc_stride (slot pos).size))
          (free_message w (slot pos).msgid) (omega (arith, ahead more)) (omega (arith, ahead more)))
]
  where
    ahead : ltb pos slot_size ≡ true → pos + 8 ≤ add32 pos (calc_stride (slot pos).size)
    ahead more =
        ground (arith, short pos, calc_stride-eq-div (slot pos).size (omega (arith, short pos)))

-- Where no message is longer than this side sends, the walk over a slot has come to its end after as
-- many steps as messages fit in one: any number of steps more gives the same.
pub free_walk_ends :
    (slot : ℕ → Header) (more : ℕ) (w : Freed)
    → ((p : ℕ) → (slot p).size ≤ max_msg_size)
    → free_walk (free_steps + more) slot 0 w ≡ free_walk free_steps slot 0 w
free_walk_ends slot more w short =
    free_walk_any slot short (free_steps + more) free_steps 0 w (omega arith) (omega arith)
