-- ===== src/Vchiq/Copy/Total.antt =====
-- What `copy_message_data` copies, and that it ends.
use dkms_rpi_codec.Base.{
  ℕ, zero, suc, ◌+◌, ◌-◌, ◌≤◌, ◌<◌, ◌≡◌, refl, sym, ap, ◌∙◌, subst, inl, inr, Bool, true, false,
  ◌||◌, List, arith, ltb, ◌==◌, Bool-cases, length, length-append, take, drop, length-take,
  length-drop, drop-all, take-append-drop_from,
}
use dkms_rpi_codec.Vchiq.Copy.{
  Chunk, chunk, failed, Copied, copied, copy_error, prepend_bytes, copy_loop, copy_message_data,
}

-- The two tests of the loop on what the callback returned.
abbrev refused : ℕ → List ℕ → Bool
refused room bytes = (length bytes == 0) || ltb room (length bytes)

-- One round of the loop that a good chunk ends.
pub copy_loop_good :
    (callback : ℕ → ℕ → Chunk) (fuel pos size : ℕ) (bytes : List ℕ)
    → ltb pos size ≡ true
    → callback pos (size - pos) ≡ chunk bytes
    → refused (size - pos) bytes ≡ false
    → copy_loop callback (suc fuel) pos size
      ≡ prepend_bytes bytes (copy_loop callback fuel (pos + length bytes) size)
unfolding copy_loop
copy_loop_good callback fuel pos size bytes more e good = rw (more, e, good, copy_loop)

-- A callback that serves a source: asked for bytes from `pos` on, it gives one at least and as many as
-- it was asked for at most, in order.
abbrev pub Serves : (ℕ → ℕ → Chunk) → List ℕ → Type 0
Serves callback src =
    (pos room : ℕ)
    → 0 < room
    → (k : ℕ) × (0 < k) × (k ≤ room) × (callback pos room ≡ chunk (take k (drop pos src)))

module _ (callback : ℕ → ℕ → Chunk) (src : List ℕ) (fuel pos k : ℕ) where
  served : List ℕ
  served = take k (drop pos src)

  length-served : k ≤ length src - pos → pos < length src → length served ≡ k
  unfolding served
  length-served fits more = length-take k (drop pos src) (omega (arith, length-drop pos src))

  good-served :
      0 < k → k ≤ length src - pos → pos < length src → refused (length src - pos) served ≡ false
  good-served pos_k fits more = ground (arith, length-served fits more)

  copy_loop_round :
      0 < k
      → k ≤ length src - pos
      → ltb pos (length src) ≡ true
      → callback pos (length src - pos) ≡ chunk served
      → copy_loop callback fuel (pos + k) (length src) ≡ copied (drop (pos + k) src)
      → copy_loop callback (suc fuel) pos (length src) ≡ copied (drop pos src)
  unfolding served
  copy_loop_round pos_k fits more e rest =
      copy_loop_good callback fuel pos (length src) served more e (good-served pos_k fits lt)
      ∙ ap (λ (t : ℕ). prepend_bytes served (copy_loop callback fuel (pos + t) (length src)))
          (length-served fits lt)
      ∙ ap (prepend_bytes served) rest
      ∙ ap copied (take-append-drop_from pos k src)
    where
      lt : pos < length src
      lt = ground arith

copy_loop-Serves :
    (callback : ℕ → ℕ → Chunk) (src : List ℕ)
    → Serves callback src
    → (fuel pos : ℕ) → length src ≤ pos + fuel
    → copy_loop callback fuel pos (length src) ≡ copied (drop pos src)
unfolding copy_loop served
copy_loop-Serves callback src serves zero pos enough =
    ap copied (sym (drop-all pos src (omega arith)))
copy_loop-Serves callback src serves (suc fuel) pos enough =
    elim (Bool-cases (ltb pos (length src))) [
      | inr done ↦ rw (done, copy_loop) (ap copied (sym (drop-all pos src (ground arith))))
      | inl more ↦
          let (k, some_bytes, fits, e) = serves pos (length src - pos) (ground arith) in
          copy_loop_round callback src fuel pos k some_bytes fits more e
            (copy_loop-Serves callback src serves fuel (pos + k) (omega arith))
    ]

-- A callback that serves a source in chunks of any sizes has all of it copied, in order, however many
-- rounds that takes.
pub copy_message_data-Serves :
    (callback : ℕ → ℕ → Chunk) (src : List ℕ)
    → Serves callback src
    → copy_message_data callback (length src) ≡ copied src
unfolding copy_message_data
copy_message_data-Serves callback src serves =
    copy_loop-Serves callback src serves (length src) 0 (omega arith)

-- A copy that succeeds has a given length.
abbrev pub HasLength : ℕ → Copied → Type 0
HasLength n (copied bytes) = length bytes ≡ n
HasLength n (copy_error e) = Unit

prepend-HasLength :
    (bytes : List ℕ) (n m : ℕ) (c : Copied)
    → m ≡ length bytes + n
    → HasLength n c
    → HasLength m (prepend_bytes bytes c)
prepend-HasLength bytes n m (copied rest) e h = omega (arith, length-append bytes rest)
prepend-HasLength bytes n m (copy_error x) e h = tt

round-HasLength :
    (callback : ℕ → ℕ → Chunk) (fuel pos size : ℕ)
    → ((p : ℕ) → size ≤ p + fuel → HasLength (size - p) (copy_loop callback fuel p size))
    → size ≤ pos + suc fuel
    → ltb pos size ≡ true
    → (c : Chunk) → callback pos (size - pos) ≡ c
    → HasLength (size - pos) (copy_loop callback (suc fuel) pos size)
unfolding copy_loop
round-HasLength callback fuel pos size ih enough more (failed x) e = rw (more, e, copy_loop) tt
round-HasLength callback fuel pos size ih enough more (chunk bytes) e =
    elim (Bool-cases (refused (size - pos) bytes)) [
      | inl bad ↦ rw (more, e, bad, copy_loop) tt
      | inr good ↦
          rw (more, e, good, copy_loop)
            (prepend-HasLength bytes (size - (pos + length bytes)) (size - pos)
              (copy_loop callback fuel (pos + length bytes) size) (ground arith)
              (ih (pos + length bytes) (ground arith)))
    ]

copy_loop-HasLength :
    (callback : ℕ → ℕ → Chunk) (fuel pos size : ℕ)
    → size ≤ pos + fuel
    → HasLength (size - pos) (copy_loop callback fuel pos size)
unfolding copy_loop
copy_loop-HasLength callback zero pos size enough = omega arith
copy_loop-HasLength callback (suc fuel) pos size enough = elim (Bool-cases (ltb pos size)) [
  | inr done ↦ rw (done, copy_loop) (ground arith)
  | inl more ↦
      round-HasLength callback fuel pos size (λ p. copy_loop-HasLength callback fuel p size) enough
        more (callback pos (size - pos)) refl
]

-- Whatever the callback does, a copy that succeeds has exactly the number of bytes that was asked for.
pub copy_message_data-HasLength :
    (callback : ℕ → ℕ → Chunk) (size : ℕ) → HasLength size (copy_message_data callback size)
unfolding copy_message_data
copy_message_data-HasLength callback size =
    subst (λ n. HasLength n (copy_loop callback size 0 size)) {x = size - 0} (omega arith)
      (copy_loop-HasLength callback size 0 size (omega arith))
