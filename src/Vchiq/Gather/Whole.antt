-- ===== src/Vchiq/Gather/Whole.antt =====
-- A message in elements is copied as their bytes one behind the other, however the copy is cut.
use dkms_rpi_codec.Base.{
  ℕ, zero, suc, ◌+◌, ◌-◌, ◌≤◌, min, ◌≡◌, refl, sym, ap, ap₂, ◌∙◌, subst, inl, inr, true, false,
  List, [], ◌∷◌, ◌++◌, append_assoc, arith, ltb, ◌==◌, ==_iff, Bool-cases, length, length-append,
  take, drop, All,
}
use dkms_rpi_codec.Vchiq.Gather.{
  copy_elements, Element, slice, Gathered, gathered, prepend_gathered, gather,
}
use dkms_rpi_codec.Vchiq.Gather.Bytes.{
  contents, remaining, IsPlace, IsReadable, length-slice, slice-append, take-append, drop-append,
  remaining-start, take-nil, drop-nil,
}

-- What a call on a place is to give: the next bytes, and the place behind them.
pub IsNext : List ℕ → ℕ → ℕ → Gathered → Type 0
IsNext bytes total room r =
    (es : List Element) × (offset : ℕ) × (r
      ≡ gathered (total + min room (length bytes)) (take room bytes) es offset)
    × IsPlace es offset
    × (remaining es offset ≡ drop room bytes)

gather-full :
    (fuel : ℕ) (es : List Element) (offset maxsize : ℕ)
    → gather (suc fuel) es offset maxsize maxsize ≡ gathered maxsize [] es offset
unfolding gather
gather-full fuel [] offset maxsize = ground arith
gather-full fuel (e ∷ es) offset maxsize = ground arith

module _ (fuel : ℕ) (e : Element) (es : List Element) (offset total maxsize : ℕ) where
  abbrev n : ℕ
  n = min (e.size - offset) (maxsize - total)

  gather-skip :
      ltb total maxsize ≡ true
      → (e.size == 0) ≡ true
      → gather (suc fuel) (e ∷ es) offset total maxsize ≡ gather fuel es 0 total maxsize
  unfolding gather
  gather-skip more empty = rw (more, empty) refl

  gather-next :
      ltb total maxsize ≡ true
      → (e.size == 0) ≡ false
      → e.readable offset n ≡ true
      → (offset + n == e.size) ≡ true
      → gather (suc fuel) (e ∷ es) offset total maxsize
        ≡ prepend_gathered (slice e.bytes offset n) (gather fuel es 0 (total + n) maxsize)
  unfolding gather
  gather-next more full reads ends = rw (more, full, reads, ends) refl

  gather-more :
      ltb total maxsize ≡ true
      → (e.size == 0) ≡ false
      → e.readable offset n ≡ true
      → (offset + n == e.size) ≡ false
      → gather (suc fuel) (e ∷ es) offset total maxsize
        ≡ prepend_gathered
            (slice e.bytes offset n)
            (gather fuel (e ∷ es) (offset + n) (total + n) maxsize)
  unfolding gather
  gather-more more full reads ends = rw (more, full, reads, ends) refl

full-IsNext :
    (fuel : ℕ) (es : List Element) (offset total maxsize : ℕ)
    → total ≡ maxsize
    → IsPlace es offset
    → IsNext
        (remaining es offset)
        total
        (maxsize - total)
        (gather (suc fuel) es offset total maxsize)
unfolding IsNext
full-IsNext fuel es offset total maxsize h place = (
  es,
  offset,
  ap (λ (t : ℕ). gather (suc fuel) es offset t maxsize) h
      ∙ gather-full fuel es offset maxsize
      ∙ ap₂ (λ (r k : ℕ). gathered r (take k (remaining es offset)) es offset) ret_eq none_left,
  place,
  ap (λ (k : ℕ). drop k (remaining es offset)) none_left,
)
  where
    none_left : 0 ≡ maxsize - total
    none_left = omega arith

    ret_eq : maxsize ≡ total + min (maxsize - total) (length (remaining es offset))
    ret_eq = omega arith

ended-IsNext :
    (fuel offset total maxsize : ℕ)
    → total ≤ maxsize
    → IsNext [] total (maxsize - total) (gather (suc fuel) [] offset total maxsize)
unfolding IsNext gather
ended-IsNext fuel offset total maxsize h = (
  [],
  offset,
  ends
      ∙ ap (λ bytes. gathered (total + min (maxsize - total) 0) bytes [] offset)
          (sym (take-nil (maxsize - total))),
  tt,
  sym (drop-nil (maxsize - total)),
)
  where
    ends :
        gather (suc fuel) [] offset total maxsize
        ≡ gathered (total + min (maxsize - total) 0) [] [] offset
    ends = ground (arith, h)

prepend-IsNext :
    (xs ys : List ℕ) (n total room room' : ℕ) (r : Gathered)
    → length xs ≡ n
    → room ≡ n + room'
    → IsNext ys (total + n) room' r
    → IsNext (xs ++ ys) total room (prepend_gathered xs r)
unfolding IsNext
prepend-IsNext xs ys n total room room' r len h (es, offset, ends, place, left) = (
  es,
  offset,
  ap (prepend_gathered xs) ends
      ∙ ap₂ (λ (t : ℕ) bytes. gathered t bytes es offset) (omega (arith, length-append xs ys))
          (sym (take-append xs ys room room' (omega arith))),
  place,
  left ∙ sym (drop-append xs ys room room' (omega arith)),
)

IsNext-eq :
    (bytes bytes' : List ℕ) (total room : ℕ) (r r' : Gathered)
    → bytes' ≡ bytes
    → r ≡ r'
    → IsNext bytes' total room r'
    → IsNext bytes total room r
IsNext-eq bytes bytes' total room r r' p q v =
    subst (λ g. IsNext bytes total room g) (sym q) (subst (λ b. IsNext b total room r') p v)

pub start-IsPlace : (es : List Element) → IsPlace es 0
start-IsPlace [] = tt
start-IsPlace (e ∷ es) = omega arith

-- A round on an element, given what the rounds on the elements behind it do.
round-IsNext :
    (e : Element) (es : List Element) (fuel offset total maxsize : ℕ)
    → total ≤ maxsize
    → offset ≤ e.size
    → IsReadable e
    → ((t : ℕ)
        → t ≤ maxsize
        → IsNext (remaining es 0) t (maxsize - t) (gather (suc fuel) es 0 t maxsize))
    → ltb total maxsize ≡ true
    → IsNext
        (remaining (e ∷ es) offset)
        total
        (maxsize - total)
        (gather (suc (suc fuel)) (e ∷ es) offset total maxsize)
round-IsNext e es fuel offset total maxsize h place reads again more =
    elim (Bool-cases (e.size == 0)) [
      | inl empty ↦
          IsNext-eq _ (remaining es 0) _ _ _ _ (passed empty)
            (gather-skip (suc fuel) e es offset total maxsize more empty) (again total h)
      | inr full ↦ elim (Bool-cases (offset + m == e.size)) [
        | inl ends ↦
            IsNext-eq _ (taken ++ remaining es 0) _ _ _ _ (finished ends)
              (gather-next (suc fuel) e es offset total maxsize more full
                (reads offset m (omega arith)) ends)
              (prepend-IsNext taken (remaining es 0) m total (maxsize - total)
                (maxsize - (total + m)) _ (length-slice e.bytes offset m) (omega arith)
                (again (total + m) (omega arith)))
        | inr stays ↦
            IsNext-eq _ (taken ++ remaining (e ∷ es) (offset + m)) _ _ _ _ cut
              (gather-more (suc fuel) e es offset total maxsize more full
                (reads offset m (omega arith)) stays)
              (prepend-IsNext taken (remaining (e ∷ es) (offset + m)) m total (maxsize - total)
                (maxsize - (total + m)) _ (length-slice e.bytes offset m) (omega arith)
                (full-IsNext fuel (e ∷ es) (offset + m) (total + m) maxsize (filled stays)
                  (omega arith)))
      ]
    ]
  where
    m : ℕ
    m = min (e.size - offset) (maxsize - total)

    taken : List ℕ
    taken = slice e.bytes offset m

    passed : (e.size == 0) ≡ true → remaining es 0 ≡ remaining (e ∷ es) offset
    passed empty =
        remaining-start es
        ∙ ap (λ (k : ℕ). slice e.bytes offset k ++ contents es) {x = 0}
            (omega (arith, (==_iff e.size 0).0 empty))

    finished : (offset + m == e.size) ≡ true → taken ++ remaining es 0 ≡ remaining (e ∷ es) offset
    finished ends =
        ap₂ (λ (k : ℕ) ys. slice e.bytes offset k ++ ys)
          (omega (arith, (==_iff (offset + m) e.size).0 ends)) (remaining-start es)

    filled : (offset + m == e.size) ≡ false → total + m ≡ maxsize
    filled stays = ground (arith, (==_iff (offset + m) e.size).1, h, place)

    cut : taken ++ remaining (e ∷ es) (offset + m) ≡ remaining (e ∷ es) offset
    cut =
        sym (append_assoc taken (slice e.bytes (offset + m) (e.size - (offset + m))) (contents es))
        ∙ ap (λ xs. xs ++ contents es) (sym (slice-append e.bytes offset m (e.size - (offset + m))))
        ∙ ap (λ (k : ℕ). slice e.bytes offset k ++ contents es) (omega arith)

gather-IsNext :
    (es : List Element) (fuel offset total maxsize : ℕ)
    → total ≤ maxsize
    → IsPlace es offset
    → All IsReadable es
    → length es + 2 ≤ fuel
    → IsNext (remaining es offset) total (maxsize - total) (gather fuel es offset total maxsize)
gather-IsNext [] zero offset total maxsize h place reads enough = absurd (omega arith)
gather-IsNext [] (suc fuel) offset total maxsize h place reads enough =
    ended-IsNext fuel offset total maxsize h
gather-IsNext (e ∷ es) zero offset total maxsize h place reads enough = absurd (omega arith)
gather-IsNext (e ∷ es) (suc zero) offset total maxsize h place reads enough = absurd (omega arith)
gather-IsNext (e ∷ es) (suc (suc fuel)) offset total maxsize h place (reads, others) enough =
    let again = λ (t : ℕ) (b : t ≤ maxsize).
      gather-IsNext es (suc fuel) 0 t maxsize b (start-IsPlace es) others (omega arith) in
    elim (Bool-cases (ltb total maxsize)) [
      | inl more ↦ round-IsNext e es fuel offset total maxsize h place reads again more
      | inr full ↦
          full-IsNext (suc fuel) (e ∷ es) offset total maxsize (ground (arith, full, h)) place
    ]

-- A call copies the next bytes of elements that can be read, as many as there is room for or as are
-- left, and the next call goes on behind them.
pub copy_elements_lem :
    (es : List Element) (offset maxsize : ℕ)
    → IsPlace es offset
    → All IsReadable es
    → (es' : List Element) × (offset' : ℕ) × (copy_elements es offset maxsize
        ≡ gathered
            (min maxsize (length (remaining es offset)))
            (take maxsize (remaining es offset))
            es'
            offset')
      × IsPlace es' offset'
      × (remaining es' offset' ≡ drop maxsize (remaining es offset))
unfolding copy_elements IsNext
copy_elements_lem es offset maxsize place reads =
    let (es', offset', ends, place', left) = whole in
    (
      es',
      offset',
      ends
          ∙ ap (λ (r : ℕ). gathered r (take maxsize (remaining es offset)) es' offset')
              (omega arith),
      place',
      left,
    )
  where
    whole : IsNext (remaining es offset) 0 maxsize (copy_elements es offset maxsize)
    whole =
        subst (λ (t : ℕ). IsNext (remaining es offset) 0 t (copy_elements es offset maxsize))
          {x = maxsize - 0} {y = maxsize} (omega arith)
          (gather-IsNext es (length es + 2) offset 0 maxsize (omega arith) place reads
            (omega arith))
