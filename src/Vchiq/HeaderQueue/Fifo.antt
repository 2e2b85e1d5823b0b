-- ===== src/Vchiq/HeaderQueue/Fifo.antt =====
-- The queue of headers is a first-in, first-out queue of at most 64, the size that the VCHI layer
-- gives it, also where its counters wrap.
use dkms_rpi_codec.Base.{
  ℕ, suc, ◌+◌, ◌-◌, ◌%◌, ◌^◌, ◌≤◌, ◌<◌, bit_and, ◌≡◌, refl, sym, ap, ◌∙◌, ◌≢◌, ◌⊎◌, inl, inr, Bool,
  true, false, Option, none, some, List, [], ◌∷◌, ◌++◌, arith, bit_and_mask, ◌==◌, if◌then◌else◌,
  ==_iff, Bool-cases, option_case, update, add32, sub32,
}
use dkms_rpi_codec.Vchiq.Window.{window, window-push}
use dkms_rpi_codec.Vchiq.HeaderQueue.{
  HeaderQueue, queue_is_full, storage_index, put_header, push_loop, queue_push, await_header,
  queue_pop,
}

-- The place of a counter in a storage of 64.
abbrev pub place_of : ℕ → ℕ
place_of c = bit_and c 63

-- The headers in the queue.
abbrev pub contents : HeaderQueue → List ℕ
contents q = window place_of q.storage q.read (sub32 q.write q.read)

pub record IsRing (q : HeaderQueue) : Type 0 where
  pub sized : q.size ≡ 64
  pub ready : q.initialized ≡ true
  pub read_word : q.read < 2 ^ 32
  pub write_word : q.write < 2 ^ 32
  pub within : sub32 q.write q.read ≤ 64

index-eq-mod : (c : ℕ) → bit_and c 63 ≡ c % 64
index-eq-mod c = bit_and_mask 6 c

put_header-contents :
    (q : HeaderQueue) (header : ℕ)
    → IsRing q
    → sub32 q.write q.read < 64
    → IsRing (put_header q header) × (contents (put_header q header) ≡ contents q ++ header ∷ [])
unfolding put_header
put_header-contents q header v room = (
  record {
    sized = v.sized;
    ready = v.ready;
    read_word = v.read_word;
    write_word = omega arith;
    within = omega (arith, v.read_word, v.write_word);
  },
  ap (λ (z : ℕ). window place_of (update q.storage (bit_and q.write (z - 1)) header) q.read after)
        v.sized
      ∙ ap (window place_of storage' q.read) grown
      ∙ window-push place_of q.storage header before q.read q.write v.read_word
          (omega (arith, v.read_word, v.write_word)) apart,
)
  where
    before : ℕ
    before = sub32 q.write q.read

    after : ℕ
    after = sub32 (add32 q.write 1) q.read

    storage' : ℕ → ℕ
    storage' = update q.storage (bit_and q.write 63) header

    grown : after ≡ suc before
    grown = omega (arith, v.read_word, v.write_word)

    apart : (j : ℕ) → j < before → place_of q.write ≢ place_of (add32 q.read j)
    apart j h =
        omega
          (arith, v.read_word, v.write_word, index-eq-mod q.write, index-eq-mod (add32 q.read j))

-- A queue that is not full takes a header at its end, without a wait.
pub queue_push_lem :
    (q : HeaderQueue) (header : ℕ) (waits : List HeaderQueue)
    → IsRing q
    → (sub32 q.write q.read < 64)
        × ((q' : HeaderQueue) × (queue_push q header waits ≡ some q')
            × IsRing q'
            × (contents q' ≡ contents q ++ header ∷ []))
      ⊎ (sub32 q.write q.read ≡ 64) × (queue_push q header [] ≡ none)
unfolding queue_push
queue_push_lem q header waits v = elim (Bool-cases (queue_is_full q)) [
  | inl full ↦ inr (
    filled full,
    ap (λ (b : Bool). if b then push_loop q header [] else some q) v.ready ∙ rw full refl,
  )
  | inr room ↦ inl (
    free room,
    (
      put_header q header,
      ap (λ (b : Bool). if b then push_loop q header waits else some q) v.ready ∙ stored room waits,
      (put_header-contents q header v (free room)).0,
      (put_header-contents q header v (free room)).1,
    ),
  )
]
  where
    filled : queue_is_full q ≡ true → sub32 q.write q.read ≡ 64
    filled e =
        omega
          (arith, (==_iff q.write (add32 q.read q.size)).0 e, v.sized, v.read_word, v.write_word)

    end : sub32 q.write q.read ≡ 64 → q.write ≡ add32 q.read q.size
    end e = omega (arith, v.sized, v.read_word, v.write_word)

    free : queue_is_full q ≡ false → sub32 q.write q.read < 64
    free e = ground (arith, v.within, end, (==_iff q.write (add32 q.read q.size)).1)

    stored :
        queue_is_full q ≡ false
        → (waits' : List HeaderQueue) → push_loop q header waits' ≡ some (put_header q header)
    stored e [] = rw e refl
    stored e (q' ∷ rest) = rw e refl

-- The oldest header is taken first, without a wait; an empty queue gives none.
pub queue_pop_lem :
    (q : HeaderQueue) (waits : List HeaderQueue)
    → IsRing q
    → (contents q ≡ []) × (queue_pop q [] ≡ none)
      ⊎ ((header : ℕ) × (rest : List ℕ) × (q' : HeaderQueue) × (contents q ≡ header ∷ rest)
          × (queue_pop q waits ≡ some (header, q'))
          × IsRing q'
          × (contents q' ≡ rest))
unfolding queue_pop await_header
queue_pop_lem q waits v = elim (Bool-cases (q.write == q.read)) [
  | inl empty ↦ inl (
    ap (window place_of q.storage q.read) (none_left ((==_iff q.write q.read).0 empty)),
    rw empty refl,
  )
  | inr some_left ↦ inr (
    q.storage (bit_and q.read 63),
    window place_of q.storage (add32 q.read 1) (sub32 q.write (add32 q.read 1)),
    record q { read = add32 q.read 1; popped = q.popped + 1 },
    ap (window place_of q.storage q.read) (one_more (apart some_left)),
    ap
          (λ (r : Option HeaderQueue). option_case r none (λ r. some (
            r.storage (storage_index r r.read),
            record r { read = add32 r.read 1; popped = r.popped + 1 },
          )))
          (taken some_left waits)
        ∙ ap
            (λ (z : ℕ). some (
              q.storage (bit_and q.read (z - 1)),
              record q { read = add32 q.read 1; popped = q.popped + 1 },
            ))
            v.sized,
    record {
      sized = v.sized;
      ready = v.ready;
      read_word = omega arith;
      write_word = v.write_word;
      within = omega (arith, one_more (apart some_left), v.within);
    },
    refl,
  )
]
  where
    none_left : q.write ≡ q.read → sub32 q.write q.read ≡ 0
    none_left e = omega (arith, v.read_word)

    apart : (q.write == q.read) ≡ false → q.write ≢ q.read
    apart e same = cc (sym e ∙ (==_iff q.write q.read).1 same)

    one_more : q.write ≢ q.read → sub32 q.write q.read ≡ suc (sub32 q.write (add32 q.read 1))
    one_more e = omega (arith, v.read_word, v.write_word)

    taken :
        (q.write == q.read) ≡ false → (waits' : List HeaderQueue) → await_header q waits' ≡ some q
    taken e [] = rw e refl
    taken e (q' ∷ rest) = rw e refl
