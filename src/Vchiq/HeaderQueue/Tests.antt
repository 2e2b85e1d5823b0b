-- ===== src/Vchiq/HeaderQueue/Tests.antt =====
-- A queue of 64 with one header, at counter 2 ^ 32 - 1.
use dkms_rpi_codec.Base.{
  ℕ, ◌+◌, ◌<◌, ◌≡◌, refl, ◌⊎◌, true, none, some, List, [], ◌∷◌, ◌++◌, arith, sub32,
}
use dkms_rpi_codec.Vchiq.HeaderQueue.{HeaderQueue, queue_push, queue_pop}
use dkms_rpi_codec.Vchiq.HeaderQueue.Fifo.{contents, IsRing, queue_push_lem, queue_pop_lem}

abbrev pub one : HeaderQueue
one = record {
  size = 64;
  read = 0xffff_ffff;
  write = 0;
  initialized = true;
  popped = 0;
  pushed = 1;
  storage = λ i. i + 100;
}

pub one-IsRing : IsRing one
one-IsRing = record {
  sized = refl;
  ready = refl;
  read_word = omega arith;
  write_word = omega arith;
  within = omega arith;
}

queue_push_lem_example :
    (sub32 one.write one.read < 64)
      × ((q' : HeaderQueue) × (queue_push one 7 [] ≡ some q')
          × IsRing q'
          × (contents q' ≡ contents one ++ 7 ∷ []))
    ⊎ (sub32 one.write one.read ≡ 64) × (queue_push one 7 [] ≡ none)
queue_push_lem_example = queue_push_lem one 7 [] one-IsRing

queue_pop_lem_example :
    (contents one ≡ []) × (queue_pop one [] ≡ none)
    ⊎ ((header : ℕ) × (rest : List ℕ) × (q' : HeaderQueue) × (contents one ≡ header ∷ rest)
        × (queue_pop one [] ≡ some (header, q'))
        × IsRing q'
        × (contents q' ≡ rest))
queue_pop_lem_example = queue_pop_lem one [] one-IsRing
