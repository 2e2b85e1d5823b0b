-- ===== src/Vchiq/HeaderQueue.antt =====
-- The queue of received headers that the VCHI layer keeps for a client
-- (interface/vchiq_arm/vchiq_util.c). A header is the number of its address; the storage that was
-- allocated is a function of the index. A function that must wait takes the states in which its waits
-- end, and has no result while it still waits; a signal to the thread only makes it wait again.
pub mod Fifo
pub mod Tests
use dkms_rpi_codec.Base.{
  ℕ, ◌+◌, ◌-◌, bit_and, Bool, true, Option, none, some, List, [], ◌∷◌, ◌==◌, if◌then◌else◌,
  option_case, update, add32,
}

-- struct vchiu_queue
pub record HeaderQueue : Type 0 where
  pub size : ℕ
  pub read : ℕ
  pub write : ℕ
  pub initialized : Bool
  pub popped : ℕ
  pub pushed : ℕ
  pub storage : ℕ → ℕ

-- `vchiu_queue_init` on the memory that is there before; `allocated` says whether the storage could be
-- had.
unfoldable pub queue_init : HeaderQueue → ℕ → Bool → Bool × HeaderQueue
queue_init q size allocated = (
  allocated,
  record q {
    size = size;
    read = 0;
    write = 0;
    initialized = true;
    popped = 0;
    pushed = 0;
    storage = λ i. 0;
  },
)

-- `vchiu_queue_is_empty`
unfoldable pub queue_is_empty : HeaderQueue → Bool
queue_is_empty q = q.read == q.write

abbrev pub queue_is_full : HeaderQueue → Bool
queue_is_full q = q.write == add32 q.read q.size

abbrev pub storage_index : HeaderQueue → ℕ → ℕ
storage_index q counter = bit_and counter (q.size - 1)

unfoldable pub put_header : HeaderQueue → ℕ → HeaderQueue
put_header q header = record q {
  storage = update q.storage (storage_index q q.write) header;
  write = add32 q.write 1;
  pushed = q.pushed + 1;
}

-- The loop of `vchiu_queue_push` and what follows it.
unfoldable pub push_loop : HeaderQueue → ℕ → List HeaderQueue → Option HeaderQueue
unfolding put_header
push_loop q header [] = if queue_is_full q then none else some (put_header q header)
push_loop q header (q' ∷ waits) =
    let again = push_loop q' header waits in
    if queue_is_full q then again else some (put_header q header)

-- `vchiu_queue_push`
unfoldable pub queue_push : HeaderQueue → ℕ → List HeaderQueue → Option HeaderQueue
unfolding push_loop
queue_push q header waits = if q.initialized then push_loop q header waits else some q

-- The loop of `vchiu_queue_peek` and `vchiu_queue_pop`: the queue with a header in it.
unfoldable pub await_header : HeaderQueue → List HeaderQueue → Option HeaderQueue
await_header q [] = if q.write == q.read then none else some q
await_header q (q' ∷ waits) =
    let again = await_header q' waits in if q.write == q.read then again else some q

-- `vchiu_queue_peek`, which hands its signal on.
unfoldable pub queue_peek : HeaderQueue → List HeaderQueue → Option (ℕ × HeaderQueue)
unfolding await_header
queue_peek q waits =
    option_case (await_header q waits) none
      (λ r. some (r.storage (storage_index r r.read), record r { pushed = r.pushed + 1 }))

-- `vchiu_queue_pop`
unfoldable pub queue_pop : HeaderQueue → List HeaderQueue → Option (ℕ × HeaderQueue)
unfolding await_header
queue_pop q waits = option_case (await_header q waits) none (λ r.
    some (
      r.storage (storage_index r r.read),
      record r { read = add32 r.read 1; popped = r.popped + 1 },
    ))
