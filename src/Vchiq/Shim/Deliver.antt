-- ===== src/Vchiq/Shim/Deliver.antt =====
-- The messages of a service reach its client once each and in order.
use dkms_rpi_codec.Base.{
  ℕ, ◌≤◌, ◌<◌, min, ◌≡◌, refl, sym, ap, ◌∙◌, ◌≢◌, ◌⊎◌, inl, inr, Bool, true, false, not, ◌&&◌,
  Option, none, some, List, [], ◌∷◌, ◌++◌, arith, ltb, ◌==◌, if◌then◌else◌, ==_iff, Bool-cases,
  option_case, take, sub32,
}
use dkms_rpi_codec.Vchiq.State.{message_available, Header}
use dkms_rpi_codec.Vchiq.Window.{window, window-nil}
use dkms_rpi_codec.Vchiq.HeaderQueue.{HeaderQueue, queue_is_empty, queue_push, queue_pop}
use dkms_rpi_codec.Vchiq.HeaderQueue.Fifo.{
  place_of, contents, IsRing, queue_push_lem, queue_pop_lem,
}
use dkms_rpi_codec.Vchiq.Shim.{
  Shim, VchiCall, msg_available, header_at, release_header, shim_callback, Read, no_message, got,
  still_waits, read_header, read_popped, msg_dequeue,
}

-- The test of an empty queue sees an empty queue.
queue_is_empty-contents :
    (q : HeaderQueue)
    → IsRing q
    → (queue_is_empty q ≡ true) × (contents q ≡ []) ⊎ (queue_is_empty q ≡ false) × (contents q ≢ [])
unfolding queue_is_empty
queue_is_empty-contents q v = elim (Bool-cases (q.read == q.write)) [
  | inl e ↦ inl (e, ap (window place_of q.storage q.read) (none_left ((==_iff q.read q.write).0 e)))
  | inr e ↦ inr (e, λ nil. absurd (apart e (same nil)))
]
  where
    none_left : q.read ≡ q.write → sub32 q.write q.read ≡ 0
    none_left e = omega (arith, v.read_word)

    apart : (q.read == q.write) ≡ false → q.read ≢ q.write
    apart e same = cc (sym e ∙ (==_iff q.read q.write).1 same)

    same : contents q ≡ [] → q.read ≡ q.write
    same nil = omega (
      arith,
      window-nil place_of q.storage (sub32 q.write q.read) q.read nil,
      v.read_word,
      v.write_word,
    )

-- A message for a service with a callback is put behind the others that wait to be read, and the
-- callback is called; the messages in the slots are left alone. Where 64 wait to be read already, the
-- callback waits.
pub shim_callback_lem :
    (x : Shim) (header bulk : ℕ) (waits : List HeaderQueue)
    → IsRing x.queue
    → x.has_callback ≡ true
    → (sub32 x.queue.write x.queue.read < 64)
        × ((q : HeaderQueue) × (shim_callback x message_available header bulk waits
              ≡ some (record x { queue = q }, msg_available ∷ []))
            × IsRing q
            × (contents q ≡ contents x.queue ++ header ∷ []))
      ⊎ (sub32 x.queue.write x.queue.read ≡ 64)
        × (shim_callback x message_available header bulk [] ≡ none)
unfolding shim_callback
shim_callback_lem x header bulk waits v cb = elim (queue_push_lem x.queue header waits v) [
  | inl (room, (q, stored, ring, behind)) ↦
      inl (room, (q, called waits ∙ ap given stored, ring, behind))
  | inr (full, waiting) ↦ inr (full, called [] ∙ ap given waiting)
]
  where
    given : Option HeaderQueue → Option (Shim × List VchiCall)
    given o = option_case o none (λ q. some (record x { queue = q }, msg_available ∷ []))

    called :
        (waits' : List HeaderQueue)
        → shim_callback x message_available header bulk waits'
          ≡ given (queue_push x.queue header waits')
    called waits' =
        ap
          (λ (b : Bool).
            if b
            then given (queue_push x.queue header waits')
            else some (release_header x header, []))
          cb

-- What a read copies is the beginning of the message, no more than there is and than is asked for.
read_header-take :
    (h : Header) (most : ℕ) → read_header h most ≡ (take (min h.size most) h.bytes, h.size)
read_header-take h most = elim (Bool-cases (ltb h.size most)) [
  | inl e ↦
      let short : h.size < most = ground (arith, e) in
      let same : min h.size most ≡ h.size = omega (arith, short) in rw (e, same) refl
  | inr e ↦
      let long : most ≤ h.size = ground (arith, e) in
      let same : min h.size most ≡ most = omega (arith, long) in rw (e, same) refl
]

-- A read of the client takes the oldest message, copies its first bytes, no more than are asked for and
-- than it has, tells its whole size and releases it; the others stay in order. Without a message it ends or waits, as it was asked to.
pub msg_dequeue_lem :
    (x : Shim) (most : ℕ) (blocks : Bool) (waits : List HeaderQueue)
    → IsRing x.queue
    → (contents x.queue ≡ [])
        × (msg_dequeue x most false waits ≡ no_message)
        × (msg_dequeue x most true [] ≡ still_waits)
      ⊎ ((header : ℕ) × (rest : List ℕ) × (q : HeaderQueue) × (contents x.queue ≡ header ∷ rest)
          × (msg_dequeue x most blocks waits
              ≡ got
                  (
                    take (min (header_at x.link header).size most) (header_at x.link header).bytes,
                    (header_at x.link header).size,
                  )
                  (release_header (record x { queue = q }) header))
          × IsRing q
          × (contents q ≡ rest))
unfolding msg_dequeue
msg_dequeue_lem x most blocks waits v = elim (queue_pop_lem x.queue waits v) [
  | inl (empty, waiting) ↦ inl (
    empty,
    ap (λ (b : Bool). if not false && b then no_message else answer (queue_pop x.queue waits))
        (is_empty empty),
    ap answer waiting,
  )
  | inr (header, rest, q, oldest, popped, ring, left) ↦ inr (
    header,
    rest,
    q,
    oldest,
    ap (λ (b : Bool). if not blocks && b then no_message else answer (queue_pop x.queue waits))
          (not_empty header rest oldest)
        ∙ some_there blocks
        ∙ ap answer popped
        ∙ ap (λ r. got r (release_header (record x { queue = q }) header))
            (read_header-take (header_at x.link header) most),
    ring,
    left,
  )
]
  where
    answer : Option (ℕ × HeaderQueue) → Read (List ℕ × ℕ)
    answer o =
        option_case (option_case o none (λ r. some (read_popped x most r))) still_waits
          (λ r. got r.0 r.1)

    is_empty : contents x.queue ≡ [] → queue_is_empty x.queue ≡ true
    is_empty nil = elim (queue_is_empty-contents x.queue v) [
      | inl (e, _) ↦ e
      | inr (_, some_left) ↦ absurd (some_left nil)
    ]

    not_empty :
        (header : ℕ) (rest : List ℕ)
        → contents x.queue ≡ header ∷ rest
        → queue_is_empty x.queue ≡ false
    not_empty header rest e = elim (queue_is_empty-contents x.queue v) [
      | inl (_, nil) ↦ absurd (cc (sym nil ∙ e))
      | inr (is_not, _) ↦ is_not
    ]

    some_there :
        (b : Bool)
        → (if not b && false then no_message else answer (queue_pop x.queue waits))
          ≡ answer (queue_pop x.queue waits)
    some_there true = refl
    some_there false = refl
