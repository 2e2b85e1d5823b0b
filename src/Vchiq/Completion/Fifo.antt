-- ===== src/Vchiq/Completion/Fifo.antt =====
-- The completions of a process are a first-in, first-out queue of at most 128.
use dkms_rpi_codec.Base.{
  ℕ, suc, ◌%◌, ◌^◌, ◌≤◌, ◌<◌, ◌≡◌, refl, ap, ◌∙◌, ◌≢◌, ◌⊎◌, inl, inr, true, false, List, [], ◌∷◌,
  ◌++◌, arith, bit_and_mask, Bool-cases, update, add32, sub32,
}
use dkms_rpi_codec.Vchiq.State.{success, message_available, service_closed, Reason}
use dkms_rpi_codec.Vchiq.Window.{window, window-push}
use dkms_rpi_codec.Vchiq.Completion.{
  Device, Completion, HeaderRef, kernel_service, Woken, by_signal, by_event, added, waiting_in,
  completion_index, completions_full, hold_closed, note_available, insert_completion, add_loop,
  add_completion,
}

-- The completions that are still to be told.
abbrev pub pending : Device → List Completion
pending d =
    window completion_index d.completions d.completion_remove
      (sub32 d.completion_insert d.completion_remove)

pub record IsCompletionRing (d : Device) : Type 0 where
  pub insert_word : d.completion_insert < 2 ^ 32
  pub remove_word : d.completion_remove < 2 ^ 32
  pub within : sub32 d.completion_insert d.completion_remove ≤ 128

pub completion_index-eq-mod : (c : ℕ) → completion_index c ≡ c % 128
completion_index-eq-mod c = bit_and_mask 7 c

pub IsSameRing : Device → Device → Type 0
IsSameRing d e =
    (e.completions ≡ d.completions)
    × (e.completion_insert ≡ d.completion_insert)
    × (e.completion_remove ≡ d.completion_remove)

hold_closed-IsSameRing :
    (d : Device) (reason : Reason) (port : ℕ) → IsSameRing d (hold_closed d reason port)
unfolding IsSameRing
hold_closed-IsSameRing d reason port = elim reason as (λ r. IsSameRing d (hold_closed d r port)) [
  | service_closed ↦ elim (Bool-cases d.use_close_delivered) [
    | inl e ↦ rw e (refl, refl, refl)
    | inr e ↦ rw e (refl, refl, refl)
  ]
  | _ ↦ (refl, refl, refl)
]

note_available-IsSameRing :
    (d : Device) (reason : Reason) (port insert : ℕ)
    → IsSameRing d (note_available d reason port insert)
unfolding IsSameRing
note_available-IsSameRing d reason port insert =
    elim reason as (λ r. IsSameRing d (note_available d r port insert)) [
      | message_available ↦ (refl, refl, refl)
      | _ ↦ (refl, refl, refl)
    ]

-- The completion that is written.
abbrev pub new_completion : Reason → HeaderRef → ℕ → ℕ → Completion
new_completion reason header port bulk = record {
  reason = reason;
  header = header;
  service_userdata = kernel_service port;
  bulk_userdata = bulk;
}

insert_completion-IsCompletionRing :
    (d : Device) (reason : Reason) (header : HeaderRef) (port bulk : ℕ)
    → IsCompletionRing d
    → sub32 d.completion_insert d.completion_remove < 128
    → IsCompletionRing (insert_completion d d.completion_insert reason header port bulk)
      × (pending (insert_completion d d.completion_insert reason header port bulk)
          ≡ pending d ++ new_completion reason header port bulk ∷ [])
unfolding insert_completion IsSameRing
insert_completion-IsCompletionRing d reason header port bulk v room = (
  record {
    insert_word = omega arith;
    remove_word = omega (arith, same_remove, v.remove_word);
    within = omega (arith, same_remove, v.remove_word, v.insert_word);
  },
  ap (λ (z : ℕ). window completion_index noted.completions z (sub32 (add32 ins 1) z)) same_remove
      ∙ ap
          (λ (st : ℕ → Completion).
            window completion_index st d.completion_remove
              (sub32 (add32 ins 1) d.completion_remove))
          same_store
      ∙ ap (window completion_index written.completions d.completion_remove) grown
      ∙ window-push completion_index d.completions (new_completion reason header port bulk) before
          d.completion_remove ins v.remove_word (omega (arith, v.remove_word, v.insert_word)) apart,
)
  where
    ins : ℕ
    ins = d.completion_insert

    before : ℕ
    before = sub32 ins d.completion_remove

    written : Device
    written = record d {
      completions =
          update d.completions (completion_index ins) (new_completion reason header port bulk);
    }

    noted : Device
    noted = note_available (hold_closed written reason port) reason port ins

    held : IsSameRing written (hold_closed written reason port)
    held = hold_closed-IsSameRing written reason port

    kept : IsSameRing (hold_closed written reason port) noted
    kept = note_available-IsSameRing (hold_closed written reason port) reason port ins

    same_remove : noted.completion_remove ≡ d.completion_remove
    same_remove = kept.2 ∙ held.2

    same_store : noted.completions ≡ written.completions
    same_store = kept.0 ∙ held.0

    grown : sub32 (add32 ins 1) d.completion_remove ≡ suc before
    grown = omega (arith, v.remove_word, v.insert_word)

    apart :
        (j : ℕ) → j < before → completion_index ins ≢ completion_index (add32 d.completion_remove j)
    apart j h = omega (
      arith,
      v.remove_word,
      v.insert_word,
      completion_index-eq-mod ins,
      completion_index-eq-mod (add32 d.completion_remove j),
    )

free-IsRoom :
    (d : Device)
    → IsCompletionRing d
    → (completions_full d d.completion_insert ≡ false)
        × (sub32 d.completion_insert d.completion_remove < 128)
      ⊎ (completions_full d d.completion_insert ≡ true)
        × (sub32 d.completion_insert d.completion_remove ≡ 128)
free-IsRoom d v = ground (arith, v.within)

add_loop-free :
    (d : Device) (insert : ℕ) (reason : Reason) (header : HeaderRef) (port bulk : ℕ)
    (waits : List Woken)
    → completions_full d insert ≡ false
    → add_loop d insert reason header port bulk waits
      ≡ added success (insert_completion d insert reason header port bulk)
unfolding add_loop
add_loop-free d insert reason h port bulk [] e = rw e refl
add_loop-free d insert reason h port bulk (by_signal d' ∷ waits) e = rw e refl
add_loop-free d insert reason h port bulk (by_event d' ∷ waits) e = rw e refl

-- A process with fewer than 128 completions gets the new one behind them without a wait; with 128
-- the completion waits, and is lost where the process closes meanwhile.
pub add_completion_lem :
    (d : Device) (reason : Reason) (header : HeaderRef) (port bulk : ℕ) (waits : List Woken)
    → IsCompletionRing d
    → (sub32 d.completion_insert d.completion_remove < 128)
        × ((d' : Device) × (add_completion d reason header port bulk waits ≡ added success d')
            × IsCompletionRing d'
            × (pending d' ≡ pending d ++ new_completion reason header port bulk ∷ []))
      ⊎ (sub32 d.completion_insert d.completion_remove ≡ 128)
        × (add_completion d reason header port bulk [] ≡ waiting_in d)
        × ((d' : Device) (waits' : List Woken)
            → d'.closing ≡ true
            → add_completion d reason header port bulk (by_event d' ∷ waits') ≡ added success d')
unfolding add_completion add_loop
add_completion_lem d reason header port bulk waits v = elim (free-IsRoom d v) [
  | inl (e, room) ↦ inl (
    room,
    (
      insert_completion d d.completion_insert reason header port bulk,
      add_loop-free d d.completion_insert reason header port bulk waits e,
      (insert_completion-IsCompletionRing d reason header port bulk v room).0,
      (insert_completion-IsCompletionRing d reason header port bulk v room).1,
    ),
  )
  | inr (e, full) ↦ inr (full, rw e refl, λ d' waits' closing. rw (e, closing) refl)
]
