-- ===== src/Vchiq/Connected/Once.antt =====
-- That each callback is called once, in the order of the registrations.
use dkms_rpi_codec.Base.{
  ℕ, ◌+◌, ◌≤◌, ◌≡◌, refl, sym, ap, ◌∙◌, inl, inr, true, false, List, [], ◌∷◌, ◌++◌, append-nil,
  append_assoc, arith, leb, Bool-cases, length, length-append,
}
use dkms_rpi_codec.Vchiq.Connected.{Deferred, add_callback, call_callbacks, max_callbacks}

-- A call of one of the two functions that gets the mutex.
pub data Event : Type 0 where
  register : ℕ → Event
  connect : Event

unfoldable pub step : Deferred → Event → Deferred × List ℕ
step d (register callback) = add_callback d callback true
step d connect = call_callbacks d true

unfoldable pub run : Deferred → List Event → Deferred × List ℕ
run d [] = (d, [])
run d (e ∷ es) = let (d', now) = step d e in let (d'', later) = run d' es in (d'', now ++ later)

unfoldable pub registered : List Event → List ℕ
registered [] = []
registered (register callback ∷ es) = callback ∷ registered es
registered (connect ∷ es) = registered es

-- Once connected, nothing is deferred.
abbrev pub IsDeferred : Deferred → Type 0
IsDeferred d = d.connected ≡ true → d.callbacks ≡ []

-- However registrations and connections follow each other, as long as no more than ten callbacks are
-- registered in all, the callbacks that were called and then those that still wait are all that
-- waited at first and all that were registered, in that order: none is lost, called twice or passed
-- by another.
pub run_lem :
    (es : List Event) (d : Deferred)
    → IsDeferred d
    → length d.callbacks + length (registered es) ≤ max_callbacks
    → let (d', calls) = run d es in
      (calls ++ d'.callbacks ≡ d.callbacks ++ registered es) × IsDeferred d'
unfolding run step registered add_callback call_callbacks
run_lem [] d h room = (sym (append-nil d.callbacks), h)
run_lem (connect ∷ es) d h room =
    let rest = run_lem es (record { connected = true; callbacks = [] }) (λ e. refl) (omega arith) in
    (append_assoc d.callbacks _ _ ∙ ap (λ (l : List ℕ). d.callbacks ++ l) rest.0, rest.1)
run_lem (register callback ∷ es) d h room = elim (Bool-cases d.connected) [
  | inl up ↦
      let rest =
        run_lem es (record { connected = true; callbacks = d.callbacks }) (λ e. h up)
          (omega arith) in
      rw up (
        ap (λ (l : List ℕ). callback ∷ l) (rest.0 ∙ ap (λ (l : List ℕ). l ++ registered es) (h up))
            ∙ ap (λ (l : List ℕ). l ++ callback ∷ registered es) (sym (h up)),
        rest.1,
      )
  | inr down ↦ elim (Bool-cases (leb max_callbacks (length d.callbacks))) [
    | inl full ↦ absurd (ground arith)
    | inr some_room ↦
        let rest =
          run_lem es (record { connected = false; callbacks = d.callbacks ++ callback ∷ [] })
            (λ e. absurd (cc e)) (omega (arith, length-append d.callbacks (callback ∷ []))) in
        rw (down, some_room)
          (rest.0 ∙ append_assoc d.callbacks (callback ∷ []) (registered es), rest.1)
  ]
]
