-- ===== src/Vchiq/Await/Oldest.antt =====
-- The ring of completions after a round that may have rewritten its oldest one.
use dkms_rpi_codec.Base.{
  ℕ, suc, ◌<◌, ◌≡◌, sym, ap, ap₂, ◌∙◌, ◌≢◌, List, ◌∷◌, map, arith, add32, sub32,
}
use dkms_rpi_codec.Vchiq.Window.{window, window-cong}
use dkms_rpi_codec.Vchiq.Completion.{Device, Completion, completion_index}
use dkms_rpi_codec.Vchiq.Completion.Fifo.{pending, IsCompletionRing, completion_index-eq-mod}
use dkms_rpi_codec.Vchiq.Await.Touch.{subject, IsTouched}

pub touched-IsCompletionRing :
    (d e : Device) → IsCompletionRing d → IsTouched d e → IsCompletionRing e
touched-IsCompletionRing d e v t = record {
  insert_word = omega (arith, t.same_insert, v.insert_word);
  remove_word = omega (arith, t.same_remove, v.remove_word);
  within = omega (arith, t.same_insert, t.same_remove, v.within);
}

-- The completions of a state in which one may still be told.
abbrev pub tail_of : Device → List Completion
tail_of d =
    window completion_index d.completions (add32 d.completion_remove 1)
      (sub32 d.completion_insert (add32 d.completion_remove 1))

pub one_more :
    (d : Device)
    → IsCompletionRing d
    → d.completion_remove ≢ d.completion_insert
    → sub32 d.completion_insert d.completion_remove
      ≡ suc (sub32 d.completion_insert (add32 d.completion_remove 1))
one_more d v ne = omega (arith, v.insert_word, v.remove_word)

pub pending-split :
    (d : Device)
    → IsCompletionRing d
    → d.completion_remove ≢ d.completion_insert
    → pending d ≡ d.completions (completion_index d.completion_remove) ∷ tail_of d
pending-split d v ne =
    ap (window completion_index d.completions d.completion_remove) (one_more d v ne)

pub touched-tail :
    (d e : Device)
    → IsCompletionRing d
    → d.completion_remove ≢ d.completion_insert
    → IsTouched d e
    → tail_of e ≡ tail_of d
touched-tail d e v ne t =
    ap₂ (λ (r i : ℕ). window completion_index e.completions (add32 r 1) (sub32 i (add32 r 1)))
      t.same_remove t.same_insert
    ∙ window-cong completion_index d.completions e.completions
        (sub32 d.completion_insert (add32 d.completion_remove 1)) (add32 d.completion_remove 1)
        (omega arith)
        (λ j h. t.others (completion_index (add32 (add32 d.completion_remove 1) j)) (apart j h))
  where
    apart :
        (j : ℕ)
        → j < sub32 d.completion_insert (add32 d.completion_remove 1)
        → completion_index d.completion_remove
          ≢ completion_index (add32 (add32 d.completion_remove 1) j)
    apart j h = omega (
      arith,
      v.within,
      one_more d v ne,
      completion_index-eq-mod d.completion_remove,
      completion_index-eq-mod (add32 (add32 d.completion_remove 1) j),
    )

-- The state in which the next round starts.
abbrev pub advance : Device → ℕ → Device
advance e remove = record e { completion_remove = add32 remove 1 }

pub advance-pending :
    (d e : Device)
    → IsCompletionRing d
    → d.completion_remove ≢ d.completion_insert
    → IsTouched d e
    → pending (advance e d.completion_remove) ≡ tail_of d
advance-pending d e v ne t =
    ap
      (λ (r : ℕ).
        window completion_index e.completions (add32 r 1) (sub32 e.completion_insert (add32 r 1)))
      (sym t.same_remove)
    ∙ touched-tail d e v ne t

pub advance-IsCompletionRing :
    (d e : Device)
    → IsCompletionRing d
    → d.completion_remove ≢ d.completion_insert
    → IsTouched d e
    → IsCompletionRing (advance e d.completion_remove)
advance-IsCompletionRing d e v ne t = record {
  insert_word = omega (arith, t.same_insert, v.insert_word);
  remove_word = omega arith;
  within = omega (arith, t.same_insert, one_more d v ne, v.within);
}

pub touched-subjects :
    (d e : Device)
    → IsCompletionRing d
    → d.completion_remove ≢ d.completion_insert
    → IsTouched d e
    → map subject (pending d) ≡ map subject (pending e)
touched-subjects d e v ne t =
    ap (map subject) (pending-split d v ne)
    ∙ ap₂ ◌∷◌ (sym t.oldest) (ap (map subject) (sym (touched-tail d e v ne t)))
    ∙ ap (λ (r : ℕ). subject (e.completions (completion_index r)) ∷ map subject (tail_of e))
        (sym t.same_remove)
    ∙ ap (map subject) (sym (pending-split e (touched-IsCompletionRing d e v t) ne'))
  where
    ne' : e.completion_remove ≢ e.completion_insert
    ne' same = ne (sym t.same_remove ∙ same ∙ t.same_insert)
