-- ===== src/Vchiq/Await/Run.antt =====
-- What a run of the loop that tells completions comes to.
use dkms_rpi_codec.Base.{
  ℕ, suc, ◌+◌, ◌≤◌, ◌≡◌, sym, ap, ap₂, ◌∙◌, subst, ◌≢◌, inl, inr, List, [], ◌∷◌, ◌++◌, map, arith,
  length,
}
use dkms_rpi_codec.Vchiq.Completion.{Device, Completion, UserService}
use dkms_rpi_codec.Vchiq.Completion.Fifo.{pending, IsCompletionRing}
use dkms_rpi_codec.Vchiq.Await.{Args, Ret, Outcome, ended}
use dkms_rpi_codec.Vchiq.Await.Telling.{
  oldest_of, bufs_left, IsToldFor, AreToldFor, CannotTell, HasStopped, IsResult,
}
use dkms_rpi_codec.Vchiq.Await.Touch.{subject, IsTouched}
use dkms_rpi_codec.Vchiq.Await.Oldest.{tail_of, pending-split, advance, advance-pending}

-- What a run of the loop tells, of which `n` were told before and `left` may still be, and what it
-- leaves to be told.
pub record IsRun (a : Args) (n left bufs : ℕ) (d : Device) (ret : Ret) (d' : Device) (bufs' : ℕ)
    (out : List Completion) : Type 0 where
  pub short : length out ≤ left
  pub ring : IsCompletionRing d'
  pub same : map subject (pending d) ≡ map subject out ++ map subject (pending d')
  pub told_for : AreToldFor a d.users bufs (pending d) out
  pub stopped : HasStopped a left n d' bufs' out
  pub result : IsResult a ret (n + length out)

unfoldable pub IsTold : Args → ℕ → ℕ → ℕ → Device → Outcome → Type 0
IsTold a n left bufs d o =
    (ret : Ret) × (d' : Device) × (bufs' : ℕ) × (out : List Completion) × (o
      ≡ ended ret d' bufs' out)
    × IsRun a n left bufs d ret d' bufs' out

-- Nothing is told where the loop stops at once.
pub none-IsRun :
    (a : Args) (n left bufs bufs' : ℕ) (d d' : Device) (ret : Ret)
    → IsCompletionRing d'
    → map subject (pending d) ≡ map subject (pending d')
    → HasStopped a left n d' bufs' []
    → IsResult a ret n
    → IsRun a n left bufs d ret d' bufs' []
none-IsRun a n left bufs bufs' d d' ret v same stop res = record {
  short = omega arith;
  ring = v;
  same = same;
  told_for = tt;
  stopped = stop;
  result = subst (IsResult a ret) {x = n} (omega arith) res;
}

module _ (a : Args) (n left bufs : ℕ) (d : Device) (v : IsCompletionRing d)
    (ne : d.completion_remove ≢ d.completion_insert) where
  -- One more is told before those that the rest of the loop tells.
  pub more-IsRun :
      (e d' : Device) (c : Completion) (ret : Ret) (bufs' : ℕ) (out : List Completion)
      → IsTouched d e
      → IsToldFor a d.users bufs (oldest_of d) c
      → IsRun a
          (suc n)
          left
          (bufs_left (oldest_of d).header bufs)
          (advance e d.completion_remove)
          ret
          d'
          bufs'
          out
      → IsRun a n (suc left) bufs d ret d' bufs' (c ∷ out)
  more-IsRun e d' c ret bufs' out t tells r = record {
    short = omega (arith, r.short);
    ring = r.ring;
    same =
        ap (map subject) (pending-split d v ne)
        ∙ ap₂ ◌∷◌ (ap₂ (λ x y. (x, y)) (sym tells.reason) (sym tells.bulk_userdata))
            (ap (map subject) (sym (advance-pending d e v ne t)) ∙ r.same);
    told_for =
        subst (λ cs. AreToldFor a d.users bufs cs (c ∷ out)) (sym (pending-split d v ne))
          (
            tells,
            subst
                (λ (us : ℕ → UserService).
                  AreToldFor a us (bufs_left (oldest_of d).header bufs) (tail_of d) out)
                t.same_users
                (subst (λ cs. AreToldFor a e.users (bufs_left (oldest_of d).header bufs) cs out)
                  (advance-pending d e v ne t) r.told_for),
          );
    stopped = elim r.stopped [
      | inl all ↦ inl (ap suc all)
      | inr (inl none_left) ↦ inr (inl none_left)
      | inr (inr why) ↦ inr (
          inr
            (subst (λ (k : ℕ). CannotTell a k d' bufs') {x = suc n + length out} (omega arith) why))
    ];
    result = subst (IsResult a ret) {x = suc n + length out} (omega arith) r.result;
  }
