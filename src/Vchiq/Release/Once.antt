-- ===== src/Vchiq/Release/Once.antt =====
-- When a slot is given back, and that a message is released once.
use dkms_rpi_codec.Base.{
  ℕ, zero, suc, ◌+◌, ◌^◌, ◌<◌, bit_and, ◌≡◌, refl, sym, ap, ◌∙◌, subst, inl, inr, Bool, true, false,
  not, ◌||◌, Option, some, arith, ◌==◌, if◌then◌else◌, Bool-cases, update, update_self, add32, u16,
}
use dkms_rpi_codec.Vchiq.Message.{is_claimed, unclaim}
use dkms_rpi_codec.Vchiq.Message.Claim.{unclaim-claim}
use dkms_rpi_codec.Vchiq.State.{State, SlotInfo, Header}
use dkms_rpi_codec.Vchiq.Reserve.{write_header}
use dkms_rpi_codec.Vchiq.Release.{
  put_info, int_of_short, give_back, count_release, closing_at, release_header, release_slot,
}

slots-count_release : (s : State) (slot : ℕ) → (count_release s slot).slots ≡ s.slots
unfolding count_release give_back
slots-count_release s slot =
    elim (Bool-cases (
      add32 (int_of_short (s.slot_info slot).release_count) 1
      == int_of_short (s.slot_info slot).use_count)) [
        | inl last ↦ rw last refl
        | inr more ↦ rw more refl
      ]

-- What a release skips.
abbrev skips : State → ℕ → ℕ → Option ℕ → Bool
skips s slot pos service = not (is_claimed (s.slots slot pos).msgid) || closing_at s service

release_header_skipped :
    (s : State) (slot pos : ℕ) (service : Option ℕ)
    → skips s slot pos service ≡ true
    → release_header s slot pos service ≡ s
unfolding release_header
release_header_skipped s slot pos service e = rw e refl

-- A message that is released a second time changes nothing: neither the count of its slot nor the
-- queue of free slots moves again.
pub release_slot_twice :
    (s : State) (slot pos : ℕ) (service : Option ℕ)
    → (s.slots slot pos).msgid < 2 ^ 32
    → let s' = release_slot s slot (some pos) service in
      release_slot s' slot (some pos) service ≡ s'
unfolding release_slot
release_slot_twice s slot pos service word = elim (Bool-cases (skips s slot pos service)) [
  | inl skipped ↦
      ap (λ (t : State). release_header t slot pos service)
        (release_header_skipped s slot pos service skipped)
  | inr taken ↦
      release_header_skipped (release_header s slot pos service) slot pos service (now_skips taken)
]
  where
    h : Header
    h = s.slots slot pos

    written : State
    written = write_header s (some slot) pos (record h { msgid = unclaim h.msgid })

    released :
        skips s slot pos service ≡ false
        → release_header s slot pos service ≡ count_release written slot
    released taken = unfold release_header in (rw taken refl)

    unclaimed :
        skips s slot pos service ≡ false
        → ((release_header s slot pos service).slots slot pos).msgid ≡ unclaim h.msgid
    unclaimed taken =
        ap (λ (t : State). (t.slots slot pos).msgid) (released taken)
        ∙ ap (λ (m : ℕ → ℕ → Header). (m slot pos).msgid) (slots-count_release written slot)
        ∙ ap (λ (m : ℕ → Header). (m pos).msgid) (update_self s.slots slot _)
        ∙ ap (λ (g : Header). g.msgid) (update_self (s.slots slot) pos _)

    now_skips :
        skips s slot pos service ≡ false
        → skips (release_header s slot pos service) slot pos service ≡ true
    now_skips taken =
        ap (λ (b : Bool). not b || closing_at (release_header s slot pos service) service)
          (ap is_claimed (unclaimed taken) ∙ (unclaim-claim h.msgid word).4)

-- What the other side sees of the slots that this side gave back.
pub record IsGivenBack (s s' : State) (slot : ℕ) : Type 0 where
  pub queued :
      s'.remote.slot_queue
      ≡ update s.remote.slot_queue (bit_and s.remote.slot_queue_recycle 63) slot
  pub counted : s'.remote.slot_queue_recycle ≡ add32 s.remote.slot_queue_recycle 1
  pub signalled : s'.remote.recycle.fired ≡ true

pub releases : ℕ → State → ℕ → State
releases zero s slot = s
releases (suc n) s slot = releases n (count_release s slot) slot

-- A slot with `left` uses to release, of fewer than 2 ^ 15.
abbrev pub HasUses : State → ℕ → ℕ → Type 0
HasUses s slot left =
    ((s.slot_info slot).release_count + left ≡ (s.slot_info slot).use_count)
    × ((s.slot_info slot).use_count < 2 ^ 15)

-- The count of a slot once it is released.
abbrev info_after : State → ℕ → SlotInfo
info_after s slot = record (s.slot_info slot) {
  release_count = suc (s.slot_info slot).release_count;
}

module _ (s : State) (slot left : ℕ) (h : HasUses s slot (suc left)) where
  stored :
      u16 (add32 (int_of_short (s.slot_info slot).release_count) 1)
      ≡ suc (s.slot_info slot).release_count
  unfolding int_of_short
  stored = ground (arith, h.0, h.1)

  as_int : int_of_short (s.slot_info slot).use_count ≡ (s.slot_info slot).use_count
  unfolding int_of_short
  as_int = ground (arith, h.1)

  released_count :
      add32 (int_of_short (s.slot_info slot).release_count) 1 ≡ suc (s.slot_info slot).release_count
  unfolding int_of_short
  released_count = ground (arith, h.0, h.1)

  after-HasUses : HasUses (put_info s slot (info_after s slot)) slot left
  after-HasUses =
      subst Left (sym (update_self s.slot_info slot (info_after s slot))) (omega (arith, h.0), h.1)
    where
      Left : SlotInfo → Type 0
      Left info = (info.release_count + left ≡ info.use_count) × (info.use_count < 2 ^ 15)

  count_release_counts :
      (b : Bool)
      → (suc (s.slot_info slot).release_count == (s.slot_info slot).use_count) ≡ b
      → count_release s slot ≡ (
          if b
          then give_back (put_info s slot (info_after s slot)) slot
          else put_info s slot (info_after s slot))
  unfolding count_release
  count_release_counts b e = rw (stored, released_count, as_int, e) refl

count_release_more :
    (s : State) (slot left : ℕ)
    → HasUses s slot (suc (suc left))
    → count_release s slot ≡ put_info s slot (info_after s slot)
count_release_more s slot left h =
    count_release_counts s slot (suc left) h false (ground (arith, h.0))

count_release_last :
    (s : State) (slot : ℕ)
    → HasUses s slot 1
    → count_release s slot ≡ give_back (put_info s slot (info_after s slot)) slot
count_release_last s slot h = count_release_counts s slot 0 h true (ground (arith, h.0))

-- As many releases as a slot has uses left give it back once, at the last of them: until then the
-- other side sees nothing, and then the slot stands at the end of its queue of free slots, which is
-- one longer, and it is signalled.
pub releases_lem :
    (left : ℕ) (s : State) (slot : ℕ)
    → HasUses s slot (suc left)
    → ((releases left s slot).remote ≡ s.remote) × IsGivenBack s (releases (suc left) s slot) slot
unfolding releases give_back
releases_lem zero s slot h = (
  refl,
  subst (λ (t : State). IsGivenBack s t slot) (sym (count_release_last s slot h))
      (record { queued = refl; counted = refl; signalled = refl }),
)
releases_lem (suc left) s slot h =
    subst
      (λ (t : State).
        ((releases left t slot).remote ≡ s.remote)
        × IsGivenBack s (releases (suc left) t slot) slot)
      (sym (count_release_more s slot left h))
      (kept (
        releases_lem left (put_info s slot (info_after s slot)) slot
          (after-HasUses s slot (suc left) h)))
  where
    kept :
        ((releases left (put_info s slot (info_after s slot)) slot).remote ≡ s.remote)
          × IsGivenBack
              (put_info s slot (info_after s slot))
              (releases (suc left) (put_info s slot (info_after s slot)) slot)
              slot
        → ((releases left (put_info s slot (info_after s slot)) slot).remote ≡ s.remote)
          × IsGivenBack s (releases (suc left) (put_info s slot (info_after s slot)) slot) slot
    kept r = (r.0, record { queued = r.1.queued; counted = r.1.counted; signalled = r.1.signalled })
