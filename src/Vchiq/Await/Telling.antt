-- ===== src/Vchiq/Await/Telling.antt =====
-- What VCHIQ_IOC_AWAIT_COMPLETION owes a process, said without the loop that does it.
use dkms_rpi_codec.Base.{ℕ, ◌+◌, ◌-◌, ◌^◌, ◌≤◌, ◌<◌, ◌≡◌, ◌⊎◌, false, List, [], ◌∷◌, length, add32}
use dkms_rpi_codec.Vchiq.Message.{header_size}
use dkms_rpi_codec.Vchiq.Reserve.{Place}
use dkms_rpi_codec.Vchiq.Completion.{
  Device, UserService, Completion, HeaderRef, in_slot, in_msgbuf, kernel_service, user_pointer,
  completion_index,
}
use dkms_rpi_codec.Vchiq.Completion.Fifo.{pending}
use dkms_rpi_codec.Vchiq.Await.{Args, Ret, told, failed}

-- The oldest completion of the state.
abbrev pub oldest_of : Device → Completion
oldest_of d = d.completions (completion_index d.completion_remove)

-- A message is told by the last of the process's `bufs` buffers, which is then used up.
abbrev pub header_told : Args → ℕ → HeaderRef → HeaderRef
header_told a bufs (in_slot at) = in_msgbuf (a.msgbufs (bufs - 1))
header_told a bufs h = h

abbrev pub bufs_left : HeaderRef → ℕ → ℕ
bufs_left (in_slot at) bufs = bufs - 1
bufs_left h bufs = bufs

-- What a process is told for a completion: the pointer that it gave for the service, in place of the
-- service, and the message in its own buffer.
pub record IsToldFor (a : Args) (users : ℕ → UserService) (bufs : ℕ) (c t : Completion)
    : Type 0 where
  pub reason : t.reason ≡ c.reason
  pub bulk_userdata : t.bulk_userdata ≡ c.bulk_userdata
  pub header : t.header ≡ header_told a bufs c.header
  pub service :
      (port : ℕ) × (c.service_userdata ≡ kernel_service port)
      × (t.service_userdata ≡ user_pointer (users port).userdata)

-- A list of told completions is one for each of the first ones that were pending, in their order.
abbrev pub AreToldFor : Args → (ℕ → UserService) → ℕ → List Completion → List Completion → Type 0
AreToldFor a users bufs cs [] = Unit
AreToldFor a users bufs [] (t ∷ ts) = ⊥
AreToldFor a users bufs (c ∷ cs) (t ∷ ts) =
    IsToldFor a users bufs c t × AreToldFor a users (bufs_left c.header bufs) cs ts

-- A message that cannot be copied: it is larger than the buffers, there is no buffer left, or one of
-- the copies in round `n` fails.
abbrev pub CannotCopy : Args → ℕ → ℕ → ℕ → Type 0
CannotCopy a n size bufs =
    (a.msgbufsize < add32 size header_size)
    ⊎ ((bufs ≡ 0) ⊎ (2 ^ 31 ≤ bufs))
    ⊎ (a.buffer_read n ≡ false)
    ⊎ (a.message_written n ≡ false)

-- A reason to tell no more in round `n`: the completion cannot be written, or its message not copied.
abbrev pub CannotTell : Args → ℕ → Device → ℕ → Type 0
CannotTell a n d bufs =
    (a.completion_written n ≡ false)
    ⊎ ((at : Place) × ((oldest_of d).header ≡ in_slot at)
        × CannotCopy a n (d.link.slots at.0 at.1).size bufs)

-- The loop stops once `left` are told, once none is pending, or for such a reason.
abbrev pub HasStopped : Args → ℕ → ℕ → Device → ℕ → List Completion → Type 0
HasStopped a left n d bufs out =
    (length out ≡ left) ⊎ (pending d ≡ []) ⊎ CannotTell a (n + length out) d bufs

-- The result is the number of completions that were told; an error is one only where nothing was told,
-- or where the count of buffers cannot be written.
abbrev pub IsResult : Args → Ret → ℕ → Type 0
IsResult a ret n =
    (ret ≡ told n) ⊎ ((errno : ℕ) × (ret ≡ failed errno) × ((n ≡ 0) ⊎ (a.count_written ≡ false)))
