-- ===== src/Vchiq/Gather.antt =====
-- The message of a process, which it gives in elements: `vchiq_ioc_copy_element_data` and
-- `vchiq_ioc_queue_message` (interface/vchiq_arm/vchiq_arm.c).
pub mod Bytes
pub mod Whole
pub mod Message
mod Tests
use dkms_rpi_codec.Base.{
  ℕ, zero, suc, ◌+◌, ◌-◌, min, Bool, false, not, ◌&&◌, ◌||◌, List, [], ◌∷◌, ◌++◌, ltb, ◌==◌,
  if◌then◌else◌, length, add32,
}
use dkms_rpi_codec.Vchiq.State.{State}
use dkms_rpi_codec.Vchiq.Copy.{Chunk}
use dkms_rpi_codec.Vchiq.Reserve.{Wait}
use dkms_rpi_codec.Vchiq.Transmit.{Sent}
use dkms_rpi_codec.Vchiq.Client.{queue_data}

-- struct vchiq_element, with the memory that it stands for: whether the pointer is NULL, the bytes from
-- it on, and whether `copy_from_user` can read so many bytes at an offset.
pub record Element : Type 0 where
  pub is_null : Bool
  pub size : ℕ
  pub bytes : ℕ → ℕ
  pub readable : ℕ → ℕ → Bool

-- The bytes of a memory from an offset on.
abbrev pub slice : (ℕ → ℕ) → ℕ → ℕ → List ℕ
slice bytes offset zero = []
slice bytes offset (suc n) = bytes offset ∷ slice bytes (offset + 1) n

-- What a call returns and copies, with the elements that are left and the offset in the first of them.
pub data Gathered : Type 0 where
  efault : Gathered
  gathered : ℕ → List ℕ → List Element → ℕ → Gathered

abbrev pub prepend_gathered : List ℕ → Gathered → Gathered
prepend_gathered bytes efault = efault
prepend_gathered bytes (gathered ret rest es offset) = gathered ret (bytes ++ rest) es offset

-- The loop of `vchiq_ioc_copy_element_data`, on fuel.
unfoldable pub gather : ℕ → List Element → ℕ → ℕ → ℕ → Gathered
gather zero es offset total maxsize = gathered total [] es offset
gather (suc fuel) [] offset total maxsize =
    if ltb total maxsize then gathered total [] [] offset else gathered maxsize [] [] offset
gather (suc fuel) (e ∷ es) offset total maxsize =
    let n = min (e.size - offset) (maxsize - total) in
    let skipped = gather fuel es 0 total maxsize in
    let next = gather fuel es 0 (total + n) maxsize in
    let more = gather fuel (e ∷ es) (offset + n) (total + n) maxsize in
    if not (ltb total maxsize)
    then gathered maxsize [] (e ∷ es) offset
    else if e.size == 0
    then skipped
    else if not (e.readable offset n)
    then efault
    else prepend_gathered (slice e.bytes offset n) (if offset + n == e.size then next else more)

-- `vchiq_ioc_copy_element_data`: a round finishes an element or fills the buffer, so as many rounds as
-- there are elements and two more are enough.
unfoldable pub copy_elements : List Element → ℕ → ℕ → Gathered
unfolding gather
copy_elements es offset maxsize = gather (length es + 2) es offset 0 maxsize

-- The callback of a message that has not been copied from yet.
unfoldable pub element_callback : List Element → ℕ → ℕ → Chunk
unfolding copy_elements
element_callback es pos maxsize = elim (copy_elements es 0 maxsize) [
  | efault ↦ Chunk.failed 14
  | gathered ret bytes es' offset ↦ Chunk.chunk bytes
]

abbrev pub is_bad_element : Element → Bool
is_bad_element e = e.is_null && not (e.size == 0)

abbrev pub has_bad_element : List Element → Bool
has_bad_element [] = false
has_bad_element (e ∷ es) = is_bad_element e || has_bad_element es

-- The size that is added up in a `size_t`.
abbrev pub total_size : List Element → ℕ → ℕ
total_size [] total = total
total_size (e ∷ es) total = total_size es (add32 total e.size)

-- How `vchiq_ioc_queue_message` ends: with -EFAULT, or as `vchiq_queue_message` does.
pub data IocSent : Type 0 where
  bad_element : State → IocSent
  as_sent : Sent → IocSent

-- `vchiq_ioc_queue_message`
unfoldable pub ioc_queue_message : State → ℕ → List Element → Bool → List Wait → IocSent
unfolding element_callback
ioc_queue_message s handle es locked waits =
    if has_bad_element es
    then bad_element s
    else as_sent (queue_data s handle (element_callback es) (total_size es 0) locked waits)
