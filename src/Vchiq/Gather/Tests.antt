-- ===== src/Vchiq/Gather/Tests.antt =====
-- A message of three elements, of which one is empty.
use dkms_rpi_codec.Base.{ℕ, ◌+◌, ◌≡◌, refl, true, false, List, [], ◌∷◌, arith, All}
use dkms_rpi_codec.Vchiq.Copy.{copied, copy_message_data}
use dkms_rpi_codec.Vchiq.Gather.{Element, gathered, copy_elements, element_callback, total_size}
use dkms_rpi_codec.Vchiq.Gather.Bytes.{remaining, IsPlace, IsReadable}
use dkms_rpi_codec.Vchiq.Gather.Whole.{copy_elements_lem}
use dkms_rpi_codec.Vchiq.Gather.Message.{element_callback_lem}

abbrev element : ℕ → ℕ → Element
element start n = record {
  is_null = false;
  size = n;
  bytes = λ i. start + i;
  readable = λ i k. true;
}

abbrev three : List Element
three = element 10 2 ∷ element 0 0 ∷ element 20 3 ∷ []

three-IsReadable : All IsReadable three
three-IsReadable = (λ i k h. refl, (λ i k h. refl, (λ i k h. refl, tt)))

copy_elements_lem_example :
    (es' : List Element) × (offset' : ℕ) × (copy_elements three 1 3
      ≡ gathered 3 (11 ∷ 20 ∷ 21 ∷ []) es' offset')
    × IsPlace es' offset'
    × (remaining es' offset' ≡ 22 ∷ [])
copy_elements_lem_example = copy_elements_lem three 1 3 (omega arith) three-IsReadable

element_callback_lem_example :
    (total_size three 0 ≡ 5)
    × (copy_message_data (element_callback three) (total_size three 0)
        ≡ copied (10 ∷ 11 ∷ 20 ∷ 21 ∷ 22 ∷ []))
element_callback_lem_example = element_callback_lem three three-IsReadable (omega arith)
