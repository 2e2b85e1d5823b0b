-- ===== src/Vchiq/Message/Tests.antt =====
-- The message formats at concrete words.
use dkms_rpi_codec.Base.{◌≡◌, refl}
use dkms_rpi_codec.Vchiq.Message.{claim, calc_stride}

strides : (calc_stride 0 ≡ 8) × (calc_stride 1 ≡ 16) × (calc_stride 4088 ≡ 4096)
unfolding calc_stride
strides = (refl, refl, refl)

claimed_word : claim 0x0500_700c ≡ 0x4500_700c
unfolding claim
claimed_word = refl
