-- ===== src/Vchiq/Copy/Tests.antt =====
-- A callback that gives one byte at a time.
use dkms_rpi_codec.Base.{ℕ, ◌≡◌, refl, List, [], ◌∷◌, arith, take, drop}
use dkms_rpi_codec.Vchiq.Copy.{Chunk, chunk, copy_message_data, copy_loop, copy_error}
use dkms_rpi_codec.Vchiq.Copy.Total.{Serves}

abbrev pub bytewise : List ℕ → ℕ → ℕ → Chunk
bytewise src pos room = chunk (take 1 (drop pos src))

abbrev pub hello : List ℕ
hello = 104 ∷ 105 ∷ 33 ∷ []

bytewise-Serves : (src : List ℕ) → Serves (bytewise src) src
bytewise-Serves src pos room some_room = (1, omega arith, some_room, refl)

too_few : copy_message_data (bytewise hello) 4 ≡ copy_error 5
unfolding copy_message_data copy_loop
too_few = refl
