-- ===== src/Vchiq/Await/Tests.antt =====
-- A process with one completion asks for it twice.
use dkms_rpi_codec.Base.{ℕ, ◌+◌, ◌≤◌, ◌≡◌, refl, true, List, [], ◌++◌, map, arith, length}
use dkms_rpi_codec.Vchiq.Completion.{Device, Completion}
use dkms_rpi_codec.Vchiq.Completion.Fifo.{pending, IsCompletionRing}
use dkms_rpi_codec.Vchiq.Completion.Tests.{one_to_tell, one_to_tell-IsCompletionRing}
use dkms_rpi_codec.Vchiq.Await.{Args, Ret, told, fault, ended, outcome, await_completion}
use dkms_rpi_codec.Vchiq.Await.Touch.{subject}
use dkms_rpi_codec.Vchiq.Await.Telling.{AreToldFor, HasStopped, IsResult}
use dkms_rpi_codec.Vchiq.Await.Told.{await_completion_lem}
use dkms_rpi_codec.Vchiq.Await.Stall.{IsAsking, await_completion_stalls}

-- Four completions, and buffers of 64 bytes.
abbrev with_buffers : ℕ → Args
with_buffers n = record {
  count = 4;
  msgbufsize = 64;
  msgbufcount = n;
  msgbufs = λ i. i + 500;
  buffer_read = λ i. true;
  message_written = λ i. true;
  completion_written = λ i. true;
  count_written = true;
  args_read = true;
}

await_completion_lem_example :
    (ret : Ret) × (d' : Device) × (bufs : ℕ) × (out : List Completion) × (await_completion
        one_to_tell
        (with_buffers 2)
        []
      ≡ outcome (ended ret d' bufs out))
    × (length out ≤ 4)
    × IsCompletionRing d'
    × (map subject (pending one_to_tell) ≡ map subject out ++ map subject (pending d'))
    × AreToldFor (with_buffers 2) one_to_tell.users 2 (pending one_to_tell) out
    × HasStopped (with_buffers 2) 4 0 d' bufs out
    × IsResult (with_buffers 2) ret (length out)
await_completion_lem_example =
    await_completion_lem one_to_tell (with_buffers 2) [] one_to_tell-IsCompletionRing
      ((5, refl), tt) refl refl (omega arith)

asking : (n : ℕ) → IsAsking one_to_tell (with_buffers n)
asking n = record { connected = refl; args_read = refl; asks = omega arith; to_tell = omega arith }

await_completion_stalls_example :
    (d' : Device) × (await_completion one_to_tell (with_buffers 0) []
      ≡ outcome (ended (told 0) d' 0 []))
    × (await_completion d' (with_buffers 2) [] ≡ outcome fault)
await_completion_stalls_example =
    await_completion_stalls one_to_tell (with_buffers 0) (with_buffers 2) [] [] 5 (1, 0) (asking 0)
      (asking 2) refl refl refl (omega arith)
