-- ===== src/Comm/Examples.antt =====
-- A pixel buffer over a port of the kernel.
use frosk.Prelude.{ℕ, ◌≡◌, refl, some, List, [], ◌∷◌, arith, replicate}
use frosk.Prelude.Int.{pos}
use frosk.Rusk.Expanses.{Pixel, PixelBuffer, pixel}
use frosk.Kernel.Ports.{Port, last_joining, load}
use frosk.Kernel.Ports.Fifo.{pending}
use frosk.Kernel.Ports.Link.{Kernel, link}
use frosk.Comm.Buffers.{send_buffer, receive_buffer, pixel_bytes}
use frosk.Comm.Buffers.Sizes.{IsBuffer}
use frosk.Comm.Buffers.Messages.{receive_buffer-send_buffer}

-- a port from process 7 to process 8, all of whose bytes have been received
abbrev port : Port
port = record { port = 1; to = 8; from = 7; addr = 0x100000; off = 2; size = 0 }

abbrev kernel : Kernel
kernel =
    some (record {
      ports = port ∷ [];
      mgr = record { phys = []; kvirt = []; kobjs = [] };
      mem = λ p. 0;
    })

abbrev column : ℕ → List Pixel
column n = pixel n 0 0 ∷ pixel 0 n 0 ∷ []

abbrev buffer : PixelBuffer
buffer = record { buffer = column 1 ∷ column 2 ∷ []; width = pos 2; height = pos 2 }

buffer-IsBuffer : IsBuffer buffer 2 2
buffer-IsBuffer = (refl, refl, refl, (refl, (refl, tt)))

abbrev behind : ℕ → List Pixel
behind n = replicate 3 (pixel 0 0 0)

receive_buffer-send_buffer_example :
    (s₁ : Kernel) × (s₂ : Kernel) × (send_buffer (link 7 8 1) buffer kernel ≡ some s₁)
    × (receive_buffer (link 7 8 1) s₁ ≡ some (buffer, s₂))
    × ((link 7 8 1).waiting s₂ ≡ [])
unfolding last_joining load pixel_bytes pending
receive_buffer-send_buffer_example =
    receive_buffer-send_buffer (link 7 8 1) buffer 2 2 kernel buffer-IsBuffer (omega arith)
      (omega arith) ([], port, [], (refl, refl, refl, refl, omega arith, omega arith)) refl
