-- ===== src/Kernel/Mouse/Examples.antt =====
-- A packet that presses the left button.
use frosk.Prelude.{◌≡◌, refl, some, [], ◌∷◌, ◌++◌, arith}
use frosk.Prelude.Int.{pos, ◌+ℤ◌, ◌-ℤ◌}
use frosk.Kernel.Keyboard.{initial}
use frosk.Kernel.Keyboard.Queue.{IsValid, contents}
use frosk.Kernel.Mouse.{Mouse, signed, get_mouse_pos}
use frosk.Kernel.Mouse.Packet.{changes, get_mouse_pos_lem}

abbrev still : Mouse
still = record { mousex = pos 0; mousey = pos 0; obtns = 8; ring = initial }

get_mouse_pos_lem_example :
    (m' : Mouse) × (get_mouse_pos (1 ∷ 9 ∷ 1 ∷ 5 ∷ 1 ∷ 255 ∷ []) still
      ≡ some (1, some (pos 0 +ℤ signed 5, pos 0 -ℤ signed 255), m'))
    × (m'.mousex ≡ pos 0 +ℤ signed 5)
    × (m'.mousey ≡ pos 0 -ℤ signed 255)
    × (m'.obtns ≡ 9)
    × (contents m'.ring ≡ contents initial ++ changes 9 8)
    × IsValid m'.ring
unfolding initial contents
get_mouse_pos_lem_example =
    get_mouse_pos_lem 1 9 1 5 1 255 still refl refl refl refl
      (record { storage = refl; top_in = omega arith; bot_in = omega arith }) (omega arith)
