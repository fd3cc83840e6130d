-- ===== src/Kernel/Mouse.antt =====
-- kernel/src/mouse.c: `get_mouse_pos`, from what the reads of the ports 0x64 and 0x60 give, in their
-- order, to the position and the button codes in the key ring. `none` means that the reads were
-- fewer. Positions stay within an `int`.
pub mod Packet
mod Examples
use mathlib.Core.Option
use frosk.Prelude.{
  ℕ, suc, ◌+◌, ◌-◌, ◌/◌, ◌%◌, ◌^◌, Bool, true, false, not, ◌&&◌, ◌||◌, Option, none, some, List, [],
  ◌∷◌, ◌==◌, ltb, if◌then◌else◌,
}
use frosk.Prelude.Int.{ℤ, pos, negsuc, ◌+ℤ◌, ◌-ℤ◌}
use frosk.Kernel.Keyboard.{KeyBuf, kb_write}

pub record Mouse : Type 0 where
  pub mousex : ℤ
  pub mousey : ℤ
  pub obtns : ℕ
  pub ring : KeyBuf

-- what is returned, what is stored through `x` and `y`, and the state
abbrev pub Answer : Type 0
Answer = ℕ × Option (ℤ × ℤ) × Mouse

-- a `signed char`
abbrev pub signed : ℕ → ℤ
signed n = if ltb (n % 256) 128 then pos (n % 256) else negsuc (255 - n % 256)

-- `b & (1 << i)`, as a condition
abbrev pub bit : ℕ → ℕ → Bool
bit b i = b / 2 ^ i % 2 == 1

abbrev pub write_byte : ℕ → Mouse → Mouse
write_byte c m = record m { ring = (kb_write (c ∷ []) m.ring).1 }

-- one round of the loop over the buttons
unfoldable pub button : ℕ → ℕ → Mouse → Mouse
button btns i m =
    let now = bit btns i in
    let before = bit m.obtns i in
    if (now && before) || not (now || before)
    then m
    else write_byte ((if now then 0x70 else 0xF0) + i) m

-- the end of a whole packet
unfoldable pub packet : ℕ → ℕ → ℕ → Mouse → Answer
packet btns mx my m =
    let at : Mouse = record m { mousex = m.mousex +ℤ signed mx; mousey = m.mousey -ℤ signed my } in
    let m' : Mouse = record (button btns 2 (button btns 1 (button btns 0 at))) { obtns = btns } in
    (1, some (m'.mousex, m'.mousey), m')

abbrev pub ready : ℕ → Bool
ready stat = stat % 2 == 1

-- behind the byte of the buttons: the rest of the packet, if it is one
unfoldable pub after_buttons : ℕ → List ℕ → Mouse → Option Answer
after_buttons btns (stat ∷ mx ∷ stat' ∷ my ∷ ins) m =
    if not (ready stat) || not (bit btns 3)
    then some (0, none, write_byte btns m)
    else if not (ready stat')
    then some (0, none, write_byte mx (write_byte btns m))
    else some (packet btns mx my m)
after_buttons btns (stat ∷ mx ∷ stat' ∷ []) m =
    if not (ready stat) || not (bit btns 3)
    then some (0, none, write_byte btns m)
    else if not (ready stat')
    then some (0, none, write_byte mx (write_byte btns m))
    else none
after_buttons btns (stat ∷ ins) m =
    if not (ready stat) || not (bit btns 3) then some (0, none, write_byte btns m) else none
after_buttons btns [] m = none

unfoldable pub get_mouse_pos : List ℕ → Mouse → Option Answer
get_mouse_pos [] m = none
get_mouse_pos (stat ∷ btns ∷ ins) m =
    if ready stat then after_buttons btns ins m else some (0, some (m.mousex, m.mousey), m)
get_mouse_pos (stat ∷ []) m = if ready stat then none else some (0, some (m.mousex, m.mousey), m)
