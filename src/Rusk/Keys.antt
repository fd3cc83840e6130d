-- ===== src/Rusk/Keys.antt =====
-- prgm/rusk/src/rusk.c: `process_events`, from the key codes of `kb_read` to the list of events, and
-- `adjust_events`. The list that `add_event` builds is a list, and an `event` of the C union is
-- the data type `Event`; its unset fields (`exp_handle`) are left out. `none` is a read outside
-- the table of letters, or through the null front expanse.
pub mod Decode
mod Examples
use mathlib.Core.Option
use frosk.Prelude.{
  ℕ, ◌+◌, ◌-◌, Bool, true, false, ◌||◌, Option, none, some, List, [], ◌∷◌, ◌++◌, ◌==◌, leb,
  if◌then◌else◌, get_elem?,
}
use frosk.Prelude.Int.{ℤ, pos, ltb_ℤ, ◌+ℤ◌, ◌-ℤ◌}
use frosk.Rusk.Expanses.{FullExpanse}

pub data Event : Type 0 where
  mouse_down : ℤ → ℤ → ℕ → Event
  mouse_up : ℤ → ℤ → ℕ → Event
  key_down : ℕ → Bool → Bool → Bool → Event

-- the static flags
pub record Mods : Type 0 where
  pub shift : Bool
  pub ctrl : Bool
  pub alt : Bool

-- "\n\n1234567890-=\n\tqwertyuiop[]\n_asdfghjkl;'`\\_zxcvbnm,./"
abbrev pub keys : List ℕ
keys =
    10 ∷ 10 ∷ b'1' ∷ b'2' ∷ b'3' ∷ b'4' ∷ b'5' ∷ b'6' ∷ b'7' ∷ b'8' ∷ b'9' ∷ b'0' ∷ b'-' ∷ b'=' ∷ 10
    ∷ 9 ∷ b'q' ∷ b'w' ∷ b'e' ∷ b'r' ∷ b't' ∷ b'y' ∷ b'u' ∷ b'i' ∷ b'o' ∷ b'p' ∷ 91 ∷ 93 ∷ 10 ∷ b'_'
    ∷ b'a' ∷ b's' ∷ b'd' ∷ b'f' ∷ b'g' ∷ b'h' ∷ b'j' ∷ b'k' ∷ b'l' ∷ 59 ∷ 39 ∷ 96 ∷ 92 ∷ b'_' ∷ b'z'
    ∷ b'x' ∷ b'c' ∷ b'v' ∷ b'b' ∷ b'n' ∷ b'm' ∷ 44 ∷ 46 ∷ b'/' ∷ []

-- the letter of a key code that the switch passes on
unfoldable pub letter : ℕ → Option ℕ
letter c = if c == 0x39 then some 0x20 else get_elem? keys c

abbrev pub quiet : Mods → Option (Mods × List Event)
quiet k = some (k, [])

abbrev pub say : Mods → Event → Option (Mods × List Event)
say k e = some (k, e ∷ [])

-- the cases of the switch for the mouse, and the test behind it
unfoldable pub other_key : ℤ → ℤ → Mods → ℕ → Option (Mods × List Event)
other_key mx my k c =
    let typed = Option.map (λ l. (k, key_down l k.shift k.ctrl k.alt ∷ [])) (letter c) in
    if c == 0x70
    then say k (mouse_down mx my 1)
    else if c == 0x71
    then say k (mouse_down mx my 2)
    else if c == 0x72
    then say k (mouse_down mx my 3)
    else if c == 0x70 + 0x80
    then say k (mouse_up mx my 1)
    else if c == 0x71 + 0x80
    then say k (mouse_up mx my 2)
    else if c == 0x72 + 0x80
    then say k (mouse_up mx my 3)
    else if leb c 0x35 || c == 0x39
    then typed
    else quiet k

-- one round of the loop: the flags, and the event if there is one
unfoldable pub key_event : ℤ → ℤ → Mods → ℕ → Option (Mods × List Event)
key_event mx my k c =
    if c == 0x2a
    then quiet (record k { shift = true })
    else if c == 0x2a + 0x80
    then quiet (record k { shift = false })
    else if c == 0x1d
    then quiet (record k { ctrl = true })
    else if c == 0x1d + 0x80
    then quiet (record k { ctrl = true })
    else if c == 0x38
    then quiet (record k { alt = true })
    else if c == 0x38 + 0x80
    then quiet (record k { alt = true })
    else other_key mx my k c

unfoldable pub key_events : ℤ → ℤ → Mods → List ℕ → Option (Mods × List Event)
key_events mx my k [] = some (k, [])
key_events mx my k (c ∷ cs) = elim (key_event mx my k c) [
  | none ↦ none
  | some (k', e) ↦ Option.map (λ (k'', es). (k'', e ++ es)) (key_events mx my k' cs)
]

-- `if (m < 0) m = 0; m += 10;`
unfoldable pub clamp : ℤ → ℤ
clamp m = (if ltb_ℤ m (pos 0) then pos 0 else m) +ℤ pos 10

-- `process_events` up to `handle_events`, from what `update_mouse` and `kb_read` gave
unfoldable pub process_events : ℤ → ℤ → Mods → List ℕ → Option (Mods × List Event)
process_events mx my k cs = key_events (clamp mx) (clamp my) k cs

-- the event of `adjust_events`, in the coordinates of the front expanse
unfoldable pub adjust : FullExpanse → Event → Event
adjust f (mouse_down x y b) = mouse_down (x -ℤ f.exp.x) (y -ℤ f.exp.y) b
adjust f (mouse_up x y b) = mouse_up (x -ℤ f.exp.x) (y -ℤ f.exp.y) b
adjust f (key_down l s c a) = key_down l s c a
