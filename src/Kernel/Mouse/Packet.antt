-- ===== src/Kernel/Mouse/Packet.antt =====
-- A packet of the mouse, and the keys that kernel/src/mouse.c makes of it.
use frosk.Prelude.{
  ℕ, zero, suc, take-nil, length-append, ap₂, ◌+◌, ◌-◌, ◌≤◌, ◌<◌, ◌≡◌, refl, ap, ◌∙◌, sym, true,
  some, List, [], ◌∷◌, ◌++◌, append-nil, append_assoc, if◌then◌else◌, Bool-cases, inl, inr, arith,
  length, take,
}
use frosk.Prelude.Int.{◌+ℤ◌, ◌-ℤ◌}
use frosk.Kernel.Keyboard.Queue.{IsValid, contents, kb_write_lem}
use frosk.Kernel.Mouse.{
  Mouse, signed, bit, write_byte, button, packet, ready, after_buttons, get_mouse_pos,
}

-- the code of button i, where the two sets of buttons differ in it
abbrev pub change : ℕ → ℕ → ℕ → List ℕ
change now before i =
    if bit now i
    then (if bit before i then [] else (0x70 + i) ∷ [])
    else (if bit before i then (0xF0 + i) ∷ [] else [])

abbrev pub changes : ℕ → ℕ → List ℕ
changes now before = change now before 0 ++ (change now before 1 ++ change now before 2)

take_one : (r c : ℕ) → 0 < r → take r (c ∷ []) ≡ c ∷ []
take_one zero c h = absurd (omega arith)
take_one (suc r) c h = ap (c ∷◌) (take-nil ℕ r)

write_byte_lem :
    (c : ℕ) (m : Mouse)
    → IsValid m.ring
    → length (contents m.ring) < 0x1ff
    → (contents (write_byte c m).ring ≡ contents m.ring ++ (c ∷ [])) × IsValid (write_byte c m).ring
write_byte_lem c m v room =
    let (n, now, valid) = kb_write_lem (c ∷ []) m.ring v in
    (
      now ∙ ap (contents m.ring ++◌) (take_one (0x1ff - length (contents m.ring)) c (omega arith)),
      valid,
    )

-- the rounds of the loop over the buttons change the keys only
abbrev Pressed : Mouse → Mouse → List ℕ → Type 0
Pressed m m' cs =
    (contents m'.ring ≡ contents m.ring ++ cs)
    × IsValid m'.ring
    × (m'.mousex ≡ m.mousex)
    × (m'.mousey ≡ m.mousey)
    × (m'.obtns ≡ m.obtns)

button_lem :
    (now i : ℕ) (m : Mouse)
    → IsValid m.ring
    → length (contents m.ring) < 0x1ff
    → Pressed m (button now i m) (change now m.obtns i)
unfolding button
button_lem now i m v room =
    let as_before : contents m.ring ≡ contents m.ring ++ [] = sym (append-nil (contents m.ring)) in
    elim (Bool-cases (bit now i)) [
      | inl p ↦ elim (Bool-cases (bit m.obtns i)) [
        | inl q ↦ rw (p, q) (as_before, v, refl, refl, refl)
        | inr q ↦
            let (now', valid) = write_byte_lem (0x70 + i) m v room in
            rw (p, q) (now', valid, refl, refl, refl)
      ]
      | inr p ↦ elim (Bool-cases (bit m.obtns i)) [
        | inl q ↦
            let (now', valid) = write_byte_lem (0xF0 + i) m v room in
            rw (p, q) (now', valid, refl, refl, refl)
        | inr q ↦ rw (p, q) (as_before, v, refl, refl, refl)
      ]
    ]

change_short : (now before i : ℕ) → length (change now before i) ≤ 1
change_short now before i = ground arith

-- one round behind others
button_next :
    (now i : ℕ) (m m' : Mouse) (cs : List ℕ)
    → Pressed m m' cs
    → length (contents m.ring) + length cs < 0x1ff
    → Pressed m (button now i m') (cs ++ change now m.obtns i)
button_next now i m m' cs (has, v, x, y, o) room =
    let size = ap length has ∙ length-append (contents m.ring) cs in
    let (has', v', x', y', o') = button_lem now i m' v (omega (arith, size, room)) in
    (
      has'
          ∙ ap (λ l. l ++ change now m'.obtns i) has
          ∙ append_assoc (contents m.ring) cs (change now m'.obtns i)
          ∙ ap (λ b. contents m.ring ++ (cs ++ change now b i)) o,
      v',
      x' ∙ x,
      y' ∙ y,
      o' ∙ o,
    )

-- A whole packet is read (each status byte says that a byte waits, and the byte of the buttons has its
-- bit 3), and the key ring is valid with room for three bytes. Then `get_mouse_pos` returns 1, moves
-- the position by the two signed bytes, the second one downwards, stores it, remembers the buttons,
-- and appends to the key ring one code for each button that changed, in order, and nothing else.
pub get_mouse_pos_lem :
    (stat btns stat₁ mx stat₂ my : ℕ) (m : Mouse)
    → ready stat ≡ true
    → ready stat₁ ≡ true
    → ready stat₂ ≡ true
    → bit btns 3 ≡ true
    → IsValid m.ring
    → length (contents m.ring) + 3 ≤ 0x1ff
    → (m' : Mouse) × (get_mouse_pos (stat ∷ btns ∷ stat₁ ∷ mx ∷ stat₂ ∷ my ∷ []) m
        ≡ some (1, some (m.mousex +ℤ signed mx, m.mousey -ℤ signed my), m'))
      × (m'.mousex ≡ m.mousex +ℤ signed mx)
      × (m'.mousey ≡ m.mousey -ℤ signed my)
      × (m'.obtns ≡ btns)
      × (contents m'.ring ≡ contents m.ring ++ changes btns m.obtns)
      × IsValid m'.ring
unfolding get_mouse_pos after_buttons packet
get_mouse_pos_lem stat btns stat₁ mx stat₂ my m r r₁ r₂ b v room =
    let at : Mouse = record m { mousex = m.mousex +ℤ signed mx; mousey = m.mousey -ℤ signed my } in
    let c = change btns m.obtns in
    let short = change_short btns m.obtns in
    let one = button_lem btns 0 at v (omega (arith, room)) in
    let two = button_next btns 1 at (button btns 0 at) (c 0) one (omega (arith, room, short 0)) in
    let size = length-append (c 0) (c 1) in
    let (has, v', x, y, o) =
      button_next btns 2 at (button btns 1 (button btns 0 at)) (c 0 ++ c 1) two
        (omega (arith, room, short 0, short 1, size)) in
    (
      record (button btns 2 (button btns 1 (button btns 0 at))) { obtns = btns },
      rw (r, r₁, r₂, b)
          (ap₂
            (λ p q. some (
              1,
              some (p, q),
              record (button btns 2 (button btns 1 (button btns 0 at))) { obtns = btns },
            ))
            x y),
      x,
      y,
      refl,
      has ∙ ap (contents m.ring ++◌) (append_assoc (c 0) (c 1) (c 2)),
      v',
    )
