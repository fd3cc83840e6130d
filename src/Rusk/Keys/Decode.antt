-- ===== src/Rusk/Keys/Decode.antt =====
-- What `process_events` of prgm/rusk/src/rusk.c makes of the key codes.
use frosk.Prelude.{
  ℕ, zero, suc, ◌<◌, ◌≡◌, refl, ap, ap₂, sym, ◌∙◌, subst, Bool, true, false, ◌||◌, some, List, [],
  ◌∷◌, ◌++◌, ◌==◌, leb, if◌then◌else◌, arith, length, get_elem?, get_or, ◌-◌, ◌&&◌, Bool-cases, inl,
  inr,
}
use frosk.Prelude.Int.{ℤ, ◌+ℤ◌, ◌-ℤ◌}
use frosk.Rusk.Expanses.{FullExpanse}
use frosk.Rusk.Keys.{
  Event, mouse_down, mouse_up, key_down, Mods, keys, letter, other_key, key_event, key_events,
  clamp, process_events, adjust,
}

get_elem?-or {ℓ} :
    {A : Type ℓ} (xs : List A) (i : ℕ) (d : A)
    → i < length xs
    → get_elem? xs i ≡ some (get_or xs i d)
get_elem?-or [] i d h = absurd (omega arith)
get_elem?-or (x ∷ xs) zero d h = refl
get_elem?-or (x ∷ xs) (suc i) d h = get_elem?-or xs i d (omega arith)

-- what a key code does to the flags
abbrev pub flagged : Mods → ℕ → Mods
flagged k c = record {
  shift = if c == 0x2a then true else if c == 0xaa then false else k.shift;
  ctrl = (c == 0x1d || c == 0x9d) || k.ctrl;
  alt = (c == 0x38 || c == 0xb8) || k.alt;
}

-- the key codes that only set flags
abbrev pub is_flag : ℕ → Bool
is_flag c = c == 0x2a || c == 0xaa || c == 0x1d || c == 0x9d || c == 0x38 || c == 0xb8

-- The event of a key code: three codes from 0x70 on for the buttons pressed, three from 0xF0 on for those
-- released, and the keys up to 0x35 and the space bar.
abbrev pub unflagged : ℤ → ℤ → Mods → ℕ → List Event
unflagged x y k c =
    if leb 0x70 c && leb c 0x72
    then mouse_down x y (c - 0x6F) ∷ []
    else if leb 0xF0 c && leb c 0xF2
    then mouse_up x y (c - 0xEF) ∷ []
    else if c == 0x39
    then key_down b' ' k.shift k.ctrl k.alt ∷ []
    else if leb c 0x35
    then key_down (get_or keys c 0) k.shift k.ctrl k.alt ∷ []
    else []

abbrev pub said : ℤ → ℤ → Mods → ℕ → List Event
said x y k c = if is_flag c then [] else unflagged x y k c

letter-keys : (c : ℕ) → leb c 0x35 ≡ true → letter c ≡ some (get_or keys c 0)
unfolding letter
letter-keys c h =
    let e : (c == 0x39) ≡ false = ground (arith, h) in
    rw e (get_elem?-or keys c 0 (ground (arith, h)))

other_key-at :
    (mx my : ℤ) (k : Mods) (c n : ℕ)
    → c ≡ n
    → other_key mx my k n ≡ some (k, unflagged mx my k n)
    → other_key mx my k c ≡ some (k, unflagged mx my k c)
other_key-at mx my k c n e h =
    subst (λ c. other_key mx my k c ≡ some (k, unflagged mx my k c)) (sym e) h

-- the codes with an event that are no keys
abbrev special : ℕ → Bool
special c = c == 0x39 || c == 0x70 || c == 0x71 || c == 0x72 || c == 0xF0 || c == 0xF1 || c == 0xF2

other_key-special :
    (mx my : ℤ) (k : Mods) (c : ℕ)
    → special c ≡ true
    → other_key mx my k c ≡ some (k, unflagged mx my k c)
unfolding other_key letter
other_key-special mx my k c h = elim (Bool-cases (c == 0x39)) [
  | inl e ↦ other_key-at mx my k c 0x39 (ground (arith, e)) refl
  | inr e₀ ↦ elim (Bool-cases (c == 0x70)) [
    | inl e ↦ other_key-at mx my k c 0x70 (ground (arith, e)) refl
    | inr e₁ ↦ elim (Bool-cases (c == 0x71)) [
      | inl e ↦ other_key-at mx my k c 0x71 (ground (arith, e)) refl
      | inr e₂ ↦ elim (Bool-cases (c == 0x72)) [
        | inl e ↦ other_key-at mx my k c 0x72 (ground (arith, e)) refl
        | inr e₃ ↦ elim (Bool-cases (c == 0xF0)) [
          | inl e ↦ other_key-at mx my k c 0xF0 (ground (arith, e)) refl
          | inr e₄ ↦ elim (Bool-cases (c == 0xF1)) [
            | inl e ↦ other_key-at mx my k c 0xF1 (ground (arith, e)) refl
            | inr e₅ ↦ other_key-at mx my k c 0xF2 (ground (arith, h, e₀, e₁, e₂, e₃, e₄, e₅)) refl
          ]
        ]
      ]
    ]
  ]
]

-- any other code
other_key-plain :
    (mx my : ℤ) (k : Mods) (c : ℕ)
    → special c ≡ false
    → other_key mx my k c ≡ some (k, unflagged mx my k c)
unfolding other_key
other_key-plain mx my k c h =
    let out₁ : (leb 0x70 c && leb c 0x72) ≡ false = ground (arith, h) in
    let out₂ : (leb 0xF0 c && leb c 0xF2) ≡ false = ground (arith, h) in
    elim (Bool-cases (leb c 0x35)) [
      | inl e ↦ let key = letter-keys c e in ground (arith, key, h, e, out₁, out₂)
      | inr e ↦ ground (arith, h, e, out₁, out₂)
    ]

other_key_lem : (mx my : ℤ) (k : Mods) (c : ℕ) → other_key mx my k c ≡ some (k, unflagged mx my k c)
other_key_lem mx my k c = elim (Bool-cases (special c)) [
  | inl e ↦ other_key-special mx my k c e
  | inr e ↦ other_key-plain mx my k c e
]

key_event_lem :
    (mx my : ℤ) (k : Mods) (c : ℕ) → key_event mx my k c ≡ some (flagged k c, said mx my k c)
unfolding key_event
key_event_lem mx my k c = let other = other_key_lem mx my k c in ground (arith, other)

abbrev pub press_all : Mods → List ℕ → Mods
press_all k [] = k
press_all k (c ∷ cs) = press_all (flagged k c) cs

-- the events of key codes, each with the flags that those before it leave
abbrev told : ℤ → ℤ → Mods → List ℕ → List Event
told x y k [] = []
told x y k (c ∷ cs) = said x y k c ++ told x y (flagged k c) cs

key_events_lem :
    (mx my : ℤ) (k : Mods) (cs : List ℕ)
    → key_events mx my k cs ≡ some (press_all k cs, told mx my k cs)
unfolding key_events
key_events_lem mx my k [] = refl
key_events_lem mx my k (c ∷ cs) =
    rw (key_event_lem mx my k c, key_events, key_events_lem mx my (flagged k c) cs) refl

abbrev pub pressed : ℕ → ℕ → List ℕ → Bool
pressed a b [] = false
pressed a b (c ∷ cs) = (c == a || c == b) || pressed a b cs

press_all-flags :
    (k : Mods) (cs : List ℕ)
    → ((press_all k cs).ctrl ≡ (pressed 0x1d 0x9d cs || k.ctrl))
      × ((press_all k cs).alt ≡ (pressed 0x38 0xb8 cs || k.alt))
press_all-flags k [] = (refl, refl)
press_all-flags k (c ∷ cs) =
    let (ctrl, alt) = press_all-flags (flagged k c) cs in
    (ground (arith, ctrl), ground (arith, alt))

-- the shift flag after the last code of a shift key, or as it was before
abbrev pub last_shift : Bool → List ℕ → Bool
last_shift b [] = b
last_shift b (c ∷ cs) = last_shift (if c == 0x2a then true else if c == 0xaa then false else b) cs

press_all-shift : (k : Mods) (cs : List ℕ) → (press_all k cs).shift ≡ last_shift k.shift cs
press_all-shift k [] = refl
press_all-shift k (c ∷ cs) = press_all-shift (flagged k c) cs

-- the flags after key codes: what has been pressed so far
abbrev pub flags_after : Mods → List ℕ → Mods
flags_after k cs = record {
  shift = last_shift k.shift cs;
  ctrl = pressed 0x1d 0x9d cs || k.ctrl;
  alt = pressed 0x38 0xb8 cs || k.alt;
}

press_all_lem : (k : Mods) (cs : List ℕ) → press_all k cs ≡ flags_after k cs
press_all_lem k cs i =
    let (ctrl, alt) = press_all-flags k cs in
    record { shift = press_all-shift k cs i; ctrl = ctrl i; alt = alt i }

-- the events of key codes behind others, each by the flags that all codes before it leave
abbrev pub events_of : ℤ → ℤ → Mods → List ℕ → List ℕ → List Event
events_of x y k before [] = []
events_of x y k before (c ∷ cs) =
    said x y (flags_after k before) c ++ events_of x y k (before ++ (c ∷ [])) cs

press_all-append :
    (k : Mods) (cs : List ℕ) (c : ℕ) → press_all k (cs ++ (c ∷ [])) ≡ flagged (press_all k cs) c
press_all-append k [] c = refl
press_all-append k (d ∷ cs) c = press_all-append (flagged k d) cs c

told_lem :
    (x y : ℤ) (k : Mods) (before cs : List ℕ)
    → told x y (press_all k before) cs ≡ events_of x y k before cs
told_lem x y k before [] = refl
told_lem x y k before (c ∷ cs) =
    let rest = told_lem x y k (before ++ (c ∷ [])) cs in
    ap₂ (λ (u v : List Event). u ++ v) (ap (λ m. said x y m c) (press_all_lem k before))
      (ap (λ m. told x y m cs) (sym (press_all-append k before c)) ∙ rest)

-- `process_events` reads no place outside its table of letters, whatever the key codes. Its events are, in
-- the order of the codes, the presses and releases of the three buttons, at the place of the mouse, and the
-- keys up to 0x35 and the space bar, with the flags that the codes before leave; a code that sets a
-- flag, and any other, makes none. The control flag is set if it was before or if a control key was
-- pressed or released, and the alt flag likewise: neither is ever cleared. The shift flag is as
-- the last code of a shift key says.
pub process_events_lem :
    (mx my : ℤ) (k : Mods) (cs : List ℕ)
    → process_events mx my k cs ≡ some (flags_after k cs, events_of (clamp mx) (clamp my) k [] cs)
unfolding process_events
process_events_lem mx my k cs =
    key_events_lem (clamp mx) (clamp my) k cs
    ∙ ap₂ (λ m es. some (m, es)) (press_all_lem k cs) (told_lem (clamp mx) (clamp my) k [] cs)

-- the event with its coordinates moved by those of the expanse
unfoldable pub back : FullExpanse → Event → Event
back f (mouse_down x y b) = mouse_down (x +ℤ f.exp.x) (y +ℤ f.exp.y) b
back f (mouse_up x y b) = mouse_up (x +ℤ f.exp.x) (y +ℤ f.exp.y) b
back f (key_down l s c a) = key_down l s c a

sub-add_cancel : (a b : ℤ) → a -ℤ b +ℤ b ≡ a
unfolding ◌+ℤ◌ ◌-ℤ◌
sub-add_cancel a b = ground arith

-- `adjust_events` loses nothing: moved back by the front expanse's place, each mouse event is as
-- it was, and so is each other event.
pub back-adjust : (f : FullExpanse) (e : Event) → back f (adjust f e) ≡ e
unfolding back adjust
back-adjust f (mouse_down x y b) =
    ap₂ (λ u v. mouse_down u v b) (sub-add_cancel x f.exp.x) (sub-add_cancel y f.exp.y)
back-adjust f (mouse_up x y b) =
    ap₂ (λ u v. mouse_up u v b) (sub-add_cancel x f.exp.x) (sub-add_cancel y f.exp.y)
back-adjust f (key_down l s c a) = refl
