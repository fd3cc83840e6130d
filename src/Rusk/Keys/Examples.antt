-- ===== src/Rusk/Keys/Examples.antt =====
-- A capital letter, and a control key that is pressed and released.
use frosk.Prelude.{ℕ, ◌≡◌, refl, true, false, some, List, [], ◌∷◌}
use frosk.Prelude.Int.{pos, negsuc, ◌+ℤ◌}
use frosk.Rusk.Keys.{
  mouse_down, key_down, Mods, letter, other_key, key_event, key_events, clamp, process_events,
}
use frosk.Rusk.Keys.Decode.{flags_after, events_of, process_events_lem}

abbrev none_held : Mods
none_held = record { shift = false; ctrl = false; alt = false }

abbrev codes : List ℕ
codes = 0x2a ∷ 0x1e ∷ 0xaa ∷ 0x1d ∷ 0x9d ∷ 0x70 ∷ []

decoded :
    process_events (negsuc 4) (pos 5) none_held codes
    ≡ some (
      record none_held { ctrl = true },
      key_down b'a' true false false ∷ mouse_down (pos 10) (pos 15) 1 ∷ [],
    )
unfolding process_events clamp key_events key_event other_key letter ◌+ℤ◌
decoded = refl

process_events_lem_example :
    process_events (negsuc 4) (pos 5) none_held codes
    ≡ some (
      flags_after none_held codes,
      events_of (clamp (negsuc 4)) (clamp (pos 5)) none_held [] codes,
    )
process_events_lem_example = process_events_lem (negsuc 4) (pos 5) none_held codes
