-- ===== src/Kernel/Keyboard/Examples.antt =====
-- A key ring whose bytes go round the end of its storage.
use frosk.Prelude.{◌-◌, ◌≡◌, refl, [], ◌∷◌, ◌++◌, arith, min, take, drop, length, replicate, set}
use frosk.Kernel.Keyboard.{KeyBuf, initial, take_key, kb_read, put_key, kb_write, key_buf_max_size}
use frosk.Kernel.Keyboard.Queue.{IsValid, contents, kb_read_lem, kb_write_lem}

-- 7 in the last place, and 8 in the first
abbrev wrapped : KeyBuf
wrapped = record { buf = set (set (replicate key_buf_max_size 0) 511 7) 0 8; top = 1; bot = 511 }

wrapped-IsValid : IsValid wrapped
wrapped-IsValid = record { storage = refl; top_in = omega arith; bot_in = omega arith }

write_then_read : (kb_read 4 (kb_write (1 ∷ 2 ∷ 3 ∷ []) initial).1).0 ≡ 1 ∷ 2 ∷ 3 ∷ []
unfolding kb_read kb_write take_key put_key initial
write_then_read = refl

kb_read_lem_example :
    let (cs, k) = kb_read 1 wrapped in
    (cs ≡ take 1 (contents wrapped)) × (contents k ≡ drop 1 (contents wrapped)) × IsValid k
kb_read_lem_example = kb_read_lem 1 wrapped wrapped-IsValid

kb_write_lem_example :
    let (n, k) = kb_write (9 ∷ 10 ∷ []) wrapped in
    let room = 0x1ff - length (contents wrapped) in
    (n ≡ min 2 room) × (contents k ≡ contents wrapped ++ take room (9 ∷ 10 ∷ [])) × IsValid k
kb_write_lem_example = kb_write_lem (9 ∷ 10 ∷ []) wrapped wrapped-IsValid
