-- ===== src/Kernel/Keyboard/Queue.antt =====
-- The key ring behaves as a queue of at most KEY_BUF_MAX_SIZE - 1 bytes.
use frosk.Prelude.{
  ℕ, zero, suc, ◌+◌, ◌-◌, ◌%◌, ◌<◌, ◌≡◌, refl, ◌∙◌, ap, ap₂, none, some, List, [], ◌∷◌, ◌++◌, ◌⊎◌,
  inl, inr, ◌==◌, arith, Bool-cases, min, take, drop, get_or, set, length, length-set,
  get_or-set_self, get_or-set_ne, append-nil, take-nil, append_assoc,
}
use frosk.Kernel.Keyboard.{KeyBuf, key_buf_max_size, next, take_key, kb_read, put_key, kb_write}

pub record IsValid (k : KeyBuf) : Type 0 where
  pub storage : length k.buf ≡ key_buf_max_size
  pub top_in : k.top < key_buf_max_size
  pub bot_in : k.bot < key_buf_max_size

-- bytes held
abbrev pub held : KeyBuf → ℕ
held k = (k.top + key_buf_max_size - k.bot) % key_buf_max_size

-- the n bytes from index i on, going round
abbrev pub window : List ℕ → ℕ → ℕ → List ℕ
window buf i zero = []
window buf i (suc n) = get_or buf i 0 ∷ window buf (next i) n

-- the bytes held, the oldest first
unfoldable pub contents : KeyBuf → List ℕ
contents k = window k.buf k.bot (held k)

length-window : (buf : List ℕ) (i n : ℕ) → length (window buf i n) ≡ n
length-window buf i zero = refl
length-window buf i (suc n) = ap suc (length-window buf (next i) n)

pub length-contents : (k : KeyBuf) → length (contents k) ≡ held k
unfolding contents
length-contents k = length-window k.buf k.bot (held k)

-- A write outside a window leaves it alone; just behind it, it extends it.
window-set :
    (buf : List ℕ) (c n i t : ℕ)
    → length buf ≡ key_buf_max_size
    → i < key_buf_max_size
    → n < key_buf_max_size
    → t ≡ (i + n) % key_buf_max_size
    → window (set buf t c) i (suc n) ≡ window buf i n ++ (c ∷ [])
window-set buf c zero i t l hi hn e =
    let e' : t ≡ i = omega arith in rw (e', get_or-set_self buf i c 0 (omega arith)) refl
window-set buf c (suc n) i t l hi hn e =
    ap₂ ◌∷◌ (get_or-set_ne buf c 0 (omega arith))
      (window-set buf c n (next i) t l (ground arith) (omega arith) (ground arith))

-- `take_key` gives the oldest byte, or none where no byte is held.
take_key_lem :
    (k : KeyBuf)
    → IsValid k
    → ((take_key k ≡ none) × (contents k ≡ []))
      ⊎ ((c : ℕ) × (k' : KeyBuf) × (take_key k ≡ some (c, k'))
          × (contents k ≡ c ∷ contents k')
          × IsValid k')
unfolding take_key contents
take_key_lem k v = elim (Bool-cases (k.top == k.bot)) [
  | inl e ↦ let none_held : held k ≡ 0 = ground arith in inl (rw e refl, rw none_held refl)
  | inr e ↦
      let rest = record k { bot = next k.bot } in
      let one_less : held k ≡ suc (held rest) = ground arith in
      inr (
        get_or k.buf k.bot 0,
        rest,
        rw e refl,
        rw one_less refl,
        record { storage = v.storage; top_in = v.top_in; bot_in = ground arith },
      )
]

-- `put_key` adds a byte at the end, or does nothing where one more would fill the ring.
put_key_lem :
    (c : ℕ) (k : KeyBuf)
    → IsValid k
    → ((put_key c k ≡ none) × (held k ≡ 0x1ff))
      ⊎ ((k' : KeyBuf) × (put_key c k ≡ some k')
          × (held k < 0x1ff)
          × (contents k' ≡ contents k ++ (c ∷ []))
          × (held k' ≡ held k + 1)
          × IsValid k')
unfolding put_key contents
put_key_lem c k v = elim (Bool-cases (next k.top == k.bot)) [
  | inl e ↦ inl (rw e refl, ground arith)
  | inr e ↦
      let k' = record k { buf = set k.buf k.top c; top = next k.top } in
      let more : held k' ≡ suc (held k) = ground arith in
      inr (
        k',
        rw e refl,
        ground arith,
        rw more (
            window-set k.buf c (held k) k.bot k.top v.storage v.bot_in (ground arith)
              (ground arith)),
        omega arith,
        record {
          storage = length-set k.buf k.top c ∙ v.storage;
          top_in = ground arith;
          bot_in = v.bot_in;
        },
      )
]

-- On a valid ring `kb_read` of n bytes returns the n oldest bytes, or all where fewer are held,
-- takes exactly these out of the ring, and leaves it valid.
pub kb_read_lem :
    (n : ℕ) (k : KeyBuf)
    → IsValid k
    → let (cs, k') = kb_read n k in
      (cs ≡ take n (contents k)) × (contents k' ≡ drop n (contents k)) × IsValid k'
unfolding kb_read
kb_read_lem zero k v = (refl, refl, v)
kb_read_lem (suc n) k v = elim (take_key_lem k v) [
  | inl (stop, empty) ↦ rw (stop, kb_read) (rw empty (refl, refl, v))
  | inr (c, k', got, is, v') ↦
      let (read, left, valid) = kb_read_lem n k' v' in
      rw (got, kb_read) (rw is (ap (λ cs. c ∷ cs) read, left, valid))
]

-- On a valid ring `kb_write` accepts as many of the bytes as there is room, of 0x1ff bytes in
-- all, returns their number, appends exactly these in order, and leaves the ring valid.
pub kb_write_lem :
    (cs : List ℕ) (k : KeyBuf)
    → IsValid k
    → let (n, k') = kb_write cs k in
      let room = 0x1ff - length (contents k) in
      (n ≡ min (length cs) room) × (contents k' ≡ contents k ++ take room cs) × IsValid k'
unfolding kb_write
kb_write_lem [] k v = (omega arith, rw (take-nil, append-nil) refl, v)
kb_write_lem (c ∷ cs) k v = elim (put_key_lem c k v) [
  | inl (stop, full) ↦
      let no_room : 0x1ff - length (contents k) ≡ 0 = omega (arith, length-contents k) in
      rw (stop, kb_write) (rw no_room (omega arith, rw append-nil refl, v))
  | inr (k', put, room, is, more, v') ↦
      let one_more : 0x1ff - length (contents k) ≡ suc (0x1ff - length (contents k')) =
        omega (arith, length-contents k, length-contents k') in
      let (wrote, now, valid) = kb_write_lem cs k' v' in
      rw (put, kb_write)
        (rw one_more (
          omega (arith, wrote),
          now
              ∙ ap (λ l. l ++ take (0x1ff - length (contents k')) cs) is
              ∙ append_assoc (contents k) _ _,
          valid,
        ))
]
