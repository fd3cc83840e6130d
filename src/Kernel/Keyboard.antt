-- ===== src/Kernel/Keyboard.antt =====
-- kernel/src/keyboard.c: the ring of key codes between the interrupt and `kb_read`.
-- `key_buf` is a list of KEY_BUF_MAX_SIZE bytes; the buffer that a caller passes is the list of the
-- bytes that it holds.
pub mod Queue
mod Examples
use frosk.Prelude.{
  ℕ, zero, suc, ◌+◌, Option, none, some, List, [], ◌∷◌, ◌==◌, if◌then◌else◌, get_or, set, replicate,
}

-- KEY_BUF_MAX_SIZE of kerndef.h
abbrev pub key_buf_max_size : ℕ
key_buf_max_size = 0x200

pub record KeyBuf : Type 0 where
  pub buf : List ℕ
  pub top : ℕ
  pub bot : ℕ

-- `i++; if (i == KEY_BUF_MAX_SIZE) i = 0;`
abbrev pub next : ℕ → ℕ
next i = if i + 1 == key_buf_max_size then 0 else i + 1

-- the globals at start
unfoldable pub initial : KeyBuf
initial = record { buf = replicate key_buf_max_size 0; top = 0; bot = 0 }

-- one round of the loop of `kb_read`: a byte and the new state, or `none` where it breaks
unfoldable pub take_key : KeyBuf → Option (ℕ × KeyBuf)
take_key k =
    if k.top == k.bot then none else some (get_or k.buf k.bot 0, record k { bot = next k.bot })

-- `kb_read` of `size` bytes: those read, whose number it returns, and the state
unfoldable pub kb_read : ℕ → KeyBuf → List ℕ × KeyBuf
kb_read zero k = ([], k)
kb_read (suc size) k = elim (take_key k) [
  | none ↦ ([], k)
  | some (c, k') ↦ let (cs, k'') = kb_read size k' in (c ∷ cs, k'')
]

-- one round of the loop of `kb_write`
unfoldable pub put_key : ℕ → KeyBuf → Option KeyBuf
put_key c k =
    let t = next k.top in
    if t == k.bot then none else some (record k { buf = set k.buf k.top c; top = t })

-- `kb_write`: the number of bytes written, and the state
unfoldable pub kb_write : List ℕ → KeyBuf → ℕ × KeyBuf
kb_write [] k = (0, k)
kb_write (c ∷ cs) k = elim (put_key c k) [
  | none ↦ (0, k)
  | some k' ↦ let (n, k'') = kb_write cs k' in (n + 1, k'')
]
