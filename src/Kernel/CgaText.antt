-- ===== src/Kernel/CgaText.antt =====
-- kernel/src/cga_text.c: the text screen. The cursor and the addresses of the memory are relative to
-- SCREEN_BUFFER; the cursor is not held to the screen, as in the code. `none` means that the fuel
-- for the search of a line's end ran out, which is enough for a line.
pub mod Cells
pub mod Numbers
mod Examples
use mathlib.Core.Option
use frosk.Prelude.{
  ℕ, zero, suc, ◌+◌, ◌%◌, Bool, true, false, Option, none, some, List, [], ◌∷◌, ◌==◌, if◌then◌else◌,
}
use frosk.Cstd.Memory.{Mem, write}

pub record Screen : Type 0 where
  pub mem : Mem
  pub cursor : ℕ
  pub cleared : Bool

-- the loop of `cls` over n cells from b on
unfoldable pub cls_cells : ℕ → ℕ → ℕ → Mem → Mem
cls_cells zero col b m = m
cls_cells (suc n) col b m = cls_cells n col (b + 2) (write (write m b 0) (b + 1) (col % 256))

unfoldable pub cls : ℕ → Screen → Screen
cls col s = record { mem = cls_cells 2000 col 0 s.mem; cursor = 0; cleared = true }

-- `if (!cleared) cls(DEFAULT_CLS);`
unfoldable pub ensure_cleared : Screen → Screen
ensure_cleared s = if s.cleared then s else cls 0x0F s

-- the loop of `putnl`
unfoldable pub line_end : ℕ → ℕ → Option ℕ
line_end zero p = none
line_end (suc fuel) p = let rest = line_end fuel (p + 2) in if p % 160 == 0 then some p else rest

unfoldable pub putnl : Screen → Option Screen
putnl s =
    let s' = ensure_cleared s in Option.map (λ p. record s' { cursor = p }) (line_end 81 s'.cursor)

abbrev pub put_char : ℕ → Screen → Screen
put_char c s = record s { mem = write s.mem s.cursor c; cursor = s.cursor + 2 }

-- one character, a newline or another one
unfoldable pub put_one : ℕ → Screen → Option Screen
put_one c s = let cell = some (put_char c s) in if c == 10 then putnl s else cell

-- `putc`, of the low byte
unfoldable pub putc : ℕ → Screen → Option Screen
putc c s = let s' = ensure_cleared s in if c == 10 then putnl s' else some (put_char (c % 256) s')

-- the loop of `puts`, over the characters of the string
unfoldable pub put_all : List ℕ → Screen → Option Screen
put_all [] s = some s
put_all (c ∷ cs) s = Option.bind (put_one c s) (put_all cs)

unfoldable pub puts : List ℕ → Screen → Option Screen
puts cs s = put_all cs (ensure_cleared s)
