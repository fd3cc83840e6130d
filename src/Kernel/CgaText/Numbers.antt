-- ===== src/Kernel/CgaText/Numbers.antt =====
-- The numbers of kernel/src/cga_text.c. That `putu` leaves 0 in the number that it is given is
-- not part of the model. `none` is a division by 0, or a base of 1, with which the loop has no end.
use mathlib.Core.Option
use frosk.Prelude.{
  ℕ, zero, suc, ◌+◌, ◌-◌, ◌*◌, ◌/◌, ◌%◌, ◌&&◌, Option, none, some, ◌==◌, ltb, if◌then◌else◌,
}
use frosk.Prelude.Int.{ℤ, pos, negsuc}
use frosk.Cstd.Memory.{Mem, write}
use frosk.Kernel.CgaText.{Screen, ensure_cleared, put_char}

-- the loop that counts the digits
unfoldable pub count_digits : ℕ → ℕ → ℕ → Option ℕ
count_digits zero v b = none
count_digits (suc fuel) v b =
    let rest = Option.map suc (count_digits fuel (v / b) b) in
    if v == 0 then some 0 else if b == 0 then none else rest

-- a digit as a `char`
abbrev pub digit_char : ℕ → ℕ
digit_char c = if ltb 9 c && ltb c 128 then b'A' - 10 + c else (b'0' + c) % 256

-- the loop that writes l digits, the last one first, i of them written
unfoldable pub write_digits : ℕ → ℕ → ℕ → ℕ → ℕ → ℕ → Mem → Mem
write_digits zero n b l i at m = m
write_digits (suc fuel) n b l i at m =
    let rest =
      write_digits fuel (n / b) b l (i + 1) at
        (write m (at + (l - (i + 1)) * 2) (digit_char (n % b))) in
    if n == 0 then m else rest

-- `putu` of a `ulong` and its base; 64 digits are enough for base 2
unfoldable pub putu : ℕ → ℕ → Screen → Option Screen
putu n b s =
    let s' = ensure_cleared s in
    let number =
      Option.map
        (λ l. record s' {
          mem = write_digits l n b l 0 s'.cursor s'.mem;
          cursor = s'.cursor + l * 2;
        })
        (count_digits 65 n b) in
    if n == 0 then some (put_char b'0' s') else number

unfoldable pub putl : ℤ → ℕ → Screen → Option Screen
putl (pos n) b s = putu n b (ensure_cleared s)
putl (negsuc n) b s = putu (suc n) b (put_char b'-' (ensure_cleared s))
