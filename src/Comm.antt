-- ===== src/Comm.antt =====
-- lib/events/src/events.c and lib/expanse/src/expanse.c: lists as messages, over `send` and `receive`
-- of the kernel: a `Channel`, which Kernel/Ports/Link fills with kernel/src/ports.c. C structs as bytes
-- are a parameter: a `Struct`.
-- `none` is a `receive` that waits for bytes that have not been sent.
pub mod Lists
pub mod Buffers
pub mod Net
pub mod Steady
pub mod Pair
mod Examples
use mathlib.Core.Option
use frosk.Prelude.{
  ℕ, zero, suc, ◌+◌, ◌-◌, ◌*◌, ◌/◌, ◌%◌, ◌^◌, ◌<◌, ◌≤◌, ◌≡◌, Bool, Option, none, some, List, [],
  ◌∷◌, ◌++◌, length, get_or, ltb, if◌then◌else◌,
}
use frosk.Prelude.Int.{ℤ, pos, negsuc, pos_part}

-- one port between two processes: where there is room for the bytes that are sent, what is received are
-- the bytes that wait, in their order
pub record Channel (S : Type 0) : Type 1 where
  pub send : List ℕ → S → S
  pub receive : ℕ → S → Option (List ℕ × S)
  pub waiting : S → List ℕ
  -- so many more bytes can be sent
  pub Room : ℕ → S → Type 0
  pub room_less : (k n : ℕ) (s : S) → k ≤ n → Room n s → Room k s
  pub room-send : (xs : List ℕ) (n : ℕ) (s : S) → Room (length xs + n) s → Room n (send xs s)
  pub waiting-send :
      (xs : List ℕ) (s : S) → Room (length xs) s → waiting (send xs s) ≡ waiting s ++ xs
  pub receive_waiting :
      (xs ys : List ℕ) (s : S)
      → Room 0 s
      → waiting s ≡ xs ++ ys
      → (s' : S) × (receive (length xs) s ≡ some (xs, s')) × (waiting s' ≡ ys) × Room 0 s'

-- a C type in memory
pub record Struct (A : Type 0) : Type 0 where
  pub size : ℕ
  pub encode : A → List ℕ
  pub decode : List ℕ → A
  pub length-encode : (a : A) → length (encode a) ≡ size
  pub decode-encode : (a : A) → decode (encode a) ≡ a

-- the bytes of an `int` from its value modulo 2^32, and back
abbrev pub word : ℕ → List ℕ
word n = n % 256 ∷ n / 256 % 256 ∷ n / 65536 % 256 ∷ n / 16777216 % 256 ∷ []

abbrev pub unsigned : List ℕ → ℕ
unsigned bs = get_or bs 0 0 + 256 * get_or bs 1 0 + 65536 * get_or bs 2 0 + 16777216 * get_or bs 3 0

abbrev pub int_bytes : ℤ → List ℕ
int_bytes (pos n) = word n
int_bytes (negsuc n) = word (2 ^ 32 - 1 - n % 2 ^ 32)

abbrev pub int_value : List ℕ → ℤ
int_value bs = let n = unsigned bs in if ltb n (2 ^ 31) then pos n else negsuc (2 ^ 32 - 1 - n)

module _ {S : Type 0} (ch : Channel S) {A : Type 0} (struct : Struct A) where
  unfoldable pub send_items : List A → S → S
  send_items [] s = s
  send_items (a ∷ xs) s = send_items xs (ch.send (struct.encode a) s)

  -- `send_events` and `send_exp_list`: the number of items as an `int`, and each item
  unfoldable pub send_list : List A → S → S
  send_list xs s = send_items xs (ch.send (int_bytes (pos (length xs))) s)

  unfoldable pub receive_items : ℕ → S → Option (List A × S)
  receive_items zero s = some ([], s)
  receive_items (suc n) s =
      Option.bind (ch.receive struct.size s)
        λ (bs, s'). Option.map (λ (xs, s''). (struct.decode bs ∷ xs, s'')) (receive_items n s')

  -- `get_events`, whose loop runs until the count is 0
  unfoldable pub get_events : S → Option (List A × S)
  get_events s = Option.bind (ch.receive 4 s) λ (bs, s'). receive_items (unsigned bs) s'

  -- `receive_exp_list`, whose loop runs while the count is positive
  unfoldable pub receive_exp_list : S → Option (List A × S)
  receive_exp_list s =
      Option.bind (ch.receive 4 s) λ (bs, s'). receive_items (pos_part (int_value bs)) s'
