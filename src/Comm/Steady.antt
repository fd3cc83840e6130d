-- ===== src/Comm/Steady.antt =====
-- What sending and receiving at one port leave as it is.
use frosk.Prelude.{ℕ, ◌≡◌, List, some}
use frosk.Comm.{Channel}

pub record Steady {S : Type 0} (ch : Channel S) (P : S → Type 0) : Type 0 where
  pub on_send : (xs : List ℕ) (s : S) → P s → P (ch.send xs s)
  pub on_receive :
      (n : ℕ) (s : S) (bs : List ℕ) (s' : S) → ch.receive n s ≡ some (bs, s') → P s → P s'

pub anything : {S : Type 0} (ch : Channel S) → Steady ch (λ s. Unit {0})
anything ch = record { on_send = λ xs s p. p; on_receive = λ n s bs s' e p. p }
