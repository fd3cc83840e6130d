-- ===== src/Kernel/Wsys.antt =====
-- kernel/src/wsysreg.c: the process that is registered as the window system, if one is. `cur` is
-- the process of the current thread, `none` where there is no thread.
pub mod Holder
use frosk.Prelude.{
  ℕ, Bool, true, false, ◌&&◌, Option, none, some, List, [], ◌∷◌, ◌==◌, if◌then◌else◌,
}

-- `get_wsys`; the null pointer is 0
abbrev pub get_wsys : Option ℕ → ℕ
get_wsys none = 0
get_wsys (some p) = p

-- `reg_wsys`: whether it registered the process, and `wsys`
unfoldable pub reg_wsys : Option ℕ → Option ℕ → Bool × Option ℕ
reg_wsys (some p) none = (true, some p)
reg_wsys none none = (false, none)
reg_wsys cur (some w) = (false, some w)

-- `unreg_wsys`: whether no registration of the process is left, and `wsys`
unfoldable pub unreg_wsys : Option ℕ → Option ℕ → Bool × Option ℕ
unreg_wsys cur none = (true, none)
unreg_wsys (some p) (some w) = if w == p then (true, none) else (false, some w)
unreg_wsys none (some w) = (false, some w)

-- a call by the current process
pub data Call : Type 0 where
  reg : Option ℕ → Call
  unreg : Option ℕ → Call

unfoldable pub call : Call → Option ℕ → Bool × Option ℕ
call (reg cur) w = reg_wsys cur w
call (unreg cur) w = unreg_wsys cur w

-- the registration after some calls
unfoldable pub run : List Call → Option ℕ → Option ℕ
run [] w = w
run (c ∷ cs) w = run cs (call c w).1
