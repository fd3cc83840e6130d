-- ===== src/Kernel/Kobj/Alloc.antt =====
-- `alloc_kobj` of kernel/src/kernobj.c.
use frosk.Prelude.{
  ℕ, ◌+◌, ◌*◌, ◌<◌, ◌≡◌, refl, true, false, none, some, List, [], ◌∷◌, arith, ◌⊎◌, inl, inr,
  Bool-cases,
}
use frosk.Kernel.Kobj.{Header, mark, full, claim_low, claim_high, alloc_kobj}
use frosk.Kernel.Kobj.Words.{IsUniform, first_clear_lem, not_full, mark-IsUniform}

abbrev pub IsValid : Header → Type 0
IsValid h = IsUniform h.low × IsUniform h.high

abbrev pub AllValid : List Header → Type 0
AllValid [] = Unit
AllValid (h ∷ hs) = IsValid h × AllValid hs

abbrev pub AllFull : List Header → Type 0
AllFull [] = Unit
AllFull (h ∷ hs) = (full h.low ≡ true) × (full h.high ≡ true) × AllFull hs

-- One slot that was clear is marked, in the first header with room, and the address is the slot's.
pub data Claimed : List Header → ℕ → List Header → Type 0 where
  in_low :
      (h : Header) (hs : List Header) (i : ℕ)
      → full h.low ≡ false
      → i < 32
      → h.low i ≡ false
      → Claimed (h ∷ hs) (h.addr + i * 0x20) (record h { low = mark h.low i } ∷ hs)
  in_high :
      (h : Header) (hs : List Header) (i : ℕ)
      → full h.low ≡ true
      → i < 32
      → h.high i ≡ false
      → Claimed (h ∷ hs) (h.addr + 0x800 + i * 0x20) (record h { high = mark h.high i } ∷ hs)
  later :
      {hs hs' : List Header} {a : ℕ} (h : Header)
      → full h.low ≡ true
      → full h.high ≡ true
      → Claimed hs a hs'
      → Claimed (h ∷ hs) a (h ∷ hs')

abbrev pub Allocated : List Header → Type 0
Allocated hs =
    (a : ℕ) × (hs' : List Header) × (alloc_kobj hs ≡ some (a, hs'))
    × Claimed hs a hs'
    × AllValid hs'

-- With room in the lower word of the first header, a slot of it is marked.
pub alloc_low :
    (h : Header) (hs : List Header)
    → IsValid h
    → full h.low ≡ false
    → (i : ℕ) × (i < 32)
      × (h.low i ≡ false)
      × (alloc_kobj (h ∷ hs) ≡ some (h.addr + i * 0x20, record h { low = mark h.low i } ∷ hs))
unfolding alloc_kobj claim_low
alloc_low h hs v e =
    let (j, jl, je) = not_full h.low v.0 e in
    let (i, found, il, ie) = first_clear_lem 64 0 j h.low v.0 (omega arith) jl (omega arith) je in
    (i, il, ie, rw (e, found) refl)

-- With room only in its upper word, a slot of that is marked.
pub alloc_high :
    (h : Header) (hs : List Header)
    → IsValid h
    → full h.low ≡ true
    → full h.high ≡ false
    → (i : ℕ) × (i < 32)
      × (h.high i ≡ false)
      × (alloc_kobj (h ∷ hs)
          ≡ some (h.addr + 0x800 + i * 0x20, record h { high = mark h.high i } ∷ hs))
unfolding alloc_kobj claim_high
alloc_high h hs v e f =
    let (j, jl, je) = not_full h.high v.1 f in
    let (i, found, il, ie) = first_clear_lem 64 0 j h.high v.1 (omega arith) jl (omega arith) je in
    (i, il, ie, rw (e, f, found) refl)

claim_low_lem :
    (h : Header) (hs : List Header)
    → IsValid h
    → AllValid hs
    → full h.low ≡ false
    → Allocated (h ∷ hs)
claim_low_lem h hs v vs e =
    let (i, il, ie, made) = alloc_low h hs v e in
    (
      h.addr + i * 0x20,
      record h { low = mark h.low i } ∷ hs,
      made,
      in_low h hs i e il ie,
      ((mark-IsUniform h.low i v.0, v.1), vs),
    )

claim_high_lem :
    (h : Header) (hs : List Header)
    → IsValid h
    → AllValid hs
    → full h.low ≡ true
    → full h.high ≡ false
    → Allocated (h ∷ hs)
claim_high_lem h hs v vs e f =
    let (i, il, ie, made) = alloc_high h hs v e f in
    (
      h.addr + 0x800 + i * 0x20,
      record h { high = mark h.high i } ∷ hs,
      made,
      in_high h hs i e il ie,
      ((v.0, mark-IsUniform h.high i v.1), vs),
    )

-- On a valid pool `alloc_kobj` fails exactly when every word is full. Otherwise it marks one slot
-- that was clear, of the first header with room, returns the address of that slot, and leaves the
-- pool valid.
pub alloc_kobj_lem :
    (hs : List Header) → AllValid hs → (AllFull hs × (alloc_kobj hs ≡ none)) ⊎ Allocated hs
unfolding alloc_kobj
alloc_kobj_lem [] v = inl (tt, refl)
alloc_kobj_lem (h ∷ hs) v = elim (Bool-cases (full h.low)) [
  | inr e ↦ inr (claim_low_lem h hs v.0 v.1 e)
  | inl e ↦ elim (Bool-cases (full h.high)) [
    | inr f ↦ inr (claim_high_lem h hs v.0 v.1 e f)
    | inl f ↦ elim (alloc_kobj_lem hs v.1) [
      | inl rest ↦ inl ((e, f, rest.0), rw (e, f, rest.1) refl)
      | inr rest ↦
          let (a, hs', made, claimed, valid) = rest in
          inr (a, h ∷ hs', rw (e, f, made) refl, later h e f claimed, (v.0, valid))
    ]
  ]
]
