-- ===== src/Kernel/Fs/Names.antt =====
-- How kernel/src/fs.c compares a name with a path.
use mathlib.Core.Option
use frosk.Prelude.{
  ℕ, zero, suc, ◌+◌, ◌≤◌, ◌≡◌, ◌≢◌, refl, ap, sym, ◌∙◌, true, false, ◌&&◌, Option, none, some, List,
  [], ◌∷◌, ◌++◌, ◌==◌, if◌then◌else◌, length, get_or, drop, arith, Bool-cases, ◌⊎◌, inl, inr,
  append-nil, length-append,
}
use frosk.Cstd.Memory.{Mem}
use frosk.Cstd.Strings.Compare.{is_prefix}
use frosk.Kernel.Fs.{
  strncmp_from, strncmp, match_name, at_char, string_size, string_next_ptr, string_str,
}
use frosk.Kernel.Fs.Tree.{concat, Chars, Pieces, NoSlash, join, same, IsComponent, AllComponents}

strncmp_lem :
    (c : List ℕ) (m : Mem) (a i : ℕ) (fn : List ℕ)
    → Chars m a c
    → (strncmp_from (length c) m a fn i == 0) ≡ is_prefix c fn
unfolding strncmp_from
strncmp_lem [] m a i fn h = refl
strncmp_lem (c ∷ cs) m a i [] (e, nz, h) =
    let more : (c == 0) ≡ false = ground (arith, nz) in rw (e, more) (ground arith)
strncmp_lem (c ∷ cs) m a i (f ∷ fn) (e, nz, h) =
    let more : (c == 0) ≡ false = ground (arith, nz) in
    let ih = strncmp_lem cs m (a + 1) (i + 1) fn h in
    rw (e, more) (elim (Bool-cases (c == f)) [ inl q ↦ rw q ih | inr q ↦ rw q (ground arith) ])

is_prefix-append :
    (c d t : List ℕ) → is_prefix (c ++ d) t ≡ is_prefix c t && is_prefix d (drop (length c) t)
is_prefix-append [] d t = refl
is_prefix-append (x ∷ c) d [] = refl
is_prefix-append (x ∷ c) d (y ∷ t) = elim (Bool-cases (x == y)) [
  | inl q ↦ rw q (is_prefix-append c d t)
  | inr q ↦ rw q refl
]

drop_nil {ℓ} : {A : Type ℓ} (k : ℕ) → drop {A = A} k [] ≡ []
drop_nil zero = refl
drop_nil (suc k) = refl

drop-drop : (i k : ℕ) (t : List ℕ) → drop (i + k) t ≡ drop k (drop i t)
drop-drop zero k t = let e : 0 + k ≡ k = omega arith in rw e refl
drop-drop (suc i) k [] = let e : suc i + k ≡ suc (i + k) = omega arith in rw e (sym (drop_nil k))
drop-drop (suc i) k (x ∷ t) =
    let e : suc i + k ≡ suc (i + k) = omega arith in rw e (drop-drop i k t)

-- the result of the comparison of a name
abbrev pub matched : List ℕ → List ℕ → ℕ → Option ℕ
matched name fn i = if is_prefix name (drop i fn) then some (i + length name) else none

matched-append :
    (c d fn : List ℕ) (i : ℕ)
    → is_prefix c (drop i fn) ≡ true
    → matched (c ++ d) fn i ≡ matched d fn (i + length c)
matched-append c d fn i h =
    let whole = is_prefix-append c d (drop i fn) in
    let at = drop-drop i (length c) fn in
    let sum : i + length (c ++ d) ≡ i + length c + length d = omega (arith, length-append c d) in
    rw (whole, h, at, sum) refl

matched-append_none :
    (c d fn : List ℕ) (i : ℕ) → is_prefix c (drop i fn) ≡ false → matched (c ++ d) fn i ≡ none
matched-append_none c d fn i h = let whole = is_prefix-append c d (drop i fn) in rw (whole, h) refl

compared :
    (m : Mem) (n : ℕ) (c fn : List ℕ)
    → string_size m n ≡ length c
    → Chars m (string_str n) c
    → (strncmp m (string_str n) fn (string_size m n) == 0) ≡ is_prefix c fn
compared m n c fn size chars = rw size (strncmp_lem c m (string_str n) 0 fn chars)

pub match_name_lem :
    (c : List (List ℕ)) (fuel : ℕ) (hdrs : List ℕ) (m : Mem) (n : ℕ) (fn : List ℕ) (i : ℕ)
    → Pieces hdrs m n c
    → length c ≤ fuel
    → match_name fuel hdrs m n fn i ≡ some (matched (concat c) fn i)
unfolding match_name Option.bind
match_name_lem [] fuel hdrs m n fn i h le = absurd h
match_name_lem (c ∷ cs) zero hdrs m n fn i h le = absurd (omega arith)
match_name_lem (c ∷ []) (suc fuel) hdrs m n fn i (size, chars, last) le =
    let same_size : string_size m n ≡ length (c ++ []) = size ∙ ap length (sym (append-nil c)) in
    let test = compared m n c (drop i fn) size chars in
    let whole : is_prefix (c ++ []) (drop i fn) ≡ is_prefix c (drop i fn) =
      ap (λ s. is_prefix s (drop i fn)) (append-nil c) in
    elim (Bool-cases (is_prefix c (drop i fn))) [
      | inl q ↦ rw (test, last, whole) (rw (q, same_size) refl)
      | inr q ↦ rw (test, last, whole) (rw q refl)
    ]
match_name_lem (c ∷ c' ∷ cs) (suc fuel) hdrs m n fn i (size, chars, more, (n', at, rest)) le =
    let test = compared m n c (drop i fn) size chars in
    let next : (string_next_ptr m n == 0) ≡ false = ground (arith, more) in
    let ih = match_name_lem (c' ∷ cs) fuel hdrs m n' fn (i + string_size m n) rest (omega arith) in
    elim (Bool-cases (is_prefix c (drop i fn))) [
      | inl q ↦
          let joined = matched-append c (concat (c' ∷ cs)) fn i q in
          rw (test, next, q) (rw at (ih ∙ ap some (rw size (sym joined))))
      | inr q ↦ rw (test, q) (ap some (sym (matched-append_none c (concat (c' ∷ cs)) fn i q)))
    ]

-- how names and paths meet: behind an equal name stands what stands behind the component, and behind
-- another name that the path begins with stands a character of a component
same-prefix :
    (e n t : List ℕ)
    → same e n ≡ true
    → (is_prefix e (n ++ t) ≡ true)
      × (get_or (n ++ t) (length e) 0 ≡ get_or t 0 0)
      × (drop (suc (length e)) (n ++ t) ≡ drop 1 t)
same-prefix [] [] t h = (refl, refl, refl)
same-prefix [] (y ∷ n) t h = absurd (ground (arith, h))
same-prefix (x ∷ e) [] t h = absurd (ground (arith, h))
same-prefix (x ∷ e) (y ∷ n) t h =
    let q : (x == y) ≡ true = ground (arith, h) in
    let r : same e n ≡ true = ground (arith, h) in
    let (p, c, d) = same-prefix e n t r in (rw q p, c, d)

-- the path is at its end, or at a slash
abbrev pub AtEnd : List ℕ → Type 0
AtEnd [] = Unit
AtEnd (c ∷ t) = c ≡ b'/'

other-prefix :
    (e n t : List ℕ)
    → NoSlash e
    → NoSlash n
    → AtEnd t
    → same e n ≡ false
    → is_prefix e (n ++ t) ≡ true
    → (get_or (n ++ t) (length e) 0 ≢ 0) × (get_or (n ++ t) (length e) 0 ≢ b'/')
other-prefix [] [] t he hn ht h p = absurd (ground (arith, h))
other-prefix [] (y ∷ n) t he (z, s, hn) ht h p = (z, s)
other-prefix (x ∷ e) [] [] he hn ht h p = absurd (ground (arith, p))
other-prefix (x ∷ e) [] (y ∷ t) (z, s, he) hn ht h p = absurd (ground (arith, p, ht, s))
other-prefix (x ∷ e) (y ∷ n) t (z, s, he) (z', s', hn) ht h p =
    let q : (x == y) ≡ true = ground (arith, p) in
    let p' : is_prefix e (n ++ t) ≡ true = ground (arith, p) in
    let r : same e n ≡ false = ground (arith, h, q) in other-prefix e n t he hn ht r p'

-- what stands behind a component
abbrev pub tail_of : List (List ℕ) → List ℕ
tail_of [] = []
tail_of (n ∷ ns) = b'/' ∷ join n ns

join-tail : (n : List ℕ) (ns : List (List ℕ)) → join n ns ≡ n ++ tail_of ns
join-tail n [] = sym (append-nil n)
join-tail n (n' ∷ ns) = refl

tail_of-AtEnd : (ns : List (List ℕ)) → AtEnd (tail_of ns)
tail_of-AtEnd [] = tt
tail_of-AtEnd (n ∷ ns) = refl

IsComponent-NoSlash : (n : List ℕ) → IsComponent n → NoSlash n
IsComponent-NoSlash [] h = absurd h
IsComponent-NoSlash (c ∷ cs) h = h

pub first-IsComponent : (n : List ℕ) (ns : List (List ℕ)) → AllComponents n ns → IsComponent n
first-IsComponent n [] h = h
first-IsComponent n (n' ∷ ns) (h, hs) = h

-- a path of components begins with a character of the first
pub first_char :
    (n : List ℕ) (ns : List (List ℕ))
    → AllComponents n ns
    → ((at_char (join n ns) 0 == 0) ≡ false) × ((at_char (join n ns) 0 == b'/') ≡ false)
first_char [] [] h = absurd h
first_char [] (n' ∷ ns) (h, hs) = absurd h
first_char (c ∷ n) [] (z, s, h) = (ground (arith, z), ground (arith, s))
first_char (c ∷ n) (n' ∷ ns) ((z, s, h), hs) = (ground (arith, z), ground (arith, s))

-- what the comparison of the name c of an entry says of the path, as the loop goes on
abbrev pub Named : List (List ℕ) → List ℕ → List (List ℕ) → Type 0
Named c n ns =
    ((same (concat c) n ≡ true)
      × (matched (concat c) (join n ns) 0 ≡ some (length (concat c)))
      × (at_char (join n ns) (length (concat c)) ≡ at_char (tail_of ns) 0)
      × (drop (length (concat c) + 1) (join n ns) ≡ drop 1 (tail_of ns)))
    ⊎ ((same (concat c) n ≡ false)
        × ((matched (concat c) (join n ns) 0 ≡ none)
            ⊎ ((matched (concat c) (join n ns) 0 ≡ some (length (concat c)))
                × ((at_char (join n ns) (length (concat c)) == 0) ≡ false)
                × ((at_char (join n ns) (length (concat c)) == b'/') ≡ false))))

pub Named-cases :
    (c : List (List ℕ)) (n : List ℕ) (ns : List (List ℕ))
    → NoSlash (concat c)
    → AllComponents n ns
    → Named c n ns
Named-cases c n ns hc hn =
    let j = join-tail n ns in
    let one : length (concat c) + 1 ≡ suc (length (concat c)) = omega arith in
    let zero_plus : 0 + length (concat c) ≡ length (concat c) = omega arith in
    elim (Bool-cases (same (concat c) n)) [
      | inl q ↦
          let (p, ch, d) = same-prefix (concat c) n (tail_of ns) q in
          inl (q, rw j (rw p (ap some zero_plus)), rw j ch, rw (j, one) d)
      | inr q ↦ elim (Bool-cases (is_prefix (concat c) (n ++ tail_of ns))) [
        | inl p ↦
            let (z, s) =
              other-prefix (concat c) n (tail_of ns) hc
                (IsComponent-NoSlash n (first-IsComponent n ns hn)) (tail_of-AtEnd ns) q p in
            inr (
              q,
              inr (
                rw j (rw p (ap some zero_plus)),
                rw j (ground (arith, z)),
                rw j (ground (arith, s)),
              ),
            )
        | inr p ↦ inr (q, inl (rw j (rw p refl)))
      ]
    ]
