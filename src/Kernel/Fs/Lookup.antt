-- ===== src/Kernel/Fs/Lookup.antt =====
-- `fs_aquire` of kernel/src/fs.c finds what the tree has.
use mathlib.Core.Option
use frosk.Prelude.{
  ℕ, zero, suc, ◌+◌, ◌≤◌, ◌≡◌, ◌≢◌, refl, ◌∙◌, false, not, none, some, List, [], ◌∷◌, ◌==◌,
  if◌then◌else◌, length, drop, arith, ◌⊎◌, inl, inr,
}
use frosk.Cstd.Memory.{Mem}
use frosk.Kernel.Fs.{
  fs_aquire, enter, aquire_in, at_char, resolve, uint, get_type, fs_directory, first_ptr, name_ptr,
  file_next_ptr, lock_handle, Answer,
}
use frosk.Kernel.Fs.Tree.{
  Entries, end, file, dir, concat, Pieces, InTable, join, find, AllComponents, steps, answer,
}
use frosk.Kernel.Fs.Names.{matched, match_name_lem, Named-cases, first_char}

-- the loop from the node on that a pointer leads to
abbrev files : ℕ → ℕ → List ℕ → Mem → List ℕ → ℕ → Answer
files fuel nf hdrs m fn ptr =
    if ptr == 0 then some (0, m) else Option.bind (resolve hdrs ptr) (aquire_in fuel nf hdrs m fn)

files_at :
    (fuel nf : ℕ) (hdrs : List ℕ) (m : Mem) (fn : List ℕ) (ptr a : ℕ)
    → ptr ≢ 0
    → resolve hdrs ptr ≡ some a
    → files fuel nf hdrs m fn ptr ≡ aquire_in fuel nf hdrs m fn a
unfolding Option.bind
files_at fuel nf hdrs m fn ptr a nz at =
    let more : (ptr == 0) ≡ false = ground (arith, nz) in rw (more, at) refl

module _ (fuel nf : ℕ) (hdrs : List ℕ) (m : Mem) (fn : List ℕ) (a n : ℕ) (c : List (List ℕ))
    (name_at : resolve hdrs (name_ptr m a) ≡ some n) (pieces : Pieces hdrs m n c)
    (few : length c ≤ nf) where
  step_other :
      matched (concat c) fn 0 ≡ none
      → aquire_in (suc fuel) nf hdrs m fn a ≡ files fuel nf hdrs m fn (file_next_ptr m a)
  unfolding aquire_in Option.bind
  step_other h = rw name_at (rw (match_name_lem c nf hdrs m n fn 0 pieces few) (rw h refl))

  step_longer :
      matched (concat c) fn 0 ≡ some (length (concat c))
      → (at_char fn (length (concat c)) == 0) ≡ false
      → (at_char fn (length (concat c)) == b'/') ≡ false
      → aquire_in (suc fuel) nf hdrs m fn a ≡ files fuel nf hdrs m fn (file_next_ptr m a)
  unfolding aquire_in Option.bind
  step_longer h z s =
      rw name_at (rw (match_name_lem c nf hdrs m n fn 0 pieces few) (rw h (rw (z, s) refl)))

  step_last :
      matched (concat c) fn 0 ≡ some (length (concat c))
      → at_char fn (length (concat c)) ≡ 0
      → aquire_in (suc fuel) nf hdrs m fn a ≡ lock_handle m a
  unfolding aquire_in Option.bind
  step_last h z = rw name_at (rw (match_name_lem c nf hdrs m n fn 0 pieces few) (rw h (rw z refl)))

  step_slash :
      matched (concat c) fn 0 ≡ some (length (concat c))
      → at_char fn (length (concat c)) ≡ b'/'
      → aquire_in (suc fuel) nf hdrs m fn a ≡ (
          if not (get_type m a == fs_directory)
          then some (0, m)
          else fs_aquire fuel nf hdrs m (drop (length (concat c) + 1) fn) a)
  unfolding aquire_in Option.bind
  step_slash h z = rw name_at (rw (match_name_lem c nf hdrs m n fn 0 pieces few) (rw h (rw z refl)))

  -- the name is another one
  step_over :
      (matched (concat c) fn 0 ≡ none)
        ⊎ ((matched (concat c) fn 0 ≡ some (length (concat c)))
            × ((at_char fn (length (concat c)) == 0) ≡ false)
            × ((at_char fn (length (concat c)) == b'/') ≡ false))
      → aquire_in (suc fuel) nf hdrs m fn a ≡ files fuel nf hdrs m fn (file_next_ptr m a)
  step_over (inl h) = step_other h
  step_over (inr (h, z, s)) = step_longer h z s

-- a lookup below a directory
fs_aquire-dir :
    (fuel nf : ℕ) (hdrs : List ℕ) (m : Mem) (n : List ℕ) (ns : List (List ℕ)) (a : ℕ)
    → AllComponents n ns
    → a ≢ 0
    → get_type m a ≡ fs_directory
    → fs_aquire (suc (suc fuel)) nf hdrs m (join n ns) a
      ≡ files fuel nf hdrs m (join n ns) (first_ptr m a)
unfolding fs_aquire enter
fs_aquire-dir fuel nf hdrs m n ns a comps nz ty =
    let (z, s) = first_char n ns comps in
    let there : (a == 0) ≡ false = ground (arith, nz) in rw s (rw there (rw z (rw ty refl)))

-- the rest of the path behind the first component
rest-AllComponents :
    (n n' : List ℕ) (ns : List (List ℕ)) → AllComponents n (n' ∷ ns) → AllComponents n' ns
rest-AllComponents n n' ns (h, hs) = hs

files_lem :
    (es : Entries) (fuel nf : ℕ) (hdrs : List ℕ) (m : Mem) (n : List ℕ) (ns : List (List ℕ))
    (ptr : ℕ)
    → AllComponents n ns
    → InTable nf hdrs m ptr es
    → steps es ≤ fuel
    → files fuel nf hdrs m (join n ns) ptr ≡ answer m (find n ns es)
files_lem end fuel nf hdrs m n ns ptr comps h le = rw h refl
files_lem (file a c rest) zero nf hdrs m n ns ptr comps h le = absurd (omega arith)
files_lem (dir a c kids rest) zero nf hdrs m n ns ptr comps h le = absurd (omega arith)
files_lem (dir a c kids rest) (suc zero) nf hdrs m n ns ptr comps h le = absurd (omega arith)
files_lem (dir a c kids rest) (suc (suc zero)) nf hdrs m n ns ptr comps h le = absurd (omega arith)
files_lem (file a c rest) (suc fuel) nf hdrs m n [] ptr comps
      (nz, at, anz, (k, named, pieces, few, plain), ty, others) le =
    let ih = files_lem rest fuel nf hdrs m n [] (file_next_ptr m a) comps others (omega arith) in
    files_at (suc fuel) nf hdrs m n ptr a nz at ∙ elim (Named-cases c n [] plain comps) [
      | inl (q, hit, ch, d) ↦ rw q (step_last fuel nf hdrs m n a k c named pieces few hit ch)
      | inr (q, other) ↦ rw q (step_over fuel nf hdrs m n a k c named pieces few other ∙ ih)
    ]
files_lem (file a c rest) (suc fuel) nf hdrs m n (n' ∷ ns) ptr comps
      (nz, at, anz, (k, named, pieces, few, plain), ty, others) le =
    let path = join n (n' ∷ ns) in
    let ih =
      files_lem rest fuel nf hdrs m n (n' ∷ ns) (file_next_ptr m a) comps others (omega arith) in
    let no_dir : (get_type m a == fs_directory) ≡ false = ground (arith, ty) in
    files_at (suc fuel) nf hdrs m path ptr a nz at ∙ elim (Named-cases c n (n' ∷ ns) plain comps) [
      | inl (q, hit, ch, d) ↦
          rw q (step_slash fuel nf hdrs m path a k c named pieces few hit ch ∙ rw no_dir refl)
      | inr (q, other) ↦ rw q (step_over fuel nf hdrs m path a k c named pieces few other ∙ ih)
    ]
files_lem (dir a c kids rest) (suc (suc (suc fuel))) nf hdrs m n [] ptr comps
      (nz, at, anz, (k, named, pieces, few, plain), ty, below, others) le =
    let f = suc (suc fuel) in
    let ih = files_lem rest f nf hdrs m n [] (file_next_ptr m a) comps others (omega arith) in
    files_at (suc f) nf hdrs m n ptr a nz at ∙ elim (Named-cases c n [] plain comps) [
      | inl (q, hit, ch, d) ↦ rw q (step_last f nf hdrs m n a k c named pieces few hit ch)
      | inr (q, other) ↦ rw q (step_over f nf hdrs m n a k c named pieces few other ∙ ih)
    ]
files_lem (dir a c kids rest) (suc (suc (suc fuel))) nf hdrs m n (n' ∷ ns) ptr comps
      (nz, at, anz, (k, named, pieces, few, plain), ty, below, others) le =
    let f = suc (suc fuel) in
    let path = join n (n' ∷ ns) in
    let more = rest-AllComponents n n' ns comps in
    let ih =
      files_lem rest f nf hdrs m n (n' ∷ ns) (file_next_ptr m a) comps others (omega arith) in
    let deep = files_lem kids fuel nf hdrs m n' ns (first_ptr m a) more below (omega arith) in
    files_at (suc f) nf hdrs m path ptr a nz at ∙ elim (Named-cases c n (n' ∷ ns) plain comps) [
      | inl (q, hit, ch, d) ↦ rw q (
          step_slash f nf hdrs m path a k c named pieces few hit ch
          ∙ rw ty (rw d (fs_aquire-dir fuel nf hdrs m n' ns a more anz ty ∙ deep)))
      | inr (q, other) ↦ rw q (step_over f nf hdrs m path a k c named pieces few other ∙ ih)
    ]

-- The first table's header leads to a root directory, whose entries the table of nodes holds as a tree
-- with names that have neither a slash nor a 0, each of at most nf string nodes. Then `fs_aquire` of an
-- absolute path of components that are not empty returns, given fuel for the entries of the tree and
-- two steps more. It locks and returns the node that the path names in the tree; it returns 0, with
-- nothing changed, where the path names none or goes through a file, or where the node is locked.
pub fs_aquire_lem :
    (es : Entries) (fuel nf hdr : ℕ) (hdrs : List ℕ) (m : Mem) (n : List ℕ) (ns : List (List ℕ))
    (cd root : ℕ)
    → AllComponents n ns
    → resolve (hdr ∷ hdrs) (uint m (hdr + 4)) ≡ some root
    → get_type m root ≡ fs_directory
    → InTable nf (hdr ∷ hdrs) m (first_ptr m root) es
    → steps es ≤ fuel
    → fs_aquire (suc (suc fuel)) nf (hdr ∷ hdrs) m (b'/' ∷ join n ns) cd ≡ answer m (find n ns es)
unfolding fs_aquire enter Option.bind
fs_aquire_lem es fuel nf hdr hdrs m n ns cd root comps at ty table le =
    let (z, s) = first_char n ns comps in
    rw at
      (rw z (rw ty (files_lem es fuel nf (hdr ∷ hdrs) m n ns (first_ptr m root) comps table le)))

-- A path that is not absolute is looked up in the same way below the directory that is given.
pub fs_aquire_below :
    (es : Entries) (fuel nf : ℕ) (hdrs : List ℕ) (m : Mem) (n : List ℕ) (ns : List (List ℕ))
    (cd : ℕ)
    → AllComponents n ns
    → cd ≢ 0
    → get_type m cd ≡ fs_directory
    → InTable nf hdrs m (first_ptr m cd) es
    → steps es ≤ fuel
    → fs_aquire (suc (suc fuel)) nf hdrs m (join n ns) cd ≡ answer m (find n ns es)
fs_aquire_below es fuel nf hdrs m n ns cd comps nz ty table le =
    fs_aquire-dir fuel nf hdrs m n ns cd comps nz ty
    ∙ files_lem es fuel nf hdrs m n ns (first_ptr m cd) comps table le
