-- ===== src/Builder/Parse/Script.antt =====
-- What util/f301_builder/src/parse.c reads from a script that is written out.
use Prim.{tt}
use mathlib.Core.Option
use frosk.Prelude.{
  ℕ, zero, suc, ◌-◌, ◌≤◌, ◌≡◌, refl, ◌∙◌, false, none, some, List, ◌∷◌, ◌++◌, ◌==◌, arith,
}
use frosk.Cstd.Ctype.{isspace}
use frosk.Builder.Nodes.{ParseStruct, null, pst_file, pst_dir, pst_indirect}
use frosk.Builder.Parse.{
  ignore_whitespace, expect, next_char, Perm, Attributes, Entry, entry, Contents, nothing, cons,
  field_of, set_field, parse_next, parse_fields, parse_contents,
}
use frosk.Builder.Parse.Tokens.{IsToken, field_more, field_last, contents_last}
use frosk.Builder.Parse.Print.{
  key_name, key_owner, key_actual, key_dest, key_contents, header, print, attributes, contents_of,
  IsOwner, AllTokens, cost,
}

keys_ok :
    IsToken key_name
    × IsToken key_owner
    × IsToken key_actual
    × IsToken key_dest
    × IsToken key_contents
unfolding isspace
keys_ok = (
  (omega arith, omega arith, (refl, (refl, (refl, (refl, tt))))),
  (omega arith, omega arith, (refl, (refl, (refl, (refl, (refl, tt)))))),
  (omega arith, omega arith, (refl, (refl, (refl, (refl, (refl, (refl, tt))))))),
  (omega arith, omega arith, (refl, (refl, (refl, (refl, tt))))),
  (omega arith, omega arith, (refl, (refl, (refl, (refl, (refl, (refl, (refl, (refl, tt))))))))),
)

-- one entry behind another
contents_step :
    (atoi : List ℕ → ℕ) (fuel d : ℕ) (a : Attributes) (cs r r₁ r₂ : List ℕ) (e : Entry)
    (es : Contents)
    → next_char cs ≡ some (d, r)
    → (d == b'}') ≡ false
    → parse_next atoi fuel a.read_perm a.write_perm a.exec_perm cs ≡ some (e, r₁)
    → parse_contents atoi fuel a r₁ ≡ some (es, r₂)
    → parse_contents atoi (suc fuel) a cs ≡ some (cons e es, r₂)
unfolding parse_contents Option.bind
contents_step atoi fuel d a cs r r₁ r₂ e es c other this others =
    rw c (rw (Option.bind, other) (rw this (rw others refl)))

contents_end :
    (atoi : List ℕ → ℕ) (fuel : ℕ) (a : Attributes) (r : List ℕ)
    → parse_contents atoi (suc fuel) a (b'}' ∷ r) ≡ some (nothing, r)
unfolding parse_contents next_char ignore_whitespace isspace Option.bind
contents_end atoi fuel a r = refl

letters_first :
    (cs : List ℕ)
    → (next_char (b'f' ∷ cs) ≡ some (b'f', cs))
      × (next_char (b'i' ∷ cs) ≡ some (b'i', cs))
      × (next_char (b'd' ∷ cs) ≡ some (b'd', cs))
unfolding next_char ignore_whitespace isspace
letters_first cs = (refl, refl, refl)

abbrev start : ℕ → Perm → Perm → Perm → Attributes
start type rd wr ex = record {
  type = type;
  name = none;
  read_perm = rd;
  write_perm = wr;
  exec_perm = ex;
  owner = 0;
  text = none;
}

-- the type and what opens the fields
next_start :
    (atoi : List ℕ → ℕ) (fuel : ℕ) (rd wr ex : Perm) (r : List ℕ)
    → (parse_next atoi (suc fuel) rd wr ex (b'f' ∷ b':' ∷ b'[' ∷ r)
        ≡ parse_fields atoi fuel (start b'f' rd wr ex) nothing r)
      × (parse_next atoi (suc fuel) rd wr ex (b'i' ∷ b':' ∷ b'[' ∷ r)
          ≡ parse_fields atoi fuel (start b'i' rd wr ex) nothing r)
      × (parse_next atoi (suc fuel) rd wr ex (b'd' ∷ b':' ∷ b'[' ∷ r)
          ≡ parse_fields atoi fuel (start b'd' rd wr ex) nothing r)
unfolding parse_next next_char expect ignore_whitespace isspace Option.bind
next_start atoi fuel rd wr ex r = (refl, refl, refl)

module _ (atoi : List ℕ → ℕ) (digits : ℕ → List ℕ) where
  -- the name and the owner
  two_fields :
      (fuel type owner : ℕ) (rd wr ex : Perm) (name r : List ℕ)
      → IsOwner atoi digits owner
      → IsToken name
      → parse_fields atoi (suc (suc fuel)) (start type rd wr ex) nothing (
          key_name
          ++ (b'=' ∷ (name ++ (b',' ∷ (key_owner ++ (b'=' ∷ (digits owner ++ (b',' ∷ r))))))))
        ≡ parse_fields atoi fuel (attributes rd wr ex type owner name none) nothing r
  unfolding set_field field_of
  two_fields fuel type owner rd wr ex name r (digits_ok, reads) ok =
      field_more atoi (suc fuel) (start type rd wr ex) (attributes rd wr ex type 0 name none)
        nothing key_name name (key_owner ++ (b'=' ∷ (digits owner ++ (b',' ∷ r)))) keys_ok.0 ok refl
        refl
      ∙ field_more atoi fuel (attributes rd wr ex type 0 name none)
          (attributes rd wr ex type owner name none) nothing key_owner (digits owner) r keys_ok.1
          digits_ok refl (rw reads refl)

  -- one entry of each type
  file_entry :
      (fuel owner : ℕ) (rd wr ex : Perm) (name actual r : List ℕ)
      → IsOwner atoi digits owner
      → IsToken name
      → IsToken actual
      → parse_next atoi
          (suc (suc (suc (suc fuel))))
          rd
          wr
          ex
          (header digits b'f' owner name (key_actual ++ (b'=' ∷ (actual ++ (b']' ∷ r)))))
        ≡ some (entry (attributes rd wr ex b'f' owner name (some actual)) nothing, r)
  unfolding set_field field_of
  file_entry fuel owner rd wr ex name actual r own ok ok' =
      (next_start atoi (suc (suc (suc fuel))) rd wr ex _).0
      ∙ two_fields (suc fuel) b'f' owner rd wr ex name
          (key_actual ++ (b'=' ∷ (actual ++ (b']' ∷ r)))) own ok
      ∙ field_last atoi fuel (attributes rd wr ex b'f' owner name none)
          (attributes rd wr ex b'f' owner name (some actual)) nothing key_actual actual r keys_ok.2
          ok' refl refl

  indirect_entry :
      (fuel owner : ℕ) (rd wr ex : Perm) (name dest r : List ℕ)
      → IsOwner atoi digits owner
      → IsToken name
      → IsToken dest
      → parse_next atoi
          (suc (suc (suc (suc fuel))))
          rd
          wr
          ex
          (header digits b'i' owner name (key_dest ++ (b'=' ∷ (dest ++ (b']' ∷ r)))))
        ≡ some (entry (attributes rd wr ex b'i' owner name (some dest)) nothing, r)
  unfolding set_field field_of
  indirect_entry fuel owner rd wr ex name dest r own ok ok' =
      (next_start atoi (suc (suc (suc fuel))) rd wr ex _).1
      ∙ two_fields (suc fuel) b'i' owner rd wr ex name (key_dest ++ (b'=' ∷ (dest ++ (b']' ∷ r))))
          own ok
      ∙ field_last atoi fuel (attributes rd wr ex b'i' owner name none)
          (attributes rd wr ex b'i' owner name (some dest)) nothing key_dest dest r keys_ok.3 ok'
          refl refl

  dir_entry :
      (fuel owner : ℕ) (rd wr ex : Perm) (name inner r : List ℕ) (kids : Contents)
      → IsOwner atoi digits owner
      → IsToken name
      → parse_contents atoi fuel (attributes rd wr ex b'd' owner name none) inner
        ≡ some (kids, b']' ∷ r)
      → parse_next atoi
          (suc (suc (suc (suc fuel))))
          rd
          wr
          ex
          (header digits b'd' owner name (key_contents ++ (b'=' ∷ b'{' ∷ inner)))
        ≡ some (entry (attributes rd wr ex b'd' owner name none) kids, r)
  unfolding field_of
  dir_entry fuel owner rd wr ex name inner r kids own ok e =
      (next_start atoi (suc (suc (suc fuel))) rd wr ex _).2
      ∙ two_fields (suc fuel) b'd' owner rd wr ex name (key_contents ++ (b'=' ∷ b'{' ∷ inner)) own
          ok
      ∙ contents_last atoi fuel (attributes rd wr ex b'd' owner name none) nothing kids key_contents
          inner r keys_ok.4 refl refl e

  parse_contents-print :
      (t : ParseStruct) (fuel : ℕ) (a : Attributes) (r : List ℕ)
      → AllTokens atoi digits t
      → cost t ≤ fuel
      → parse_contents atoi fuel a (print digits t (b'}' ∷ r))
        ≡ some (contents_of a.read_perm a.write_perm a.exec_perm t, r)
  parse_contents-print null zero a r h le = absurd (omega (arith, le))
  parse_contents-print null (suc fuel) a r h le = contents_end atoi fuel a r
  parse_contents-print (pst_file owner name actual next) fuel a r (own, ok, ok', more) le =
      let left = fuel - 5 in
      let n : fuel ≡ suc (suc (suc (suc (suc left)))) = omega (arith, le) in
      let cs = print digits (pst_file owner name actual next) (b'}' ∷ r) in
      let others =
        parse_contents-print next (suc (suc (suc (suc left)))) a r more (omega (arith, le)) in
      rw n (
        contents_step atoi (suc (suc (suc (suc left)))) b'f' a cs _ (print digits next (b'}' ∷ r)) r
          _ _ (letters_first _).0 refl
          (file_entry left owner a.read_perm a.write_perm a.exec_perm name actual
            (print digits next (b'}' ∷ r)) own ok ok')
          others)
  parse_contents-print (pst_indirect owner name dest next) fuel a r (own, ok, ok', more) le =
      let left = fuel - 5 in
      let n : fuel ≡ suc (suc (suc (suc (suc left)))) = omega (arith, le) in
      let cs = print digits (pst_indirect owner name dest next) (b'}' ∷ r) in
      let others =
        parse_contents-print next (suc (suc (suc (suc left)))) a r more (omega (arith, le)) in
      rw n (
        contents_step atoi (suc (suc (suc (suc left)))) b'i' a cs _ (print digits next (b'}' ∷ r)) r
          _ _ (letters_first _).1 refl
          (indirect_entry left owner a.read_perm a.write_perm a.exec_perm name dest
            (print digits next (b'}' ∷ r)) own ok ok')
          others)
  parse_contents-print (pst_dir owner name contents next) fuel a r (own, ok, below, more) le =
      let left = fuel - 5 in
      let n : fuel ≡ suc (suc (suc (suc (suc left)))) = omega (arith, le) in
      let cs = print digits (pst_dir owner name contents next) (b'}' ∷ r) in
      let rest = print digits next (b'}' ∷ r) in
      let others =
        parse_contents-print next (suc (suc (suc (suc left)))) a r more (omega (arith, le)) in
      let inside =
        parse_contents-print contents left
          (attributes a.read_perm a.write_perm a.exec_perm b'd' owner name none) (b']' ∷ rest) below
          (omega (arith, le)) in
      rw n (
        contents_step atoi (suc (suc (suc (suc left)))) b'd' a cs _ rest r _ _ (letters_first _).2
          refl
          (dir_entry left owner a.read_perm a.write_perm a.exec_perm name
            (print digits contents (b'}' ∷ b']' ∷ rest)) rest _ own ok inside)
          others)

  -- A directory is written as a script, with every entry's type, name, owner, and host file, destination
  -- or contents, the texts being tokens: not empty, of 1023 characters at most, with no space, `,`, `=` or
  -- `]`, and the owners tokens that `atoi` reads. Then `parse_next`, given fuel for the entries,
  -- returns the directory with all entries in their order, their permissions being those given, and the
  -- rest of the script.
  pub parse_next-print :
      (owner : ℕ) (name : List ℕ) (contents : ParseStruct) (fuel : ℕ) (rd wr ex : Perm) (r : List ℕ)
      → IsOwner atoi digits owner
      → IsToken name
      → AllTokens atoi digits contents
      → cost contents ≤ fuel
      → parse_next atoi
          (suc (suc (suc (suc fuel))))
          rd
          wr
          ex
          (print digits (pst_dir owner name contents null) r)
        ≡ some (entry (attributes rd wr ex b'd' owner name none) (contents_of rd wr ex contents), r)
  parse_next-print owner name contents fuel rd wr ex r own ok below le =
      dir_entry fuel owner rd wr ex name (print digits contents (b'}' ∷ b']' ∷ r)) r
        (contents_of rd wr ex contents) own ok
        (parse_contents-print contents fuel (attributes rd wr ex b'd' owner name none) (b']' ∷ r)
          below le)
