-- ===== src/Builder/Parse/Print.antt =====
-- Scripts of util/f301_builder as they may be written.
use frosk.Prelude.{ℕ, ◌+◌, ◌≡◌, Option, none, some, List, [], ◌∷◌, ◌++◌}
use frosk.Builder.Nodes.{ParseStruct, null, pst_file, pst_dir, pst_indirect}
use frosk.Builder.Parse.{Perm, Attributes, entry, Contents, nothing, cons}
use frosk.Builder.Parse.Tokens.{IsToken}

abbrev pub key_name : List ℕ
key_name = b'n' ∷ b'a' ∷ b'm' ∷ b'e' ∷ []

abbrev pub key_owner : List ℕ
key_owner = b'o' ∷ b'w' ∷ b'n' ∷ b'e' ∷ b'r' ∷ []

abbrev pub key_actual : List ℕ
key_actual = b'a' ∷ b'c' ∷ b't' ∷ b'u' ∷ b'a' ∷ b'l' ∷ []

abbrev pub key_dest : List ℕ
key_dest = b'd' ∷ b'e' ∷ b's' ∷ b't' ∷ []

abbrev pub key_contents : List ℕ
key_contents = b'c' ∷ b'o' ∷ b'n' ∷ b't' ∷ b'e' ∷ b'n' ∷ b't' ∷ b's' ∷ []

-- "name=...,owner=...," behind the type
abbrev pub header : (ℕ → List ℕ) → ℕ → ℕ → List ℕ → List ℕ → List ℕ
header digits type owner name r =
    type
    ∷ b':'
    ∷ b'['
    ∷ (key_name ++ (b'=' ∷ (name ++ (b',' ∷ (key_owner ++ (b'=' ∷ (digits owner ++ (b',' ∷ r))))))))

-- the entries of a directory, with what follows them
abbrev pub print : (ℕ → List ℕ) → ParseStruct → List ℕ → List ℕ
print digits null r = r
print digits (pst_file owner name actual next) r =
    header digits b'f' owner name (key_actual ++ (b'=' ∷ (actual ++ (b']' ∷ print digits next r))))
print digits (pst_indirect owner name dest next) r =
    header digits b'i' owner name (key_dest ++ (b'=' ∷ (dest ++ (b']' ∷ print digits next r))))
print digits (pst_dir owner name contents next) r =
    header digits b'd' owner name
      (key_contents ++ (b'=' ∷ b'{' ∷ print digits contents (b'}' ∷ b']' ∷ print digits next r)))

-- what is to be read, with the permissions of the directory around
module _ (rd wr ex : Perm) where
  abbrev pub attributes : ℕ → ℕ → List ℕ → Option (List ℕ) → Attributes
  attributes type owner name text = record {
    type = type;
    name = some name;
    read_perm = rd;
    write_perm = wr;
    exec_perm = ex;
    owner = owner;
    text = text;
  }

  abbrev pub contents_of : ParseStruct → Contents
  contents_of null = nothing
  contents_of (pst_file owner name actual next) =
      cons (entry (attributes b'f' owner name (some actual)) nothing) (contents_of next)
  contents_of (pst_indirect owner name dest next) =
      cons (entry (attributes b'i' owner name (some dest)) nothing) (contents_of next)
  contents_of (pst_dir owner name contents next) =
      cons (entry (attributes b'd' owner name none) (contents_of contents)) (contents_of next)

-- the owner is written as a token that `atoi` reads
abbrev pub IsOwner : (List ℕ → ℕ) → (ℕ → List ℕ) → ℕ → Type 0
IsOwner atoi digits owner = IsToken (digits owner) × (atoi (digits owner) ≡ owner)

-- all texts are tokens
abbrev pub AllTokens : (List ℕ → ℕ) → (ℕ → List ℕ) → ParseStruct → Type 0
AllTokens atoi digits null = Unit
AllTokens atoi digits (pst_file owner name actual next) =
    IsOwner atoi digits owner × IsToken name × IsToken actual × AllTokens atoi digits next
AllTokens atoi digits (pst_indirect owner name dest next) =
    IsOwner atoi digits owner × IsToken name × IsToken dest × AllTokens atoi digits next
AllTokens atoi digits (pst_dir owner name contents next) =
    IsOwner atoi digits owner
    × IsToken name
    × AllTokens atoi digits contents
    × AllTokens atoi digits next

-- the steps that are enough
abbrev pub cost : ParseStruct → ℕ
cost null = 1
cost (pst_file owner name actual next) = 5 + cost next
cost (pst_indirect owner name dest next) = 5 + cost next
cost (pst_dir owner name contents next) = 5 + cost contents + cost next
