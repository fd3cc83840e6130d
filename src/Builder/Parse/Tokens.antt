-- ===== src/Builder/Parse/Tokens.antt =====
-- The tokens and fields of util/f301_builder/src/parse.c.
use mathlib.Core.Option
use frosk.Prelude.{
  ℕ, zero, suc, ◌≤◌, ◌<◌, ◌≡◌, refl, ap, ◌∙◌, Bool, true, false, not, ◌&&◌, ◌||◌, some, List, [],
  ◌∷◌, ◌++◌, ◌==◌, length, take, arith,
}
use frosk.Cstd.Ctype.{isspace}
use frosk.Builder.Parse.{
  ignore_whitespace, until_end, trim, c_string, next_token, Attributes, entry, Contents, field_of,
  set_field, is_contents, expect, next_char, parse_fields, parse_contents,
}

-- a character of a token: no space, no 0, and none that ends it
abbrev pub in_token : ℕ → Bool
in_token c = not (isspace c) && not (c == 0) && not (c == b']' || c == b',' || c == b'=')

abbrev pub AllInToken : List ℕ → Type 0
AllInToken [] = Unit
AllInToken (c ∷ cs) = (in_token c ≡ true) × AllInToken cs

-- a token as it may be written
abbrev pub IsToken : List ℕ → Type 0
IsToken s = (0 < length s) × (length s ≤ 1023) × AllInToken s

in_token-tests :
    (c : ℕ)
    → in_token c ≡ true
    → (isspace c ≡ false) × ((c == b']' || c == b',' || c == b'=') ≡ false) × ((c == 0) ≡ false)
in_token-tests c h = ground (arith, h)

until_end-append :
    (s : List ℕ) (d : ℕ) (r : List ℕ)
    → AllInToken s
    → (d == b']' || d == b',' || d == b'=') ≡ true
    → until_end (s ++ (d ∷ r)) ≡ some (s, d, r)
unfolding until_end
until_end-append [] d r h e = rw e refl
until_end-append (c ∷ s) d r (h, hs) e =
    rw (in_token-tests c h).1 (rw (until_end-append s d r hs e) refl)

trim-token : (s : List ℕ) → AllInToken s → trim s ≡ s
unfolding trim
trim-token [] h = refl
trim-token (c ∷ []) (h, hs) = rw (in_token-tests c h).0 refl
trim-token (c ∷ d ∷ s) (h, hs) = rw (trim-token (d ∷ s) hs) refl

c_string-token : (s : List ℕ) → AllInToken s → c_string s ≡ s
unfolding c_string
c_string-token [] h = refl
c_string-token (c ∷ s) (h, hs) =
    rw (in_token-tests c h).2 (ap (λ (l : List ℕ). c ∷ l) (c_string-token s hs))

take-all : (n : ℕ) (s : List ℕ) → length s ≤ n → take n s ≡ s
take-all zero [] le = refl
take-all zero (c ∷ s) le = absurd (omega (arith, le))
take-all (suc n) [] le = refl
take-all (suc n) (c ∷ s) le = ap (λ (l : List ℕ). c ∷ l) (take-all n s (omega (arith, le)))

no_whitespace : (s r : List ℕ) → 0 < length s → AllInToken s → ignore_whitespace (s ++ r) ≡ s ++ r
unfolding ignore_whitespace
no_whitespace [] r le h = absurd (omega (arith, le))
no_whitespace (c ∷ s) r le (h, hs) = rw (in_token-tests c h).0 refl

next_token-of :
    (cs s r : List ℕ) (d : ℕ)
    → until_end (ignore_whitespace cs) ≡ some (s, d, r)
    → c_string (trim (take 1023 s)) ≡ s
    → next_token cs ≡ some (s, d, r)
unfolding next_token
next_token-of cs s r d e f = rw e (ap (λ (t : List ℕ). some (t, d, r)) f)

pub next_token-print :
    (s : List ℕ) (d : ℕ) (r : List ℕ)
    → IsToken s
    → (d == b']' || d == b',' || d == b'=') ≡ true
    → next_token (s ++ (d ∷ r)) ≡ some (s, d, r)
next_token-print s d r (le, few, h) e =
    next_token-of (s ++ (d ∷ r)) s r d
      (ap until_end (no_whitespace s (d ∷ r) le h) ∙ until_end-append s d r h e)
      (ap (λ (l : List ℕ). c_string (trim l)) (take-all 1023 s few)
        ∙ ap c_string (trim-token s h)
        ∙ c_string-token s h)

module _ (atoi : List ℕ → ℕ) (fuel : ℕ) (a a' : Attributes) (kids : Contents) (key v r : List ℕ)
    (key_ok : IsToken key) (v_ok : IsToken v) (plain : is_contents (field_of key) ≡ false)
    (sets : set_field atoi (field_of key) v a ≡ some a') where
  -- a field with more behind it
  pub field_more :
      parse_fields atoi (suc fuel) a kids (key ++ (b'=' ∷ (v ++ (b',' ∷ r))))
      ≡ parse_fields atoi fuel a' kids r
  unfolding parse_fields Option.bind
  field_more =
      rw (next_token-print key b'=' (v ++ (b',' ∷ r)) key_ok refl)
        (rw plain (rw (next_token-print v b',' r v_ok refl) (rw sets refl)))

  -- the last field
  pub field_last :
      parse_fields atoi (suc fuel) a kids (key ++ (b'=' ∷ (v ++ (b']' ∷ r))))
      ≡ some (entry a' kids, r)
  unfolding parse_fields Option.bind
  field_last =
      rw (next_token-print key b'=' (v ++ (b']' ∷ r)) key_ok refl)
        (rw plain (rw (next_token-print v b']' r v_ok refl) (rw sets refl)))

-- the contents as the last field
pub contents_last :
    (atoi : List ℕ → ℕ) (fuel : ℕ) (a : Attributes) (kids kids' : Contents) (key inner r : List ℕ)
    → IsToken key
    → is_contents (field_of key) ≡ true
    → a.type ≡ b'd'
    → parse_contents atoi fuel a inner ≡ some (kids', b']' ∷ r)
    → parse_fields atoi (suc fuel) a kids (key ++ (b'=' ∷ b'{' ∷ inner)) ≡ some (entry a kids', r)
unfolding parse_fields Option.bind expect next_char ignore_whitespace isspace
contents_last atoi fuel a kids kids' key inner r key_ok is ty e =
    let is_dir : (a.type == b'd') ≡ true = ground (arith, ty) in
    rw (next_token-print key b'=' (b'{' ∷ inner) key_ok refl) (rw is (rw is_dir (rw e refl)))
