-- ===== src/Sheep/Parse/Comments.antt =====
-- `remove_comments` of lib/sheep/src/parse.c.
use frosk.Prelude.{
  ℕ, zero, suc, ◌+◌, ◌-◌, ◌≤◌, ◌<◌, ◌≡◌, refl, ap, ◌∙◌, Bool, false, not, some, List, [], ◌∷◌, ◌++◌,
  ◌==◌, length, drop, arith, length-append,
}
use frosk.Sheep.Parse.{shift_down, remove_from, remove_comments}
use frosk.Sheep.Parse.Print.{All, span-append}

abbrev plain : ℕ → Bool
plain c = not (c == b'#')

abbrev in_line : ℕ → Bool
in_line c = not (c == 0x0a)

-- a text with no '#' stays
remove_from-plain :
    (s : List ℕ) (fuel : ℕ) → All plain s → length s ≤ fuel → remove_from fuel s ≡ some s
unfolding remove_from
remove_from-plain [] zero h le = refl
remove_from-plain [] (suc fuel) h le = refl
remove_from-plain (c ∷ s) zero h le = absurd (omega (arith, le))
remove_from-plain (c ∷ s) (suc fuel) (h, hs) le =
    let other : (c == b'#') ≡ false = ground (arith, h) in
    rw (other, remove_from-plain s fuel hs (omega (arith, le))) refl

remove_from-append :
    (s : List ℕ) (fuel : ℕ) (buf out : List ℕ)
    → All plain s
    → remove_from fuel buf ≡ some out
    → remove_from (length s + fuel) (s ++ buf) ≡ some (s ++ out)
unfolding remove_from
remove_from-append [] fuel buf out h e = let n : 0 + fuel ≡ fuel = omega arith in rw n e
remove_from-append (c ∷ s) fuel buf out (h, hs) e =
    let n : suc (length s) + fuel ≡ suc (length s + fuel) = omega arith in
    let other : (c == b'#') ≡ false = ground (arith, h) in
    rw n (rw (other, remove_from-append s fuel buf out hs e) refl)

All-append : (p : ℕ → Bool) (s t : List ℕ) → All p s → All p t → All p (s ++ t)
All-append p [] t h k = k
All-append p (c ∷ s) t (h, hs) k = (h, All-append p s t hs k)

All-drop : (p : ℕ → Bool) (n : ℕ) (s : List ℕ) → All p s → All p (drop n s)
All-drop p zero s h = h
All-drop p (suc n) [] h = h
All-drop p (suc n) (c ∷ s) (h, hs) = All-drop p n s hs

drop-append : (s t : List ℕ) (n : ℕ) → length s ≤ n → drop n (s ++ t) ≡ drop (n - length s) t
drop-append [] t n le = let e : n - 0 ≡ n = omega arith in rw e refl
drop-append (c ∷ s) t zero le = absurd (omega (arith, le))
drop-append (c ∷ s) t (suc n) le =
    let e : suc n - suc (length s) ≡ n - length s = omega arith in
    rw e (drop-append s t n (omega (arith, le)))

drop-length : (n : ℕ) (s : List ℕ) → length (drop n s) ≡ length s - n
drop-length zero s = omega arith
drop-length (suc n) [] = omega arith
drop-length (suc n) (c ∷ s) = drop-length n s ∙ omega arith

-- what `shift_down` makes of a comment and the text behind it
shift_down_lem :
    (c r : List ℕ)
    → length c ≤ length r
    → shift_down (length c) (c ++ r) ≡ r ++ drop (length r - length c) r
shift_down_lem c r le =
    let n : length (c ++ r) - length c ≡ length r = let e = length-append c r in omega (arith, e) in
    let z : length c - length c ≡ 0 = omega arith in
    rw n (rw (drop-append c r (length c) (omega arith), drop-append c r (length r) le) (rw z refl))

-- a comment at the start
remove_from-comment :
    (fuel : ℕ) (c r : List ℕ)
    → All in_line c
    → All plain r
    → length c ≤ length r
    → length c + length r < fuel
    → (let after = 0x0a ∷ r in
        remove_from (suc fuel) ((b'#' ∷ c) ++ after)
        ≡ some (after ++ drop (length r - length c) after))
unfolding remove_from
remove_from-comment fuel c r hc hr le enough =
    let after = 0x0a ∷ r in
    let n : suc (length r) - suc (length c) ≡ length r - length c = omega arith in
    let moved = shift_down_lem (b'#' ∷ c) after (omega (arith, le)) in
    let tail = drop (length r - length c) after in
    let size : length (r ++ tail) ≤ fuel =
      omega (arith, length-append r tail, drop-length (length r - length c) after, le, enough) in
    let kept =
      remove_from-plain (r ++ tail) fuel
        (All-append plain r tail hr (All-drop plain (length r - length c) after (refl, hr))) size in
    let more : (suc (length r) == 0) ≡ false = ground arith in
    rw (span-append in_line (b'#' ∷ c) 0x0a r (refl, hc) refl)
      (rw moved (rw n (rw (more, kept) refl)))

-- A text has one comment, of '#' and c, which is no longer than the text behind it with its line's end.
-- Then `remove_comments` takes the comment out and leaves at the end of the text the last characters,
-- as many as the comment has, a second time.
pub remove_comments_lem :
    (a c r : List ℕ)
    → All plain a
    → All in_line c
    → All plain r
    → length c ≤ length r
    → (let after = 0x0a ∷ r in
        remove_comments (a ++ (b'#' ∷ (c ++ after)))
        ≡ some (a ++ (after ++ drop (length r - length c) after)))
unfolding remove_comments
remove_comments_lem a c r ha hc hr le =
    let after = 0x0a ∷ r in
    let n : length (a ++ (b'#' ∷ (c ++ after))) ≡ length a + suc (length c + suc (length r)) =
      length-append a (b'#' ∷ (c ++ after))
      ∙ ap (λ (k : ℕ). length a + suc k) (length-append c after) in
    rw n (
      remove_from-append a (suc (length c + suc (length r))) (b'#' ∷ (c ++ after)) _ ha
        (remove_from-comment (length c + suc (length r)) c r hc hr le (omega arith)))
