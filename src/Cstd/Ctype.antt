-- ===== src/Cstd/Ctype.antt =====
-- lib/cstd/src/ctype.c: the character classes, on a character that is not negative.
pub mod Classes
mod Examples
use frosk.Prelude.{ℕ, ◌+◌, ◌-◌, Bool, not, ◌&&◌, ◌||◌, ◌==◌, leb, if◌then◌else◌}

unfoldable pub isupper : ℕ → Bool
isupper c = leb b'A' c && leb c b'Z'

unfoldable pub islower : ℕ → Bool
islower c = leb b'a' c && leb c b'z'

unfoldable pub isalpha : ℕ → Bool
unfolding isupper islower
isalpha c = isupper c || islower c

unfoldable pub isdigit : ℕ → Bool
isdigit c = leb b'0' c && leb c b'9'

unfoldable pub isxdigit : ℕ → Bool
unfolding isdigit
isxdigit c = isdigit c || (leb b'a' c && leb c b'f') || (leb b'A' c && leb c b'F')

unfoldable pub isalnum : ℕ → Bool
unfolding isalpha isdigit
isalnum c = isalpha c || isdigit c

unfoldable pub iscntrl : ℕ → Bool
iscntrl c = c == 0 || c == 0x1f || c == 0x7f

unfoldable pub isprint : ℕ → Bool
isprint c = leb 0x20 c && leb c 0x7e

-- ' ', '\n', '\t', '\f', '\r' and '\v'
unfoldable pub isspace : ℕ → Bool
isspace c = c == 0x20 || c == 0x0a || c == 0x09 || c == 0x0c || c == 0x0d || c == 0x0b

unfoldable pub isgraph : ℕ → Bool
unfolding isprint isspace
isgraph c = isprint c && not (isspace c)

unfoldable pub ispunct : ℕ → Bool
unfolding isgraph isalnum
ispunct c = isgraph c && not (isalnum c)

unfoldable pub tolower : ℕ → ℕ
unfolding isupper
tolower c = if isupper c then c + 0x20 else c

unfoldable pub toupper : ℕ → ℕ
unfolding islower
toupper c = if islower c then c - 0x20 else c
