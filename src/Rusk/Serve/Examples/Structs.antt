-- ===== src/Rusk/Serve/Examples/Structs.antt =====
-- The C structs of the messages of Rusk/Serve as numbers: a `Struct` for each.
use frosk.Prelude.{
  ℕ, zero, suc, ◌+◌, ◌≡◌, refl, Bool, true, false, List, [], ◌∷◌, length, drop, get_or,
}
use frosk.Prelude.Int.{ℤ, pos, negsuc}
use frosk.Rusk.Expanses.{ApiExpanse, Expanse}
use frosk.Rusk.Keys.{Event, key_down, mouse_down, mouse_up}
use frosk.Comm.{Struct}

-- C types as numbers: an integer is two of them
abbrev sign : ℤ → ℕ
sign (pos n) = 0
sign (negsuc n) = 1

abbrev size_of : ℤ → ℕ
size_of (pos n) = n
size_of (negsuc n) = n

abbrev signed : ℕ → ℕ → ℤ
signed zero n = pos n
signed (suc k) n = negsuc n

pub signed-sign : (z : ℤ) → signed (sign z) (size_of z) ≡ z
signed-sign (pos n) = refl
signed-sign (negsuc n) = refl

abbrev bit : Bool → ℕ
bit false = 0
bit true = 1

abbrev flag : ℕ → Bool
flag zero = false
flag (suc n) = true

pub flag-bit : (b : Bool) → flag (bit b) ≡ b
flag-bit false = refl
flag-bit true = refl

abbrev int_at : List ℕ → ℕ → ℤ
int_at bs i = signed (get_or bs i 0) (get_or bs (i + 1) 0)

abbrev pub requests : Struct ApiExpanse
requests = record {
  size = 5;
  encode =
      λ e. sign e.width ∷ size_of e.width ∷ sign e.height ∷ size_of e.height ∷ e.attributes ∷ [];
  decode = λ bs. record { width = int_at bs 0; height = int_at bs 2; attributes = get_or bs 4 0 };
  length-encode = λ e. refl;
  decode-encode = λ e i. record {
    width = signed-sign e.width i;
    height = signed-sign e.height i;
    attributes = e.attributes;
  };
}

abbrev pub expanses : Struct Expanse
expanses = record {
  size = 19;
  encode = λ e.
      sign e.x
      ∷ size_of e.x
      ∷ sign e.y
      ∷ size_of e.y
      ∷ sign e.sub_offset_x
      ∷ size_of e.sub_offset_x
      ∷ sign e.sub_offset_y
      ∷ size_of e.sub_offset_y
      ∷ sign e.width
      ∷ size_of e.width
      ∷ sign e.height
      ∷ size_of e.height
      ∷ bit e.visible
      ∷ e.handle
      ∷ requests.encode e.api_exp;
  decode = λ bs. record {
    x = int_at bs 0;
    y = int_at bs 2;
    sub_offset_x = int_at bs 4;
    sub_offset_y = int_at bs 6;
    width = int_at bs 8;
    height = int_at bs 10;
    visible = flag (get_or bs 12 0);
    handle = get_or bs 13 0;
    api_exp = requests.decode (drop 14 bs);
  };
  length-encode = λ e. refl;
  decode-encode = λ e i. record {
    x = signed-sign e.x i;
    y = signed-sign e.y i;
    sub_offset_x = signed-sign e.sub_offset_x i;
    sub_offset_y = signed-sign e.sub_offset_y i;
    width = signed-sign e.width i;
    height = signed-sign e.height i;
    visible = flag-bit e.visible i;
    handle = e.handle;
    api_exp = requests.decode-encode e.api_exp i;
  };
}

abbrev event_numbers : Event → List ℕ
event_numbers (mouse_down x y b) = 0 ∷ b ∷ sign x ∷ size_of x ∷ sign y ∷ size_of y ∷ []
event_numbers (mouse_up x y b) = 1 ∷ b ∷ sign x ∷ size_of x ∷ sign y ∷ size_of y ∷ []
event_numbers (key_down l s c a) = 2 ∷ l ∷ bit s ∷ bit c ∷ bit a ∷ 0 ∷ []

abbrev event_of : ℕ → List ℕ → Event
event_of zero bs = mouse_down (int_at bs 2) (int_at bs 4) (get_or bs 1 0)
event_of (suc zero) bs = mouse_up (int_at bs 2) (int_at bs 4) (get_or bs 1 0)
event_of (suc (suc n)) bs =
    key_down (get_or bs 1 0) (flag (get_or bs 2 0)) (flag (get_or bs 3 0)) (flag (get_or bs 4 0))

pub length-event_numbers : (e : Event) → length (event_numbers e) ≡ 6
length-event_numbers (mouse_down x y b) = refl
length-event_numbers (mouse_up x y b) = refl
length-event_numbers (key_down l s c a) = refl

pub event_of-event_numbers :
    (e : Event) → event_of (get_or (event_numbers e) 0 0) (event_numbers e) ≡ e
event_of-event_numbers (mouse_down x y b) i = mouse_down (signed-sign x i) (signed-sign y i) b
event_of-event_numbers (mouse_up x y b) i = mouse_up (signed-sign x i) (signed-sign y i) b
event_of-event_numbers (key_down l s c a) i =
    key_down l (flag-bit s i) (flag-bit c i) (flag-bit a i)

abbrev pub events : Struct Event
events = record {
  size = 6;
  encode = event_numbers;
  decode = λ bs. event_of (get_or bs 0 0) bs;
  length-encode = length-event_numbers;
  decode-encode = event_of-event_numbers;
}
