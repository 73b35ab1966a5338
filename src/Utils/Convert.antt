-- ===== src/Utils/Convert.antt =====
-- std::stoi and std::stoul, which read the longest number at the front of a text.
use gin_cpp.Base.{
  ℕ, ◌+◌, ◌-◌, ◌*◌, ◌%◌, ◌^◌, ◌<◌, ◌≡◌, refl, sym, ap, subst, ◌∙◌, Bool, true, false, ◌&&◌, ◌||◌,
  Option, none, some, [], ◌∷◌, arith, ltb, leb, ◌==◌, if◌then◌else◌, Text,
}
use gin_cpp.Base.Decimal.{to_string, read_from, IsDigits, to_string_lem, to_string_cons}

-- A result, or the exception that is thrown.
pub data Conversion : Type 0 where
  converted : ℕ → Conversion
  not_a_number : Conversion
  out_of_range : Conversion

abbrev pub is_digit : ℕ → Bool
is_digit c = leb b'0' c && leb c b'9'

-- isspace
abbrev pub is_blank : ℕ → Bool
is_blank c = (c == 32) || (leb 9 c && leb c 13)

unfoldable pub skip_blanks : Text → Text
skip_blanks [] = []
skip_blanks (c ∷ s) = let rest = skip_blanks s in if is_blank c then rest else c ∷ s

-- The value of the digits at the front.
unfoldable pub leading_digits : ℕ → Text → ℕ
leading_digits acc [] = acc
leading_digits acc (c ∷ s) =
    let rest = leading_digits (acc * 10 + (c - b'0')) s in if is_digit c then rest else acc

abbrev pub magnitude : Text → Option ℕ
magnitude [] = none
magnitude (c ∷ s) = if is_digit c then some (leading_digits 0 (c ∷ s)) else none

pub record Number : Type 0 where
  pub is_negative : Bool
  pub value : ℕ

abbrev pub with_sign : Bool → Option ℕ → Option Number
with_sign negative none = none
with_sign negative (some n) = some (record { is_negative = negative; value = n })

-- An optional sign and digits.
unfoldable pub signed : Text → Option Number
unfolding leading_digits
signed [] = none
signed (c ∷ s) =
    if c == b'-'
    then with_sign true (magnitude s)
    else if c == b'+'
    then with_sign false (magnitude s)
    else with_sign false (magnitude (c ∷ s))

-- The pattern of a number of the given width.
abbrev pub pattern_of : ℕ → Number → ℕ
pattern_of modulus n =
    if n.is_negative then (modulus - n.value % modulus) % modulus else n.value % modulus

abbrev pub int_of : Option Number → Conversion
int_of none = not_a_number
int_of (some n) =
    if (if n.is_negative then leb n.value (2 ^ 31) else ltb n.value (2 ^ 31))
    then converted (pattern_of (2 ^ 32) n)
    else out_of_range

-- std::stoi; the result is the pattern of the int.
unfoldable pub stoi : Text → Conversion
unfolding skip_blanks signed
stoi s = int_of (signed (skip_blanks s))

-- A minus sign gives the negative number modulo 2^64.
abbrev pub unsigned_of : Option Number → Conversion
unsigned_of none = not_a_number
unsigned_of (some n) =
    if ltb n.value (2 ^ 64) then converted (pattern_of (2 ^ 64) n) else out_of_range

unfoldable pub stoul : Text → Conversion
unfolding skip_blanks signed
stoul s = unsigned_of (signed (skip_blanks s))

leading_digits-read_from :
    (acc : ℕ) (s : Text) → IsDigits s → leading_digits acc s ≡ read_from acc s
unfolding leading_digits
leading_digits-read_from acc [] h = refl
leading_digits-read_from acc (c ∷ s) h =
    ground (arith, leading_digits-read_from (acc * 10 + (c - b'0')) s)

signed-digits :
    (c : ℕ) (s : Text)
    → IsDigits (c ∷ s)
    → signed (skip_blanks (c ∷ s))
      ≡ some (record { is_negative = false; value = read_from 0 (c ∷ s) })
unfolding signed skip_blanks
signed-digits c s h = ground (arith, leading_digits-read_from 0 (c ∷ s))

-- What to_string prints is read as the number.
pub signed-to_string :
    (n : ℕ) → signed (skip_blanks (to_string n)) ≡ some (record { is_negative = false; value = n })
signed-to_string n =
    let (c, s, e) = to_string_cons n in
    let (r, d) = to_string_lem n in
    ap (λ t. signed (skip_blanks t)) e
    ∙ signed-digits c s (subst IsDigits e d)
    ∙ ap (λ m. some (record { is_negative = false; value = m })) (ap (read_from 0) (sym e) ∙ r)

pub stoi-to_string : (n : ℕ) → n < 2 ^ 31 → stoi (to_string n) ≡ converted n
unfolding stoi
stoi-to_string n h = ap int_of (signed-to_string n) ∙ ground arith

pub stoul-to_string : (n : ℕ) → n < 2 ^ 64 → stoul (to_string n) ≡ converted n
unfolding stoul
stoul-to_string n h = ap unsigned_of (signed-to_string n) ∙ ground arith
