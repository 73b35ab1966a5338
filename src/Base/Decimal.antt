-- ===== src/Base/Decimal.antt =====
-- std::to_string of an unsigned number, on fuel above the number of its digits.
use Prim.Native.Nat.{ℕ, zero, suc, ◌+◌, ◌*◌, ◌/◌, ◌%◌, ◌-◌, ◌<◌, ◌≤◌}
use mathlib.Core.Path.{◌≡◌, refl}
use mathlib.Core.List.{[], ◌∷◌, ◌++◌}
use native.Mathlib.Omega.{arith}
use gin_cpp.Base.Tests.{ltb, if◌then◌else◌, Bool-cases}
use mathlib.Core.Logic.{inl, inr}
use gin_cpp.Base.Texts.{Text}
use gin_cpp.Base.Lists.{All, All-append}

digits_from : ℕ → ℕ → Text
digits_from zero n = []
digits_from (suc fuel) n =
    let more = digits_from fuel (n / 10) ++ (b'0' + n % 10) ∷ [] in
    if ltb n 10 then (b'0' + n) ∷ [] else more

unfoldable pub to_string : ℕ → Text
unfolding digits_from
to_string n = digits_from (suc n) n

-- The number that a text of digits stands for.
abbrev pub read_from : ℕ → Text → ℕ
read_from acc [] = acc
read_from acc (c ∷ s) = read_from (acc * 10 + (c - b'0')) s

abbrev pub IsDigits : Text → Type 0
IsDigits = All (λ c. (b'0' ≤ c) × (c ≤ b'9'))

read_from-append :
    (acc : ℕ) (s : Text) (c : ℕ) → read_from acc (s ++ c ∷ []) ≡ read_from acc s * 10 + (c - b'0')
read_from-append acc [] c = refl
read_from-append acc (d ∷ s) c = read_from-append (acc * 10 + (d - b'0')) s c

digits_from_lem :
    (fuel n : ℕ) → n < fuel → (read_from 0 (digits_from fuel n) ≡ n) × IsDigits (digits_from fuel n)
unfolding digits_from
digits_from_lem zero n h = elim h [ ]
digits_from_lem (suc fuel) n h = ground (
  arith,
  digits_from_lem fuel (n / 10),
  read_from-append 0 (digits_from fuel (n / 10)) (b'0' + n % 10),
  All-append (λ c. (b'0' ≤ c) × (c ≤ b'9')) (digits_from fuel (n / 10)) ((b'0' + n % 10) ∷ []),
)

-- The text is digits, and reads back as the number.
pub to_string_lem : (n : ℕ) → (read_from 0 (to_string n) ≡ n) × IsDigits (to_string n)
unfolding to_string
to_string_lem n = digits_from_lem (suc n) n (omega arith)

pub to_string_cons : (n : ℕ) → (c : ℕ) × (s : Text) × (to_string n ≡ c ∷ s)
unfolding to_string digits_from
to_string_cons n = elim (Bool-cases (ltb n 10)) [
  | inl e ↦ (b'0' + n, [], rw e refl)
  | inr e ↦ rw e (first (digits_from n (n / 10)) (b'0' + n % 10))
]
  where
    first : (t : Text) (d : ℕ) → (c : ℕ) × (s : Text) × (t ++ d ∷ [] ≡ c ∷ s)
    first [] d = (d, [], refl)
    first (c ∷ t) d = (c, t ++ d ∷ [], refl)
