-- ===== src/Utils/TokenBucket/Tests.antt =====
-- A bucket over whole numbers.
use gin_cpp.Base.{ℕ, ◌+◌, ◌-◌, ◌*◌, ◌≡◌, refl, Bool, true, List, [], ◌∷◌, arith, ltb, leb}
use gin_cpp.Base.Int.{ℤ, pos, negsuc}
use gin_cpp.Utils.TokenBucket.{Doubles, create_bucket, consume, consume_all}
use gin_cpp.Utils.TokenBucket.Level.{IsIeee, IsLevel, create_bucket-consume_all}

abbrev positive_part : ℤ → ℕ
positive_part (pos n) = n
positive_part (negsuc n) = 0

abbrev whole : Doubles
whole = record {
  Double = ℕ;
  lt_double = ltb;
  le_double = leb;
  add = λ a b. a + b;
  sub = λ a b. a - b;
  mul = λ a b. a * b;
  of_int = positive_part;
  seconds = λ s t. t - s;
}

abbrev all_finite : ℕ → Bool
all_finite n = true

whole-IsIeee : IsIeee whole all_finite
whole-IsIeee = record {
  le_refl = λ a b h. ground arith;
  le_trans = λ a b c h k. ground arith;
  le_of_lt = λ a b h. ground arith;
  add_nonneg = λ a b h k. ground arith;
  mul_nonneg = λ a b f g h k. zero_le (a * b);
  sub_nonneg = λ a n h. zero_le (a - n);
  sub_le = λ a b n h. ground arith;
  seconds_finite = λ s t. refl;
  seconds_nonneg = λ s t l. zero_le (t - s);
}
  where
    zero_le : (n : ℕ) → leb 0 n ≡ true
    zero_le n = ground arith

abbrev calls : List (ℕ × ℤ)
calls = (1, pos 3) ∷ (2, pos 4) ∷ (9, pos 1) ∷ []

create_bucket-consume_all_example :
    IsLevel whole all_finite whole-IsIeee (consume_all whole (create_bucket whole 5 1 0) calls)
    × ((consume_all whole (create_bucket whole 5 1 0) calls).capacity ≡ 5)
create_bucket-consume_all_example =
    create_bucket-consume_all whole all_finite whole-IsIeee 5 1 0 calls refl refl refl
      (omega arith, (3, refl), (omega arith, (4, refl), (omega arith, (1, refl), tt)))

grants : (consume whole (create_bucket whole 5 1 0) 1 (pos 5)).1 ≡ true
unfolding consume create_bucket
grants = refl
