-- ===== src/Utils/TokenBucket.antt =====
-- mycppwebfw/src/utils/token_bucket.cpp. There are no floats here: the type double and its operations are a
-- record of the model. A time of the steady clock is its number of ticks, and the mutex makes each call one step.
pub mod Level
mod Tests
use gin_cpp.Base.{
  ℕ, zero, suc, ◌+◌, ◌-◌, ◌*◌, ◌/◌, ◌%◌, ◌^◌, ◌≤◌, ◌<◌, ◌≡◌, refl, sym, ap, subst, ◌∙◌, ◌≢◌, ◌↔◌,
  ◌⊎◌, inl, inr, Bool, true, false, not, ◌&&◌, ◌||◌, Option, none, some, List, [], ◌∷◌, ◌++◌, map,
  arith, ltb, leb, ◌==◌, if◌then◌else◌, ltb→lt, lt→ltb, leb→le, ==_iff, ==_refl, Bool-cases,
  Option-cases, some_inj, length, get_elem?, set, take, drop, replicate, is_empty, length-append,
  length-replicate, get_elem?-some_lt, get_elem?-none_le, lt_of_get_elem?, Has, Has-cons_map,
  Has-append_left, Has-append_right, Has-append, All-Has, length-set, get_elem?-set_self,
  get_elem?-set_ne, All, All-append, Text, codes, same, same→eq, same_refl, same_iff, apart,
  drop_two_length_append, Free-append, find, starts_with, find_text, contains_text, Free, find-Free,
  find-none-Free, find-append, Free-take-find, find_parts, take-length_append, drop-length_append,
  drop-suc-length_append, starts_with-append, starts_with_parts, lookup, insert, erase,
  lookup-insert, lookup-erase,
}
use gin_cpp.Base.Int.{ℤ, pos, negsuc}

-- The operations on double that the code uses; `seconds a b` is the count of duration<double> between the
-- times a and b, and `of_int` the conversion of an int.
pub record Doubles : Type 1 where
  pub Double : Type 0
  pub lt_double : Double → Double → Bool
  pub le_double : Double → Double → Bool
  pub add : Double → Double → Double
  pub sub : Double → Double → Double
  pub mul : Double → Double → Double
  pub of_int : ℤ → Double
  pub seconds : ℕ → ℕ → Double

module _ (d : Doubles) where
  open d use {Double, lt_double, le_double, add, sub, mul, of_int, seconds}

  pub record TokenBucket : Type 0 where
    pub capacity : Double
    pub tokens : Double
    pub refill_rate : Double
    pub last_refill_time : ℕ

  -- The constructor, at a time.
  unfoldable pub create_bucket : Double → Double → ℕ → TokenBucket
  create_bucket capacity refill_rate now = record {
    capacity = capacity;
    tokens = capacity;
    refill_rate = refill_rate;
    last_refill_time = now;
  }

  -- std::min(a, b)
  abbrev pub min_double : Double → Double → Double
  min_double a b = if lt_double b a then b else a

  unfoldable pub refill : TokenBucket → ℕ → TokenBucket
  refill b now = record b {
    tokens = min_double capacity (add tokens (mul (seconds last_refill_time now) refill_rate));
    last_refill_time = now;
  }
    where
      open b use {capacity, tokens, refill_rate, last_refill_time}

  abbrev pub consume_from : TokenBucket → ℤ → TokenBucket × Bool
  consume_from b n =
      if le_double (of_int n) b.tokens
      then (record b { tokens = sub b.tokens (of_int n) }, true)
      else (b, false)

  unfoldable pub consume : TokenBucket → ℕ → ℤ → TokenBucket × Bool
  unfolding refill
  consume b now n = consume_from (refill b now) n

  -- Calls of consume, each at a time and for a number of tokens.
  unfoldable pub consume_all : TokenBucket → List (ℕ × ℤ) → TokenBucket
  unfolding consume
  consume_all b [] = b
  consume_all b ((now, n) ∷ cs) = consume_all (consume b now n).0 cs
