-- ===== src/Utils/TokenBucket/Level.antt =====
-- mycppwebfw/src/utils/token_bucket.cpp: the level of a bucket.
use gin_cpp.Base.{
  ℕ, ◌≤◌, ◌≡◌, refl, sym, subst, ◌∙◌, inl, inr, Bool, true, List, [], ◌∷◌, Bool-cases,
}
use gin_cpp.Base.Int.{ℤ, pos}
use gin_cpp.Utils.TokenBucket.{
  Doubles, TokenBucket, create_bucket, min_double, refill, consume_from, consume, consume_all,
}

-- What IEEE 754 arithmetic gives for these operations, also for infinities and with rounding; `le_double`
-- and `lt_double` are false where an operand is not a number.
pub record IsIeee (d : Doubles) (is_finite : d.Double → Bool) : Type 0 where
  pub le_refl : (a b : d.Double) → d.le_double a b ≡ true → d.le_double b b ≡ true
  pub le_trans :
      (a b c : d.Double) → d.le_double a b ≡ true → d.le_double b c ≡ true → d.le_double a c ≡ true
  pub le_of_lt : (a b : d.Double) → d.lt_double a b ≡ true → d.le_double a b ≡ true
  pub add_nonneg :
      (a b : d.Double)
      → d.le_double (d.of_int (pos 0)) a ≡ true
      → d.le_double (d.of_int (pos 0)) b ≡ true
      → d.le_double (d.of_int (pos 0)) (d.add a b) ≡ true
  pub mul_nonneg :
      (a b : d.Double)
      → is_finite a ≡ true
      → is_finite b ≡ true
      → d.le_double (d.of_int (pos 0)) a ≡ true
      → d.le_double (d.of_int (pos 0)) b ≡ true
      → d.le_double (d.of_int (pos 0)) (d.mul a b) ≡ true
  -- Taking away no more than there is.
  pub sub_nonneg :
      (a : d.Double) (n : ℕ)
      → d.le_double (d.of_int (pos n)) a ≡ true
      → d.le_double (d.of_int (pos 0)) (d.sub a (d.of_int (pos n))) ≡ true
  pub sub_le :
      (a b : d.Double) (n : ℕ)
      → d.le_double a b ≡ true
      → d.le_double (d.sub a (d.of_int (pos n))) b ≡ true
  pub seconds_finite : (s t : ℕ) → is_finite (d.seconds s t) ≡ true
  pub seconds_nonneg : (s t : ℕ) → s ≤ t → d.le_double (d.of_int (pos 0)) (d.seconds s t) ≡ true

module _ (d : Doubles) (is_finite : d.Double → Bool) (ieee : IsIeee d is_finite) where
  open d use {Double, le_double, lt_double, of_int}

  -- The rate is finite and not negative, and the level lies between 0 and the capacity.
  pub record IsLevel (b : TokenBucket d) : Type 0 where
    pub rate_finite : is_finite b.refill_rate ≡ true
    pub rate_nonneg : le_double (of_int (pos 0)) b.refill_rate ≡ true
    pub not_negative : le_double (of_int (pos 0)) b.tokens ≡ true
    pub not_above : le_double b.tokens b.capacity ≡ true

  -- The calls ask for no negative number, and the clock does not run backwards.
  abbrev pub IsSteady : ℕ → List (ℕ × ℤ) → Type 0
  IsSteady last [] = Unit
  IsSteady last ((now, n) ∷ cs) = (last ≤ now) × ((k : ℕ) × (n ≡ pos k)) × IsSteady now cs

  min_double-IsLevel :
      (c x : Double)
      → le_double c c ≡ true
      → le_double (of_int (pos 0)) c ≡ true
      → le_double (of_int (pos 0)) x ≡ true
      → (le_double (of_int (pos 0)) (min_double d c x) ≡ true)
        × (le_double (min_double d c x) c ≡ true)
  min_double-IsLevel c x r h k = elim (Bool-cases (lt_double x c)) [
    | inl e ↦ rw e (k, ieee.le_of_lt x c e)
    | inr e ↦ rw e (h, r)
  ]

  refill-IsLevel :
      (b : TokenBucket d) (now : ℕ)
      → b.last_refill_time ≤ now
      → IsLevel b
      → IsLevel (refill d b now)
  unfolding refill
  refill-IsLevel b now l v =
      let m =
        min_double-IsLevel b.capacity
          (d.add b.tokens (d.mul (d.seconds b.last_refill_time now) b.refill_rate))
          (ieee.le_refl b.tokens b.capacity v.not_above)
          (ieee.le_trans (of_int (pos 0)) b.tokens b.capacity v.not_negative v.not_above)
          (ieee.add_nonneg b.tokens (d.mul (d.seconds b.last_refill_time now) b.refill_rate)
            v.not_negative
            (ieee.mul_nonneg (d.seconds b.last_refill_time now) b.refill_rate
              (ieee.seconds_finite b.last_refill_time now) v.rate_finite
              (ieee.seconds_nonneg b.last_refill_time now l) v.rate_nonneg)) in
      record {
        rate_finite = v.rate_finite;
        rate_nonneg = v.rate_nonneg;
        not_negative = m.0;
        not_above = m.1;
      }

  consume_from-IsLevel :
      (b : TokenBucket d) (n : ℕ) → IsLevel b → IsLevel (consume_from d b (pos n)).0
  consume_from-IsLevel b n v = elim (Bool-cases (le_double (of_int (pos n)) b.tokens)) [
    | inl e ↦ rw e (record {
      rate_finite = v.rate_finite;
      rate_nonneg = v.rate_nonneg;
      not_negative = ieee.sub_nonneg b.tokens n e;
      not_above = ieee.sub_le b.tokens b.capacity n v.not_above;
    })
    | inr e ↦ rw e v
  ]

  consume_from-keeps :
      (b : TokenBucket d) (n : ℤ)
      → ((consume_from d b n).0.capacity ≡ b.capacity)
        × ((consume_from d b n).0.last_refill_time ≡ b.last_refill_time)
  consume_from-keeps b n = elim (Bool-cases (le_double (of_int n) b.tokens)) [
    | inl e ↦ rw e (refl, refl)
    | inr e ↦ rw e (refl, refl)
  ]

  consume-IsLevel :
      (b : TokenBucket d) (now n : ℕ)
      → b.last_refill_time ≤ now
      → IsLevel b
      → IsLevel (consume d b now (pos n)).0
  unfolding consume
  consume-IsLevel b now n l v = consume_from-IsLevel (refill d b now) n (refill-IsLevel b now l v)

  consume-keeps :
      (b : TokenBucket d) (now : ℕ) (n : ℤ)
      → ((consume d b now n).0.capacity ≡ b.capacity)
        × ((consume d b now n).0.last_refill_time ≡ now)
  unfolding consume refill
  consume-keeps b now n = consume_from-keeps (refill d b now) n

  consume_all-IsLevel :
      (b : TokenBucket d) (cs : List (ℕ × ℤ))
      → IsSteady b.last_refill_time cs
      → IsLevel b
      → IsLevel (consume_all d b cs) × ((consume_all d b cs).capacity ≡ b.capacity)
  unfolding consume_all
  consume_all-IsLevel b [] h v = (v, refl)
  consume_all-IsLevel b ((now, n) ∷ cs) (l, (k, e), h) v =
      let kept = consume-keeps b now n in
      let r =
        consume_all-IsLevel (consume d b now n).0 cs (subst (λ t. IsSteady t cs) (sym kept.1) h)
          (subst (λ m. IsLevel (consume d b now m).0) (sym e) (consume-IsLevel b now k l v)) in
      (r.0, r.1 ∙ kept.0)

  -- A new bucket whose capacity is not negative and whose rate is finite and not negative: after any calls of
  -- consume for numbers that are not negative, at times that do not run backwards, the level lies between 0
  -- and the capacity that the bucket was made with. The arithmetic is that of IEEE 754, with rounding.
  pub create_bucket-consume_all :
      (capacity refill_rate : Double) (now : ℕ) (cs : List (ℕ × ℤ))
      → le_double (of_int (pos 0)) capacity ≡ true
      → is_finite refill_rate ≡ true
      → le_double (of_int (pos 0)) refill_rate ≡ true
      → IsSteady now cs
      → IsLevel (consume_all d (create_bucket d capacity refill_rate now) cs)
        × ((consume_all d (create_bucket d capacity refill_rate now) cs).capacity ≡ capacity)
  unfolding create_bucket
  create_bucket-consume_all capacity refill_rate now cs c f r h =
      consume_all-IsLevel (create_bucket d capacity refill_rate now) cs h (record {
        rate_finite = f;
        rate_nonneg = r;
        not_negative = c;
        not_above = ieee.le_refl (of_int (pos 0)) capacity c;
      })
