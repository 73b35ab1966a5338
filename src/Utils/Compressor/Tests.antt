-- ===== src/Utils/Compressor/Tests.antt =====
-- The compressor over a zlib that stores: each call writes one byte as it is.
use gin_cpp.Base.{
  ℕ, ◌+◌, ◌<◌, ◌≡◌, refl, sym, ap, true, none, some, [], ◌∷◌, arith, some_inj, length, take, Text,
  codes,
}
use gin_cpp.Base.Int.{ℤ}
use gin_cpp.Utils.Compressor.{Zlib, z_ok, z_stream_end, same_int, compressed, finish_with, compress}
use gin_cpp.Utils.Compressor.Output.{IsDeflate, Calls, compress-Calls, compress-take}

-- The bytes that are still to be written, and how many were.
abbrev Stored : Type 0
Stored = Text × ℕ

abbrev write_one : Stored → Stored × ℤ × Text
write_one ([], n) = (([], n), z_stream_end, [])
write_one (c ∷ [], n) = (([], n + 1), z_stream_end, c ∷ [])
write_one (c ∷ d ∷ s, n) = ((d ∷ s, n + 1), z_ok, c ∷ [])

abbrev storing : Zlib
storing = record {
  Stream = Stored;
  init = some ([], 0);
  feed = λ input s. (input, s.1);
  deflate = write_one;
  total_out = λ s. s.1;
  msg = λ s. none;
  int_to_string = λ n. [];
}

abbrev first_byte : Stored → Text
first_byte ([], n) = []
first_byte (c ∷ s, n) = c ∷ []

abbrev waiting : Stored → ℕ
waiting s = length s.0

storing-IsDeflate : IsDeflate storing first_byte waiting
storing-IsDeflate = record {
  in_front = front;
  counted = adds;
  starts = λ s input e. begins s e;
  falls = shorter;
}
  where
    front : (s : Stored) → take (length (first_byte s)) (write_one s).2 ≡ first_byte s
    front ([], n) = refl
    front (c ∷ [], n) = refl
    front (c ∷ d ∷ s, n) = refl

    adds : (s : Stored) → (write_one s).0.1 ≡ s.1 + length (first_byte s)
    adds ([], n) = omega arith
    adds (c ∷ [], n) = refl
    adds (c ∷ d ∷ s, n) = refl

    begins : (s : Stored) → storing.init ≡ some s → s.1 ≡ 0
    begins s e = ap (λ t. t.1) (sym (some_inj ([], 0) s e))

    shorter :
        (s : Stored) → same_int (write_one s).1 z_ok ≡ true → length (write_one s).0.0 < length s.0
    shorter ([], n) h = absurd (ground (arith, h))
    shorter (c ∷ [], n) h = absurd (ground (arith, h))
    shorter (c ∷ d ∷ s, n) h = omega arith

compress-Calls_example :
    (bytes : Text) × (t : Stored) × (ret : ℤ) × Calls storing first_byte waiting storing-IsDeflate
      (codes "abc", 0)
      bytes
      t
      ret
    × (compress storing 9 (codes "abc") ≡ finish_with storing bytes t ret)
compress-Calls_example =
    compress-Calls storing first_byte waiting storing-IsDeflate 9 (codes "abc") ([], 0) refl refl
      (omega arith)

compress-take_example : compress storing 9 (codes "abc") ≡ compress storing 9 (take 3 (codes "abc"))
compress-take_example = compress-take storing 9 (codes "abc") (omega arith)

stored : compress storing 9 (codes "abc") ≡ compressed (codes "abc")
unfolding compress
stored = refl
