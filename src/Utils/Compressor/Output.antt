-- ===== src/Utils/Compressor/Output.antt =====
-- mycppwebfw/src/utils/compressor.cpp: what the loop returns.
use gin_cpp.Base.{
  ℕ, zero, suc, ◌+◌, ◌%◌, ◌^◌, ◌≤◌, ◌<◌, ◌≡◌, refl, sym, ap, ◌∙◌, inl, inr, Bool, true, false, some,
  [], ◌∷◌, ◌++◌, arith, ltb, if◌then◌else◌, Bool-cases, length, take, is_empty, length-append, Text,
}
use gin_cpp.Base.Int.{ℤ}
use mathlib.Core.List.{append-nil, append_assoc}
use gin_cpp.Utils.Compressor.{
  Zlib, z_ok, same_int, compressed, append_new, finish_with, deflate_loop, compress_stream,
  compress,
}

-- What zlib documents: a call writes some bytes at the front of the output buffer and adds their number to
-- total_out, which is 0 before the first call; and a call with Z_FINISH and an empty buffer returns Z_OK
-- only if there is more to write, so not for ever: `left` bounds how often.
pub record IsDeflate (z : Zlib) (new_bytes : z.Stream → Text) (left : z.Stream → ℕ) : Type 0 where
  pub in_front : (s : z.Stream) → take (length (new_bytes s)) (z.deflate s).2 ≡ new_bytes s
  pub counted : (s : z.Stream) → z.total_out (z.deflate s).0 ≡ z.total_out s + length (new_bytes s)
  pub starts : (s : z.Stream) (input : Text) → z.init ≡ some s → z.total_out (z.feed input s) ≡ 0
  pub falls : (s : z.Stream) → same_int (z.deflate s).1 z_ok ≡ true → left (z.deflate s).0 < left s

module _ (z : Zlib) (new_bytes : z.Stream → Text) (left : z.Stream → ℕ)
    (documented : IsDeflate z new_bytes left) where
  -- Calls of deflate from a stream on, until one does not return Z_OK: all the bytes that they write, the
  -- last stream and the last result.
  pub data Calls : z.Stream → Text → z.Stream → ℤ → Type 0 where
    last :
        {s t : z.Stream} {ret : ℤ} {bytes : Text}
        → same_int ret z_ok ≡ false
        → ret ≡ (z.deflate s).1
        → t ≡ (z.deflate s).0
        → bytes ≡ new_bytes s
        → Calls s bytes t ret
    more :
        {s t : z.Stream} {ret : ℤ} {bytes rest : Text}
        → same_int (z.deflate s).1 z_ok ≡ true
        → Calls (z.deflate s).0 rest t ret
        → bytes ≡ new_bytes s ++ rest
        → Calls s bytes t ret

  -- A round appends the new bytes.
  append_new-new_bytes :
      (s : z.Stream) (outstring : Text)
      → length outstring ≡ z.total_out s
      → append_new z outstring (z.deflate s).0 (z.deflate s).2 ≡ outstring ++ new_bytes s
  append_new-new_bytes s outstring e =
      elim (Bool-cases (ltb (length outstring) (z.total_out (z.deflate s).0))) [
        | inl k ↦ rw k (
            ap (λ n. outstring ++ take n (z.deflate s).2) (omega (arith, documented.counted s))
            ∙ ap (λ t. outstring ++ t) (documented.in_front s))
        | inr k ↦ rw k (
            sym (append-nil outstring)
            ∙ ap (λ t. outstring ++ t) (nothing (new_bytes s) (no_bytes k)))
      ]
    where
      no_bytes :
          ltb (length outstring) (z.total_out (z.deflate s).0) ≡ false → length (new_bytes s) ≡ 0
      no_bytes k = ground (arith, documented.counted s)

      nothing : (t : Text) → length t ≡ 0 → [] ≡ t
      nothing [] h = refl
      nothing (c ∷ t) h = absurd (omega (arith, h))

  -- What the loop gives on enough fuel.
  abbrev LoopEnds : ℕ → z.Stream → Text → Type 0
  LoopEnds fuel s outstring =
      (bytes : Text) × (t : z.Stream) × (ret : ℤ) × Calls s bytes t ret
      × (deflate_loop z fuel s outstring ≡ finish_with z (outstring ++ bytes) t ret)

  one_round :
      (fuel : ℕ) (s : z.Stream) (outstring : Text)
      → length outstring ≡ z.total_out s
      → deflate_loop z (suc fuel) s outstring ≡ (
          if same_int (z.deflate s).1 z_ok
          then deflate_loop z fuel (z.deflate s).0 (outstring ++ new_bytes s)
          else finish_with z (outstring ++ new_bytes s) (z.deflate s).0 (z.deflate s).1)
  unfolding deflate_loop
  one_round fuel s outstring e =
      ap
        (λ t.
          if same_int (z.deflate s).1 z_ok
          then deflate_loop z fuel (z.deflate s).0 t
          else finish_with z t (z.deflate s).0 (z.deflate s).1)
        (append_new-new_bytes s outstring e)

  deflate_loop-Calls :
      (fuel : ℕ) (s : z.Stream) (outstring : Text)
      → length outstring ≡ z.total_out s
      → left s < fuel
      → LoopEnds fuel s outstring
  deflate_loop-Calls zero s outstring e l = absurd (omega (arith, l))
  deflate_loop-Calls (suc fuel) s outstring e l =
      elim (Bool-cases (same_int (z.deflate s).1 z_ok)) [
        | inr k ↦ (
          new_bytes s,
          (z.deflate s).0,
          (z.deflate s).1,
          last k refl refl refl,
          one_round fuel s outstring e
              ∙ ap
                  (λ (b : Bool).
                    if b
                    then deflate_loop z fuel (z.deflate s).0 (outstring ++ new_bytes s)
                    else finish_with z (outstring ++ new_bytes s) (z.deflate s).0 (z.deflate s).1)
                  k,
        )
        | inl k ↦
            let (rest, t, ret, c, g) =
              deflate_loop-Calls fuel (z.deflate s).0 (outstring ++ new_bytes s)
                (omega (arith, length-append outstring (new_bytes s), documented.counted s, e))
                (omega (arith, documented.falls s k, l)) in
            (
              new_bytes s ++ rest,
              t,
              ret,
              more k c refl,
              one_round fuel s outstring e
                  ∙ ap
                      (λ (b : Bool).
                        if b
                        then deflate_loop z fuel (z.deflate s).0 (outstring ++ new_bytes s)
                        else finish_with z (outstring ++ new_bytes s) (z.deflate s).0
                            (z.deflate s).1)
                      k
                  ∙ g
                  ∙ ap (λ x. finish_with z x t ret) (append_assoc outstring (new_bytes s) rest),
            )
      ]

  -- If zlib does what it documents: compressing data that is not empty, where the stream can be made, calls
  -- deflate until it does not return Z_OK and never runs for ever; the result is all the bytes that the calls
  -- wrote, in order, if the last call returned Z_STREAM_END, and otherwise the exception with the last
  -- result and message, or undefined behaviour if that message is null.
  pub compress-Calls :
      (fuel : ℕ) (input : Text) (s : z.Stream)
      → is_empty input ≡ false
      → z.init ≡ some s
      → left (z.feed (take (length input % 2 ^ 32) input) s) < fuel
      → (bytes : Text) × (t : z.Stream) × (ret : ℤ) × Calls
          (z.feed (take (length input % 2 ^ 32) input) s)
          bytes
          t
          ret
        × (compress z fuel input ≡ finish_with z bytes t ret)
  unfolding compress
  compress-Calls fuel input s e i l =
      let (bytes, t, ret, c, g) =
        deflate_loop-Calls fuel (z.feed (take (length input % 2 ^ 32) input) s) []
          (sym (documented.starts s (take (length input % 2 ^ 32) input) i)) l in
      (
        bytes,
        t,
        ret,
        c,
        ap
              (λ (b : Bool).
                if b
                then compressed []
                else compress_stream z fuel (take (length input % 2 ^ 32) input) z.init)
              e
            ∙ ap (compress_stream z fuel (take (length input % 2 ^ 32) input)) i
            ∙ g,
      )

take-take : (n : ℕ) (s : Text) → take n (take n s) ≡ take n s
take-take zero s = refl
take-take (suc n) [] = refl
take-take (suc n) (c ∷ s) = ap (λ t. c ∷ t) (take-take n s)

length-take : (n : ℕ) (s : Text) → n ≤ length s → length (take n s) ≡ n
length-take zero s h = refl
length-take (suc n) [] h = absurd (omega (arith, h))
length-take (suc n) (c ∷ s) h = ap suc (length-take n s (omega (arith, h)))

is_empty-take : (n : ℕ) (s : Text) → 0 < n → is_empty (take n s) ≡ is_empty s
is_empty-take zero s h = absurd (omega (arith, h))
is_empty-take (suc n) [] h = refl
is_empty-take (suc n) (c ∷ s) h = refl

-- Data is compressed as its first size % 2^32 bytes are, if that number is not 0: the bytes beyond are lost,
-- and nothing is reported.
pub compress-take :
    (z : Zlib) (fuel : ℕ) (input : Text)
    → 0 < length input % 2 ^ 32
    → compress z fuel input ≡ compress z fuel (take (length input % 2 ^ 32) input)
unfolding compress
compress-take z fuel input h =
    let n = length input % 2 ^ 32 in
    let l : length (take n input) ≡ n = length-take n input (omega arith) in
    let same_part : take (length (take n input) % 2 ^ 32) (take n input) ≡ take n input =
      ap (λ k. take k (take n input)) (omega (arith, l)) ∙ take-take n input in
    ap (λ (b : Bool). if b then compressed [] else compress_stream z fuel (take n input) z.init)
      (sym (is_empty-take n input h))
    ∙ ap (λ t. if is_empty (take n input) then compressed [] else compress_stream z fuel t z.init)
        (sym same_part)
