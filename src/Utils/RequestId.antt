-- ===== src/Utils/RequestId.antt =====
-- mycppwebfw/src/utils/request_id_generator.cpp and src/utils/request_id_generator.cpp. The random numbers
-- are the argument: `dis i` is the i-th draw of the distribution from 0 to 15, `dis2` that from 8 to 11.
use gin_cpp.Base.{
  ℕ, zero, suc, ◌+◌, ◌-◌, ◌≤◌, ◌<◌, ◌≡◌, refl, ap, ◌⊎◌, inl, inr, some, [], ◌∷◌, ◌++◌, arith, ltb,
  if◌then◌else◌, length, get_elem?, All, All-append, Text, codes,
}

-- ss << std::hex << n, for n below 16.
unfoldable pub hex : ℕ → ℕ
hex n = if ltb n 10 then b'0' + n else b'a' + (n - 10)

-- One of the loops: `count` draws from the `start`-th on.
unfoldable pub hex_run : (ℕ → ℕ) → ℕ → ℕ → Text
unfolding hex
hex_run dis start zero = []
hex_run dis start (suc count) = hex (dis start) ∷ hex_run dis (start + 1) count

unfoldable pub generate : (ℕ → ℕ) → ℕ → Text
unfolding hex_run
generate dis dis2 =
    hex_run dis 0 8
    ++ codes "-"
    ++ hex_run dis 8 4
    ++ codes "-4"
    ++ hex_run dis 12 3
    ++ codes "-"
    ++ hex dis2 ∷ (hex_run dis 15 3 ++ codes "-" ++ hex_run dis 18 12)

-- Lower-case hexadecimal digits and dashes.
abbrev pub IsIdByte : ℕ → Type 0
IsIdByte c = ((b'0' ≤ c) × (c ≤ b'9')) ⊎ ((b'a' ≤ c) × (c ≤ b'f')) ⊎ (c ≡ b'-')

hex-IsIdByte : (n : ℕ) → n < 16 → IsIdByte (hex n)
unfolding hex
hex-IsIdByte n h = ground arith

hex_run-IsIdByte :
    (dis : ℕ → ℕ) (start count : ℕ)
    → ((i : ℕ) → dis i < 16)
    → All IsIdByte (hex_run dis start count)
unfolding hex_run
hex_run-IsIdByte dis start zero h = tt
hex_run-IsIdByte dis start (suc count) h =
    (hex-IsIdByte (dis start) (h start), hex_run-IsIdByte dis (start + 1) count h)

length-hex_run : (dis : ℕ → ℕ) (start count : ℕ) → length (hex_run dis start count) ≡ count
unfolding hex_run
length-hex_run dis start zero = refl
length-hex_run dis start (suc count) = ap suc (length-hex_run dis (start + 1) count)

-- For every sequence of draws an identifier has 36 bytes, all lower-case hexadecimal digits or
-- dashes; byte 14 is the version 4, and byte 19 the variant 8, 9, a or b.
pub generate_format :
    (dis : ℕ → ℕ) (dis2 : ℕ)
    → ((i : ℕ) → dis i < 16)
    → 8 ≤ dis2
    → dis2 ≤ 11
    → (length (generate dis dis2) ≡ 36)
      × All IsIdByte (generate dis dis2)
      × (get_elem? (generate dis dis2) 14 ≡ some b'4')
      × ((v : ℕ) × (get_elem? (generate dis dis2) 19 ≡ some (hex v)) × (8 ≤ v) × (v < 12))
unfolding generate
generate_format dis dis2 h lo hi = (refl, all_bytes, refl, (dis2, refl, lo, omega arith))
  where
    dash : IsIdByte b'-'
    dash = inr (inr refl)

    four : IsIdByte b'4'
    four = inl (omega arith)

    node : All IsIdByte (hex_run dis 15 3 ++ b'-' ∷ hex_run dis 18 12)
    node =
        All-append IsIdByte (hex_run dis 15 3) (b'-' ∷ hex_run dis 18 12)
          (hex_run-IsIdByte dis 15 3 h) (dash, hex_run-IsIdByte dis 18 12 h)

    clock :
        All IsIdByte
          (hex_run dis 12 3 ++ b'-' ∷ hex dis2 ∷ (hex_run dis 15 3 ++ b'-' ∷ hex_run dis 18 12))
    clock =
        All-append IsIdByte (hex_run dis 12 3)
          (b'-' ∷ hex dis2 ∷ (hex_run dis 15 3 ++ b'-' ∷ hex_run dis 18 12))
          (hex_run-IsIdByte dis 12 3 h) (dash, (hex-IsIdByte dis2 (omega arith), node))

    all_bytes : All IsIdByte (generate dis dis2)
    all_bytes =
        All-append IsIdByte (hex_run dis 0 8)
          (b'-'
            ∷ (hex_run dis 8 4
                ++ b'-'
                  ∷ b'4'
                  ∷ (hex_run dis 12 3
                      ++ b'-' ∷ hex dis2 ∷ (hex_run dis 15 3 ++ b'-' ∷ hex_run dis 18 12))))
          (hex_run-IsIdByte dis 0 8 h)
          (
            dash,
            All-append IsIdByte (hex_run dis 8 4)
                (b'-'
                  ∷ b'4'
                  ∷ (hex_run dis 12 3
                      ++ b'-' ∷ hex dis2 ∷ (hex_run dis 15 3 ++ b'-' ∷ hex_run dis 18 12)))
                (hex_run-IsIdByte dis 8 4 h) (dash, (four, clock)),
          )
