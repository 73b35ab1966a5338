-- ===== src/Utils/Logging/Fields.antt =====
-- mycppwebfw/src/logging/formatter.cpp: what can be read back from a formatted record.
use gin_cpp.Base.{
  ℕ, ◌<◌, ◌≡◌, refl, ap, ◌∙◌, ◌⊎◌, inl, Option, none, some, List, [], ◌∷◌, ◌++◌, arith,
  if◌then◌else◌, length, take, drop, Text, codes, find, starts_with, Free, find-append,
  take-length_append, drop-length_append, starts_with-append,
}
use gin_cpp.Base.Decimal.{to_string, IsDigits, to_string_lem}
use gin_cpp.Utils.Renderer.{quote}
use gin_cpp.Base.Int.{ℤ, pos, negsuc}
use gin_cpp.Base.{sym, ◌≢◌, ◌+◌}
use gin_cpp.Utils.Logging.{LogRecord, int_text, key, next_key, format_json}

-- A format: for each value the text in front of it, and the first byte of what follows.
abbrev pub Format : Type 0
Format = List (Text × ℕ)

-- The text in front of each value, the value, and so on; and what follows the last one.
abbrev pub write_fields : Format → List Text → Text → Text
write_fields [] vs rest = rest
write_fields ((before, stop) ∷ fs) [] rest = rest
write_fields ((before, stop) ∷ fs) (v ∷ vs) rest = before ++ (v ++ write_fields fs vs rest)

abbrev cons_value : Text → Option (List Text) → Option (List Text)
cons_value v none = none
cons_value v (some vs) = some (v ∷ vs)

abbrev read_value : (Text → Option (List Text)) → Text → Option ℕ → Option (List Text)
read_value others s none = none
read_value others s (some i) = cons_value (take i s) (others (drop i s))

-- Reads the values: each ends in front of its stop byte.
unfoldable pub read_fields : Format → Text → Option (List Text)
read_fields [] s = some []
read_fields ((before, stop) ∷ fs) s =
    let value =
      read_value (read_fields fs) (drop (length before) s) (find (drop (length before) s) stop) in
    if starts_with s before then value else none

-- No value holds its stop byte, and that byte follows it.
abbrev pub Fits : Format → List Text → Text → Type 0
Fits [] [] rest = Unit
Fits [] (v ∷ vs) rest = ⊥
Fits (f ∷ fs) [] rest = ⊥
Fits ((before, stop) ∷ fs) (v ∷ vs) rest =
    Free stop v × ((s : Text) × (write_fields fs vs rest ≡ stop ∷ s)) × Fits fs vs rest

read_fields-write_fields :
    (fs : Format) (vs : List Text) (rest : Text)
    → Fits fs vs rest
    → read_fields fs (write_fields fs vs rest) ≡ some vs
unfolding read_fields
read_fields-write_fields [] [] rest h = refl
read_fields-write_fields [] (v ∷ vs) rest h = absurd h
read_fields-write_fields (f ∷ fs) [] rest h = absurd h
read_fields-write_fields ((before, stop) ∷ fs) (v ∷ vs) rest (free, (s, e), h) =
    let tail = write_fields fs vs rest in
    rw (starts_with-append before (v ++ tail), read_fields)
      (ap (λ t. read_value (read_fields fs) t (find t stop)) (drop-length_append before (v ++ tail))
        ∙ ap (read_value (read_fields fs) (v ++ tail))
            (ap (λ t. find (v ++ t) stop) e ∙ find-append v s stop free)
        ∙ ap (λ t. cons_value t (read_fields fs (drop (length v) (v ++ tail))))
            (take-length_append v tail)
        ∙ ap (λ t. cons_value v (read_fields fs t)) (drop-length_append v tail)
        ∙ ap (cons_value v) (read_fields-write_fields fs vs rest h))

abbrev pub json_format : Format
json_format =
    (codes "{" ++ (key (codes "timestamp") ++ quote ∷ []), quote)
    ∷ (next_key (codes "remote_ip"), quote)
    ∷ (next_key (codes "method"), quote)
    ∷ (next_key (codes "path"), quote)
    ∷ (quote ∷ (codes ", " ++ key (codes "status")), b',')
    ∷ (codes ", " ++ key (codes "latency_s"), b'}')
    ∷ []

digits-Free : (s : Text) (c : ℕ) → (c < b'0') ⊎ (b'9' < c) → IsDigits s → Free c s
digits-Free [] c h d = tt
digits-Free (x ∷ s) c h d = ((λ e. ground (arith, d.0)), digits-Free s c h d.1)

int_text-Free : (n : ℤ) (c : ℕ) → (c < b'0') ⊎ (b'9' < c) → c ≢ b'-' → Free c (int_text n)
unfolding int_text
int_text-Free (pos n) c h k = digits-Free (to_string n) c h (to_string_lem n).1
int_text-Free (negsuc n) c h k =
    ((λ e. k (sym e)), digits-Free (to_string (n + 1)) c h (to_string_lem (n + 1)).1)

module _ {Time Seconds : Type 0} (time_text : Time → Text) (seconds_text : Seconds → Text) where
  -- The texts of a record, in the order of the formats.
  abbrev pub values : LogRecord Time Seconds → List Text
  values r =
      time_text r.timestamp
      ∷ r.remote_ip
      ∷ r.method
      ∷ r.path
      ∷ int_text r.status_code
      ∷ seconds_text r.latency
      ∷ []

  -- From a JSON record are read back the text that was printed for its time, its address, method and path, the
  -- decimal text of its status code and the text that was printed for its latency, if the address, the
  -- method, the path and the text of the time hold no quote and the text of the latency no closing brace.
  pub read_fields-format_json :
      (r : LogRecord Time Seconds)
      → Free quote (time_text r.timestamp)
      → Free quote r.remote_ip
      → Free quote r.method
      → Free quote r.path
      → Free b'}' (seconds_text r.latency)
      → read_fields json_format (format_json time_text seconds_text r) ≡ some (values r)
  unfolding format_json
  read_fields-format_json r t i m p l =
      read_fields-write_fields json_format (values r) (codes "}") (
        t,
        (_, refl),
        (
          i,
          (_, refl),
          (
            m,
            (_, refl),
            (
              p,
              (_, refl),
              (
                int_text-Free r.status_code b',' (inl (omega arith)) (λ e. omega (arith, e)),
                (_, refl),
                (l, (_, refl), tt),
              ),
            ),
          ),
        ),
      )
