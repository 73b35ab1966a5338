-- ===== src/Utils/Logging/Lines.antt =====
-- mycppwebfw/src/logging/sinks.cpp: the lines of a log.
use gin_cpp.Base.{
  ◌≡◌, refl, ap, ◌∙◌, inl, inr, List, [], ◌∷◌, ◌++◌, ◌==◌, if◌then◌else◌, ==_iff, Bool-cases, All,
  All-append, Text, Free,
}
use mathlib.Core.List.{append_assoc, append-nil}
use gin_cpp.Utils.Logging.{newline, submit, submit_all}

-- The lines of a stream; a last one without its end is left out.
unfoldable pub lines_from : Text → Text → List Text
lines_from line [] = []
lines_from line (c ∷ s) =
    let ended = line ∷ lines_from [] s in
    let longer = lines_from (line ++ c ∷ []) s in if c == newline then ended else longer

-- What some messages add to a stream.
abbrev pub written : List Text → Text
written [] = []
written (m ∷ ms) = m ++ newline ∷ written ms

submit_all-written : (stream : Text) (ms : List Text) → submit_all stream ms ≡ stream ++ written ms
unfolding submit_all submit
submit_all-written stream [] = simp append-nil
submit_all-written stream (m ∷ ms) =
    submit_all-written (stream ++ (m ++ newline ∷ [])) ms ∙ simp append_assoc

lines_from-append :
    (line m s : Text)
    → Free newline m
    → lines_from line (m ++ newline ∷ s) ≡ (line ++ m) ∷ lines_from [] s
unfolding lines_from
lines_from-append line [] s f = simp append-nil
lines_from-append line (c ∷ m) s (d, f) = elim (Bool-cases (c == newline)) [
  | inl e ↦ absurd (d ((==_iff c newline).0 e))
  | inr e ↦ rw (e, lines_from) (lines_from-append (line ++ c ∷ []) m s f ∙ simp append_assoc)
]

lines_from-written : (ms : List Text) → All (Free newline) ms → lines_from [] (written ms) ≡ ms
unfolding lines_from
lines_from-written [] h = refl
lines_from-written (m ∷ ms) (f, h) =
    lines_from-append [] m (written ms) f ∙ ap (λ ns. m ∷ ns) (lines_from-written ms h)

written-append : (ms ns : List Text) → written ms ++ written ns ≡ written (ms ++ ns)
written-append [] ns = refl
written-append (m ∷ ms) ns = simp (append_assoc, written-append ms ns)

-- Messages that are submitted to a sink whose stream holds some lines are the lines that come after these,
-- one line for each message and in order, if no message and no line holds an end of a line.
pub lines_from-submit_all :
    (old ms : List Text)
    → All (Free newline) old
    → All (Free newline) ms
    → lines_from [] (submit_all (written old) ms) ≡ old ++ ms
lines_from-submit_all old ms h k =
    ap (lines_from []) (submit_all-written (written old) ms ∙ written-append old ms)
    ∙ lines_from-written (old ++ ms) (All-append (Free newline) old ms h k)
