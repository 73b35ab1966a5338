-- ===== src/Base/Texts.antt =====
-- std::string as a list of bytes: comparison, substrings and searches.
use Prim.Native.Nat.{ℕ, zero, suc, ◌+◌}
use Prim.Native.Char.{code}
use Prim.Native.String.{String}
use mathlib.Core.Path.{◌≡◌, refl, ap}
use mathlib.Core.Logic.{◌≢◌, ◌↔◌}
use mathlib.Core.Bool.{Bool, true, false, ◌&&◌}
use mathlib.Core.List.{List, [], ◌∷◌, ◌++◌}
use mathlib.Core.Option
use mathlib.Core.Option.{Option, none, some}
use native.Mathlib.Omega.{arith}
use gin_cpp.Base.Tests.{◌==◌, if◌then◌else◌}
use gin_cpp.Base.Lists.{take, drop, length}

abbrev pub Text : Type 0
Text = List ℕ

-- The bytes of an ASCII literal.
abbrev pub codes : String → Text
codes String.[] = []
codes (String.◌∷◌ c s) = code c ∷ codes s

-- std::string::operator==
unfoldable pub same : Text → Text → Bool
same [] [] = true
same [] (b ∷ bs) = false
same (a ∷ as') [] = false
same (a ∷ as') (b ∷ bs) = (a == b) && same as' bs

pub same→eq : (s t : Text) → same s t ≡ true → s ≡ t
unfolding same
same→eq [] [] h = refl
same→eq [] (b ∷ bs) h = cc
same→eq (a ∷ s) [] h = cc
same→eq (a ∷ s) (b ∷ t) h = ground (arith, same→eq s t)

pub same_refl : (s : Text) → same s s ≡ true
unfolding same
same_refl [] = refl
same_refl (a ∷ s) = ground (arith, same_refl s)

pub same_iff : (s t : Text) → (same s t ≡ true) ↔ (s ≡ t)
same_iff s t = (same→eq s t, λ e. rw e (same_refl t))

-- s.find(c): the first position of a byte.
unfoldable pub find : Text → ℕ → Option ℕ
find [] c = none
find (a ∷ s) c = if a == c then some 0 else Option.map suc (find s c)

-- s.rfind(prefix, 0) == 0
unfoldable pub starts_with : Text → Text → Bool
starts_with s [] = true
starts_with [] (p ∷ ps) = false
starts_with (a ∷ s) (p ∷ ps) = (a == p) && starts_with s ps

-- s.find(pattern): the first position of a text.
unfoldable pub find_text : Text → Text → Option ℕ
unfolding starts_with
find_text [] p = if starts_with [] p then some 0 else none
find_text (a ∷ s) p = if starts_with (a ∷ s) p then some 0 else Option.map suc (find_text s p)

abbrev pub contains_text : Text → Text → Bool
contains_text s p = elim (find_text s p) [ none ↦ false | some i ↦ true ]

-- A text in which a byte does not occur.
abbrev pub Free : ℕ → Text → Type 0
Free c [] = Unit {0}
Free c (a ∷ s) = (a ≢ c) × Free c s

pub find-Free : (s : Text) (c : ℕ) → Free c s → find s c ≡ none
unfolding find
find-Free [] c h = refl
find-Free (a ∷ s) c h = ground (arith, find-Free s c)

pub find-none-Free : (s : Text) (c : ℕ) → find s c ≡ none → Free c s
unfolding find
find-none-Free [] c h = tt
find-none-Free (a ∷ s) c h = ground (arith, find-none-Free s c)

pub find-append : (s t : Text) (c : ℕ) → Free c s → find (s ++ c ∷ t) c ≡ some (length s)
unfolding find
find-append [] t c h = ground arith
find-append (a ∷ s) t c h = ground (arith, find-append s t c)

pub Free-take-find : (s : Text) (c i : ℕ) → find s c ≡ some i → Free c (take i s)
unfolding find
Free-take-find [] c i h = cc
Free-take-find (a ∷ s) c zero h = tt
Free-take-find (a ∷ s) c (suc i) h = ground (arith, Free-take-find s c i)

-- Where a byte is found, the text is what stands before it, the byte, and the rest.
pub find_parts : (s : Text) (c i : ℕ) → find s c ≡ some i → s ≡ take i s ++ c ∷ drop (suc i) s
unfolding find
find_parts [] c i h = cc
find_parts (a ∷ s) c zero h = ground arith
find_parts (a ∷ s) c (suc i) h = ground (arith, find_parts s c i)

pub take-length_append : (s t : Text) → take (length s) (s ++ t) ≡ s
take-length_append [] t = refl
take-length_append (a ∷ s) t = ap (◌∷◌ a) (take-length_append s t)

pub drop-length_append : (s t : Text) → drop (length s) (s ++ t) ≡ t
drop-length_append [] t = refl
drop-length_append (a ∷ s) t = drop-length_append s t

pub drop-suc-length_append : (s t : Text) (c : ℕ) → drop (suc (length s)) (s ++ c ∷ t) ≡ t
drop-suc-length_append [] t c = refl
drop-suc-length_append (a ∷ s) t c = drop-suc-length_append s t c

pub starts_with-append : (p s : Text) → starts_with (p ++ s) p ≡ true
unfolding starts_with
starts_with-append [] [] = refl
starts_with-append [] (a ∷ s) = refl
starts_with-append (a ∷ p) s = ground (arith, starts_with-append p s)

pub starts_with_parts : (s p : Text) → starts_with s p ≡ true → s ≡ p ++ drop (length p) s
unfolding starts_with
starts_with_parts [] [] h = refl
starts_with_parts (a ∷ s) [] h = refl
starts_with_parts [] (b ∷ p) h = cc
starts_with_parts (a ∷ s) (b ∷ p) h = ground (arith, starts_with_parts s p)

pub apart : (s t : Text) → same s t ≡ false → s ≢ t
apart s t h e = let k = (same_iff s t).1 e in cc

pub drop_two_length_append : (s t : Text) (a b : ℕ) → drop (length s + 2) (s ++ a ∷ b ∷ t) ≡ t
drop_two_length_append [] t a b = ground arith
drop_two_length_append (c ∷ s) t a b = ground (arith, drop_two_length_append s t a b)

pub Free-append : (c : ℕ) (s t : Text) → Free c s → Free c t → Free c (s ++ t)
Free-append c [] t h k = k
Free-append c (a ∷ s) t h k = (h.0, Free-append c s t h.1 k)
