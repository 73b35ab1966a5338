-- ===== src/Middleware/Session/Cookies.antt =====
-- What the cookie parser reads back.
use gin_cpp.Base.{
  ℕ, zero, suc, ◌+◌, ◌≤◌, ◌≡◌, refl, sym, ap, ◌∙◌, false, Option, none, some, List, [], ◌∷◌, ◌++◌,
  arith, length, drop, is_empty, length-append, All, Text, codes, Free-append, find, Free,
  find-append, take-length_append, insert,
}
use gin_cpp.Http.Request.Query.{assign_all}
use native.Mathlib.Numerals.{add-one}
use gin_cpp.Middleware.Session.{cut, trim, add_cookie, cookie_loop, parse_cookies, session_cookie}

-- A cookie that prints as one pair: no separator in it, and no white space in front of the key.
abbrev pub IsCookie : Text × Text → Type 0
IsCookie (k, v) = Free b'=' k × Free b';' k × Free b';' v × (trim k ≡ k)

-- The pairs, each ended by a semicolon.
unfoldable pub print_cookies : List (Text × Text) → Text
print_cookies [] = []
print_cookies ((k, v) ∷ ps) = (k ++ b'=' ∷ v) ++ b';' ∷ print_cookies ps

add_cookie_lem :
    (k v : Text) (m : List (Text × Text))
    → Free b'=' k
    → trim k ≡ k
    → add_cookie (k ++ b'=' ∷ v) m ≡ insert k v m
unfolding add_cookie
add_cookie_lem k v m f t =
    rw (find-append k v b'=' f)
      (rw (take-length_append k (b'=' ∷ v)) (rw t (ap (λ w. insert k w m) (drop_one k))))
  where
    drop_one : (s : Text) → drop (length s + 1) (s ++ b'=' ∷ v) ≡ v
    drop_one [] = ground arith
    drop_one (c ∷ s) = ground (arith, drop_one s)

drop_add_one : (s t : Text) (c : ℕ) → drop (length s + 1) (s ++ c ∷ t) ≡ t
drop_add_one [] t c = ground arith
drop_add_one (a ∷ s) t c = ground (arith, drop_add_one s t c)

-- One round over a pair that a semicolon ends.
round :
    (fuel : ℕ) (pair rest : Text) (m : List (Text × Text))
    → Free b';' pair
    → cookie_loop (suc fuel) (pair ++ b';' ∷ rest) m ≡ cookie_loop fuel rest (add_cookie pair m)
unfolding cookie_loop
round fuel pair rest m f = rw (find-append pair rest b';' f) (
    rw (take-length_append pair (b';' ∷ rest))
      (rw (drop_add_one pair rest b';') (rw (nonempty pair) refl)))
  where
    nonempty : (s : Text) → is_empty (s ++ b';' ∷ rest) ≡ false
    nonempty [] = refl
    nonempty (c ∷ s) = refl

loop_empty : (fuel : ℕ) (m : List (Text × Text)) → cookie_loop fuel [] m ≡ m
unfolding cookie_loop
loop_empty zero m = refl
loop_empty (suc fuel) m = refl

loop-print_cookies :
    (ps : List (Text × Text)) (fuel : ℕ) (m : List (Text × Text))
    → All IsCookie ps
    → length (print_cookies ps) ≤ fuel
    → cookie_loop fuel (print_cookies ps) m ≡ assign_all m ps
unfolding print_cookies assign_all
loop-print_cookies [] fuel m h l = loop_empty fuel m
loop-print_cookies ((k, v) ∷ ps) zero m h l =
    absurd (omega (arith, length-append (k ++ b'=' ∷ v) (b';' ∷ print_cookies ps)))
loop-print_cookies ((k, v) ∷ ps) (suc fuel) m ((fk, sk, sv, t), hs) l =
    round fuel (k ++ b'=' ∷ v) (print_cookies ps) m
      (Free-append b';' k (b'=' ∷ v) sk ((omega arith), sv))
    ∙ ap (cookie_loop fuel (print_cookies ps)) (add_cookie_lem k v m fk t)
    ∙ loop-print_cookies ps fuel (insert k v m) hs
        (omega (arith, length-append (k ++ b'=' ∷ v) (b';' ∷ print_cookies ps)))

-- The cookie parser reads back every list of pairs in which no key holds '=' or ';' or begins with
-- white space and no value holds ';': the result is the map that assigns the pairs in their order.
pub parse_cookies-print_cookies :
    (ps : List (Text × Text))
    → All IsCookie ps
    → parse_cookies (print_cookies ps) ≡ assign_all [] ps
unfolding parse_cookies
parse_cookies-print_cookies ps h = loop-print_cookies ps _ [] h (omega arith)

length-drop_le : (i : ℕ) (s : Text) → length (drop i s) ≤ length s
length-drop_le zero s = omega arith
length-drop_le (suc i) [] = omega arith
length-drop_le (suc i) (c ∷ s) = omega (arith, length-drop_le i s)

length-cut : (c : ℕ) (s : Text) (o : Option ℕ) → length (cut (c ∷ s) o).1 ≤ length s
length-cut c s none = omega arith
length-cut c s (some i) = go i
  where
    go : (j : ℕ) → length (drop (j + 1) (c ∷ s)) ≤ length s
    go j = simp add-one (length-drop_le j s)

-- The loop's fuel, the length of the header, is enough: any larger fuel gives the same cookies.
pub cookie_loop-enough :
    (fuel large : ℕ) (rest : Text) (m : List (Text × Text))
    → length rest ≤ fuel
    → fuel ≤ large
    → cookie_loop large rest m ≡ cookie_loop fuel rest m
unfolding cookie_loop
cookie_loop-enough fuel large [] m h l = loop_empty large m ∙ sym (loop_empty fuel m)
cookie_loop-enough zero large (c ∷ s) m h l = absurd (omega arith)
cookie_loop-enough (suc fuel) zero (c ∷ s) m h l = absurd (omega arith)
cookie_loop-enough (suc fuel) (suc large) (c ∷ s) m h l =
    cookie_loop-enough fuel large (cut (c ∷ s) (find (c ∷ s) b';')).1 _
      (omega (arith, length-cut c s (find (c ∷ s) b';'))) (omega arith)

-- A client that sends back the Set-Cookie text of the session middleware, as a Cookie header, is
-- given the same session: the parser finds that session id and no other cookie, if the id holds no
-- semicolon.
pub parse_cookies-session_cookie :
    (session_id : Text)
    → Free b';' session_id
    → parse_cookies (session_cookie session_id) ≡ (codes "session_id", session_id) ∷ []
unfolding parse_cookies find insert
parse_cookies-session_cookie session_id f =
    round fuel (codes "session_id=" ++ session_id) (codes " HttpOnly; Secure") [] named
    ∙ ap (cookie_loop fuel (codes " HttpOnly; Secure"))
        (add_cookie_lem (codes "session_id") session_id [] (omega arith) refl)
    ∙ refl
  where
    fuel : ℕ
    fuel = length (codes "session_id" ++ (session_id ++ codes "; HttpOnly; Secure"))

    named : Free b';' (codes "session_id=" ++ session_id)
    named = Free-append b';' (codes "session_id=") session_id (omega arith) f
