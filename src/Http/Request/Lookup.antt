-- ===== src/Http/Request/Lookup.antt =====
-- mycppwebfw/src/http/request.cpp: the path of a request and its headers.
use gin_cpp.Base.{
  ℕ, suc, ◌≡◌, refl, ◌≢◌, ◌⊎◌, inl, inr, Option, none, some, List, [], ◌∷◌, ◌++◌, arith, Bool-cases,
  drop, All, Text, same, same_iff, find, Free, find-none-Free, Free-take-find, find_parts,
}
use gin_cpp.Http.Request.{
  Header, Request, path_part, get_path, find_header, value_or_empty, get_header,
}

path_part_lem :
    (uri : Text) (o : Option ℕ)
    → find uri b'?' ≡ o
    → Free b'?' (path_part uri o)
      × ((uri ≡ path_part uri o) ⊎ ((q : Text) × (uri ≡ path_part uri o ++ b'?' ∷ q)))
path_part_lem uri none e = (find-none-Free uri b'?' e, inl refl)
path_part_lem uri (some i) e =
    (Free-take-find uri b'?' i e, inr (drop (suc i) uri, find_parts uri b'?' i e))

-- The path is the target up to its first question mark: it holds none, and the target is the path,
-- or the path, a question mark and the query.
pub get_path_split :
    (req : Request)
    → Free b'?' (get_path req)
      × ((req.uri ≡ get_path req) ⊎ ((q : Text) × (req.uri ≡ get_path req ++ b'?' ∷ q)))
unfolding get_path
get_path_split req = path_part_lem req.uri (find req.uri b'?') refl

-- The headers in front of a header of the name hold no header of the name.
abbrev pub Others : Text → List Header → Type 0
Others name = All (λ h. h.name ≢ name)

find_header-first :
    (name : Text) (before : List Header) (h : Header) (after : List Header)
    → Others name before
    → h.name ≡ name
    → find_header name (before ++ h ∷ after) ≡ some h
unfolding find_header
find_header-first name [] h after o e = ground (arith, same_iff h.name name)
find_header-first name (x ∷ before) h after o e =
    ground (arith, same_iff x.name name, find_header-first name before h after o.1 e)

find_header-none : (name : Text) (hs : List Header) → Others name hs → find_header name hs ≡ none
unfolding find_header
find_header-none name [] o = refl
find_header-none name (x ∷ hs) o =
    ground (arith, same_iff x.name name, find_header-none name hs o.1)

-- A header's value is that of the first header of exactly that name.
pub get_header_first :
    (req : Request) (name : Text) (before : List Header) (h : Header) (after : List Header)
    → req.headers ≡ before ++ h ∷ after
    → Others name before
    → h.name ≡ name
    → get_header req name ≡ h.value
unfolding get_header
get_header_first req name before h after e o n =
    rw (e, find_header-first name before h after o n) refl

-- A header that is not there reads as the empty text, which an empty value reads as too.
pub get_header_missing :
    (req : Request) (name : Text) → Others name req.headers → get_header req name ≡ []
unfolding get_header
get_header_missing req name o = rw (find_header-none name req.headers o) refl

-- What `get_header` returns is the empty text or the value of one of the request's headers.
pub get_header-All {ℓ} :
    (P : Text → Type ℓ) (req : Request) (name : Text)
    → All (λ h. P h.value) req.headers
    → P []
    → P (get_header req name)
unfolding get_header
get_header-All P req name h k = go req.headers h
  where
    go : (hs : List Header) → All (λ x. P x.value) hs → P (value_or_empty (find_header name hs))
    go [] _ = k
    go (x ∷ hs) (p, ps) = elim (Bool-cases (same x.name name)) [
      | inl e ↦ rw e p
      | inr e ↦ rw e (go hs ps)
    ]
