-- ===== src/Http/Request/Query.antt =====
-- mycppwebfw/src/http/request.cpp: the query string of a request.
use gin_cpp.Base.{
  ◌≡◌, refl, sym, ap, ◌∙◌, ◌≢◌, Option, none, some, List, [], ◌∷◌, ◌++◌, arith, All, Text, insert,
}
use gin_cpp.Http.Request.{query_step, query_loop, query_finish, parse_query}
use mathlib.Core.List.{append-nil, append_assoc}

-- A text with neither of the two separators.
abbrev pub IsPlain : Text → Type 0
IsPlain = All (λ c. (c ≢ b'=') × (c ≢ b'&'))

abbrev pub IsPlainPair : Text × Text → Type 0
IsPlainPair p = IsPlain p.0 × IsPlain p.1

-- key=value pairs joined by ampersands, at least one.
unfoldable pub print_query : Text × Text → List (Text × Text) → Text
print_query (k, v) [] = k ++ b'=' ∷ v
print_query (k, v) (p ∷ ps) = k ++ b'=' ∷ (v ++ b'&' ∷ print_query p ps)

-- The map that assigns the pairs in turn.
unfoldable pub assign_all : List (Text × Text) → List (Text × Text) → List (Text × Text)
assign_all m [] = m
assign_all m ((k, v) ∷ ps) = assign_all (insert k v m) ps

segment_run :
    (m : List (Text × Text)) (k seg s rest : Text)
    → IsPlain s
    → query_loop (record { params = m; key = k; segment = seg }) (s ++ rest)
      ≡ query_loop (record { params = m; key = k; segment = seg ++ s }) rest
unfolding query_loop
segment_run m k seg [] rest h = rw (append-nil seg) refl
segment_run m k seg (c ∷ s) rest h =
    ap (λ q. query_loop q (s ++ rest)) one
    ∙ segment_run m k (seg ++ c ∷ []) s rest h.1
    ∙ rw (append_assoc seg (c ∷ []) s) refl
  where
    one :
        query_step (record { params = m; key = k; segment = seg }) c
        ≡ record { params = m; key = k; segment = seg ++ c ∷ [] }
    one = ground arith

pairs_run :
    (m : List (Text × Text)) (old : Text) (p : Text × Text) (ps : List (Text × Text))
    → IsPlainPair p
    → All IsPlainPair ps
    → query_finish (query_loop (record { params = m; key = old; segment = [] }) (print_query p ps))
      ≡ assign_all m (p ∷ ps)
unfolding query_finish query_loop print_query assign_all
pairs_run m old (k, v) [] (hk, hv) hs =
    ap query_finish (segment_run m old [] k (b'=' ∷ v) hk)
    ∙ ap query_finish
        (ap (query_loop (record { params = m; key = k; segment = [] })) (sym (append-nil v)))
    ∙ ap query_finish (segment_run m k [] v [] hv)
pairs_run m old (k, v) (p ∷ ps) (hk, hv) hs =
    ap query_finish (segment_run m old [] k (b'=' ∷ (v ++ b'&' ∷ print_query p ps)) hk)
    ∙ ap query_finish (segment_run m k [] v (b'&' ∷ print_query p ps) hv)
    ∙ pairs_run (insert k v m) k p ps hs.0 hs.1

-- The query parser reads back every list of pairs whose keys and values hold no '=' and no '&': the
-- result is the map that assigns the pairs in their order, so the last value of a key wins.
pub parse_query-print_query :
    (p : Text × Text) (ps : List (Text × Text))
    → IsPlainPair p
    → All IsPlainPair ps
    → parse_query (print_query p ps) ≡ assign_all [] (p ∷ ps)
unfolding parse_query
parse_query-print_query p ps h hs = pairs_run [] [] p ps h hs

-- A parameter with a key, or without an equals sign.
abbrev pub Item : Type 0
Item = Option Text × Text

abbrev pub IsPlainItem : Item → Type 0
IsPlainItem (none, w) = IsPlain w
IsPlainItem (some k, v) = IsPlain k × IsPlain v

abbrev pub item_text : Item → Text
item_text (none, w) = w
item_text (some k, v) = k ++ b'=' ∷ v

-- Parameters joined by ampersands, at least one.
unfoldable pub print_items : Item → List Item → Text
print_items i [] = item_text i
print_items i (j ∷ js) = item_text i ++ b'&' ∷ print_items j js

-- The key that a parameter is stored under, where the one in front of it was stored under the given one.
abbrev pub key_of : Text → Item → Text
key_of key (none, w) = key
key_of key (some k, v) = k

-- The map that assigns the parameters in turn.
unfoldable pub assign_items : List (Text × Text) → Text → List Item → List (Text × Text)
assign_items m key [] = m
assign_items m key (i ∷ is) = assign_items (insert (key_of key i) i.1 m) (key_of key i) is

item_run :
    (m : List (Text × Text)) (key : Text) (i : Item) (rest : Text)
    → IsPlainItem i
    → query_loop (record { params = m; key = key; segment = [] }) (item_text i ++ rest)
      ≡ query_loop (record { params = m; key = key_of key i; segment = i.1 }) rest
unfolding query_loop
item_run m key (none, w) rest h = segment_run m key [] w rest h
item_run m key (some k, v) rest (hk, hv) =
    ap (query_loop (record { params = m; key = key; segment = [] }))
      (append_assoc k (b'=' ∷ v) rest)
    ∙ segment_run m key [] k (b'=' ∷ (v ++ rest)) hk
    ∙ segment_run m k [] v rest hv

items_run :
    (m : List (Text × Text)) (key : Text) (i : Item) (is : List Item)
    → IsPlainItem i
    → All IsPlainItem is
    → query_finish (query_loop (record { params = m; key = key; segment = [] }) (print_items i is))
      ≡ assign_items m key (i ∷ is)
unfolding query_finish query_loop print_items assign_items
items_run m key i [] h hs =
    ap (λ t. query_finish (query_loop (record { params = m; key = key; segment = [] }) t))
      (sym (append-nil (item_text i)))
    ∙ ap query_finish (item_run m key i [] h)
items_run m key i (j ∷ js) h hs =
    ap query_finish (item_run m key i (b'&' ∷ print_items j js) h)
    ∙ items_run (insert (key_of key i) i.1 m) (key_of key i) j js hs.0 hs.1

-- In a query of parameters joined by ampersands, whose keys and values hold neither '=' nor '&', every
-- parameter without an '=' is stored as a value under the key of the last parameter before it that has
-- one, or under the empty key if there is none, and so it overwrites that parameter's value; the others are
-- stored under their own keys, in order.
pub parse_query_stale_key :
    (i : Item) (is : List Item)
    → IsPlainItem i
    → All IsPlainItem is
    → parse_query (print_items i is) ≡ assign_items [] [] (i ∷ is)
unfolding parse_query
parse_query_stale_key i is h hs = items_run [] [] i is h hs
