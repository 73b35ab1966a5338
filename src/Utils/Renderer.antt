-- ===== src/Utils/Renderer.antt =====
-- mycppwebfw/src/utils/error_renderer.cpp
use gin_cpp.Base.{
  ℕ, ◌≡◌, refl, ◌⊎◌, inl, inr, true, false, [], ◌∷◌, ◌++◌, if◌then◌else◌, Bool-cases, Text, codes,
  contains_text,
}
use gin_cpp.Base.Decimal.{to_string}
use gin_cpp.Http.Request.{Header}
use gin_cpp.Http.Response.{StatusCode, to_int, Response}

abbrev pub quote : ℕ
quote = 34

-- The three private functions: they append a header and replace the status and the content.
unfoldable pub render_html : Response → StatusCode → Text → Response
render_html res status_code message = record {
  status = status_code;
  headers = res.headers ++ record { name = codes "Content-Type"; value = codes "text/html" } ∷ [];
  content =
      codes "<html><head><title>Error</title></head><body><h1>"
      ++ to_string (to_int status_code)
      ++ codes "</h1><p>"
      ++ message
      ++ codes "</p></body></html>";
}

unfoldable pub render_json : Response → StatusCode → Text → Response
render_json res status_code message = record {
  status = status_code;
  headers =
      res.headers ++ record { name = codes "Content-Type"; value = codes "application/json" } ∷ [];
  content =
      b'{' ∷ quote ∷ codes "status"
      ++ quote ∷ codes ": "
      ++ to_string (to_int status_code)
      ++ codes ", "
      ++ quote ∷ codes "error"
      ++ quote ∷ codes ": "
      ++ quote ∷ message
      ++ quote ∷ b'}' ∷ [];
}

unfoldable pub render_text : Response → StatusCode → Text → Response
render_text res status_code message = record {
  status = status_code;
  headers = res.headers ++ record { name = codes "Content-Type"; value = codes "text/plain" } ∷ [];
  content = to_string (to_int status_code) ++ codes " " ++ message;
}

unfoldable pub render : Response → StatusCode → Text → Text → Response
unfolding render_html render_json render_text
render res status_code message content_type =
    if contains_text content_type (codes "application/json")
    then render_json res status_code message
    else if contains_text content_type (codes "text/html")
    then render_html res status_code message
    else render_text res status_code message

-- Whatever the accept header: the status is set, the headers already there stay, and one is added.
pub render_lem :
    (res : Response) (status_code : StatusCode) (message content_type : Text)
    → ((render res status_code message content_type).status ≡ status_code)
      × ((h : Header) × ((render res status_code message content_type).headers
            ≡ res.headers ++ h ∷ [])
          × (h.name ≡ codes "Content-Type"))
unfolding render
render_lem res status_code message content_type =
    elim (Bool-cases (contains_text content_type (codes "application/json"))) [
      | inl e ↦ rw e (refl, (_, refl, refl))
      | inr e ↦ rw e (go (Bool-cases (contains_text content_type (codes "text/html"))))
    ]
  where
    go :
        (contains_text content_type (codes "text/html") ≡ true)
          ⊎ (contains_text content_type (codes "text/html") ≡ false)
        → let r =
            if contains_text content_type (codes "text/html")
            then render_html res status_code message
            else render_text res status_code message in
          (r.status ≡ status_code)
          × ((h : Header) × (r.headers ≡ res.headers ++ h ∷ []) × (h.name ≡ codes "Content-Type"))
    go (inl e) = rw e (refl, (_, refl, refl))
    go (inr e) = rw e (refl, (_, refl, refl))
