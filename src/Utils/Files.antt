-- ===== src/Utils/Files.antt =====
-- mycppwebfw/src/utils/file_server.cpp. The file system is the argument: `files p` is the content of the
-- file at p, or `none` if it cannot be opened.
use gin_cpp.Base.{
  ◌≡◌, inl, inr, true, false, Option, none, some, ◌∷◌, ◌++◌, arith, if◌then◌else◌, Option-cases,
  length, drop, Text, codes, starts_with, contains_text, starts_with-append,
}
use gin_cpp.Http.Request.{Request, get_path}
use gin_cpp.Http.Response.{ok, bad_request, not_found, Response}

-- The response, and the path that was opened.
pub record Served : Type 0 where
  pub response : Response
  pub opened : Option Text

-- path.rfind(prefix, 0) == 0, then path.erase(0, prefix.length())
unfoldable pub strip_prefix : Text → Text → Text
strip_prefix path prefix = if starts_with path prefix then drop (length prefix) path else path

unfoldable pub file_path : Text → Request → Text
unfolding strip_prefix
file_path base_dir req = base_dir ++ strip_prefix (get_path req) (b'/' ∷ base_dir)

unfoldable pub handle_request : (Text → Option Text) → Text → Request → Response → Served
handle_request files base_dir req res =
    if contains_text (file_path base_dir req) (codes "..")
    then record {
      response = record res { status = bad_request; content = codes "Bad Request" };
      opened = none;
    }
    else elim (files (file_path base_dir req)) [
      | none ↦ record {
        response = record res { status = not_found; content = codes "Not Found" };
        opened = some (file_path base_dir req);
      }
      | some content ↦ record {
        response = record res { status = ok; content = content };
        opened = some (file_path base_dir req);
      }
    ]

file_path-starts_with :
    (base_dir : Text) (req : Request) → starts_with (file_path base_dir req) base_dir ≡ true
unfolding file_path
file_path-starts_with base_dir req = starts_with-append base_dir _

-- A path that is opened begins with the base directory and holds no two dots in a row; and the status
-- is 200 only with the content of such a file.
pub handle_request_safe :
    (files : Text → Option Text) (base_dir : Text) (req : Request) (res : Response)
    → ((p : Text)
        → (handle_request files base_dir req res).opened ≡ some p
        → (starts_with p base_dir ≡ true) × (contains_text p (codes "..") ≡ false))
      × ((handle_request files base_dir req res).response.status ≡ ok
          → (p : Text) × ((handle_request files base_dir req res).opened ≡ some p)
            × (files p ≡ some (handle_request files base_dir req res).response.content))
unfolding handle_request
handle_request_safe files base_dir req res = (
  λ p q. ground (arith, begins),
  λ q. elim (Option-cases (files (file_path base_dir req))) [
    | inl e ↦ absurd (ground arith)
    | inr (content, e) ↦ (file_path base_dir req, ground arith, ground arith)
  ],
)
  where
    begins : starts_with (file_path base_dir req) base_dir ≡ true
    begins = file_path-starts_with base_dir req
