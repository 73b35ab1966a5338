-- ===== src/Http/Response/Tests.antt =====
-- A response on the wire, and the theorem applied there.
use gin_cpp.Base.{◌≡◌, refl, some, [], ◌∷◌, arith, codes}
use gin_cpp.Http.Response.{not_found, to_int, Response, to_buffers, stock_response}
use gin_cpp.Http.Response.Wire.{concat, read_head, read_head-to_buffers}

abbrev missing : Response
missing = record {
  status = not_found;
  headers = record { name = codes "A"; value = codes "b" } ∷ [];
  content = codes "?";
}

stock_response_test : stock_response not_found ≡ record {
  status = not_found;
  headers =
      record { name = codes "Content-Length"; value = codes "0" }
      ∷ record { name = codes "Content-Type"; value = codes "text/html" }
      ∷ [];
  content = [];
}
unfolding stock_response
stock_response_test = refl

read_head-to_buffers_example :
    read_head 2 (concat (to_buffers missing))
    ≡ some (record {
      code = to_int not_found;
      fields = record { name = codes "A"; value = codes "b" } ∷ [];
      rest = codes "?";
    })
read_head-to_buffers_example =
    read_head-to_buffers missing (((λ e. cc), (omega arith), (omega arith), (omega arith)), tt)
