-- ===== src/Utils/Logging/Tests.antt =====
-- The loggers at concrete inputs.
use gin_cpp.Base.{◌≡◌, refl, some, [], ◌∷◌, ◌++◌, arith, codes, Text}
use gin_cpp.Base.Int.{pos}
use gin_cpp.Base.Decimal.{to_string}
use gin_cpp.Utils.Renderer.{quote}
use gin_cpp.Utils.Logging.{warning, int_text, LogRecord, log, format_text, format_json, newline}
use gin_cpp.Utils.Logging.Fields.{read_fields, json_format, values, read_fields-format_json}

-- A record whose time and latency are their texts.
abbrev served : LogRecord Text Text
served = record {
  timestamp = codes "2024-01-02 03:04:05";
  remote_ip = codes "10.0.0.1";
  method = codes "GET";
  path = codes "/a";
  status_code = pos 200;
  latency = codes "0.001500";
}

format_tests :
    (format_text (λ t. t) (λ t. t) served
      ≡ codes "[2024-01-02 03:04:05] 10.0.0.1 "
        ++ quote ∷ codes "GET /a"
        ++ quote ∷ codes " 200 0.001500s")
    × (log (codes "now") warning (codes "m") ≡ codes "[now] [WARNING] m" ++ newline ∷ [])
unfolding format_text int_text log to_string
format_tests = (refl, refl)

read_fields-format_json_example :
    read_fields json_format (format_json (λ t. t) (λ t. t) served)
    ≡ some (values (λ t. t) (λ t. t) served)
read_fields-format_json_example =
    read_fields-format_json (λ t. t) (λ t. t) served (omega arith) (omega arith) (omega arith)
      (omega arith) (omega arith)
