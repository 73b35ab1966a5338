-- ===== src/Routing/Parameter.antt =====
-- mycppwebfw/include/mycppwebfw/routing/parameter_parser.h, without the conversions to float and double. The
-- regular expressions are an argument, as in Routing/Matcher.
use gin_cpp.Base.{Bool, Option, Text}
use gin_cpp.Utils.Convert.{Conversion, stoi}

-- parse<int>: the pattern of the int, or the exception of std::stoi.
unfoldable pub parse_int : Text → Conversion
unfolding stoi
parse_int s = stoi s

-- parse<std::string>
unfoldable pub parse_string : Text → Text
parse_string s = s

-- `none` is the exception of a pattern that does not compile.
unfoldable pub validate_text : (Text → Text → Option Bool) → Text → Text → Option Bool
validate_text regex_match s pattern = regex_match pattern s
