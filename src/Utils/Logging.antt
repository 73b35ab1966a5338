-- ===== src/Utils/Logging.antt =====
-- mycppwebfw/src/utils/logger.cpp, mycppwebfw/src/logging (error_logger.cpp, formatter.cpp, sinks.cpp). The time of
-- a call is an argument, the text that put_time or strftime makes of it; so is the latency, the text of
-- the double in fixed notation. A stream is the text written so far, and the mutex makes each write one step.
pub mod Fields
pub mod Lines
mod Tests
use gin_cpp.Base.{
  ℕ, zero, suc, ◌+◌, ◌-◌, ◌*◌, ◌/◌, ◌%◌, ◌^◌, ◌≤◌, ◌<◌, ◌≡◌, refl, sym, ap, subst, ◌∙◌, ◌≢◌, ◌↔◌,
  ◌⊎◌, inl, inr, Bool, true, false, not, ◌&&◌, ◌||◌, Option, none, some, List, [], ◌∷◌, ◌++◌, map,
  arith, ltb, leb, ◌==◌, if◌then◌else◌, ltb→lt, lt→ltb, leb→le, ==_iff, ==_refl, Bool-cases,
  Option-cases, some_inj, length, get_elem?, set, take, drop, replicate, is_empty, length-append,
  length-replicate, get_elem?-some_lt, get_elem?-none_le, lt_of_get_elem?, Has, Has-cons_map,
  Has-append_left, Has-append_right, Has-append, All-Has, length-set, get_elem?-set_self,
  get_elem?-set_ne, All, All-append, Text, codes, same, same→eq, same_refl, same_iff, apart,
  drop_two_length_append, Free-append, find, starts_with, find_text, contains_text, Free, find-Free,
  find-none-Free, find-append, Free-take-find, find_parts, take-length_append, drop-length_append,
  drop-suc-length_append, starts_with-append, starts_with_parts, lookup, insert, erase,
  lookup-insert, lookup-erase,
}
use gin_cpp.Base.Int.{ℤ, pos, negsuc}
use gin_cpp.Base.Decimal.{to_string}
use gin_cpp.Utils.Renderer.{quote}

pub data LogLevel : Type 0 where
  debug info warning error : LogLevel

unfoldable pub level_to_string : LogLevel → Text
level_to_string debug = codes "DEBUG"
level_to_string info = codes "INFO"
level_to_string warning = codes "WARNING"
level_to_string error = codes "ERROR"

-- std::endl
abbrev pub newline : ℕ
newline = 10

-- Logger::log: what it adds to the standard output.
unfoldable pub log : Text → LogLevel → Text → Text
unfolding level_to_string
log time level message =
    codes "["
    ++ time
    ++ codes "] ["
    ++ level_to_string level
    ++ codes "] "
    ++ message
    ++ newline ∷ []

-- Logger::log with a file and a line.
unfoldable pub log_at : Text → LogLevel → Text → Text → ℕ → Text
unfolding level_to_string
log_at time level message file line =
    codes "["
    ++ time
    ++ codes "] ["
    ++ level_to_string level
    ++ codes "] ["
    ++ file
    ++ codes ":"
    ++ to_string line
    ++ codes "] "
    ++ message
    ++ newline ∷ []

-- ErrorLogger::log, for an exception (its what()) and for a message; `file` is __FILE__.
unfoldable pub log_exception : Text → Text → Text → Text
unfolding log_at
log_exception file time what = log_at time error what file 13

unfoldable pub log_message : Text → Text → Text → Text
unfolding log_at
log_message file time message = log_at time error message file 18

-- `Time` is std::chrono::system_clock::time_point, and `Seconds` is std::chrono::duration<double>.
pub record LogRecord (Time Seconds : Type 0) : Type 0 where
  pub timestamp : Time
  pub remote_ip : Text
  pub method : Text
  pub path : Text
  pub status_code : ℤ
  pub latency : Seconds

-- An int, as a stream prints it.
unfoldable pub int_text : ℤ → Text
int_text (pos n) = to_string n
int_text (negsuc n) = b'-' ∷ to_string (n + 1)

-- "\"name\": \"" and "\", \"name\": \"".
abbrev pub key : Text → Text
key name = quote ∷ (name ++ quote ∷ codes ": ")

abbrev pub next_key : Text → Text
next_key name = quote ∷ (codes ", " ++ (key name ++ quote ∷ []))

-- What is printed for a time, to the second in the local time zone, and for a latency, with six digits behind the
-- point.
module _ {Time Seconds : Type 0} (time_text : Time → Text) (seconds_text : Seconds → Text) where
  -- TextFormatter::format
  unfoldable pub format_text : LogRecord Time Seconds → Text
  unfolding int_text
  format_text r =
      codes "["
      ++ (time_text r.timestamp
          ++ (codes "] "
              ++ (r.remote_ip
                  ++ (32 ∷ quote ∷ []
                      ++ (r.method
                          ++ (codes " "
                              ++ (r.path
                                  ++ (quote ∷ 32 ∷ []
                                      ++ (int_text r.status_code
                                          ++ (codes " "
                                              ++ (seconds_text r.latency ++ codes "s")))))))))))

  -- JsonFormatter::format
  unfoldable pub format_json : LogRecord Time Seconds → Text
  unfolding int_text
  format_json r =
      (codes "{" ++ (key (codes "timestamp") ++ quote ∷ []))
      ++ (time_text r.timestamp
          ++ (next_key (codes "remote_ip")
              ++ (r.remote_ip
                  ++ (next_key (codes "method")
                      ++ (r.method
                          ++ (next_key (codes "path")
                              ++ (r.path
                                  ++ ((quote ∷ (codes ", " ++ key (codes "status")))
                                      ++ (int_text r.status_code
                                          ++ ((codes ", " ++ key (codes "latency_s"))
                                              ++ (seconds_text r.latency ++ codes "}")))))))))))

-- ConsoleSink::submit and FileSink::submit.
unfoldable pub submit : Text → Text → Text
submit stream message = stream ++ (message ++ newline ∷ [])

-- The constructor of FileSink: the stream, or the exception where the file cannot be opened. It appends, so
-- the stream begins with what the file holds.
unfoldable pub open_file_sink : (Text → Option Text) → Text → Option Text × Option Text
open_file_sink files path = elim (files path) [
  | none ↦ (none, some (codes "Failed to open log file: " ++ path))
  | some content ↦ (some content, none)
]

-- Calls of submit, one after another.
unfoldable pub submit_all : Text → List Text → Text
unfolding submit
submit_all stream [] = stream
submit_all stream (m ∷ ms) = submit_all (submit stream m) ms
