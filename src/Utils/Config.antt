-- ===== src/Utils/Config.antt =====
-- mycppwebfw/src/utils/config.cpp and mycppwebfw/include/mycppwebfw/utils/config.h. The environment is a function from
-- names to values; the files and the JSON library are arguments.
pub mod Env
pub mod File
mod Tests
use gin_cpp.Base.{
  ℕ, zero, suc, ◌+◌, ◌-◌, ◌*◌, ◌/◌, ◌%◌, ◌^◌, ◌≤◌, ◌<◌, ◌≡◌, refl, sym, ap, subst, ◌∙◌, ◌≢◌, ◌↔◌,
  ◌⊎◌, inl, inr, Bool, true, false, not, ◌&&◌, ◌||◌, Option, none, some, List, [], ◌∷◌, ◌++◌, map,
  arith, ltb, leb, ◌==◌, if◌then◌else◌, ltb→lt, lt→ltb, leb→le, ==_iff, ==_refl, Bool-cases,
  Option-cases, some_inj, length, get_elem?, set, take, drop, replicate, is_empty, length-append,
  length-replicate, get_elem?-some_lt, get_elem?-none_le, lt_of_get_elem?, Has, Has-cons_map,
  Has-append_left, Has-append_right, Has-append, All-Has, length-set, get_elem?-set_self,
  get_elem?-set_ne, All, All-append, Text, codes, same, same→eq, same_refl, same_iff, apart,
  drop_two_length_append, Free-append, find, starts_with, find_text, contains_text, Free, find-Free,
  find-none-Free, find-append, Free-take-find, find_parts, take-length_append, drop-length_append,
  drop-suc-length_append, starts_with-append, starts_with_parts, lookup, insert, erase,
  lookup-insert, lookup-erase,
}
use gin_cpp.Utils.Convert.{Conversion, converted, not_a_number, out_of_range, stoi, stoul}

pub data LogLevel : Type 0 where
  debug info warn error : LogLevel

-- The timeout is the 64-bit pattern of its number of seconds.
pub record ServerConfig : Type 0 where
  pub port : ℕ
  pub bind_address : Text
  pub max_connections : ℕ
  pub connection_timeout : ℕ
  pub thread_pool_size : ℕ
  pub enable_ssl : Bool
  pub log_level : LogLevel

-- What is thrown: by stoi and stoul, by the JSON library, and by the class.
pub data ConfigError : Type 0 where
  bad_number : ConfigError
  number_range : ConfigError
  bad_json : ConfigError
  runtime_error : Text → ConfigError
  invalid_argument : Text → ConfigError

-- The object as a member function leaves it, and the exception that ended the function, if any.
pub record Loaded : Type 0 where
  pub config : ServerConfig
  pub thrown : Option ConfigError

-- The constructor.
unfoldable pub create_config : ServerConfig
create_config = record {
  port = 8080;
  bind_address = codes "0.0.0.0";
  max_connections = 1024;
  connection_timeout = 60;
  thread_pool_size = 4;
  enable_ssl = false;
  log_level = info;
}

unfoldable pub level_of : Text → LogLevel
level_of s =
    if same s (codes "DEBUG")
    then debug
    else if same s (codes "WARN")
    then warn
    else if same s (codes "ERROR")
    then error
    else info

abbrev pub done : ServerConfig → Loaded
done c = record { config = c; thrown = none }

abbrev pub fail : ServerConfig → ConfigError → Loaded
fail c e = record { config = c; thrown = some e }

-- The next statement runs if nothing was thrown.
abbrev pub if_quiet : Option ConfigError → (ServerConfig → Loaded) → ServerConfig → Loaded
if_quiet none f c = f c
if_quiet (some e) f c = fail c e

infixl 5 ◌>>=◌
abbrev pub ◌>>=◌ : Loaded → (ServerConfig → Loaded) → Loaded
l >>= f = if_quiet l.thrown f l.config

-- An assignment of a converted number.
abbrev pub store_number : Conversion → (ℕ → ServerConfig) → ServerConfig → Loaded
store_number (converted n) f c = done (f n)
store_number not_a_number f c = fail c bad_number
store_number out_of_range f c = fail c number_range

-- if (const char* v = std::getenv(...)) ...
abbrev pub if_set : Option Text → (Text → Loaded) → ServerConfig → Loaded
if_set none f c = done c
if_set (some v) f c = f v

-- port_ has 16 bits.
unfoldable pub load_port : Option Text → ServerConfig → Loaded
load_port v c = if_set v (λ s. store_number (stoi s) (λ n. record c { port = n % 2 ^ 16 }) c) c

unfoldable pub load_bind_address : Option Text → ServerConfig → Loaded
load_bind_address v c = if_set v (λ s. done (record c { bind_address = s })) c

unfoldable pub load_max_connections : Option Text → ServerConfig → Loaded
load_max_connections v c =
    if_set v (λ s. store_number (stoul s) (λ n. record c { max_connections = n }) c) c

unfoldable pub load_connection_timeout : Option Text → ServerConfig → Loaded
load_connection_timeout v c =
    if_set v (λ s. store_number (stoul s) (λ n. record c { connection_timeout = n }) c) c

unfoldable pub load_thread_pool_size : Option Text → ServerConfig → Loaded
load_thread_pool_size v c =
    if_set v (λ s. store_number (stoul s) (λ n. record c { thread_pool_size = n }) c) c

unfoldable pub load_enable_ssl : Option Text → ServerConfig → Loaded
load_enable_ssl v c = if_set v (λ s. done (record c { enable_ssl = same s (codes "true") })) c

unfoldable pub load_log_level : Option Text → ServerConfig → Loaded
unfolding level_of
load_log_level v c = if_set v (λ s. done (record c { log_level = level_of s })) c

unfoldable pub load_from_env : (Text → Option Text) → ServerConfig → Loaded
unfolding load_port load_bind_address load_max_connections load_connection_timeout
    load_thread_pool_size load_enable_ssl load_log_level
load_from_env getenv c =
    load_port (getenv (codes "SERVER_PORT")) c
    >>= load_bind_address (getenv (codes "SERVER_BIND_ADDRESS"))
    >>= load_max_connections (getenv (codes "SERVER_MAX_CONNECTIONS"))
    >>= load_connection_timeout (getenv (codes "SERVER_CONNECTION_TIMEOUT"))
    >>= load_thread_pool_size (getenv (codes "SERVER_THREAD_POOL_SIZE"))
    >>= load_enable_ssl (getenv (codes "SERVER_ENABLE_SSL"))
    >>= load_log_level (getenv (codes "SERVER_LOG_LEVEL"))

-- The exception that validate throws, if any.
unfoldable pub validate : ServerConfig → Option ConfigError
validate c =
    if (c.port == 0) || ltb 65535 c.port
    then some (invalid_argument (codes "Invalid port number"))
    else if c.max_connections == 0
    then some (invalid_argument (codes "Max connections must be greater than 0"))
    else if c.thread_pool_size == 0
    then some (invalid_argument (codes "Thread pool size must be greater than 0"))
    else none

-- nlohmann::json: reading a document, and `value(key, default)` at each type that load_from_file uses;
-- `none` is an exception of the library. The numbers of a result are patterns of 16 or 64 bits.
pub record JsonLibrary : Type 1 where
  pub Json : Type 0
  pub read : Text → Option Json
  pub value_uint16 : Json → Text → ℕ → Option ℕ
  pub value_uint64 : Json → Text → ℕ → Option ℕ
  pub value_int64 : Json → Text → ℕ → Option ℕ
  pub value_string : Json → Text → Text → Option Text
  pub value_bool : Json → Text → Bool → Option Bool

-- An assignment of a value of the document.
abbrev pub store_value : {A : Type 0} → Option A → (A → ServerConfig) → ServerConfig → Loaded
store_value none f c = fail c bad_json
store_value (some v) f c = done (f v)

module _ (lib : JsonLibrary) where
  open lib use {Json, value_uint16, value_uint64, value_int64, value_string, value_bool}

  -- The assignments of load_from_file, one function for each.
  unfoldable pub json_port : Json → ServerConfig → Loaded
  json_port j c = store_value (value_uint16 j (codes "port") c.port) (λ v. record c { port = v }) c

  unfoldable pub json_bind_address : Json → ServerConfig → Loaded
  json_bind_address j c =
      store_value (value_string j (codes "bind_address") c.bind_address)
        (λ v. record c { bind_address = v }) c

  unfoldable pub json_max_connections : Json → ServerConfig → Loaded
  json_max_connections j c =
      store_value (value_uint64 j (codes "max_connections") c.max_connections)
        (λ v. record c { max_connections = v }) c

  unfoldable pub json_connection_timeout : Json → ServerConfig → Loaded
  json_connection_timeout j c =
      store_value (value_int64 j (codes "connection_timeout") c.connection_timeout)
        (λ v. record c { connection_timeout = v }) c

  unfoldable pub json_thread_pool_size : Json → ServerConfig → Loaded
  json_thread_pool_size j c =
      store_value (value_uint64 j (codes "thread_pool_size") c.thread_pool_size)
        (λ v. record c { thread_pool_size = v }) c

  unfoldable pub json_enable_ssl : Json → ServerConfig → Loaded
  json_enable_ssl j c =
      store_value (value_bool j (codes "enable_ssl") c.enable_ssl)
        (λ v. record c { enable_ssl = v }) c

  unfoldable pub json_log_level : Json → ServerConfig → Loaded
  unfolding level_of
  json_log_level j c =
      store_value (value_string j (codes "log_level") (codes "INFO"))
        (λ v. record c { log_level = level_of v }) c

  unfoldable pub load_json : Json → ServerConfig → Loaded
  unfolding json_port json_bind_address json_max_connections json_connection_timeout
      json_thread_pool_size json_enable_ssl json_log_level
  load_json j c =
      json_port j c
      >>= json_bind_address j
      >>= json_max_connections j
      >>= json_connection_timeout j
      >>= json_thread_pool_size j
      >>= json_enable_ssl j
      >>= json_log_level j

  abbrev pub load_read : Option Json → ServerConfig → Loaded
  load_read none c = fail c bad_json
  load_read (some j) c = load_json j c

  abbrev pub load_text : Text → Option Text → ServerConfig → Loaded
  load_text path none c = fail c (runtime_error (codes "Could not open config file: " ++ path))
  load_text path (some content) c = load_read (lib.read content) c

  -- `files` gives the content of a file that can be opened.
  unfoldable pub load_from_file : (Text → Option Text) → Text → ServerConfig → Loaded
  unfolding load_json
  load_from_file files path c = load_text path (files path) c
