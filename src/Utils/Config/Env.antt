-- ===== src/Utils/Config/Env.antt =====
-- mycppwebfw/src/utils/config.cpp: the environment variables.
use gin_cpp.Base.{
  ℕ, ◌%◌, ◌^◌, ◌<◌, ◌≡◌, refl, ap, ◌∙◌, ◌↔◌, Bool, true, false, Option, none, some, arith,
  if◌then◌else◌, Text, codes, same,
}
use gin_cpp.Base.Decimal.{to_string}
use gin_cpp.Utils.Convert.{
  Conversion, converted, not_a_number, out_of_range, stoi, stoul, stoi-to_string, stoul-to_string,
}
use gin_cpp.Utils.Config.{
  LogLevel, debug, info, warn, error, ServerConfig, invalid_argument, Loaded, level_of, done,
  if_quiet, ◌>>=◌, store_number, load_port, load_bind_address, load_max_connections,
  load_connection_timeout, load_thread_pool_size, load_enable_ssl, load_log_level, load_from_env,
  validate,
}

-- A configuration whose numbers fit their types.
pub record IsConfig (c : ServerConfig) : Type 0 where
  pub port_fits : c.port < 2 ^ 16
  pub connections_fit : c.max_connections < 2 ^ 64
  pub timeout_fits : c.connection_timeout < 2 ^ 64
  pub threads_fit : c.thread_pool_size < 2 ^ 64

abbrev pub level_name : LogLevel → Text
level_name debug = codes "DEBUG"
level_name info = codes "INFO"
level_name warn = codes "WARN"
level_name error = codes "ERROR"

abbrev pub bool_name : Bool → Text
bool_name true = codes "true"
bool_name false = codes "false"

-- The environment that spells out a configuration.
abbrev pub env_of : ServerConfig → Text → Option Text
env_of d key =
    if same key (codes "SERVER_PORT")
    then some (to_string d.port)
    else if same key (codes "SERVER_BIND_ADDRESS")
    then some d.bind_address
    else if same key (codes "SERVER_MAX_CONNECTIONS")
    then some (to_string d.max_connections)
    else if same key (codes "SERVER_CONNECTION_TIMEOUT")
    then some (to_string d.connection_timeout)
    else if same key (codes "SERVER_THREAD_POOL_SIZE")
    then some (to_string d.thread_pool_size)
    else if same key (codes "SERVER_ENABLE_SSL")
    then some (bool_name d.enable_ssl)
    else if same key (codes "SERVER_LOG_LEVEL")
    then some (level_name d.log_level)
    else none

level_of-level_name : (l : LogLevel) → level_of (level_name l) ≡ l
unfolding level_of same
level_of-level_name debug = refl
level_of-level_name info = refl
level_of-level_name warn = refl
level_of-level_name error = refl

same-bool_name : (b : Bool) → same (bool_name b) (codes "true") ≡ b
unfolding same
same-bool_name true = refl
same-bool_name false = refl

-- Loading from the environment that spells out a configuration, whatever the object held before, gives
-- that configuration and throws nothing, if its numbers fit the types of the fields.
pub load_from_env-env_of : (c d : ServerConfig) → IsConfig d → load_from_env (env_of d) c ≡ done d
unfolding load_from_env same
load_from_env-env_of c d h =
    let p : stoi (to_string d.port) ≡ converted d.port =
      stoi-to_string d.port (omega (arith, h.port_fits)) in
    let q = stoul-to_string d.max_connections h.connections_fit in
    let r = stoul-to_string d.connection_timeout h.timeout_fits in
    let t = stoul-to_string d.thread_pool_size h.threads_fit in
    let m : d.port % 65536 ≡ d.port = omega (arith, h.port_fits) in
    rw (p, q, r, t) (rw (m, same-bool_name d.enable_ssl, level_of-level_name d.log_level) refl)

keeps_port-bind_address :
    (v : Option Text) (c : ServerConfig) → (load_bind_address v c).config.port ≡ c.port
unfolding load_bind_address
keeps_port-bind_address none c = refl
keeps_port-bind_address (some s) c = refl

keeps_port-number :
    (r : Conversion) (f : ℕ → ServerConfig) (c : ServerConfig)
    → ((n : ℕ) → (f n).port ≡ c.port)
    → (store_number r f c).config.port ≡ c.port
keeps_port-number (converted n) f c h = h n
keeps_port-number not_a_number f c h = refl
keeps_port-number out_of_range f c h = refl

keeps_port-max_connections :
    (v : Option Text) (c : ServerConfig) → (load_max_connections v c).config.port ≡ c.port
unfolding load_max_connections
keeps_port-max_connections none c = refl
keeps_port-max_connections (some s) c = keeps_port-number (stoul s) _ c (λ n. refl)

keeps_port-connection_timeout :
    (v : Option Text) (c : ServerConfig) → (load_connection_timeout v c).config.port ≡ c.port
unfolding load_connection_timeout
keeps_port-connection_timeout none c = refl
keeps_port-connection_timeout (some s) c = keeps_port-number (stoul s) _ c (λ n. refl)

keeps_port-thread_pool_size :
    (v : Option Text) (c : ServerConfig) → (load_thread_pool_size v c).config.port ≡ c.port
unfolding load_thread_pool_size
keeps_port-thread_pool_size none c = refl
keeps_port-thread_pool_size (some s) c = keeps_port-number (stoul s) _ c (λ n. refl)

keeps_port-enable_ssl :
    (v : Option Text) (c : ServerConfig) → (load_enable_ssl v c).config.port ≡ c.port
unfolding load_enable_ssl
keeps_port-enable_ssl none c = refl
keeps_port-enable_ssl (some s) c = refl

keeps_port-log_level :
    (v : Option Text) (c : ServerConfig) → (load_log_level v c).config.port ≡ c.port
unfolding load_log_level
keeps_port-log_level none c = refl
keeps_port-log_level (some s) c = refl

keeps_port-bind :
    (l : Loaded) (f : ServerConfig → Loaded)
    → ((c : ServerConfig) → (f c).config.port ≡ c.port)
    → (l >>= f).config.port ≡ l.config.port
keeps_port-bind l f h =
    elim l.thrown as (λ t. (if_quiet t f l.config).config.port ≡ l.config.port) [
      | none ↦ h l.config
      | some e ↦ refl
    ]

set_port :
    (c : ServerConfig) (n : ℕ)
    → n < 2 ^ 31
    → load_port (some (to_string n)) c ≡ done (record c { port = n % 2 ^ 16 })
unfolding load_port
set_port c n h =
    ap (λ r. store_number r (λ n. record c { port = n % 2 ^ 16 }) c) (stoi-to_string n h)

validate-port :
    (d : ServerConfig) (n : ℕ)
    → d.port ≡ n % 2 ^ 16
    → (validate d ≡ some (invalid_argument (codes "Invalid port number"))) ↔ (n % 2 ^ 16 ≡ 0)
unfolding validate
validate-port d n e = (λ v. ground arith, λ z. ground arith)

-- A number below 2^31 in SERVER_PORT is stored modulo 2^16, whatever the other variables hold, and also if
-- one of them makes the function throw; validate then rejects the port exactly when that remainder is 0,
-- so a number above 65535 is rejected only if it is a multiple of 65536.
pub load_from_env-port :
    (getenv : Text → Option Text) (c : ServerConfig) (n : ℕ)
    → n < 2 ^ 31
    → getenv (codes "SERVER_PORT") ≡ some (to_string n)
    → ((load_from_env getenv c).config.port ≡ n % 2 ^ 16)
      × ((validate (load_from_env getenv c).config
            ≡ some (invalid_argument (codes "Invalid port number")))
          ↔ (n % 2 ^ 16 ≡ 0))
unfolding load_from_env
load_from_env-port getenv c n h e =
    (port_is, validate-port (load_from_env getenv c).config n port_is)
  where
    port_is : (load_from_env getenv c).config.port ≡ n % 2 ^ 16
    port_is =
        keeps_port-bind _ _ (keeps_port-log_level (getenv (codes "SERVER_LOG_LEVEL")))
        ∙ keeps_port-bind _ _ (keeps_port-enable_ssl (getenv (codes "SERVER_ENABLE_SSL")))
        ∙ keeps_port-bind _ _
            (keeps_port-thread_pool_size (getenv (codes "SERVER_THREAD_POOL_SIZE")))
        ∙ keeps_port-bind _ _
            (keeps_port-connection_timeout (getenv (codes "SERVER_CONNECTION_TIMEOUT")))
        ∙ keeps_port-bind _ _ (keeps_port-max_connections (getenv (codes "SERVER_MAX_CONNECTIONS")))
        ∙ keeps_port-bind _ _ (keeps_port-bind_address (getenv (codes "SERVER_BIND_ADDRESS")))
        ∙ ap (λ l. l.config.port) (ap (λ v. load_port v c) e ∙ set_port c n h)
