-- ===== src/Utils/Config/File.antt =====
-- mycppwebfw/src/utils/config.cpp: what a file leaves out.
use gin_cpp.Base.{ℕ, ◌≡◌, ap, ◌∙◌, Bool, false, Option, some, List, [], ◌∷◌, All, Text, codes, same}
use gin_cpp.Utils.Config.{
  info, ServerConfig, Loaded, level_of, done, ◌>>=◌, JsonLibrary, store_value, json_port,
  json_bind_address, json_max_connections, json_connection_timeout, json_thread_pool_size,
  json_enable_ssl, json_log_level, load_json, load_read, load_text, load_from_file,
}

-- What the documentation of `value` says of an object without the key: the default is returned.
pub record IsDocumented (lib : JsonLibrary) (contains : lib.Json → Text → Bool) : Type 0 where
  pub no_uint16 :
      (j : lib.Json) (key : Text) (d : ℕ)
      → contains j key ≡ false
      → lib.value_uint16 j key d ≡ some d
  pub no_uint64 :
      (j : lib.Json) (key : Text) (d : ℕ)
      → contains j key ≡ false
      → lib.value_uint64 j key d ≡ some d
  pub no_int64 :
      (j : lib.Json) (key : Text) (d : ℕ)
      → contains j key ≡ false
      → lib.value_int64 j key d ≡ some d
  pub no_string :
      (j : lib.Json) (key d : Text) → contains j key ≡ false → lib.value_string j key d ≡ some d
  pub no_bool :
      (j : lib.Json) (key : Text) (d : Bool)
      → contains j key ≡ false
      → lib.value_bool j key d ≡ some d

abbrev pub keys : List Text
keys =
    codes "port"
    ∷ codes "bind_address"
    ∷ codes "max_connections"
    ∷ codes "connection_timeout"
    ∷ codes "thread_pool_size"
    ∷ codes "enable_ssl"
    ∷ codes "log_level"
    ∷ []

-- The next statement, once this one is known.
then_step :
    (l : Loaded) (f : ServerConfig → Loaded) (c : ServerConfig) → l ≡ done c → (l >>= f) ≡ f c
then_step l f c e = ap (λ x. x >>= f) e

module _ (lib : JsonLibrary) (contains : lib.Json → Text → Bool)
    (doc : IsDocumented lib contains) where
  no-json_port :
      (j : lib.Json) (c : ServerConfig)
      → contains j (codes "port") ≡ false
      → json_port lib j c ≡ done c
  unfolding json_port
  no-json_port j c e =
      ap (λ o. store_value o (λ v. record c { port = v }) c)
        (doc.no_uint16 j (codes "port") c.port e)

  no-json_bind_address :
      (j : lib.Json) (c : ServerConfig)
      → contains j (codes "bind_address") ≡ false
      → json_bind_address lib j c ≡ done c
  unfolding json_bind_address
  no-json_bind_address j c e =
      ap (λ o. store_value o (λ v. record c { bind_address = v }) c)
        (doc.no_string j (codes "bind_address") c.bind_address e)

  no-json_max_connections :
      (j : lib.Json) (c : ServerConfig)
      → contains j (codes "max_connections") ≡ false
      → json_max_connections lib j c ≡ done c
  unfolding json_max_connections
  no-json_max_connections j c e =
      ap (λ o. store_value o (λ v. record c { max_connections = v }) c)
        (doc.no_uint64 j (codes "max_connections") c.max_connections e)

  no-json_connection_timeout :
      (j : lib.Json) (c : ServerConfig)
      → contains j (codes "connection_timeout") ≡ false
      → json_connection_timeout lib j c ≡ done c
  unfolding json_connection_timeout
  no-json_connection_timeout j c e =
      ap (λ o. store_value o (λ v. record c { connection_timeout = v }) c)
        (doc.no_int64 j (codes "connection_timeout") c.connection_timeout e)

  no-json_thread_pool_size :
      (j : lib.Json) (c : ServerConfig)
      → contains j (codes "thread_pool_size") ≡ false
      → json_thread_pool_size lib j c ≡ done c
  unfolding json_thread_pool_size
  no-json_thread_pool_size j c e =
      ap (λ o. store_value o (λ v. record c { thread_pool_size = v }) c)
        (doc.no_uint64 j (codes "thread_pool_size") c.thread_pool_size e)

  no-json_enable_ssl :
      (j : lib.Json) (c : ServerConfig)
      → contains j (codes "enable_ssl") ≡ false
      → json_enable_ssl lib j c ≡ done c
  unfolding json_enable_ssl
  no-json_enable_ssl j c e =
      ap (λ o. store_value o (λ v. record c { enable_ssl = v }) c)
        (doc.no_bool j (codes "enable_ssl") c.enable_ssl e)

  no-json_log_level :
      (j : lib.Json) (c : ServerConfig)
      → contains j (codes "log_level") ≡ false
      → json_log_level lib j c ≡ done (record c { log_level = info })
  unfolding json_log_level level_of same
  no-json_log_level j c e =
      ap (λ o. store_value o (λ v. record c { log_level = level_of v }) c)
        (doc.no_string j (codes "log_level") (codes "INFO") e)

  load_json-defaults :
      (j : lib.Json) (c : ServerConfig)
      → All (λ key. contains j key ≡ false) keys
      → load_json lib j c ≡ done (record c { log_level = info })
  unfolding load_json
  load_json-defaults j c (p, (a, (m, (t, (n, (s, (l, u))))))) =
      let l1 = json_port lib j c in
      let l2 = l1 >>= json_bind_address lib j in
      let l3 = l2 >>= json_max_connections lib j in
      let l4 = l3 >>= json_connection_timeout lib j in
      let l5 = l4 >>= json_thread_pool_size lib j in
      let l6 = l5 >>= json_enable_ssl lib j in
      let e2 =
        then_step l1 (json_bind_address lib j) c (no-json_port j c p)
        ∙ no-json_bind_address j c a in
      let e3 = then_step l2 (json_max_connections lib j) c e2 ∙ no-json_max_connections j c m in
      let e4 =
        then_step l3 (json_connection_timeout lib j) c e3 ∙ no-json_connection_timeout j c t in
      let e5 = then_step l4 (json_thread_pool_size lib j) c e4 ∙ no-json_thread_pool_size j c n in
      let e6 = then_step l5 (json_enable_ssl lib j) c e5 ∙ no-json_enable_ssl j c s in
      then_step l6 (json_log_level lib j) c e6 ∙ no-json_log_level j c l

  -- If the JSON library returns the default for a key that is not there: a file whose document has none
  -- of the keys changes nothing but the log level, which becomes INFO whatever it was before.
  pub load_from_file-defaults :
      (files : Text → Option Text) (path content : Text) (j : lib.Json) (c : ServerConfig)
      → files path ≡ some content
      → lib.read content ≡ some j
      → All (λ key. contains j key ≡ false) keys
      → load_from_file lib files path c ≡ done (record c { log_level = info })
  unfolding load_from_file
  load_from_file-defaults files path content j c f r a =
      ap (λ o. load_text lib path o c) f ∙ ap (λ o. load_read lib o c) r ∙ load_json-defaults j c a
