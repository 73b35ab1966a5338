-- ===== src/Utils/Config/Tests.antt =====
-- The configuration at concrete inputs.
use gin_cpp.Base.{
  ℕ, ◌≡◌, refl, ◌↔◌, true, Option, none, some, arith, if◌then◌else◌, Text, codes, same,
}
use gin_cpp.Base.Decimal.{to_string}
use gin_cpp.Utils.Convert.{stoi, stoul, converted, not_a_number, out_of_range}
use gin_cpp.Utils.Config.{
  warn, ServerConfig, invalid_argument, create_config, done, load_from_env, validate,
}
use gin_cpp.Utils.Config.Env.{env_of, load_from_env-env_of, load_from_env-port}

create_config-validate : validate create_config ≡ none
unfolding validate create_config
create_config-validate = refl

stoi_examples :
    (stoi (codes " -1x") ≡ converted 4294967295)
    × (stoi (codes "x") ≡ not_a_number)
    × (stoi (codes "2147483648") ≡ out_of_range)
    × (stoul (codes "-1") ≡ converted 18446744073709551615)
unfolding stoi stoul
stoi_examples = (refl, refl, refl, refl)

abbrev small : ServerConfig
small = record {
  port = 443;
  bind_address = codes "::1";
  max_connections = 10;
  connection_timeout = 5;
  thread_pool_size = 0;
  enable_ssl = true;
  log_level = warn;
}

load_from_env-env_of_example : load_from_env (env_of small) create_config ≡ done small
load_from_env-env_of_example = load_from_env-env_of create_config small (record {
  port_fits = omega arith;
  connections_fit = omega arith;
  timeout_fits = omega arith;
  threads_fit = omega arith;
})

-- SERVER_PORT=65616, and a variable that is not a number.
abbrev wrapping : Text → Option Text
wrapping key =
    if same key (codes "SERVER_PORT")
    then some (codes "65616")
    else if same key (codes "SERVER_MAX_CONNECTIONS")
    then some (codes "many")
    else none

load_from_env-port_example :
    ((load_from_env wrapping create_config).config.port ≡ 80)
    × ((validate (load_from_env wrapping create_config).config
          ≡ some (invalid_argument (codes "Invalid port number")))
        ↔ (◌≡◌ {A = ℕ} 80 0))
unfolding same to_string
load_from_env-port_example = load_from_env-port wrapping create_config 65616 (omega arith) at_port
  where
    at_port : wrapping (codes "SERVER_PORT") ≡ some (to_string 65616)
    at_port = refl
