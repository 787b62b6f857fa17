-- ===== src/Config/Tests.antt =====
-- Environments of a process.
use wrap_policy_assignment_s.Base.{◌^◌, ◌≡◌, refl, ◌⊎◌, Option, some, [], ◌∷◌, ok, err}
use wrap_policy_assignment_s.Base.Int.{ℤ, pos}
use wrap_policy_assignment_s.Base.Text.{Text, codes, cmp_text}
use wrap_policy_assignment_s.Base.Map.{Map, lookup}
use wrap_policy_assignment_s.Resolver.Ast.Validate.{mem_text}
use wrap_policy_assignment_s.Config.{
  Config, ConfigError, atoi, parse_unsigned, parse_digits, get_int, get_duration, get_string,
  validate_config, is_valid_level, is_valid_format, fold_case, trim_left, trim_right, lower,
  read_config, load, load_or_default, defaults_only, worker_config, port_out_of_range,
}
use wrap_policy_assignment_s.Config.Within.{IsWithin, load_or_default-IsWithin}

abbrev ten_seconds : Text → Option ℤ
ten_seconds s = some (pos (10 ^ 10))

abbrev staging : Map Text
staging =
    (codes "APP_ENV", codes "staging")
    ∷ (codes "HTTP_PORT", codes "+9090")
    ∷ (codes "LOG_LEVEL", codes " Debug ")
    ∷ (codes "SWEEPER_INTERVAL", codes "10s")
    ∷ []

staged :
    load ten_seconds staging
    ≡ ok (record defaults_only {
      app_env = codes "staging";
      http_port = pos 9090;
      log_level = codes " Debug ";
      sweeper_interval = pos (10 ^ 10);
    })
unfolding load read_config get_int get_duration get_string lookup cmp_text atoi parse_unsigned
    parse_digits validate_config is_valid_level is_valid_format fold_case trim_left trim_right lower
    mem_text
staged = refl

no_port :
    load ten_seconds ((codes "HTTP_PORT", codes "70000") ∷ []) ≡ err (port_out_of_range (pos 70000))
unfolding load read_config get_int get_duration get_string lookup cmp_text atoi parse_unsigned
    parse_digits validate_config is_valid_level is_valid_format fold_case trim_left trim_right lower
    mem_text
no_port = refl

-- A batch size of 2^32 is accepted, and leaves the worker without a batch.
no_batch :
    (cfg : Config) × (load ten_seconds ((codes "RECONCILER_BATCH_SIZE", codes "4294967296") ∷ [])
      ≡ ok cfg)
    × ((worker_config cfg).batch_size ≡ pos 0)
unfolding load read_config get_int get_duration get_string lookup cmp_text atoi parse_unsigned
    parse_digits validate_config is_valid_level is_valid_format fold_case trim_left trim_right lower
    mem_text
no_batch = (record defaults_only { reconciler_batch_size = pos (2 ^ 32) }, refl, refl)

load_or_default-IsWithin_example :
    IsWithin (load_or_default ten_seconds staging)
    × ((load ten_seconds staging ≡ ok (load_or_default ten_seconds staging))
        ⊎ ((e : ConfigError) × (load ten_seconds staging ≡ err e)
            × (load_or_default ten_seconds staging ≡ defaults_only)))
load_or_default-IsWithin_example = load_or_default-IsWithin ten_seconds staging
