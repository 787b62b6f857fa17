-- ===== src/Config/Within.antt =====
-- The bounds of a configuration.
use wrap_policy_assignment_s.Base.{
  ℕ, ◌*◌, ◌^◌, ◌≤◌, ◌≡◌, refl, sym, ◌∙◌, ap, subst, ◌⊎◌, inl, inr, Bool, true, false, not, ◌&&◌,
  ◌||◌, Option, [], ◌∷◌, Result-cases, Result, ok, err, ◌>>=◌, guard, arith,
}
use wrap_policy_assignment_s.Base.Int.{ℤ, pos, negsuc, int_lt}
use wrap_policy_assignment_s.Base.Text.{Text, codes, text_eq, cmp_text}
use wrap_policy_assignment_s.Base.Map.{Map}
use wrap_policy_assignment_s.Resolver.Ast.Validate.{mem_text}
use wrap_policy_assignment_s.Resolver.Resolve.Run.{>>=-eq-ok, ok-injective}
use wrap_policy_assignment_s.Config.{
  invalid_app_env, invalid_level, invalid_format, port_out_of_range, database_required, too_small,
  fold_case, trim_left, trim_right, lower, Config, ConfigError, default_database_url, millisecond,
  defaults_only, is_valid_level, is_valid_format, validate_config, read_config, load,
  load_or_default,
}

-- An integer from `low` on.
abbrev pub IsFrom : ℕ → ℤ → Type 0
IsFrom low n = (m : ℕ) × (n ≡ pos m) × (low ≤ m)

pub record IsWithin (c : Config) : Type 0 where
  pub env : mem_text c.app_env (codes "dev" ∷ codes "staging" ∷ codes "prod" ∷ []) ≡ true
  pub port : (m : ℕ) × (c.http_port ≡ pos m) × (1 ≤ m) × (m ≤ 65535)
  pub database :
      (text_eq c.app_env (codes "prod") && text_eq c.database_url default_database_url) ≡ false
  pub level : is_valid_level c.log_level ≡ true
  pub format : is_valid_format c.log_format ≡ true
  pub batch : IsFrom 1 c.reconciler_batch_size
  pub sweeper : IsFrom 1 c.sweeper_interval
  pub poll : IsFrom millisecond c.reconciler_poll
  pub scheduler : IsFrom 1 c.scheduler_interval
  pub cache : IsFrom 0 c.resolver_cache_size
  pub seed : IsFrom 1 c.seed_employees

not_less-IsFrom : (low : ℕ) (n : ℤ) → not (int_lt n (pos low)) ≡ true → IsFrom low n
not_less-IsFrom low (pos m) h = (m, refl, ground arith)
not_less-IsFrom low (negsuc m) h = absurd (ground arith)

positive-IsFrom : (n : ℤ) → int_lt (pos 0) n ≡ true → IsFrom 1 n
positive-IsFrom (pos m) h = (m, refl, ground arith)
positive-IsFrom (negsuc m) h = absurd (ground arith)

port_bounds :
    (n : ℤ)
    → not (int_lt n (pos 1) || int_lt (pos 65535) n) ≡ true
    → (m : ℕ) × (n ≡ pos m) × (1 ≤ m) × (m ≤ 65535)
port_bounds (pos m) h = (m, refl, ground arith, ground arith)
port_bounds (negsuc m) h = absurd (ground arith)

guard_inv : {E : Type 0} (b : Bool) (e : E) → guard b e ≡ ok tt → b ≡ true
guard_inv true e h = refl
guard_inv false e h = cc

guard_then :
    {E : Type 0} (b : Bool) (e : E) (next : Unit {0} → Result E (Unit {0}))
    → (guard b e >>= next) ≡ ok tt
    → (b ≡ true) × (next tt ≡ ok tt)
guard_then true e next h = (refl, h)
guard_then false e next h = cc

-- What `validate` accepts is within the bounds.
validate_config-IsWithin : (c : Config) → validate_config c ≡ ok tt → IsWithin c
unfolding validate_config
validate_config-IsWithin c h =
    let (env, h1) =
      guard_then (mem_text c.app_env (codes "dev" ∷ codes "staging" ∷ codes "prod" ∷ []))
        (invalid_app_env c.app_env) _ h in
    let (port, h2) =
      guard_then (not (int_lt c.http_port (pos 1) || int_lt (pos 65535) c.http_port))
        (port_out_of_range c.http_port) _ h1 in
    let (database, h3) =
      guard_then
        (not (text_eq c.app_env (codes "prod") && text_eq c.database_url default_database_url))
        (database_required) _ h2 in
    let (level, h4) = guard_then (is_valid_level c.log_level) (invalid_level c.log_level) _ h3 in
    let (format, h5) =
      guard_then (is_valid_format c.log_format) (invalid_format c.log_format) _ h4 in
    let (batch, h6) =
      guard_then (not (int_lt c.reconciler_batch_size (pos 1)))
        (too_small (codes "RECONCILER_BATCH_SIZE") c.reconciler_batch_size) _ h5 in
    let (sweeper, h7) =
      guard_then (int_lt (pos 0) c.sweeper_interval)
        (too_small (codes "SWEEPER_INTERVAL") c.sweeper_interval) _ h6 in
    let (poll, h8) =
      guard_then (not (int_lt c.reconciler_poll (pos millisecond)))
        (too_small (codes "RECONCILER_POLL_INTERVAL") c.reconciler_poll) _ h7 in
    let (scheduler, h9) =
      guard_then (int_lt (pos 0) c.scheduler_interval)
        (too_small (codes "SCHEDULER_INTERVAL") c.scheduler_interval) _ h8 in
    let (cache, h10) =
      guard_then (not (int_lt c.resolver_cache_size (pos 0)))
        (too_small (codes "RESOLVER_CACHE_SIZE") c.resolver_cache_size) _ h9 in
    let seed =
      guard_inv (not (int_lt c.seed_employees (pos 1)))
        (too_small (codes "SEED_EMPLOYEES") c.seed_employees) h10 in
    record {
      env = env;
      port = port_bounds c.http_port port;
      database = ground arith;
      level = level;
      format = format;
      batch = not_less-IsFrom 1 c.reconciler_batch_size batch;
      sweeper = positive-IsFrom c.sweeper_interval sweeper;
      poll = not_less-IsFrom millisecond c.reconciler_poll poll;
      scheduler = positive-IsFrom c.scheduler_interval scheduler;
      cache = not_less-IsFrom 0 c.resolver_cache_size cache;
      seed = not_less-IsFrom 1 c.seed_employees seed;
    }

defaults_only-IsWithin : IsWithin defaults_only
unfolding is_valid_level is_valid_format fold_case trim_left trim_right lower mem_text cmp_text
defaults_only-IsWithin = record {
  env = refl;
  port = (8080, refl, omega arith, omega arith);
  database = refl;
  level = refl;
  format = refl;
  batch = (500, refl, omega arith);
  sweeper = (15 * (60 * 10 ^ 9), refl, omega arith);
  poll = (5 * 10 ^ 9, refl, omega arith);
  scheduler = (60 * (60 * 10 ^ 9), refl, omega arith);
  cache = (10000, refl, omega arith);
  seed = (1000, refl, omega arith);
}

load-IsWithin :
    (parse_duration : Text → Option ℤ) (env : Map Text) (cfg : Config)
    → load parse_duration env ≡ ok cfg
    → IsWithin cfg
unfolding load
load-IsWithin parse_duration env cfg h =
    let (read, e1, h1) = >>=-eq-ok (read_config parse_duration env) _ h in
    let (u, valid, h2) = >>=-eq-ok (validate_config read) _ h1 in
    subst IsWithin (ok-injective h2) (validate_config-IsWithin read valid)

load_or_default_ok :
    (parse_duration : Text → Option ℤ) (env : Map Text) (cfg : Config)
    → load parse_duration env ≡ ok cfg
    → load_or_default parse_duration env ≡ cfg
unfolding load_or_default
load_or_default_ok parse_duration env cfg h = rw (h, load_or_default) refl

load_or_default_err :
    (parse_duration : Text → Option ℤ) (env : Map Text) (e : ConfigError)
    → load parse_duration env ≡ err e
    → load_or_default parse_duration env ≡ defaults_only
unfolding load_or_default
load_or_default_err parse_duration env e h = rw (h, load_or_default) refl

-- `LoadOrDefault` is within the bounds for every environment: it returns what `Load` does, or the
-- defaults where that is an error.
pub load_or_default-IsWithin :
    (parse_duration : Text → Option ℤ) (env : Map Text)
    → IsWithin (load_or_default parse_duration env)
      × ((load parse_duration env ≡ ok (load_or_default parse_duration env))
          ⊎ ((e : ConfigError) × (load parse_duration env ≡ err e)
              × (load_or_default parse_duration env ≡ defaults_only)))
load_or_default-IsWithin parse_duration env = elim (Result-cases (load parse_duration env)) [
  | inr (e, r) ↦
      let d = load_or_default_err parse_duration env e r in
      (subst IsWithin (sym d) defaults_only-IsWithin, inr (e, r, d))
  | inl (cfg, r) ↦
      let d = load_or_default_ok parse_duration env cfg r in
      (subst IsWithin (sym d) (load-IsWithin parse_duration env cfg r), inl (r ∙ ap ok (sym d)))
]
