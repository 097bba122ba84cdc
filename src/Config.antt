-- ===== src/Config.antt =====
-- server/internal/config/config.go: `Load`, which reads the configuration from environment variables.
pub mod Bounds
mod Tests
use simple_logging.Prelude.{
  ℕ, ◌+◌, ◌-◌, ◌*◌, ◌^◌, ◌≡◌, Bool, true, false, not, ◌&&◌, ◌||◌, List, [], ◌∷◌, ◌++◌, Option, none,
  some, ltb, leb, ◌==◌, if◌then◌else◌, Result, ok, err, ◌>>=◌,
}
use simple_logging.Prelude.Text.{codes, text_eq, index_byte}
use simple_logging.Prelude.Spaces.{trim_space}
use simple_logging.Prelude.Decimal.{atoi_nonneg}

-- `Config`; durations are nanoseconds.
pub record Config : Type 0 where
  pub logs_root : List ℕ
  pub port : ℕ
  pub api_url : List ℕ
  pub cors_allowed_origins : List (List ℕ)
  pub retention_days : ℕ
  pub retention_check_interval : ℕ
  pub log_level : List ℕ
  pub migrate_legacy : Bool
  pub pprof_port : ℕ
  pub metrics_enabled : Bool
  pub auth_htpasswd_file : List ℕ
  pub node_logs_root : List ℕ
  pub node_name : List ℕ
  pub disk_high_water_percent : ℕ
  pub disk_low_water_percent : ℕ

pub data CollectionMode : Type 0 where
  mode_api : CollectionMode
  mode_file_tail : CollectionMode
  mode_hybrid : CollectionMode

unfoldable pub collection_mode : Config → CollectionMode
collection_mode c =
    if text_eq c.node_logs_root []
    then mode_api
    else if text_eq c.node_name []
    then mode_file_tail
    else mode_hybrid

-- The value that an error is about.
pub data ConfigError : Type 0 where
  invalid_port : ConfigError
  invalid_retention_days : ConfigError
  invalid_retention_check_interval : ConfigError
  invalid_pprof_port : ConfigError
  invalid_metrics_enabled : ConfigError
  invalid_high_water : ConfigError
  invalid_low_water : ConfigError
  low_not_below_high : ConfigError
  cannot_create_root : ConfigError
  cannot_stat_root : ConfigError
  root_not_directory : ConfigError

-- What os.Stat says of the logs' root.
pub data RootStat : Type 0 where
  directory : RootStat
  no_directory : RootStat
  does_not_exist : RootStat
  stat_failed : RootStat

-- `mkdir` tells whether os.MkdirAll succeeds.
unfoldable pub validate : RootStat → Bool → Result ConfigError (Unit {0})
validate directory mkdir = ok tt
validate no_directory mkdir = err root_not_directory
validate does_not_exist mkdir = if mkdir then ok tt else err cannot_create_root
validate stat_failed mkdir = err cannot_stat_root

-- The environment; a variable that is not set is empty.
abbrev pub Env : Type 0
Env = List ℕ → List ℕ

unfoldable pub get_env : Env → List ℕ → List ℕ → List ℕ
get_env env key fallback = if text_eq (env key) [] then fallback else env key

-- A number from `lo` to `hi`; a value that is no int and a negative one are refused alike.
abbrev pub checked_int : ConfigError → ℕ → ℕ → Option ℕ → Result ConfigError ℕ
checked_int e lo hi none = err e
checked_int e lo hi (some n) = if ltb n lo || ltb hi n then err e else ok n

unfoldable pub int_setting : Env → List ℕ → ConfigError → ℕ → ℕ → ℕ → Result ConfigError ℕ
int_setting env key e lo hi default =
    if text_eq (env key) [] then ok default else checked_int e lo hi (atoi_nonneg (env key))

-- The largest int.
abbrev pub max_int : ℕ
max_int = 2 ^ 63 - 1

-- `strings.Split` at commas, with the bytes since the last one.
split_commas : List ℕ → List ℕ → List (List ℕ)
split_commas part [] = part ∷ []
split_commas part (c ∷ s) =
    let next = split_commas [] s in
    let longer = split_commas (part ++ (c ∷ [])) s in if c == b',' then part ∷ next else longer

origins_of : List (List ℕ) → List (List ℕ)
origins_of [] = []
origins_of (o ∷ os) =
    let rest = origins_of os in if text_eq (trim_space o) [] then rest else trim_space o ∷ rest

unfoldable pub cors_origins : List ℕ → List (List ℕ)
unfolding split_commas origins_of
cors_origins raw = origins_of (split_commas [] raw)

abbrev is_one_of : List ℕ → List (List ℕ) → Bool
is_one_of s [] = false
is_one_of s (t ∷ ts) = text_eq s t || is_one_of s ts

-- strconv.ParseBool
unfoldable pub parse_bool : List ℕ → Option Bool
parse_bool s =
    if is_one_of s
      (codes "1" ∷ codes "t" ∷ codes "T" ∷ codes "true" ∷ codes "TRUE" ∷ codes "True" ∷ [])
    then some true
    else if is_one_of s
        (codes "0" ∷ codes "f" ∷ codes "F" ∷ codes "false" ∷ codes "FALSE" ∷ codes "False" ∷ [])
    then some false
    else none

abbrev checked_bool : Option Bool → Result ConfigError Bool
checked_bool none = err invalid_metrics_enabled
checked_bool (some b) = ok b

unfoldable pub metrics_setting : List ℕ → Result ConfigError Bool
metrics_setting raw = if text_eq raw [] then ok false else checked_bool (parse_bool raw)

abbrev pub positive_duration : Option ℕ → Result ConfigError ℕ
positive_duration none = err invalid_retention_check_interval
positive_duration (some d) = if d == 0 then err invalid_retention_check_interval else ok d

-- `parse_duration` is time.ParseDuration, with 0 for a duration that is not positive.
module _ (parse_duration : List ℕ → Option ℕ) where
  unfoldable pub interval_setting : List ℕ → Result ConfigError ℕ
  interval_setting raw =
      if text_eq raw [] then ok (24 * 3600 * 10 ^ 9) else positive_duration (parse_duration raw)

  unfoldable pub load : Env → RootStat → Bool → Result ConfigError Config
  load env root mkdir = int_setting env (codes "PORT") invalid_port 1 65535 8080 >>= λ port.
      int_setting env (codes "RETENTION_DAYS") invalid_retention_days 1 max_int 30 >>= λ days.
      interval_setting (env (codes "RETENTION_CHECK_INTERVAL")) >>= λ interval.
      int_setting env (codes "PPROF_PORT") invalid_pprof_port 1 65535 0 >>= λ pprof.
      metrics_setting (env (codes "METRICS_ENABLED")) >>= λ metrics.
      int_setting env (codes "DISK_HIGH_WATER_PERCENT") invalid_high_water 1 100 90 >>= λ high.
      int_setting env (codes "DISK_LOW_WATER_PERCENT") invalid_low_water 1 100 80 >>= λ low.
      (if leb high low then err low_not_below_high else validate root mkdir) >>= λ valid.
      ok (record {
        logs_root = get_env env (codes "LOGS_ROOT") (codes "/var/pod-logs");
        port = port;
        api_url = env (codes "API_URL");
        cors_allowed_origins = cors_origins (env (codes "CORS_ALLOWED_ORIGINS"));
        retention_days = days;
        retention_check_interval = interval;
        log_level = get_env env (codes "LOG_LEVEL") (codes "info");
        migrate_legacy = not (
            text_eq (env (codes "MIGRATE_LEGACY")) (codes "false")
            || text_eq (env (codes "MIGRATE_LEGACY")) (codes "0"));
        pprof_port = pprof;
        metrics_enabled = metrics;
        auth_htpasswd_file = env (codes "AUTH_HTPASSWD_FILE");
        node_logs_root = env (codes "NODE_LOGS_ROOT");
        node_name = env (codes "NODE_NAME");
        disk_high_water_percent = high;
        disk_low_water_percent = low;
      })
