-- ===== src/Config/Bounds.antt =====
-- The bounds that every loaded configuration keeps.
use simple_logging.Prelude.{
  ℕ, ◌*◌, ◌^◌, ◌≤◌, ◌<◌, ◌≡◌, refl, Bool, ◌||◌, List, [], Option, none, some, ltb, leb, ◌==◌,
  if◌then◌else◌, Result, ok, err, ◌>>=◌, Bool-cases, inl, inr, ◌⊎◌, arith,
}
use simple_logging.Prelude.Text.{codes, text_eq}
use simple_logging.Prelude.Decimal.{atoi_nonneg}
use simple_logging.Config.{
  Config, ConfigError, Env, RootStat, checked_int, int_setting, positive_duration, interval_setting,
  max_int, load, validate, invalid_port, invalid_retention_days, invalid_pprof_port,
  invalid_high_water, invalid_low_water, low_not_below_high, metrics_setting,
}

checked_int-bounds :
    (e : ConfigError) (lo hi : ℕ) (given : Option ℕ) {n : ℕ}
    → checked_int e lo hi given ≡ ok n
    → (lo ≤ n) × (n ≤ hi)
checked_int-bounds e lo hi none p = absurd (cc p)
checked_int-bounds e lo hi (some m) {n} p = elim (Bool-cases (ltb m lo || ltb hi m)) [
  | inl outside ↦ absurd (cc (rw outside at p))
  | inr inside ↦
      let q : ◌≡◌ {A = Result ConfigError ℕ} (ok m) (ok n) = rw inside at p in
      let r : m ≡ n = cc q in ground arith
]

-- Either the default, of a variable that is not set, or a value within the bounds.
int_setting-bounds :
    (env : Env) (key : List ℕ) (e : ConfigError) (lo hi default : ℕ) {n : ℕ}
    → int_setting env key e lo hi default ≡ ok n
    → (n ≡ default) ⊎ ((lo ≤ n) × (n ≤ hi))
unfolding int_setting
int_setting-bounds env key e lo hi default {n} p = elim (Bool-cases (text_eq (env key) [])) [
  | inl unset ↦
      let q : ◌≡◌ {A = Result ConfigError ℕ} (ok default) (ok n) = rw (int_setting, unset) at p in
      inl (cc q)
  | inr given ↦
      inr (checked_int-bounds e lo hi (atoi_nonneg (env key)) (rw (int_setting, given) at p))
]

positive_duration-bounds : (d : Option ℕ) {n : ℕ} → positive_duration d ≡ ok n → 0 < n
positive_duration-bounds none p = absurd (cc p)
positive_duration-bounds (some d) {n} p = elim (Bool-cases (d == 0)) [
  | inl zero_ ↦ absurd (cc (rw zero_ at p))
  | inr more ↦
      let q : ◌≡◌ {A = Result ConfigError ℕ} (ok d) (ok n) = rw more at p in
      let r : d ≡ n = cc q in ground arith
]

interval_setting-bounds :
    (parse_duration : List ℕ → Option ℕ) (raw : List ℕ) {n : ℕ}
    → interval_setting parse_duration raw ≡ ok n
    → 0 < n
unfolding interval_setting
interval_setting-bounds parse_duration raw {n} p = elim (Bool-cases (text_eq raw [])) [
  | inl unset ↦
      let q : ◌≡◌ {A = Result ConfigError ℕ} (ok (24 * 3600 * 10 ^ 9)) (ok n) = rw unset at p in
      let r : 24 * 3600 * 10 ^ 9 ≡ n = cc q in omega arith
  | inr given ↦ positive_duration-bounds (parse_duration raw) (rw given at p)
]

water-bounds :
    (high low : ℕ) (r : Result ConfigError (Unit {0})) {u : Unit {0}}
    → (if leb high low then err low_not_below_high else r) ≡ ok u
    → low < high
water-bounds high low r p = elim (Bool-cases (leb high low)) [
  | inl crossed ↦ absurd (cc (rw crossed at p))
  | inr apart ↦ ground arith
]

pub record IsInBounds (c : Config) : Type 0 where
  pub port : (1 ≤ c.port) × (c.port ≤ 65535)
  pub retention_days : 1 ≤ c.retention_days
  pub retention_check_interval : 0 < c.retention_check_interval
  pub pprof_port : (c.pprof_port ≡ 0) ⊎ ((1 ≤ c.pprof_port) × (c.pprof_port ≤ 65535))
  pub disk_high_water_percent : c.disk_high_water_percent ≤ 100
  pub disk_low_water_percent :
      (1 ≤ c.disk_low_water_percent) × (c.disk_low_water_percent < c.disk_high_water_percent)

-- A default within the bounds leaves only values within them.
within :
    {n : ℕ} (lo hi default : ℕ)
    → lo ≤ default
    → default ≤ hi
    → (n ≡ default) ⊎ ((lo ≤ n) × (n ≤ hi))
    → (lo ≤ n) × (n ≤ hi)
within lo hi default a b (inl e) = (omega arith, omega arith)
within lo hi default a b (inr h) = h

-- A loaded configuration is within its bounds.
abbrev pub KeepsBounds : Result ConfigError Config → Type 0
KeepsBounds (err e) = Unit
KeepsBounds (ok c) = IsInBounds c

bind-KeepsBounds {ℓ} :
    {A : Type ℓ} (m : Result ConfigError A) (f : A → Result ConfigError Config)
    → ((a : A) → m ≡ ok a → KeepsBounds (f a))
    → KeepsBounds (m >>= f)
bind-KeepsBounds (ok a) f h = h a refl
bind-KeepsBounds (err e) f h = tt

-- Whatever the environment, a configuration that Load returns has ports between 1 and 65535 or the
-- profiling port 0, at least one day of retention, a positive check interval, and water marks with
-- 1 <= low < high <= 100.
pub load-KeepsBounds :
    (parse_duration : List ℕ → Option ℕ) (env : Env) (root : RootStat) (mkdir : Bool)
    → KeepsBounds (load parse_duration env root mkdir)
unfolding load
load-KeepsBounds parse_duration env root mkdir =
    bind-KeepsBounds (int_setting env (codes "PORT") invalid_port 1 65535 8080) _ (λ port e₁.
      bind-KeepsBounds
        (int_setting env (codes "RETENTION_DAYS") invalid_retention_days 1 max_int 30) _
        (λ days e₂.
          bind-KeepsBounds
            (interval_setting parse_duration (env (codes "RETENTION_CHECK_INTERVAL"))) _
            (λ interval e₃.
              bind-KeepsBounds (int_setting env (codes "PPROF_PORT") invalid_pprof_port 1 65535 0) _
                (λ pprof e₄.
                  bind-KeepsBounds (metrics_setting (env (codes "METRICS_ENABLED"))) _
                    (λ metrics e₅.
                      bind-KeepsBounds
                        (int_setting env (codes "DISK_HIGH_WATER_PERCENT") invalid_high_water 1 100
                          90)
                        _
                        (λ high e₆.
                          bind-KeepsBounds
                            (int_setting env (codes "DISK_LOW_WATER_PERCENT") invalid_low_water 1
                              100 80)
                            _
                            (λ low e₇.
                              bind-KeepsBounds
                                (if leb high low
                                  then err low_not_below_high
                                  else validate root mkdir)
                                _
                                (λ valid e₈. record {
                                  port = within 1 65535 8080 (omega arith) (omega arith) (
                                      int_setting-bounds env (codes "PORT") invalid_port 1 65535
                                        8080 e₁);
                                  retention_days =
                                      (within 1 max_int 30 (omega arith) (omega arith) (
                                        int_setting-bounds env (codes "RETENTION_DAYS")
                                          invalid_retention_days 1 max_int 30 e₂)).0;
                                  retention_check_interval =
                                      interval_setting-bounds parse_duration
                                        (env (codes "RETENTION_CHECK_INTERVAL")) e₃;
                                  pprof_port =
                                      int_setting-bounds env (codes "PPROF_PORT") invalid_pprof_port
                                        1 65535 0 e₄;
                                  disk_high_water_percent =
                                      (within 1 100 90 (omega arith) (omega arith) (
                                        int_setting-bounds env (codes "DISK_HIGH_WATER_PERCENT")
                                          invalid_high_water 1 100 90 e₆)).1;
                                  disk_low_water_percent = (
                                    (within 1 100 80 (omega arith) (omega arith) (
                                        int_setting-bounds env (codes "DISK_LOW_WATER_PERCENT")
                                          invalid_low_water 1 100 80 e₇)).0,
                                    water-bounds high low (validate root mkdir) e₈,
                                  );
                                }))))))))
