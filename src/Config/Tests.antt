-- ===== src/Config/Tests.antt =====
-- server/internal/config: runs of the model at concrete environments.
use simple_logging.Prelude.{false, none, if◌then◌else◌}
use simple_logging.Prelude.Text.{codes, text_eq}
use simple_logging.Config.{Env, load, directory}
use simple_logging.Config.Bounds.{KeepsBounds, load-KeepsBounds}

-- A port and a low mark are set.
abbrev small_env : Env
small_env key =
    if text_eq key (codes "PORT")
    then codes "9090"
    else if text_eq key (codes "DISK_LOW_WATER_PERCENT")
    then codes "70"
    else codes ""

load-KeepsBounds_example : KeepsBounds (load (λ s. none) small_env directory false)
load-KeepsBounds_example = load-KeepsBounds (λ s. none) small_env directory false
