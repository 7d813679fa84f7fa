-- ===== src/Host/Environment.antt =====
-- What FlutterWindow reads from the environment when it is constructed. `env` is `_dupenv_s`, which
-- answers with none when a variable is not set.
use centroid_x.Common.{ℕ, true, List, Option}
use centroid_x.CString.{codes}
use centroid_x.GpuWatchdog
use centroid_x.GpuWatchdog.Environment.{Strtol, parse_probe_interval_ms, parse_watchdog_enabled}
use centroid_x.GpuDiagnosis.Action.{parse_loss_action}
use centroid_x.Host.{Host, new}

module _ (strtol : Strtol) (env : List ℕ → Option (List ℕ)) where
  -- WatchdogConfigFromEnvironment.
  unfoldable pub watchdog_config : GpuWatchdog.Config
  watchdog_config =
      let config = GpuWatchdog.default_config in
      record config {
        probe_interval_ms =
            parse_probe_interval_ms strtol (env (codes "CENTROID_GPU_WATCHDOG_INTERVAL_MS"))
              config.probe_interval_ms;
        on_loss = parse_loss_action (env (codes "CENTROID_GPU_ON_LOSS")) config.on_loss;
      }

  -- The constructor. The watchdog is on unless the environment says otherwise.
  unfoldable pub constructed : Host
  constructed =
      new watchdog_config (parse_watchdog_enabled (env (codes "CENTROID_GPU_WATCHDOG")) true)
