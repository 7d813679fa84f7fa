-- ===== src/GpuDiagnosis.antt =====
-- centroid-hmi/windows/runner/gpu_diagnosis.h and gpu_diagnosis.cpp: the vocabulary of a device
-- loss, the classification of removal reasons and the parsing of the configured action.
pub mod Names
pub mod Action
pub mod Duration
pub mod Words
pub mod Report
mod Tests
use centroid_x.Common.{ℕ, if◌then◌else◌, ◌==◌}

pub data LossCause : Type 0 where
  no_frames_presented context_lost platform_thread_wedged raster_failed : LossCause

pub data LossEscalation : Type 0 where
  not_escalated repeated_losses recovery_exhausted : LossEscalation

pub data LossAction : Type 0 where
  log_only exit_process restart_engine : LossAction

pub data LossHint : Type 0 where
  no_hint power_resume display_change session_change : LossHint

pub data AdapterVerdict : Type 0 where
  healthy hung removed device_reset driver_error unknown : AdapterVerdict

-- The reason codes of winerror.h, as the header spells them out.
abbrev pub dxgi_ok : ℕ
dxgi_ok = 0

abbrev pub dxgi_invalid_call : ℕ
dxgi_invalid_call = 2289696769

abbrev pub dxgi_device_removed : ℕ
dxgi_device_removed = 2289696773

abbrev pub dxgi_device_hung : ℕ
dxgi_device_hung = 2289696774

abbrev pub dxgi_device_reset : ℕ
dxgi_device_reset = 2289696775

abbrev pub dxgi_driver_internal_error : ℕ
dxgi_driver_internal_error = 2289696800

unfoldable pub classify_removed_reason : ℕ → AdapterVerdict
classify_removed_reason reason =
    if reason == dxgi_ok
    then AdapterVerdict.healthy
    else if reason == dxgi_device_hung
    then AdapterVerdict.hung
    else if reason == dxgi_device_removed
    then AdapterVerdict.removed
    else if reason == dxgi_device_reset
    then AdapterVerdict.device_reset
    else if reason == dxgi_driver_internal_error
    then AdapterVerdict.driver_error
    else if reason == dxgi_invalid_call
    then AdapterVerdict.device_reset
    else AdapterVerdict.unknown
