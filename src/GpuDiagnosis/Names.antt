-- ===== src/GpuDiagnosis/Names.antt =====
-- The names that gpu_diagnosis.cpp gives to reason codes and session changes.
use Prim.Native.String.{String, ◌++◌}
use centroid_x.Common.{
  ℕ, ◌≡◌, ◌↔◌, Option, none, some, get_elem?, List, [], ◌∷◌, length, ltb, if◌then◌else◌, ◌==◌,
  arith,
}
use centroid_x.Formats.{Formats}
use centroid_x.GpuDiagnosis.{
  AdapterVerdict, dxgi_ok, dxgi_invalid_call, dxgi_device_removed, dxgi_device_hung,
  dxgi_device_reset, dxgi_driver_internal_error, classify_removed_reason,
}

or_none : Option (Option String) → Option String
or_none none = none
or_none (some name) = name

-- The switch of DescribeRemovedReason: a null name for a code that has none.
unfoldable pub removed_reason_name : ℕ → Option String
removed_reason_name reason =
    if reason == dxgi_ok
    then some "S_OK"
    else if reason == dxgi_invalid_call
    then some "DXGI_ERROR_INVALID_CALL"
    else if reason == dxgi_device_removed
    then some "DXGI_ERROR_DEVICE_REMOVED"
    else if reason == dxgi_device_hung
    then some "DXGI_ERROR_DEVICE_HUNG"
    else if reason == dxgi_device_reset
    then some "DXGI_ERROR_DEVICE_RESET"
    else if reason == dxgi_driver_internal_error
    then some "DXGI_ERROR_DRIVER_INTERNAL_ERROR"
    else none

-- The table of DescribeSessionChange, by code: code 0 is not used.
abbrev session_names : List (Option String)
session_names =
    none
    ∷ some "WTS_CONSOLE_CONNECT"
    ∷ some "WTS_CONSOLE_DISCONNECT"
    ∷ some "WTS_REMOTE_CONNECT"
    ∷ some "WTS_REMOTE_DISCONNECT"
    ∷ some "WTS_SESSION_LOGON"
    ∷ some "WTS_SESSION_LOGOFF"
    ∷ some "WTS_SESSION_LOCK"
    ∷ some "WTS_SESSION_UNLOCK"
    ∷ some "WTS_SESSION_REMOTE_CONTROL"
    ∷ some "WTS_SESSION_CREATE"
    ∷ some "WTS_SESSION_TERMINATE"
    ∷ []

unfoldable pub session_change_name : ℕ → Option String
unfolding or_none
session_change_name code =
    if ltb code (length session_names) then or_none (get_elem? session_names code) else none

-- The two switches agree on which codes they know: a code has a name just when its verdict is not
-- the unknown one.
pub removed_reason_name-classify_removed_reason :
    (reason : ℕ)
    → (removed_reason_name reason ≡ none)
      ↔ (classify_removed_reason reason ≡ AdapterVerdict.unknown)
unfolding removed_reason_name classify_removed_reason
removed_reason_name-classify_removed_reason reason = ground arith

-- Only the code zero reads as a healthy adapter.
pub classify_removed_reason-healthy :
    (reason : ℕ) → (classify_removed_reason reason ≡ AdapterVerdict.healthy) ↔ (reason ≡ 0)
unfolding classify_removed_reason
classify_removed_reason-healthy reason = ground arith

module _ (f : Formats) where
  -- DescribeRemovedReason and DescribeSessionChange into a buffer, which in every call holds the
  -- longest of these texts.
  unfoldable pub describe_removed_reason : ℕ → String
  describe_removed_reason reason = elim (removed_reason_name reason) [
    | some name ↦ name ++ (" (0x" ++ (f.hex8 reason ++ ")"))
    | none ↦ "unrecognised reason (0x" ++ (f.hex8 reason ++ ")")
  ]

  unfoldable pub describe_session_change : ℕ → String
  describe_session_change code = elim (session_change_name code) [
    | some name ↦ name ++ (" (" ++ (f.to_string code ++ ")"))
    | none ↦ "unnamed WTS code (" ++ (f.to_string code ++ ")")
  ]
