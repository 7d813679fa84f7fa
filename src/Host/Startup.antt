-- ===== src/Host/Startup.antt =====
-- What a call of the Dart side can say of its startup.
use Prim.Native.String.{String}
use text.Mathlib.Text
use text.Mathlib.TextEquality.{eq_iff}
use centroid_x.Common.{
  ℕ, ◌≡◌, refl, ◌↔◌, ◌⊎◌, inl, inr, Bool, true, false, if◌then◌else◌, arith, Bool-cases,
}
use centroid_x.Common.Int.{ℤ, pos, negsuc}
use centroid_x.Formats.{Formats}
use centroid_x.DartLiveness
use centroid_x.Host.{World, Host, emit}
use centroid_x.Host.Engine.{update_judgeable}
use centroid_x.Host.Arguments.{Arguments, int_arg, stamp_of}
use centroid_x.Host.Channel.{
  on_main_starting, is_current, on_startup_complete, reset_liveness_log, count_liveness_log,
  on_liveness, on_call,
}

is_current_iff : (epoch : ℤ) (n : ℕ) → (is_current epoch n ≡ true) ↔ (epoch ≡ pos n)
is_current_iff (pos e) n = ground arith
is_current_iff (negsuc e) n = ((λ h. cc), (λ h. cc))

on_startup_complete_iff :
    (w : World) (epoch : ℤ) (h : Host)
    → ((on_startup_complete w epoch h).dart_startup_complete ≡ true)
      ↔ ((h.dart_startup_complete ≡ true) ⊎ (epoch ≡ pos h.engine_epoch))
unfolding on_startup_complete emit
on_startup_complete_iff w epoch h = ground (arith, is_current_iff epoch h.engine_epoch)

-- The chain of names, where the second is not the one.
chain_complete :
    (main start live : Bool) (x y z o : Host × Bool) (b : Bool)
    → start ≡ false
    → x.0.dart_startup_complete ≡ b
    → z.0.dart_startup_complete ≡ b
    → o.0.dart_startup_complete ≡ b
    → (if main then x else if start then y else if live then z else o).0.dart_startup_complete ≡ b
chain_complete true start live x y z o b e p q r = p
chain_complete false true live x y z o b e p q r = cc
chain_complete false false true x y z o b e p q r = q
chain_complete false false false x y z o b e p q r = r

module _ (f : Formats) where
  on_liveness_complete :
      (w : World) (stamp : DartLiveness.Stamp) (h : Host)
      → (on_liveness f w stamp h).dart_startup_complete ≡ h.dart_startup_complete
  unfolding on_liveness reset_liveness_log count_liveness_log emit
  on_liveness_complete w stamp h = ground arith

  other_complete :
      (w : World) (method : String) (args : Arguments) (h : Host)
      → Text.◌==◌ method "startupComplete" ≡ false
      → (on_call f w method args h).0.dart_startup_complete ≡ h.dart_startup_complete
  unfolding on_call on_main_starting update_judgeable
  other_complete w method args h e =
      chain_complete (Text.◌==◌ method "mainStarting") (Text.◌==◌ method "startupComplete")
        (Text.◌==◌ method "liveness") _
        (on_startup_complete w (int_arg args "epoch" (negsuc 0)) h, true)
        (on_liveness f w (stamp_of args) h, true) (h, false) h.dart_startup_complete e refl
        (on_liveness_complete w (stamp_of args) h) refl

  startup_completed :
      (w : World) (args : Arguments) (h : Host)
      → (on_call f w "startupComplete" args h).0
        ≡ on_startup_complete w (int_arg args "epoch" (negsuc 0)) h
  unfolding on_call
  startup_completed w args h = refl

  -- After a call of the Dart side, whatever its name and its arguments, the app's startup counts as
  -- complete exactly when it did before, or when the call is "startupComplete" and its "epoch" is an
  -- integer, the epoch of the live engine: no missing or mistyped argument, and no engine that is gone,
  -- can complete a startup.
  pub on_call_complete :
      (w : World) (method : String) (args : Arguments) (h : Host)
      → ((on_call f w method args h).0.dart_startup_complete ≡ true) ↔ (
          (h.dart_startup_complete ≡ true)
          ⊎ ((method ≡ "startupComplete") × (int_arg args "epoch" (negsuc 0) ≡ pos h.engine_epoch)))
  on_call_complete w method args h = elim (Bool-cases (Text.◌==◌ method "startupComplete")) [
    | inl e ↦ ground (
      arith,
      (eq_iff method "startupComplete").0 e,
      startup_completed w args h,
      on_startup_complete_iff w (int_arg args "epoch" (negsuc 0)) h,
    )
    | inr e ↦ ground (arith, eq_iff method "startupComplete", other_complete w method args h e)
  ]
