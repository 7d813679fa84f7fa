-- ===== src/Host/Kept.antt =====
-- What every handler of FlutterWindow keeps: an invariant of the window's own books on its engines,
-- and the fact that a window without an engine stays without one.
use centroid_x.Common.{
  ℕ, ◌+◌, ◌≤◌, ◌<◌, ◌≡◌, refl, ◌⊎◌, ◌∙◌, sym, ap, Bool, true, false, not, if◌then◌else◌, List, [],
  ◌∷◌, arith,
}
use centroid_x.Common.Int.{ℤ, pos}
use mathlib.Core.Path.{subst}
use centroid_x.RebuildGate
use centroid_x.Host.{Reason, Effect, Host, when}

abbrev pub to_nat : Bool → ℕ
to_nat true = 1
to_nat false = 0

abbrev pub built_one : Effect → ℕ
built_one (Effect.built epoch reason) = 1
built_one _ = 0

abbrev pub torn_one : Effect → ℕ
torn_one (Effect.torn_down complete age reason) = 1
torn_one _ = 0

-- How many engines a trace built, and how many it tore down.
abbrev pub builds : List Effect → ℕ
builds [] = 0
builds (e ∷ es) = built_one e + builds es

abbrev pub teardowns : List Effect → ℕ
teardowns [] = 0
teardowns (e ∷ es) = torn_one e + teardowns es

-- A teardown for a rebuild spares a startup: it was complete, or older than the timeout.
abbrev pub Spares : Effect → Type 0
Spares (Effect.torn_down complete age (Reason.rebuilding why)) = (complete ≡ true) ⊎ (180000 ≤ age)
Spares _ = Unit {0}

abbrev pub AllSpare : List Effect → Type 0
AllSpare [] = Unit {0}
AllSpare (e ∷ es) = Spares e × AllSpare es

-- The epochs of the engines built fall strictly, from below a bound, in a trace read backwards.
abbrev pub Descending : ℕ → List Effect → Type 0
Descending bound [] = Unit {0}
Descending bound (Effect.built epoch reason ∷ es) = (epoch < bound) × Descending epoch es
Descending bound (_ ∷ es) = Descending bound es

pub Descending-le : (b c : ℕ) (es : List Effect) → b ≤ c → Descending b es → Descending c es
Descending-le b c [] h d = tt
Descending-le b c (Effect.built epoch reason ∷ es) h d = (omega arith, d.1)
Descending-le b c (Effect.torn_down complete age reason ∷ es) h d = Descending-le b c es h d
Descending-le b c (Effect.redraw ∷ es) h d = Descending-le b c es h d
Descending-le b c (Effect.show_window ∷ es) h d = Descending-le b c es h d
Descending-le b c (Effect.disarmed ∷ es) h d = Descending-le b c es h d
Descending-le b c (Effect.rebuild_due ∷ es) h d = Descending-le b c es h d
Descending-le b c (Effect.crash_restart_withdrawn ∷ es) h d = Descending-le b c es h d
Descending-le b c (Effect.raster_loss n ∷ es) h d = Descending-le b c es h d
Descending-le b c (Effect.reported e ∷ es) h d = Descending-le b c es h d
Descending-le b c (Effect.quit code ∷ es) h d = Descending-le b c es h d
Descending-le b c (Effect.exit_process code ∷ es) h d = Descending-le b c es h d

-- What the gate is told about the engine.
pub record GateAgrees (gate : RebuildGate.Gate) (complete : Bool) (started : ℕ) : Type 0 where
  pub in_flight : complete ≡ not gate.startup_in_flight
  pub since : gate.startup_started_ms ≡ started
  pub config : gate.config ≡ RebuildGate.default_config

-- The fields that the invariant reads.
pub record View : Type 0 where
  pub controller : Bool
  pub callbacks : ℕ
  pub armed : Bool
  pub gate : RebuildGate.Gate
  pub complete : Bool
  pub started : ℕ
  pub heard : ℤ
  pub epoch : ℕ
  pub trace : List Effect

abbrev pub view : Host → View
view h = record {
  controller = h.controller;
  callbacks = h.callbacks;
  armed = h.probe_armed;
  gate = h.gate;
  complete = h.dart_startup_complete;
  started = h.epoch_started_tick;
  heard = h.liveness.epoch;
  epoch = h.engine_epoch;
  trace = h.trace;
}

pub record Books (v : View) : Type 0 where
  pub pending : v.callbacks ≡ to_nat v.armed
  pub owned : v.controller ≡ false → v.armed ≡ false
  pub agrees : GateAgrees v.gate v.complete v.started
  pub listens : v.heard ≡ pos v.epoch
  pub balanced : builds v.trace ≡ teardowns v.trace + to_nat v.controller
  pub spared : AllSpare v.trace
  pub falling : Descending (v.epoch + 1) v.trace

abbrev pub IsValid : Host → Type 0
IsValid h = Books (view h)

-- No engine, and as many built as in the host before.
pub record IsIdle (h h' : Host) : Type 0 where
  pub none_left : h'.controller ≡ false
  pub none_built : builds h'.trace ≡ builds h.trace

-- The relation between the host before and after a part of a handler.
pub record Kept (h h' : Host) : Type 0 where
  pub valid : IsValid h → IsValid h'
  pub idle : h.controller ≡ false → IsIdle h h'

pub same : {h h' : Host} → view h ≡ view h' → Kept h h'
same {h} {h'} e = record {
  valid = λ v. subst Books (e) v;
  idle = λ c. record {
    none_left = ap (λ (v : View). v.controller) (sym e) ∙ c;
    none_built = ap (λ (v : View). builds v.trace) (sym e);
  };
}

pub followed : {h : Host} (h' : Host) {h'' : Host} → Kept h h' → Kept h' h'' → Kept h h''
followed h' k k' = record {
  valid = λ v. k'.valid (k.valid v);
  idle = λ e.
      let first = k.idle e in
      let second = k'.idle first.none_left in
      record { none_left = second.none_left; none_built = second.none_built ∙ first.none_built };
}

pub when-Kept :
    (b : Bool) (f : Host → Host) (h : Host) → ((k : Host) → Kept k (f k)) → Kept h (when b f h)
when-Kept true f h k = k h
when-Kept false f h k = same refl

pub if-Kept :
    (b : Bool) (h x y : Host)
    → (b ≡ true → Kept h x)
    → (b ≡ false → Kept h y)
    → Kept h (if b then x else y)
if-Kept true h x y k l = k refl
if-Kept false h x y k l = l refl
