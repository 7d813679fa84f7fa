-- ===== src/SessionPolicy/Probation.antt =====
-- Histories of a session: what a reconnect waits for, and that nobody rebuilds unattended.
use centroid_x.Common.{
  ℕ, ◌+◌, ◌-◌, ◌<◌, ◌≡◌, ◌≢◌, refl, true, false, List, [], ◌∷◌, arith, elapsed-eq-sub,
}
use centroid_x.Formats.{Formats}
use centroid_x.SessionPolicy.{
  AdapterCheck, Verdict, Decision, no_decision, Policy, timeout_reason,
  set_storm_detector_available, engine_created, on_remote_disconnect, on_remote_connect,
  on_frame_presented, on_tick,
}
use centroid_x.SessionPolicy.Phases.{
  Event, created, disconnected, framed, ticked, connected, detector, step, run,
}

abbrev pub is_rebuild : Verdict → ℕ
is_rebuild Verdict.rebuild_now = 1
is_rebuild _ = 0

abbrev pub is_something : Verdict → ℕ
is_something Verdict.nothing = 0
is_something _ = 1

abbrev pub rebuilds : List Decision → ℕ
rebuilds [] = 0
rebuilds (d ∷ decisions) = is_rebuild d.verdict + rebuilds decisions

-- How many of the decisions are worth a word.
abbrev pub decided : List Decision → ℕ
decided [] = 0
decided (d ∷ decisions) = is_something d.verdict + decided decisions

-- While the probation lasts: ticks before the deadline and the duplicates of the connect.
abbrev pub Undecided : ℕ → List Event → Type 0
Undecided deadline [] = Unit {0}
Undecided deadline (ticked now ∷ es) = (now < deadline) × Undecided deadline es
Undecided deadline (connected now AdapterCheck.unknown ∷ es) = Undecided deadline es
Undecided deadline (connected now AdapterCheck.same ∷ es) = Undecided deadline es
Undecided deadline (_ ∷ es) = ⊥

record Probing (p : Policy) : Type 0 where
  open_now : p.probation ≡ true
  detecting : p.config.storm_detector_available ≡ true
  some_time : 0 < p.config.reconnect_probation_ms

tick_early :
    (f : Formats) (p : Policy) (now : ℕ)
    → now < p.probation_since_ms + p.config.reconnect_probation_ms
    → Probing p
    → on_tick f p now ≡ (p, no_decision)
unfolding on_tick
tick_early f p now early h = ground arith

connect_duplicate :
    (p : Policy) (now : ℕ) (adapter : AdapterCheck)
    → adapter ≢ AdapterCheck.changed
    → Probing p
    → on_remote_connect p now adapter ≡ (p, record no_decision { adapter = adapter })
unfolding on_remote_connect
connect_duplicate p now adapter other h = ground arith

run-Undecided :
    (f : Formats) (p : Policy) (es : List Event)
    → Undecided (p.probation_since_ms + p.config.reconnect_probation_ms) es
    → Probing p
    → ((run f p es).0 ≡ p) × (decided (run f p es).1 ≡ 0)
unfolding run step
run-Undecided f p [] u h = (refl, refl)
run-Undecided f p (ticked now ∷ es) u h =
    ground (arith, tick_early f p now u.0 h, run-Undecided f p es u.1 h)
run-Undecided f p (connected now AdapterCheck.unknown ∷ es) u h =
    ground
      (arith, connect_duplicate p now AdapterCheck.unknown (λ e. cc) h, run-Undecided f p es u h)
run-Undecided f p (connected now AdapterCheck.same ∷ es) u h =
    ground (arith, connect_duplicate p now AdapterCheck.same (λ e. cc) h, run-Undecided f p es u h)
run-Undecided f p (connected now AdapterCheck.changed ∷ es) u h = absurd u
run-Undecided f p (created now ∷ es) u h = absurd u
run-Undecided f p (disconnected now ∷ es) u h = absurd u
run-Undecided f p (framed now ∷ es) u h = absurd u
run-Undecided f p (detector available ∷ es) u h = absurd u

probing_from : Policy → ℕ → Policy
probing_from p begin = record p { probation = true; probation_since_ms = begin }

connect_opens :
    (p : Policy) (begin : ℕ) (adapter : AdapterCheck)
    → adapter ≢ AdapterCheck.changed
    → p.config.storm_detector_available ≡ true
    → p.probation ≡ false
    → ((on_remote_connect p begin adapter).0 ≡ probing_from p begin)
      × ((on_remote_connect p begin adapter).1.verdict ≡ Verdict.probe)
unfolding on_remote_connect probing_from
connect_opens p begin adapter other detecting closed = ground arith

-- A connect on an adapter that is not known to have changed, with the storm detector installed and
-- no probation open, opens one; until its deadline, ticks and duplicate connects decide nothing;
-- then a frame keeps the renderer, or the first tick at or after the deadline rebuilds it, for the
-- reason that no frame came.
pub run-probation :
    (f : Formats) (p : Policy) (begin at : ℕ) (adapter : AdapterCheck) (es : List Event)
    → adapter ≢ AdapterCheck.changed
    → p.config.storm_detector_available ≡ true
    → p.probation ≡ false
    → 0 < p.config.reconnect_probation_ms
    → Undecided (begin + p.config.reconnect_probation_ms) es
    → let opened = on_remote_connect p begin adapter in
      let p' = (run f opened.0 es).0 in
      (opened.1.verdict ≡ Verdict.probe)
      × (decided (run f opened.0 es).1 ≡ 0)
      × ((on_frame_presented p' at).1.verdict ≡ Verdict.kept_renderer)
      × ((on_frame_presented p' at).1.waited_ms ≡ at - begin)
      × ((on_tick f p' (begin + p.config.reconnect_probation_ms + at)).1.verdict
          ≡ Verdict.rebuild_now)
      × ((on_tick f p' (begin + p.config.reconnect_probation_ms + at)).1.reason
          ≡ timeout_reason f p.config)
unfolding on_frame_presented on_tick probing_from
run-probation f p begin at adapter es other detecting closed t u =
    let (same, probes) = connect_opens p begin adapter other detecting closed in
    let (kept, quiet) =
      run-Undecided f (probing_from p begin) es u
        (record { open_now = refl; detecting = detecting; some_time = t }) in
    (
      probes,
      rw same quiet,
      rw (same, kept) refl,
      rw (same, kept) (elapsed-eq-sub at begin),
      rw (same, kept) (ground arith),
      rw (same, kept) (ground arith),
    )

abbrev pub Unattended : List Event → Type 0
Unattended [] = Unit {0}
Unattended (connected now adapter ∷ es) = ⊥
Unattended (_ ∷ es) = Unattended es

step-Unattended :
    (f : Formats) (p : Policy) (e : Event)
    → p.probation ≡ false
    → Unattended (e ∷ [])
    → ((step f p e).0.probation ≡ false) × (is_rebuild (step f p e).1.verdict ≡ 0)
unfolding step on_remote_disconnect on_frame_presented on_tick engine_created
    set_storm_detector_available
step-Unattended f p (created now) h u = ground arith
step-Unattended f p (connected now adapter) h u = absurd u
step-Unattended f p _ h u = ground arith

Unattended-head : (e : Event) (es : List Event) → Unattended (e ∷ es) → Unattended (e ∷ [])
Unattended-head (created now) es u = tt
Unattended-head (connected now adapter) es u = u
Unattended-head _ es u = tt

Unattended-tail : (e : Event) (es : List Event) → Unattended (e ∷ es) → Unattended es
Unattended-tail (created now) es u = u
Unattended-tail (connected now adapter) es u = absurd u
Unattended-tail _ es u = u

run-Unattended :
    (f : Formats) (p : Policy) (es : List Event)
    → p.probation ≡ false
    → Unattended es
    → rebuilds (run f p es).1 ≡ 0
unfolding run
run-Unattended f p [] h u = refl
run-Unattended f p (e ∷ es) h u =
    let (closed, quiet) = step-Unattended f p e h (Unattended-head e es u) in
    omega (arith, quiet, run-Unattended f (step f p e).0 es closed (Unattended-tail e es u))

-- Nobody is looking: from a remote disconnect until the next remote connect, whatever the state
-- before, whatever is presented, ticked, built or disconnected again, the policy never asks for a
-- rebuild, not even for a probation that the disconnect cut short.
pub rebuilds-disconnect :
    (f : Formats) (p : Policy) (now : ℕ) (es : List Event)
    → Unattended es
    → rebuilds (run f p (disconnected now ∷ es)).1 ≡ 0
unfolding run step on_remote_disconnect
rebuilds-disconnect f p now es u =
    ground (arith, run-Unattended f (on_remote_disconnect p now).0 es (ground arith) u)
