-- ===== src/RebuildGate/Trace.antt =====
-- Histories of the gate: what each request comes to.
use Prim.Native.String.{String}
use centroid_x.Common.{
  ℕ, ◌+◌, ◌-◌, ◌^◌, ◌≤◌, ◌<◌, ◌≡◌, refl, ◌⊎◌, ◌≢◌, ap, Bool, true, false, List, [], ◌∷◌, arith, ltb,
}
use centroid_x.RebuildGate.{
  Config, Verdict, Decision, no_decision, Gate, new, engine_created, startup_complete,
  startup_blocking, release, in_debounce, enqueue, request, poll,
}

pub data Event : Type 0 where
  created completed polled : ℕ → Event
  requested : String → ℕ → Event

-- The two notices decide nothing.
unfoldable pub step : Gate → Event → Gate × Decision
step g (created now) = (engine_created g now, no_decision)
step g (completed now) = (startup_complete g now, no_decision)
step g (polled now) = poll g now
step g (requested reason now) = request g reason now

unfoldable pub run : Gate → List Event → Gate × List Decision
run g [] = (g, [])
run g (e ∷ es) = let (g', d) = step g e in let (g'', decisions) = run g' es in (g'', d ∷ decisions)

abbrev pub time : Event → ℕ
time (created now) = now
time (completed now) = now
time (polled now) = now
time (requested reason now) = now

-- A startup in flight is never interrupted before its timeout, whoever asks: when a call answers
-- with a rebuild while a startup is in flight, the startup is at least as old as the timeout.
pub rebuild_now-le-time :
    (g : Gate) (e : Event)
    → (step g e).1.verdict ≡ Verdict.rebuild_now
    → g.startup_in_flight ≡ true
    → g.config.startup_timeout_ms ≤ time e - g.startup_started_ms
unfolding step request poll enqueue startup_blocking
rebuild_now-le-time g (created now) h s = cc
rebuild_now-le-time g (completed now) h s = cc
rebuild_now-le-time g (polled now) h s = ground arith
rebuild_now-le-time g (requested reason now) h s = ground arith

abbrev pub one_if : Bool → ℕ
one_if true = 1
one_if false = 0

abbrev pub is_requested : Event → Bool
is_requested (requested reason now) = true
is_requested _ = false

abbrev pub requests : List Event → ℕ
requests [] = 0
requests (e ∷ es) = one_if (is_requested e) + requests es

-- How many requests a decision disposes of: a rebuild those that it answers, a debounced request
-- itself.
abbrev pub disposed : Verdict → ℕ → ℕ
disposed Verdict.rebuild_now n = n
disposed Verdict.debounced n = 1
disposed _ n = 0

abbrev pub all_disposed : List Decision → ℕ
all_disposed [] = 0
all_disposed (d ∷ decisions) = disposed d.verdict d.coalesced + all_disposed decisions

-- The flag of the queue and its count agree.
pub record IsValid (g : Gate) : Type 0 where
  pub agrees : g.queued ≡ ltb 0 g.queued_count

record Accounted (g : Gate) (e : Event) (r : Gate × Decision) : Type 0 where
  valid : IsValid r.0
  conserved :
      disposed r.1.verdict r.1.coalesced + r.0.queued_count
      ≡ one_if (is_requested e) + g.queued_count

step-Accounted :
    (g : Gate) (e : Event)
    → IsValid g
    → one_if (is_requested e) + g.queued_count < 2 ^ 32
    → Accounted g e (step g e)
unfolding step request poll enqueue release engine_created startup_complete
step-Accounted g (created now) v h = ground arith
step-Accounted g (completed now) v h = ground arith
step-Accounted g (polled now) v h = ground arith
step-Accounted g (requested reason now) v h = ground arith

run-Accounted :
    (g : Gate) (es : List Event)
    → IsValid g
    → requests es + g.queued_count < 2 ^ 32
    → IsValid (run g es).0
      × (all_disposed (run g es).1 + (run g es).0.queued_count ≡ requests es + g.queued_count)
unfolding run
run-Accounted g [] v h = (v, refl)
run-Accounted g (e ∷ es) v h =
    let a = step-Accounted g e v (omega arith) in
    let rest = run-Accounted (step g e).0 es a.valid (omega (arith, a.conserved)) in
    (rest.0, omega (arith, a.conserved, rest.1))

-- No request is lost and none is answered twice: over any history of fewer than 2 ^ 32 requests,
-- those that a rebuild answered, those that were debounced and those still queued add up to those
-- that were made; and the queue's flag is set exactly when its count is not 0.
pub requests_conserved :
    (c : Config) (es : List Event)
    → requests es < 2 ^ 32
    → (all_disposed (run (new c) es).1 + (run (new c) es).0.queued_count ≡ requests es)
      × IsValid (run (new c) es).0
unfolding new
requests_conserved c es h =
    let a = run-Accounted (new c) es (ground arith) (omega arith) in (omega (arith, a.1), a.0)

-- A history without a notice from the engine: requests and polls, all at times at which the startup
-- in flight is younger than its timeout, and no request within the debounce of a rebuild.
abbrev pub Early : Gate → List Event → Type 0
Early g [] = Unit {0}
Early g (created now ∷ es) = ⊥
Early g (completed now ∷ es) = ⊥
Early g (polled now ∷ es) =
    (now < g.startup_started_ms + g.config.startup_timeout_ms) × Early (poll g now).0 es
Early g (requested reason now ∷ es) =
    (now < g.startup_started_ms + g.config.startup_timeout_ms)
    × (in_debounce g now ≡ false)
    × Early (request g reason now).0 es

-- The reason of the last request, or the one before them all.
abbrev pub last_reason : String → List Event → String
last_reason reason [] = reason
last_reason reason (requested newer now ∷ es) = last_reason newer es
last_reason reason (_ ∷ es) = last_reason reason es

-- What the calls of such a history leave of the gate.
record Collected (g : Gate) (n : ℕ) (reason : String) (g' : Gate) : Type 0 where
  same_config : g'.config ≡ g.config
  same_start : g'.startup_started_ms ≡ g.startup_started_ms
  in_flight : g'.startup_in_flight ≡ true
  same_last : g'.last_rebuild_ms ≡ g.last_rebuild_ms
  same_ever : g'.ever_rebuilt ≡ g.ever_rebuilt
  count : g'.queued_count ≡ n + g.queued_count
  flag : g'.queued ≡ ltb 0 (n + g.queued_count)
  named : g'.queued_reason ≡ reason

abbrev pub is_rebuild : Verdict → Bool
is_rebuild Verdict.rebuild_now = true
is_rebuild _ = false

abbrev pub rebuilds : List Decision → ℕ
rebuilds [] = 0
rebuilds (d ∷ decisions) = one_if (is_rebuild d.verdict) + rebuilds decisions

enqueue-Collected :
    (g : Gate) (reason : String) (now : ℕ)
    → now < g.startup_started_ms + g.config.startup_timeout_ms
    → 0 < g.config.startup_timeout_ms
    → in_debounce g now ≡ false
    → g.startup_in_flight ≡ true
    → g.queued_count + 1 < 2 ^ 32
    → Collected g 1 reason (request g reason now).0
      × (is_rebuild (request g reason now).1.verdict ≡ false)
unfolding request enqueue startup_blocking
enqueue-Collected g reason now early some_timeout d f h = ground arith

poll_early :
    (g : Gate) (now : ℕ)
    → now < g.startup_started_ms + g.config.startup_timeout_ms
    → 0 < g.config.startup_timeout_ms
    → g.startup_in_flight ≡ true
    → poll g now ≡ (g, no_decision)
unfolding poll startup_blocking
poll_early g now early some_timeout f = ground arith

run-Collected :
    (g : Gate) (es : List Event)
    → 0 < g.config.startup_timeout_ms
    → g.startup_in_flight ≡ true
    → Early g es
    → requests es + g.queued_count < 2 ^ 32
    → IsValid g
    → Collected g (requests es) (last_reason g.queued_reason es) (run g es).0
      × (rebuilds (run g es).1 ≡ 0)
unfolding run step
run-Collected g [] t f early h v = ground arith
run-Collected g (created now ∷ es) t f early h v = absurd early
run-Collected g (completed now ∷ es) t f early h v = absurd early
run-Collected g (polled now ∷ es) t f early h v =
    let same = poll_early g now early.0 t f in
    ground (arith, same, run-Collected g es t f (rw same at early.1) (omega arith) v)
run-Collected g (requested reason now ∷ es) t f early h v =
    let (c, quiet) = enqueue-Collected g reason now early.0 t early.1 f (omega arith) in
    let rest =
      run-Collected (request g reason now).0 es (rw c.same_config t) c.in_flight early.2
        (omega (arith, c.count)) (record { agrees = ground arith }) in
    ground (arith, rest)

-- Requests made during a startup cost one rebuild. Take a gate with a timeout above 0, an empty queue
-- and a startup in flight, and any history of polls and at least one request before the timeout, none
-- of them within the debounce, with fewer than 2^32 requests. Then nothing is rebuilt meanwhile; when the startup is reported complete the next
-- poll rebuilds once, for all the requests, under the reason of the last, and the poll after it
-- does nothing; and if completion is never reported, a poll at the timeout or later does the same.
pub run-coalesces :
    (g : Gate) (es : List Event) (done at late : ℕ)
    → 0 < g.config.startup_timeout_ms
    → g.startup_in_flight ≡ true
    → g.queued ≡ false
    → g.queued_count ≡ 0
    → Early g es
    → 0 < requests es
    → requests es < 2 ^ 32
    → g.startup_started_ms + g.config.startup_timeout_ms ≤ late
    → let g' = (run g es).0 in
      let answered = poll (startup_complete g' done) at in
      let forced = poll g' late in
      (rebuilds (run g es).1 ≡ 0)
      × (answered.1.verdict ≡ Verdict.rebuild_now)
      × (answered.1.coalesced ≡ requests es)
      × (answered.1.reason ≡ last_reason g.queued_reason es)
      × (answered.1.startup_timed_out ≡ false)
      × (poll answered.0 at ≡ (answered.0, no_decision))
      × (forced.1.verdict ≡ Verdict.rebuild_now)
      × (forced.1.coalesced ≡ requests es)
      × (forced.1.reason ≡ last_reason g.queued_reason es)
      × (forced.1.startup_timed_out ≡ true)
unfolding poll startup_complete startup_blocking release
run-coalesces g es done at late t f q n early some few d =
    let (c, none_yet) =
      run-Collected g es t f early (omega arith) (record { agrees = ground arith }) in
    let same_timeout = ap (λ (k : Config). k.startup_timeout_ms) c.same_config in
    ground (arith, c, none_yet, same_timeout)

-- After a rebuild, a request is debounced exactly within the debounce of it, by the clock, and then
-- it leaves no trace in the gate.
pub request-debounce :
    (g : Gate) (reason : String) (now : ℕ)
    → g.ever_rebuilt ≡ true
    → g.last_rebuild_ms ≤ now
    → ((now < g.last_rebuild_ms + g.config.debounce_ms)
        × ((request g reason now).1.verdict ≡ Verdict.debounced)
        × ((request g reason now).0 ≡ g))
      ⊎ ((g.last_rebuild_ms + g.config.debounce_ms ≤ now)
          × ((request g reason now).1.verdict ≢ Verdict.debounced))
unfolding request enqueue release in_debounce
request-debounce g reason now e h = ground arith
