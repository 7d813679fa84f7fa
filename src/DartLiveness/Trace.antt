-- ===== src/DartLiveness/Trace.antt =====
-- Histories of one engine generation: stamps and evaluations, and what is said of them.
use centroid_x.Common.{
  ℕ, ◌≡◌, refl, ap, ◌∙◌, Bool, true, List, [], ◌∷◌, arith, Bool-cases, inl, inr, if◌then◌else◌,
}
use centroid_x.Common.Int.{ℤ}
use centroid_x.DartLiveness.{
  Stamp, Verdict, Decision, Liveness, is_stale, on_stamp, evaluate, judge_raster, accept, snapshot,
}

pub data Event : Type 0 where
  stamped : Stamp → ℕ → Event
  evaluated : ℕ → Event

unfoldable pub step : Liveness → Event → Liveness × Decision
step l (stamped stamp now) = on_stamp l stamp now
step l (evaluated now) = evaluate l now

unfoldable pub run : Liveness → List Event → Liveness × List Decision
run l [] = (l, [])
run l (e ∷ es) = let (l', d) = step l e in let (l'', decisions) = run l' es in (l'', d ∷ decisions)

-- The history without the stamps of other generations.
abbrev pub without_stale : ℤ → List Event → List Event
without_stale epoch [] = []
without_stale epoch (stamped stamp now ∷ es) =
    let rest = without_stale epoch es in
    if is_stale stamp.epoch epoch then rest else stamped stamp now ∷ rest
without_stale epoch (evaluated now ∷ es) = evaluated now ∷ without_stale epoch es

-- One decision as the log has it: nothing, or the verdict with the two raster flags.
abbrev pub said : Decision → List (Verdict × Bool × Bool) → List (Verdict × Bool × Bool)
said d rest = elim d.verdict [
  | Verdict.nothing_to_say ↦
      if d.raster_lost
      then (d.verdict, d.raster_lost, d.raster_recovered) ∷ rest
      else if d.raster_recovered
      then (d.verdict, d.raster_lost, d.raster_recovered) ∷ rest
      else rest
  | _ ↦ (d.verdict, d.raster_lost, d.raster_recovered) ∷ rest
]

abbrev pub all_said : List Decision → List (Verdict × Bool × Bool)
all_said [] = []
all_said (d ∷ decisions) = said d (all_said decisions)

epoch-on_stamp : (l : Liveness) (stamp : Stamp) (now : ℕ) → (on_stamp l stamp now).0.epoch ≡ l.epoch
unfolding on_stamp judge_raster accept
epoch-on_stamp l stamp now = ground arith

epoch-evaluate : (l : Liveness) (now : ℕ) → (evaluate l now).0.epoch ≡ l.epoch
unfolding evaluate
epoch-evaluate l now = ground arith

on_stamp_stale :
    (l : Liveness) (stamp : Stamp) (now : ℕ)
    → is_stale stamp.epoch l.epoch ≡ true
    → ((on_stamp l stamp now).0 ≡ l)
      × ((rest : List (Verdict × Bool × Bool)) → said (on_stamp l stamp now).1 rest ≡ rest)
unfolding on_stamp snapshot
on_stamp_stale l stamp now h = (ground arith, λ rest. ground arith)

run-without_stale_of :
    (epoch : ℤ) (l : Liveness) (es : List Event)
    → l.epoch ≡ epoch
    → ((run l es).0 ≡ (run l (without_stale epoch es)).0)
      × (all_said (run l es).1 ≡ all_said (run l (without_stale epoch es)).1)
unfolding run step
run-without_stale_of epoch l [] e = (refl, refl)
run-without_stale_of epoch l (evaluated now ∷ es) e =
    let (same, says) =
      run-without_stale_of epoch (evaluate l now).0 es (epoch-evaluate l now ∙ e) in
    (same, ap (said (evaluate l now).1) says)
run-without_stale_of epoch l (stamped stamp now ∷ es) e =
    elim (Bool-cases (is_stale stamp.epoch epoch)) [
      | inl stale ↦
          let (same, silent) = on_stamp_stale l stamp now (rw e stale) in
          let (same', says) = run-without_stale_of epoch l es e in
          rw (stale, same) (same', silent _ ∙ says)
      | inr live ↦
          let (same, says) =
            run-without_stale_of epoch (on_stamp l stamp now).0 es
              (epoch-on_stamp l stamp now ∙ e) in
          rw live (same, ap (said (on_stamp l stamp now).1) says)
    ]

-- A stamp from another generation proves nothing about the live one: with every such stamp left out
-- of a history, the detector ends in the same state and says the same, in the same order.
pub run-without_stale :
    (l : Liveness) (es : List Event)
    → ((run l es).0 ≡ (run l (without_stale l.epoch es)).0)
      × (all_said (run l es).1 ≡ all_said (run l (without_stale l.epoch es)).1)
run-without_stale l es = run-without_stale_of l.epoch l es refl
