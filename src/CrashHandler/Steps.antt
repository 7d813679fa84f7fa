-- ===== src/CrashHandler/Steps.antt =====
-- Every order in which threads fault and their handlers go on, until the process has ended. A fault may
-- also come in a handler, of the thread that reports or of another.
use centroid_x.Common.{ℕ, ◌≡◌, none}
use centroid_x.CrashHandler.{Fault, Process, start, report_and_die, advance}

pub data Step : Process → Process → Type 0 where
  faulted :
      (t : ℕ) (fault : Fault) (p : Process) → p.ended ≡ none → Step p (report_and_die t fault p)
  advanced : (t : ℕ) (p : Process) → p.ended ≡ none → Step p (advance t p)

pub data Reached : Process → Type 0 where
  here : Reached start
  next : {p q : Process} → Reached p → Step p q → Reached q
