-- ===== src/CrashHandler/Ends.antt =====
-- How the process ends: with the whole report when one thread faults, and with less when another
-- thread faults meanwhile.
use Prim.Native.String.{String}
use centroid_x.Common.{
  ℕ, zero, suc, ◌≤◌, take, ◌≡◌, ◌≢◌, refl, ◌∙◌, ◌⊎◌, inl, inr, true, [], ◌∷◌, none, some, ◌==◌,
  Bool-cases, arith,
}
use centroid_x.CrashHandler.{
  Fault, cpp_throw, structured, terminated, signal, invalid_parameter, pure_call, kind_of,
  exit_code_of, record_line, event_log, stack_trace, minidump, parts, Process, start,
  report_and_die, advance,
}

-- The statements of one thread, a number of them.
unfoldable pub advances : ℕ → ℕ → Process → Process
unfolding advance
advances t zero p = p
advances t (suc n) p = advances t n (advance t p)

-- The four parts of one report, and the end of the process with one code.
abbrev Whole : String → ℕ → Process → Type 0
Whole kind code p =
    (p.written ≡ record_line kind ∷ event_log kind ∷ stack_trace kind ∷ minidump kind ∷ [])
    × (p.ended ≡ some code)

-- The report and the exit code of each fault.
abbrev pub Ends : Fault → Process → Type 0
Ends cpp_throw p = Whole "unhandled C++ exception" 1 p
Ends structured p = Whole "structured exception" 1 p
Ends terminated p = Whole "std::terminate" 3 p
Ends (signal number) p =
    ((number ≡ 22) × Whole "abort()" 3 p) ⊎ ((number ≢ 22) × Whole "signal" 3 p)
Ends invalid_parameter p = Whole "CRT invalid parameter" 3 p
Ends pure_call p = Whole "pure virtual call" 3 p

-- A thread that faults alone writes the record, the event log, the stack trace and the minidump, in that
-- order and each of the kind of its fault, and only then ends the process: after six statements and not
-- after five, with 1 for an exception that reached the filter and 3 for every other fault. SIGABRT is
-- reported as abort(), and every other signal as one.
pub alone-Ends :
    (t : ℕ) (fault : Fault)
    → Ends fault (advances t 6 (report_and_die t fault start))
      × ((advances t 5 (report_and_die t fault start)).ended ≡ none)
unfolding advances advance report_and_die kind_of exit_code_of
alone-Ends t cpp_throw = ground arith
alone-Ends t structured = ground arith
alone-Ends t terminated = ground arith
alone-Ends t (signal number) = elim (Bool-cases (number == 22)) [
  | inl e ↦ (inl (ground arith), ground arith)
  | inr e ↦ (inr (ground arith), ground arith)
]
alone-Ends t invalid_parameter = ground arith
alone-Ends t pure_call = ground arith

-- A second fault, on any thread, while the report of the first has n of its parts.
abbrev pub overtaken : ℕ → ℕ → Fault → Fault → ℕ → Process
overtaken t u fault other n =
    advance u (report_and_die u other (advances t n (report_and_die t fault start)))

module _ (t : ℕ) (fault : Fault) where
  written_so_far :
      (n : ℕ)
      → n ≤ 4
      → (advances t n (report_and_die t fault start)).written ≡ take n (parts (kind_of fault))
  unfolding advances advance report_and_die
  written_so_far zero l = refl
  written_so_far (suc zero) l = ground arith
  written_so_far (suc (suc zero)) l = ground arith
  written_so_far (suc (suc (suc zero))) l = ground arith
  written_so_far (suc (suc (suc (suc zero)))) l = ground arith
  written_so_far (suc (suc (suc (suc (suc n))))) l = absurd (omega arith)

  entered_by : (n : ℕ) → n ≤ 4 → (advances t n (report_and_die t fault start)).entered ≡ true
  unfolding advances advance report_and_die
  entered_by zero l = refl
  entered_by (suc zero) l = ground arith
  entered_by (suc (suc zero)) l = ground arith
  entered_by (suc (suc (suc zero))) l = ground arith
  entered_by (suc (suc (suc (suc zero)))) l = ground arith
  entered_by (suc (suc (suc (suc (suc n))))) l = absurd (omega arith)

-- A fault once the latch is taken, and the next statement of its thread.
late_fault :
    (u : ℕ) (other : Fault) (p : Process)
    → p.entered ≡ true
    → ((advance u (report_and_die u other p)).written ≡ p.written)
      × ((advance u (report_and_die u other p)).ended ≡ some (exit_code_of other))
unfolding advance report_and_die
late_fault u other p e = ground (arith, e)

-- When a second fault comes, on any thread, while the first report has n of its four parts, the thread of
-- the second ends the process at its next statement, with the exit code of the second fault and with
-- only the n parts written.
pub overtaken-written :
    (t u : ℕ) (fault other : Fault) (n : ℕ)
    → n ≤ 4
    → ((overtaken t u fault other n).written ≡ take n (parts (kind_of fault)))
      × ((overtaken t u fault other n).ended ≡ some (exit_code_of other))
overtaken-written t u fault other n l =
    let p = advances t n (report_and_die t fault start) in
    let (w, e) = late_fault u other p (entered_by t fault n l) in
    (w ∙ written_so_far t fault n l, e)
