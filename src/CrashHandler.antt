-- ===== src/CrashHandler.antt =====
-- centroid-hmi/windows/runner/crash_handler.cpp and the latch of crash_record.h: what the handlers of a
-- fatal fault write, and how they end the process, when threads fault at any time. The calls of Win32
-- and the texts of the records are left out; what a report writes is named.
pub mod Steps
pub mod Once
pub mod Ends
mod Tests
use Prim.Native.String.{String}
use centroid_x.Common.{
  ℕ, suc, ◌+◌, Bool, true, false, not, List, [], ◌∷◌, ◌++◌, Option, none, some, ◌==◌, if◌then◌else◌,
}
use centroid_x.Common.Int.{ℤ, pos, negsuc}

-- What reaches a handler: SehFilter with an exception of C++ or another one, TerminateHandler,
-- SignalHandler, InvalidParameterHandler and PureCallHandler.
pub data Fault : Type 0 where
  cpp_throw structured terminated invalid_parameter pure_call : Fault
  signal : ℕ → Fault

-- SIGABRT is 22.
abbrev pub signal_kind : ℕ → String
signal_kind number = if number == 22 then "abort()" else "signal"

unfoldable pub kind_of : Fault → String
kind_of cpp_throw = "unhandled C++ exception"
kind_of structured = "structured exception"
kind_of terminated = "std::terminate"
kind_of (signal number) = signal_kind number
kind_of invalid_parameter = "CRT invalid parameter"
kind_of pure_call = "pure virtual call"

unfoldable pub exit_code_of : Fault → ℕ
exit_code_of cpp_throw = 1
exit_code_of structured = 1
exit_code_of terminated = 3
exit_code_of (signal number) = 3
exit_code_of invalid_parameter = 3
exit_code_of pure_call = 3

-- The parts of a report, in the order of ReportAndDie.
pub data Part : Type 0 where
  record_line event_log stack_trace minidump : String → Part

abbrev pub parts : String → List Part
parts kind = record_line kind ∷ event_log kind ∷ stack_trace kind ∷ minidump kind ∷ []

-- Where a thread is: in the program, in ReportAndDie with the parts that it has still to write and the
-- exit code, or before TerminateProcess.
pub data Thread : Type 0 where
  running : Thread
  reporting : List Part → ℕ → Thread
  dying : ℕ → Thread

-- `ended` is the exit code of the process, once it has ended.
pub record Process : Type 0 where
  pub entered : Bool
  pub written : List Part
  pub threads : ℕ → Thread
  pub ended : Option ℕ

abbrev pub start : Process
start = record { entered = false; written = []; threads = λ t. running; ended = none }

abbrev pub move : (ℕ → Thread) → ℕ → Thread → ℕ → Thread
move threads t to u = if t == u then to else threads u

-- CrashLatch::Enter, an atomic exchange: whether the caller is the first, and the latch after it.
abbrev pub enter : Bool → Bool × Bool
enter entered = (not entered, true)

-- The beginning of ReportAndDie: the first caller reports, and every other one goes to the end.
unfoldable pub report_and_die : ℕ → Fault → Process → Process
unfolding kind_of exit_code_of
report_and_die t fault p =
    let (first, entered) = enter p.entered in
    record p {
      entered = entered;
      threads = move p.threads t (
          if first
          then reporting (parts (kind_of fault)) (exit_code_of fault)
          else dying (exit_code_of fault));
    }

-- The next statement of a thread that is in ReportAndDie: a part is written, the report is over, or
-- the process is terminated.
unfoldable pub advance : ℕ → Process → Process
advance t p = elim (p.threads t) [
  | running ↦ p
  | reporting parts code ↦ elim parts [
    | [] ↦ record p { threads = move p.threads t (dying code) }
    | part ∷ rest ↦ record p {
      written = p.written ++ (part ∷ []);
      threads = move p.threads t (reporting rest code);
    }
  ]
  | dying code ↦ record p { ended = some code }
]
