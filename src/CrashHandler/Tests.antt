-- ===== src/CrashHandler/Tests.antt =====
-- Threads that fault, alone and one after the other.
use Prim.Native.String.{String}
use centroid_x.Common.{◌≡◌, refl, List, [], ◌∷◌, ◌++◌, none, some, take, arith}
use centroid_x.CrashHandler.{
  structured, terminated, signal, kind_of, exit_code_of, Part, record_line, event_log, parts, start,
  report_and_die, advance,
}
use centroid_x.CrashHandler.Steps.{here, next, faulted}
use centroid_x.CrashHandler.Once.{Reached-begins}
use centroid_x.CrashHandler.Ends.{advances, Ends, alone-Ends, overtaken, overtaken-written}

Reached-begins_example :
    (kind : String) × (left : List Part) × ((report_and_die 0 terminated start).written ++ left
      ≡ parts kind)
Reached-begins_example =
    Reached-begins (report_and_die 0 terminated start) (next here (faulted 0 terminated start refl))

alone-Ends_example :
    Ends terminated (advances 2 6 (report_and_die 2 terminated start))
    × ((advances 2 5 (report_and_die 2 terminated start)).ended ≡ none)
alone-Ends_example = alone-Ends 2 terminated

overtaken-written_example :
    ((overtaken 0 1 structured (signal 22) 2).written ≡ take 2 (parts (kind_of structured)))
    × ((overtaken 0 1 structured (signal 22) 2).ended ≡ some (exit_code_of (signal 22)))
overtaken-written_example = overtaken-written 0 1 structured (signal 22) 2 (omega arith)

-- An abort meanwhile costs the access violation its stack and its minidump.
abort-overtakes :
    (overtaken 0 1 structured (signal 22) 2).written
    ≡ record_line "structured exception" ∷ event_log "structured exception" ∷ []
unfolding advances advance report_and_die kind_of exit_code_of
abort-overtakes = refl
