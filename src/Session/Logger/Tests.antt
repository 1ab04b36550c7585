-- ===== src/Session/Logger/Tests.antt =====
-- Runs of the logger, and its theorems at concrete records, schedules and directories.
use mathlib.Core.List.{Perm}
use rudra_org.Common.{
  ◌-◌, ◌≡◌, refl, true, false, some, List, [], ◌∷◌, ◌++◌, map, arith, length, select, take,
  replicate,
}
use rudra_org.Common.Int.{ℤ, pos, to_int32}
use rudra_org.Common.Text.{Text, codes, numeral}
use rudra_org.Session.Logger.{
  LogLevel, debug, info, warn, error, log_level_str, log_level_from_str, LogConfig, LogRecord,
}
use rudra_org.Session.Logger.Format.{find_placeholder, format, format_timestamp, format_record}
use rudra_org.Session.Logger.Format.Template.{template, filled, format-template}
use rudra_org.Session.Logger.Files.{
  LogFile, Directory, Moment, LogFiles, content_of, log_name, session_header, open_log_file, is_log,
  insert_name, sort_names, names, purge_loop, purge_old_files, max_bytes, rotate_if_needed,
}
use rudra_org.Session.Logger.Files.Rotate.{rotate_if_needed_full}
use rudra_org.Session.Logger.Files.Purge.{remove_all, IsSorted, purge_old_files_lem}
use rudra_org.Session.Logger.Thread.{
  enqueue, io_step, finished, LoggerImpl, construct, Action, submit, shut, io, run,
}
use rudra_org.Session.Logger.Thread.Step.{total, shown, pending}
use rudra_org.Session.Logger.Thread.Schedule.{submitted, accepted, Moved, run-Moved}
use rudra_org.Session.Logger.Thread.Drain.{OnFiles, shutdown-Drained}
use rudra_org.Session.Logger.Thread.Day.{run-Logged}
use rudra_org.Session.Logger.Global.{initial, is_enabled, write, log}

-- The labels of INFO and WARN have a blank at the end, so a WARN is read back as an INFO.
warn_read_back : log_level_from_str (log_level_str warn) ≡ info
unfolding log_level_from_str log_level_str
warn_read_back = refl

error_read_back : log_level_from_str (log_level_str error) ≡ error
unfolding log_level_from_str log_level_str
error_read_back = refl

formatted :
    format (codes "val={} name={}") (codes "42" ∷ codes "foo" ∷ []) ≡ codes "val=42 name=foo"
unfolding format find_placeholder
formatted = refl

-- The example of a header: the number goes to the next placeholder and the side is dropped.
hexadecimal :
    format (codes "symbol_id={:#x} side={}") (codes "7" ∷ codes "ASK" ∷ [])
    ≡ codes "symbol_id={:#x} side=7"
unfolding format find_placeholder
hexadecimal = refl

format-template_example :
    format (template (codes "a=" ∷ codes " b={" ∷ []) (codes "!")) (codes "{}" ∷ [])
    ≡ filled (codes "a=" ∷ codes " b={" ∷ []) (codes "!") (codes "{}" ∷ [])
unfolding find_placeholder
format-template_example =
    format-template (codes "a=" ∷ codes " b={" ∷ []) (codes "!") (codes "{}" ∷ [])
      (refl, (refl, tt)) refl

-- A clock of the form that `strftime` gives.
abbrev local_time : ℤ → Text
local_time seconds = codes "2026-06-06 14:32:07"

abbrev record_of : LogLevel → Text → LogRecord
record_of level message = record {
  timestamp_ns = pos 1780756327000000362;
  level = level;
  module_name = codes "bar_engine";
  message = message;
  thread_id = 4096;
  file = some (codes "src/core/bar_engine.cpp");
  line = 74;
}

line_of_debug :
    format_record local_time (record_of debug (codes "closed"))
    ≡ codes
        "2026-06-06 14:32:07.000000362 | DEBUG | T:00001000 | bar_engine           | closed  [bar_engine.cpp:74]"
      ++ 10 ∷ []
unfolding format_record format_timestamp log_level_str numeral
line_of_debug = refl

abbrev config : LogConfig
config = record {
  level = info;
  log_dir = codes "./logs";
  filename_base = codes "ofe";
  console = true;
  color_console = false;
  max_file_size_mb = 1;
  max_files = pos 2;
  flush_every_write = false;
}

abbrev moment : Moment
moment = record { today = codes "2026-06-06"; date_of_open = codes "2026-06-06"; opens = true }

abbrev next_day : Moment
next_day = record { today = codes "2026-06-07"; date_of_open = codes "2026-06-07"; opens = true }

abbrev file_of : Text → LogFile
file_of n = record { name = n; content = codes "old" ∷ [] }

abbrev logs : Directory
logs =
    file_of (codes "ofe_2026-06-05.log")
    ∷ file_of (codes "ofe_2026-06-04.log")
    ∷ file_of (codes "notes.txt")
    ∷ file_of (codes "ofe_2026-06-06.log.1")
    ∷ file_of (codes "ofe_2026-06-06.log")
    ∷ []

-- Two log files stay, and what a rotation by size has left is not counted.
purged :
    purge_old_files config logs
    ≡ some (
        file_of (codes "ofe_2026-06-05.log")
        ∷ file_of (codes "notes.txt")
        ∷ file_of (codes "ofe_2026-06-06.log.1")
        ∷ file_of (codes "ofe_2026-06-06.log")
        ∷ [])
unfolding purge_old_files purge_loop sort_names insert_name is_log to_int32
purged = refl

purge_old_files_lem_example :
    let names_of_logs = select (is_log config) (names logs) in
    let sorted = sort_names names_of_logs in
    let left = remove_all (take (length names_of_logs - 2) sorted) logs in
    (purge_old_files config logs ≡ some left)
    × IsSorted sorted
    × Perm sorted names_of_logs
    × (content_of (codes "notes.txt") left ≡ content_of (codes "notes.txt") logs)
unfolding is_log
purge_old_files_lem_example =
    purge_old_files_lem config 2 logs (codes "notes.txt") refl (omega arith) refl

-- With a limit of 0 a file is full at once. This one has a header and one line since it was opened,
-- behind the text of an earlier run.
abbrev no_room : LogConfig
no_room = record config { max_file_size_mb = 0 }

abbrev full_content : List Text
full_content = codes "old" ∷ session_header (codes "2026-06-06") ∷ codes "one" ∷ []

abbrev full_files : LogFiles
full_files = record {
  file = some (codes "ofe_2026-06-06.log");
  current_date = codes "2026-06-06";
  bytes_written = length (codes "one");
  directory = record { name = codes "ofe_2026-06-06.log"; content = full_content } ∷ [];
}

rotate_if_needed_full_example :
    let n = log_name no_room full_files.current_date in
    (s : LogFiles) × (rotate_if_needed no_room moment full_files ≡ some s)
    × (s.file ≡ some n)
    × (s.bytes_written ≡ 0)
    × (content_of n s.directory ≡ some (session_header full_files.current_date ∷ []))
    × (content_of (n ++ codes ".1") s.directory ≡ some full_content)
unfolding log_name max_bytes
rotate_if_needed_full_example =
    rotate_if_needed_full no_room moment full_files full_content refl refl refl (omega arith) refl

abbrev fresh : LoggerImpl
fresh = construct config moment []

-- Two records around the first step of the thread, and a third behind the shutdown.
abbrev schedule : List Action
schedule =
    submit (record_of info (codes "one"))
    ∷ io moment
    ∷ submit (record_of warn (codes "two"))
    ∷ io next_day
    ∷ shut
    ∷ []

run-Moved_example :
    (w : LoggerImpl) × (run local_time schedule fresh ≡ some w)
    × (handled : List LogRecord) × Moved local_time fresh w
        (accepted local_time schedule fresh)
        handled
        (total local_time (submitted schedule))
unfolding construct open_log_file max_bytes format_record format_timestamp log_level_str numeral
run-Moved_example = run-Moved local_time schedule fresh refl (omega arith)

abbrev busy : LoggerImpl
busy = record fresh { queue = record_of info (codes "one") ∷ record_of warn (codes "two") ∷ [] }

abbrev moments : List Moment
moments = moment ∷ next_day ∷ next_day ∷ moment ∷ moment ∷ []

shutdown-Drained_example :
    (w : LoggerImpl) × (run local_time (shut ∷ map io moments) busy ≡ some w)
    × (w.phase ≡ finished)
    × (w.queue ≡ [])
    × OnFiles local_time config busy.files (pending busy) w.files
    × (w.console ≡ busy.console ++ shown local_time config (pending busy))
unfolding construct open_log_file max_bytes format_record format_timestamp log_level_str numeral
shutdown-Drained_example =
    shutdown-Drained local_time moments busy (log_name config moment.today, refl)
      (refl, (refl, (refl, (refl, (refl, tt))))) refl (omega arith) refl (omega arith)

-- Two records around a step of the thread, in a directory with a file of the day.
run-Logged_example :
    let actions =
      submit (record_of info (codes "one"))
      ∷ io moment
      ∷ submit (record_of warn (codes "two"))
      ∷ [] in
    let n = log_name config (codes "2026-06-06") in
    let recs = accepted local_time actions (construct config moment logs) in
    (w : LoggerImpl) × (run local_time
        (actions ++ shut ∷ map io (replicate 5 moment))
        (construct config moment logs)
      ≡ some w)
    × (w.phase ≡ finished)
    × (content_of n w.files.directory
        ≡ some (
            codes "old"
            ∷ session_header (codes "2026-06-06")
            ∷ map (format_record local_time) recs))
    × (w.console ≡ shown local_time config recs)
unfolding log_name construct open_log_file max_bytes format_record format_timestamp log_level_str
    numeral io_step enqueue
run-Logged_example =
    run-Logged local_time config moment logs
      (submit (record_of info (codes "one"))
        ∷ io moment
        ∷ submit (record_of warn (codes "two"))
        ∷ [])
      (replicate 5 moment) refl refl (refl, (refl, (refl, tt)))
      (refl, (refl, (refl, (refl, (refl, tt))))) (omega arith) (omega arith)

-- Below the level nothing is logged; before the start a record goes to the standard error.
too_low :
    log debug
      (codes "m")
      (codes "x={}")
      (codes "1" ∷ [])
      (record { now_ns = pos 0; thread_id = 1; file = codes "a.cpp"; line = 2 })
      initial
    ≡ initial
unfolding log is_enabled
too_low = refl

before_start :
    (log warn
      (codes "m")
      (codes "x={}")
      (codes "1" ∷ [])
      (record { now_ns = pos 0; thread_id = 1; file = codes "a.cpp"; line = 2 })
      initial).errors
    ≡ (codes "[WARN ] m: x=1" ++ 10 ∷ []) ∷ []
unfolding log is_enabled write format find_placeholder log_level_str
before_start = refl
