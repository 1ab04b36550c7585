-- ===== src/Session/Logger/Thread.antt =====
-- The queue and the background thread of ofe_session1_code/ofe/src/util/logger.cpp, one step at a
-- time.
pub mod Lines
pub mod Step
pub mod Schedule
pub mod Drain
pub mod OnFile
pub mod Day
use rudra_org.Common.{
  ℕ, ◌+◌, ◌%◌, ◌^◌, Bool, true, false, not, ◌&&◌, Option, none, some, List, [], ◌∷◌, ◌++◌, ltb,
  if◌then◌else◌, length, and_then,
}
use rudra_org.Common.Int.{ℤ}
use rudra_org.Common.Text.{Text}
use rudra_org.Session.Logger.{LogConfig, LogRecord, level_colour, reset_colour}
use rudra_org.Session.Logger.Format.{format_record}
use rudra_org.Session.Logger.Files.{
  Moment, LogFiles, Directory, append, open_log_file, rotate_if_needed,
}

-- Where the background thread is: before the wait, or with what is left of a batch, or at its end.
pub data Phase : Type 0 where
  waiting : Phase
  writing : List LogRecord → Phase
  finished : Phase

pub record LoggerImpl : Type 0 where
  pub config : LogConfig
  pub files : LogFiles
  pub queue : List LogRecord
  pub running : Bool
  pub phase : Phase
  pub console : List Text

unfoldable pub construct : LogConfig → Moment → Directory → LoggerImpl
construct config m directory = record {
  config = config;
  files =
      open_log_file config m
        (record { file = none; current_date = []; bytes_written = 0; directory = directory });
  queue = [];
  running = true;
  phase = waiting;
  console = [];
}

-- A full queue drops the record.
unfoldable pub enqueue : LogRecord → LoggerImpl → LoggerImpl
enqueue rec w = if ltb (length w.queue) 65536 then record w { queue = w.queue ++ rec ∷ [] } else w

-- The first part of the destructor, which then waits for the thread.
unfoldable pub stop : LoggerImpl → LoggerImpl
stop w = record w { running = false }

abbrev pub is_empty : List LogRecord → Bool
is_empty [] = true
is_empty (rec ∷ recs) = false

-- What can happen next: a record comes in, the destructor starts, or the thread makes a step.
pub data Action : Type 0 where
  submit : LogRecord → Action
  shut : Action
  io : Moment → Action

abbrev pub written_to : Option Text → Text → LogFiles → LogFiles
written_to none line s = s
written_to (some n) line s = record s {
  directory = append n line s.directory;
  bytes_written = (s.bytes_written + length line) % 2 ^ 64;
}

module _ (local_time : ℤ → Text) where
  abbrev pub console_text : LogConfig → LogRecord → List Text
  console_text config rec =
      if config.console
      then (if config.color_console
          then (level_colour rec.level ++ (format_record local_time rec ++ reset_colour)) ∷ []
          else format_record local_time rec ∷ [])
      else []

  unfoldable pub write_record : LogRecord → LoggerImpl → LoggerImpl
  write_record rec w = record w {
    files = written_to w.files.file (format_record local_time rec) w.files;
    console = w.console ++ console_text w.config rec;
  }

  abbrev pub write_rotated : LogRecord → LoggerImpl → Option LogFiles → Option LoggerImpl
  write_rotated rec w none = none
  write_rotated rec w (some files) = some (write_record rec (record w { files = files }))

  -- A step of `io_loop`: the exchange of the queue with an empty batch, the next record of the
  -- batch, or the test at the end of a round. `none` is an exception, which ends the program.
  abbrev pub io_from : Moment → Phase → LoggerImpl → Option LoggerImpl
  io_from m waiting w =
      if is_empty w.queue && w.running
      then some w
      else some (record w { queue = []; phase = writing w.queue })
  io_from m (writing []) w =
      some (record w { phase = if not w.running && is_empty w.queue then finished else waiting })
  io_from m (writing (rec ∷ recs)) w =
      write_rotated rec (record w { phase = writing recs }) (rotate_if_needed w.config m w.files)
  io_from m finished w = some w

  unfoldable pub io_step : Moment → LoggerImpl → Option LoggerImpl
  io_step m w = io_from m w.phase w

  unfoldable pub run : List Action → LoggerImpl → Option LoggerImpl
  run [] w = some w
  run (submit rec ∷ actions) w = run actions (enqueue rec w)
  run (shut ∷ actions) w = run actions (stop w)
  run (io m ∷ actions) w = and_then (io_step m w) (run actions)
