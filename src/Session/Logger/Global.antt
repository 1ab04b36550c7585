-- ===== src/Session/Logger/Global.antt =====
-- The interface of ofe_session1_code/ofe/include/util/logger.h: the level, the one logger of the
-- program, and the macro that the engine logs with.
use rudra_org.Common.{
  ℕ, Bool, Option, none, some, List, [], ◌∷◌, ◌++◌, map, leb, and_then, if◌then◌else◌,
}
use rudra_org.Common.Int.{ℤ}
use rudra_org.Common.Text.{Text, codes}
use rudra_org.Session.Logger.{LogLevel, info, level_number, log_level_str, LogConfig, LogRecord}
use rudra_org.Session.Logger.Format.{format}
use rudra_org.Session.Logger.Files.{Moment, Directory}
use rudra_org.Session.Logger.Thread.{LoggerImpl, construct, enqueue, shut, io, run}

-- `current_level_`, `g_impl`, and what was written to the standard error.
pub record Logger : Type 0 where
  pub current_level : LogLevel
  pub impl : Option LoggerImpl
  pub errors : List Text

abbrev pub initial : Logger
initial = record { current_level = info; impl = none; errors = [] }

unfoldable pub set_level : LogLevel → Logger → Logger
set_level level l = record l { current_level = level }

unfoldable pub is_enabled : Logger → LogLevel → Bool
is_enabled l level = leb (level_number l.current_level) (level_number level)

abbrev pub write_to : Option LoggerImpl → LogRecord → Logger → Logger
write_to none rec l = record l {
  errors =
      l.errors
      ++ (b'['
          ∷ (log_level_str rec.level
              ++ (codes "] " ++ (rec.module_name ++ (codes ": " ++ (rec.message ++ 10 ∷ []))))))
        ∷ [];
}
write_to (some w) rec l = record l { impl = some (enqueue rec w) }

unfoldable pub write : LogRecord → Logger → Logger
write rec l = write_to l.impl rec l

-- What the macro finds beside its arguments: the clock, the thread and the place in the source.
pub record CallSite : Type 0 where
  pub now_ns : ℤ
  pub thread_id : ℕ
  pub file : Text
  pub line : ℕ

-- `OFE_LOG(level, module, fmt, args...)`
unfoldable pub log : LogLevel → (module_name fmt : Text) → List Text → CallSite → Logger → Logger
log level module_name fmt args site l =
    let rec : LogRecord = record {
      timestamp_ns = site.now_ns;
      level = level;
      module_name = module_name;
      message = format fmt args;
      thread_id = site.thread_id;
      file = some site.file;
      line = site.line;
    } in
    if is_enabled l level then write rec l else l

-- The destructor of the logger that was there waits for its thread, whose steps see `ms`.
module _ (local_time : ℤ → Text) where
  abbrev pub destroy : List Moment → Option LoggerImpl → Option (Option LoggerImpl)
  destroy ms none = some none
  destroy ms (some w) = and_then (run local_time (shut ∷ map io ms) w) (λ w'. some (some w'))

  unfoldable pub shutdown : List Moment → Logger → Option Logger
  shutdown ms l = and_then (destroy ms l.impl) (λ w. some (record l { impl = none }))

  -- The new logger is made before the old one ends.
  unfoldable pub init : LogConfig → Moment → Directory → List Moment → Logger → Option Logger
  init config m directory ms l = and_then (destroy ms l.impl) (λ w.
      some (record l { impl = some (construct config m directory); current_level = config.level }))
