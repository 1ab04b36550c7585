-- ===== src/Session/Logger.antt =====
-- ofe_session1_code/ofe/include/util/logger.h and src/util/logger.cpp: the levels, the configuration
-- and the records of the log.
pub mod Format
pub mod Files
pub mod Thread
pub mod Global
mod Tests
use rudra_org.Common.{ℕ, Bool, Option, [], ◌∷◌, ◌++◌, if◌then◌else◌}
use rudra_org.Common.Int.{ℤ}
use rudra_org.Common.Text.{Text, codes, equal}

pub data LogLevel : Type 0 where
  trace debug info warn error off : LogLevel

abbrev pub level_number : LogLevel → ℕ
level_number trace = 0
level_number debug = 1
level_number info = 2
level_number warn = 3
level_number error = 4
level_number off = 5

unfoldable pub log_level_str : LogLevel → Text
log_level_str trace = codes "TRACE"
log_level_str debug = codes "DEBUG"
log_level_str info = codes "INFO "
log_level_str warn = codes "WARN "
log_level_str error = codes "ERROR"
log_level_str off = codes "?????"

unfoldable pub log_level_from_str : Text → LogLevel
log_level_from_str s =
    if equal s (codes "TRACE")
    then trace
    else if equal s (codes "DEBUG")
    then debug
    else if equal s (codes "INFO")
    then info
    else if equal s (codes "WARN")
    then warn
    else if equal s (codes "ERROR")
    then error
    else if equal s (codes "OFF")
    then off
    else info

-- The escape sequences of the console, \033[ and what follows.
abbrev pub escape : Text
escape = 27 ∷ b'[' ∷ []

unfoldable pub level_colour : LogLevel → Text
level_colour trace = escape ++ codes "90m"
level_colour debug = escape ++ codes "36m"
level_colour info = escape ++ codes "37m"
level_colour warn = escape ++ codes "33m"
level_colour error = escape ++ codes "1;31m"
level_colour off = escape ++ codes "0m"

abbrev pub reset_colour : Text
reset_colour = escape ++ codes "0m"

pub record LogConfig : Type 0 where
  pub level : LogLevel
  pub log_dir : Text
  pub filename_base : Text
  pub console : Bool
  pub color_console : Bool
  pub max_file_size_mb : ℕ
  pub max_files : ℤ
  pub flush_every_write : Bool

pub record LogRecord : Type 0 where
  pub timestamp_ns : ℤ
  pub level : LogLevel
  pub module_name : Text
  pub message : Text
  pub thread_id : ℕ
  pub file : Option Text
  pub line : ℕ
