-- ===== src/Session/Logger/Files.antt =====
-- The log files of ofe_session1_code/ofe/src/util/logger.cpp: opening, rotation and the removal of
-- old ones.
pub mod Purge
pub mod Rotate
use rudra_org.Common.{
  ℕ, zero, suc, ◌+◌, ◌*◌, ◌%◌, ◌^◌, ◌==◌, Bool, true, false, not, ◌&&◌, Option, none, some, List,
  [], ◌∷◌, ◌++◌, leb, if◌then◌else◌, length, select,
}
use rudra_org.Common.Int.{ℤ, pos, ltb_ℤ, to_int32}
use rudra_org.Common.Text.{Text, codes, equal, before, starts_with}
use rudra_org.Session.Logger.{LogConfig}

-- A file of the log directory, with the texts written to it.
pub record LogFile : Type 0 where
  pub name : Text
  pub content : List Text

-- The log directory, in the order of its iterator.
abbrev pub Directory : Type 0
Directory = List LogFile

-- What the system answers while a record is written: the date, the date as it is asked for again
-- when a file is opened, and whether the file can be opened.
pub record Moment : Type 0 where
  pub today : Text
  pub date_of_open : Text
  pub opens : Bool

-- The part of the logger's state that the files depend on.
pub record LogFiles : Type 0 where
  pub file : Option Text
  pub current_date : Text
  pub bytes_written : ℕ
  pub directory : Directory

abbrev pub named : Text → LogFile → Bool
named n f = equal f.name n

-- `std::filesystem::remove`: a directory has one file of a name.
abbrev pub remove : Text → Directory → Directory
remove n [] = []
remove n (f ∷ fs) = if named n f then remove n fs else f ∷ remove n fs

-- A write to an open file. One that was removed since takes it along.
abbrev pub append : Text → Text → Directory → Directory
append n chunk [] = []
append n chunk (f ∷ fs) =
    if named n f then record f { content = f.content ++ chunk ∷ [] } ∷ fs else f ∷ append n chunk fs

abbrev pub content_of : Text → Directory → Option (List Text)
content_of n [] = none
content_of n (f ∷ fs) = if named n f then some f.content else content_of n fs

-- `std::ofstream::open` with `std::ios::app`.
abbrev pub create_for : Option (List Text) → Text → Directory → Directory
create_for none n fs = fs ++ record { name = n; content = [] } ∷ []
create_for (some content) n fs = fs

unfoldable pub create : Text → Directory → Directory
create n fs = create_for (content_of n fs) n fs

-- `std::filesystem::rename`, which replaces a file of the new name; `none` is an exception.
abbrev pub rename_to : Option (List Text) → Text → Text → Directory → Option Directory
rename_to none n n' fs = none
rename_to (some content) n n' fs =
    some (record { name = n'; content = content } ∷ remove n' (remove n fs))

unfoldable pub rename : Text → Text → Directory → Option Directory
rename n n' fs = rename_to (content_of n fs) n n' fs

-- The name, in the log directory, of the file of a date.
unfoldable pub log_name : LogConfig → Text → Text
log_name config date = config.filename_base ++ (b'_' ∷ (date ++ codes ".log"))

-- 54 times the three bytes of a double line.
double_line : ℕ → Text
double_line zero = []
double_line (suc n) = 226 ∷ 149 ∷ 144 ∷ double_line n

-- The separator at the head of a session.
unfoldable pub session_header : Text → Text
unfolding double_line
session_header date =
    10
    ∷ (double_line 54
        ++ (10 ∷ (codes " OFE Log Session: " ++ (date ++ (10 ∷ (double_line 54 ++ 10 ∷ []))))))

unfoldable pub open_log_file : LogConfig → Moment → LogFiles → LogFiles
open_log_file config m s =
    let n = log_name config m.date_of_open in
    record s {
      current_date = m.date_of_open;
      file = if m.opens then some n else none;
      directory =
          if m.opens
          then append n (session_header m.date_of_open) (create n s.directory)
          else s.directory;
      bytes_written = 0;
    }

-- `path.extension() == ".log"`, for a name that does not start with its only dot.
abbrev pub extension : Text → Text → Text
extension found [] = found
extension found (c ∷ cs) = extension (if c == b'.' then c ∷ cs else found) cs

unfoldable pub is_log : LogConfig → Text → Bool
is_log config n =
    starts_with (config.filename_base ++ b'_' ∷ []) n && equal (extension [] n) (codes ".log")

unfoldable pub insert_name : Text → List Text → List Text
insert_name n [] = n ∷ []
insert_name n (m ∷ ms) =
    let further = m ∷ insert_name n ms in if before m n then further else n ∷ m ∷ ms

unfoldable pub sort_names : List Text → List Text
sort_names [] = []
sort_names (n ∷ ns) = insert_name n (sort_names ns)

abbrev pub names : Directory → List Text
names [] = []
names (f ∷ fs) = f.name ∷ names fs

-- The front of an empty vector is undefined: `none`.
unfoldable pub purge_loop : ℤ → List Text → Directory → Option Directory
purge_loop max_files [] fs = if ltb_ℤ max_files (pos 0) then none else some fs
purge_loop max_files (n ∷ ns) fs =
    let further = purge_loop max_files ns (remove n fs) in
    if ltb_ℤ max_files (to_int32 (pos (length (n ∷ ns)))) then further else some fs

unfoldable pub purge_old_files : LogConfig → Directory → Option Directory
purge_old_files config fs =
    purge_loop config.max_files (sort_names (select (is_log config) (names fs))) fs

abbrev pub with_directory : LogFiles → Option Directory → Option LogFiles
with_directory s none = none
with_directory s (some fs) = some (record s { directory = fs })

abbrev pub reopened : LogConfig → Moment → LogFiles → Option Directory → Option LogFiles
reopened config m s none = none
reopened config m s (some fs) =
    some (open_log_file config m (record s { file = none; directory = fs }))

unfoldable pub max_bytes : LogConfig → ℕ
max_bytes config = config.max_file_size_mb * 1024 * 1024 % 2 ^ 64

unfoldable pub rotate_if_needed : LogConfig → Moment → LogFiles → Option LogFiles
rotate_if_needed config m s =
    let opened = open_log_file config m (record s { file = none }) in
    let rolled = with_directory opened (purge_old_files config opened.directory) in
    let n = log_name config s.current_date in
    let moved = reopened config m s (rename n (n ++ codes ".1") s.directory) in
    if not (equal m.today s.current_date)
    then rolled
    else if leb (max_bytes config) s.bytes_written
    then moved
    else some s
