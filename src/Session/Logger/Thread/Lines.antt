-- ===== src/Session/Logger/Thread/Lines.antt =====
-- How a line is written to a log file of ofe_session1_code/ofe/src/util/logger.cpp.
use mathlib.Core.Option.{some-injective, none-ne-some}
use mathlib.Core.Path.{subst}
use rudra_org.Common.{
  ◌+◌, ◌%◌, ◌^◌, ◌≡◌, refl, ap, sym, ◌∙◌, Bool, true, false, not, Option, none, some, List, [], ◌∷◌,
  ◌++◌, leb, if◌then◌else◌, length, Bool-cases, inl, inr, arith,
}
use rudra_org.Common.Text.{Text, codes, equal, eq_of_equal}
use rudra_org.Session.Logger.{LogConfig}
use rudra_org.Session.Logger.Files.{
  Directory, Moment, LogFiles, named, append, content_of, open_log_file, with_directory, reopened,
  purge_old_files, rename, log_name, max_bytes, rotate_if_needed,
}
use rudra_org.Session.Logger.Files.Rotate.{content_of-append_other}
use rudra_org.Session.Logger.Thread.{written_to}

-- What a write makes of a file's content, if it is the one that is written to.
abbrev pub lengthened : Bool → Text → Option (List Text) → Option (List Text)
lengthened false line content = content
lengthened true line none = none
lengthened true line (some content) = some (content ++ line ∷ [])

content_of-append_self :
    (n line : Text) (fs : Directory)
    → content_of n (append n line fs) ≡ lengthened true line (content_of n fs)
content_of-append_self n line [] = refl
content_of-append_self n line (f ∷ fs) = elim (Bool-cases (named n f)) [
  | inl here ↦ rw (here, here) refl
  | inr away ↦ ground (arith, content_of-append_self n line fs)
]

-- The line stands at the end of the file of the name, if there is one, and no other file changes.
abbrev pub Receives : Text → Text → Directory → Directory → Type 0
Receives n line fs fs' =
    (n' : Text) → content_of n' fs' ≡ lengthened (equal n' n) line (content_of n' fs)

append-Receives : (n line : Text) (fs : Directory) → Receives n line fs (append n line fs)
append-Receives n line fs n' = elim (Bool-cases (equal n' n)) [
  | inl same ↦
      let e = eq_of_equal n' n same in
      ap (λ t. content_of t (append n line fs)) e
      ∙ content_of-append_self n line fs
      ∙ ap (λ t. lengthened true line (content_of t fs)) (sym e)
      ∙ ap (λ b. lengthened b line (content_of n' fs)) (sym same)
  | inr apart ↦
      content_of-append_other n n' line fs apart
      ∙ ap (λ b. lengthened b line (content_of n' fs)) (sym apart)
]

-- A line is written to the open file, whose bytes are counted; without one nothing happens.
abbrev pub WritesLine : Option Text → Text → LogFiles → LogFiles → Type 0
WritesLine none line f f' = f' ≡ f
WritesLine (some n) line f f' =
    (f'.file ≡ f.file)
    × (f'.current_date ≡ f.current_date)
    × (f'.bytes_written ≡ (f.bytes_written + length line) % 2 ^ 64)
    × Receives n line f.directory f'.directory

pub written_to-WritesLine :
    (o : Option Text) (line : Text) (f : LogFiles) → WritesLine o line f (written_to o line f)
written_to-WritesLine none line f = refl
written_to-WritesLine (some n) line f = (refl, refl, refl, append-Receives n line f.directory)

-- A log file is open.
abbrev pub IsOpen : LogFiles → Type 0
IsOpen f = (n : Text) × (f.file ≡ some n)

open_log_file-IsOpen :
    (config : LogConfig) (m : Moment) (f : LogFiles)
    → m.opens ≡ true
    → IsOpen (open_log_file config m f)
unfolding open_log_file
open_log_file-IsOpen config m f opens = (log_name config m.date_of_open, rw opens refl)

-- A rotation leaves a file open, if it can be opened at all.
pub rotate_if_needed-IsOpen :
    (config : LogConfig) (m : Moment) (f f' : LogFiles)
    → m.opens ≡ true
    → IsOpen f
    → rotate_if_needed config m f ≡ some f'
    → IsOpen f'
unfolding rotate_if_needed
rotate_if_needed-IsOpen config m f f' opens is_open e =
    split (not (equal m.today f.current_date)) (leb (max_bytes config) f.bytes_written)
      (purge_old_files config (open_log_file config m (record f { file = none })).directory)
      (rename (log_name config f.current_date) (log_name config f.current_date ++ codes ".1")
        f.directory)
      e
  where
    opened : LogFiles
    opened = open_log_file config m (record f { file = none })

    split :
        (rolled full : Bool) (left moved : Option Directory)
        → (if rolled
            then with_directory opened left
            else if full
            then reopened config m f moved
            else some f)
          ≡ some f'
        → IsOpen f'
    split true full none moved e' = absurd (none-ne-some f' e')
    split true full (some fs) moved e' =
        let (n, at) = open_log_file-IsOpen config m (record f { file = none }) opens in
        (n, ap (λ (g : LogFiles). g.file) (sym (some-injective _ _ e')) ∙ at)
    split false true left none e' = absurd (none-ne-some f' e')
    split false true left (some fs) e' =
        let (n, at) =
          open_log_file-IsOpen config m (record f { file = none; directory = fs }) opens in
        (n, ap (λ (g : LogFiles). g.file) (sym (some-injective _ _ e')) ∙ at)
    split false false left moved e' = subst IsOpen (some-injective _ _ e') is_open

-- A write leaves the file open.
pub WritesLine-IsOpen :
    (n line : Text) (f f' : LogFiles) → f.file ≡ some n → WritesLine (some n) line f f' → IsOpen f'
WritesLine-IsOpen n line f f' at w = (n, w.0 ∙ at)
