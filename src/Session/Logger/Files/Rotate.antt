-- ===== src/Session/Logger/Files/Rotate.antt =====
-- The rotation by size of ofe_session1_code/ofe/src/util/logger.cpp.
use mathlib.Core.Bool.{false≢true}
use rudra_org.Common.{
  ℕ, ◌≤◌, ◌≡◌, refl, ap, sym, ◌∙◌, true, false, Option, none, some, List, [], ◌∷◌, ◌++◌, leb,
  Bool-cases, inl, inr, arith,
}
use rudra_org.Common.Text.{Text, codes, equal, equal_refl, eq_of_equal, longer-equal}
use rudra_org.Session.Logger.{LogConfig}
use rudra_org.Session.Logger.Files.{
  Directory, Moment, LogFiles, named, remove, append, content_of, create, create_for, rename,
  rename_to, log_name, session_header, open_log_file, reopened, max_bytes, rotate_if_needed,
}

content_of-remove_self : (n : Text) (fs : Directory) → content_of n (remove n fs) ≡ none
content_of-remove_self n [] = refl
content_of-remove_self n (f ∷ fs) = elim (Bool-cases (named n f)) [
  | inl same ↦ rw same (content_of-remove_self n fs)
  | inr apart ↦ rw (apart, apart) (content_of-remove_self n fs)
]

content_of-remove-none :
    (n n' : Text) (fs : Directory) → content_of n fs ≡ none → content_of n (remove n' fs) ≡ none
content_of-remove-none n n' [] h = refl
content_of-remove-none n n' (f ∷ fs) h = ground (arith, content_of-remove-none n n' fs)

pub content_of-append :
    (n chunk : Text) (fs : Directory) (content : List Text)
    → content_of n fs ≡ some content
    → content_of n (append n chunk fs) ≡ some (content ++ chunk ∷ [])
content_of-append n chunk [] content h = cc
content_of-append n chunk (f ∷ fs) content h = ground (arith, content_of-append n chunk fs content)

content_of-new :
    (n : Text) (fs : Directory)
    → content_of n fs ≡ none
    → content_of n (fs ++ record { name = n; content = [] } ∷ []) ≡ some []
content_of-new n [] h = rw (equal_refl n) refl
content_of-new n (f ∷ fs) h = ground (arith, content_of-new n fs)

-- What was in a file before it is opened.
abbrev pub earlier : Option (List Text) → List Text
earlier none = []
earlier (some content) = content

pub content_of-create :
    (n : Text) (fs : Directory) → content_of n (create n fs) ≡ some (earlier (content_of n fs))
unfolding create
content_of-create n fs = split (content_of n fs) refl
  where
    split :
        (o : Option (List Text))
        → content_of n fs ≡ o
        → content_of n (create_for o n fs) ≡ some (earlier o)
    split none h = content_of-new n fs h
    split (some content) h = h

apart_names : (a n n' : Text) → equal a n ≡ true → equal n' n ≡ false → equal a n' ≡ false
apart_names a n n' same apart = elim (Bool-cases (equal a n')) [
  | inl e ↦ absurd (false≢true (sym apart ∙ ap (λ t. equal t n) (sym (eq_of_equal a n' e)) ∙ same))
  | inr e ↦ e
]

-- A write to, or the creation of, another file leaves a file alone.
pub content_of-append_other :
    (n n' chunk : Text) (fs : Directory)
    → equal n' n ≡ false
    → content_of n' (append n chunk fs) ≡ content_of n' fs
content_of-append_other n n' chunk [] apart = refl
content_of-append_other n n' chunk (f ∷ fs) apart = elim (Bool-cases (named n f)) [
  | inl here ↦ rw (here, apart_names f.name n n' here apart) refl
  | inr away ↦ ground (arith, content_of-append_other n n' chunk fs apart)
]

pub content_of-remove_other :
    (n n' : Text) (fs : Directory)
    → equal n' n ≡ false
    → content_of n' (remove n fs) ≡ content_of n' fs
content_of-remove_other n n' [] apart = refl
content_of-remove_other n n' (f ∷ fs) apart = elim (Bool-cases (named n f)) [
  | inl here ↦ rw (here, apart_names f.name n n' here apart) (content_of-remove_other n n' fs apart)
  | inr away ↦ ground (arith, content_of-remove_other n n' fs apart)
]

content_of-new_other :
    (n n' : Text) (fs : Directory)
    → equal n' n ≡ false
    → content_of n' (fs ++ record { name = n; content = [] } ∷ []) ≡ content_of n' fs
content_of-new_other n n' [] apart = rw (apart_names n n n' (equal_refl n) apart) refl
content_of-new_other n n' (f ∷ fs) apart = ground (arith, content_of-new_other n n' fs apart)

content_of-create_other :
    (n n' : Text) (fs : Directory)
    → equal n' n ≡ false
    → content_of n' (create n fs) ≡ content_of n' fs
unfolding create
content_of-create_other n n' fs apart = split (content_of n fs)
  where
    split : (o : Option (List Text)) → content_of n' (create_for o n fs) ≡ content_of n' fs
    split none = content_of-new_other n n' fs apart
    split (some content) = refl

-- The directory after a file was moved and opened anew.
abbrev pub reopened_directory : LogConfig → Text → Directory → Directory
reopened_directory config date fs =
    append (log_name config date) (session_header date) (create (log_name config date) fs)

pub open_log_file_lem :
    (config : LogConfig) (m : Moment) (s : LogFiles) (date : Text)
    → m.date_of_open ≡ date
    → m.opens ≡ true
    → let opened = open_log_file config m s in
      (opened.file ≡ some (log_name config date))
      × (opened.directory ≡ reopened_directory config date s.directory)
unfolding open_log_file
open_log_file_lem config m s date same opens = (
  rw opens (ap (λ t. some (log_name config t)) same),
  rw opens (ap (λ t. reopened_directory config t s.directory) same),
)

moved : Text → Text → List Text → Directory → Directory
moved n n' content fs = record { name = n'; content = content } ∷ remove n' (remove n fs)

content_of-moved :
    (n : Text) (c : ℕ) (cs : Text) (content : List Text) (fs : Directory)
    → let fs' = moved n (n ++ (c ∷ cs)) content fs in
      (content_of n fs' ≡ none) × (content_of (n ++ (c ∷ cs)) fs' ≡ some content)
unfolding moved
content_of-moved n c cs content fs = (
  rw (longer-equal n c cs)
      (content_of-remove-none n (n ++ (c ∷ cs)) (remove n fs) (content_of-remove_self n fs)),
  rw (equal_refl (n ++ (c ∷ cs))) refl,
)

-- Where the count of the bytes written since the file was opened, which leaves out the header and
-- what was there before, has reached the size limit, no day has passed and the file can be opened
-- again: the file is moved to the name with `.1` behind it, with all that stands in it, and a new
-- file with only a header takes its name. What an earlier rotation has left under the name with
-- `.1` is lost.
pub rotate_if_needed_full :
    (config : LogConfig) (m : Moment) (s : LogFiles) (content : List Text)
    → equal m.today s.current_date ≡ true
    → m.date_of_open ≡ s.current_date
    → m.opens ≡ true
    → max_bytes config ≤ s.bytes_written
    → content_of (log_name config s.current_date) s.directory ≡ some content
    → let n = log_name config s.current_date in
      (s' : LogFiles) × (rotate_if_needed config m s ≡ some s')
      × (s'.file ≡ some n)
      × (s'.bytes_written ≡ 0)
      × (content_of n s'.directory ≡ some (session_header s.current_date ∷ []))
      × (content_of (n ++ codes ".1") s'.directory ≡ some content)
unfolding rotate_if_needed rename moved
rotate_if_needed_full config m s content today same_date opens large found =
    let n = log_name config s.current_date in
    let n' = n ++ codes ".1" in
    let fs = moved n n' content s.directory in
    let s' = open_log_file config m (record s { file = none; directory = fs }) in
    let full : leb (max_bytes config) s.bytes_written ≡ true = ground arith in
    let (file, directory) =
      open_log_file_lem config m (record s { file = none; directory = fs }) s.current_date same_date
        opens in
    let (free, kept) = content_of-moved n b'.' (b'1' ∷ []) content s.directory in
    (
      s',
      rw (today, full) (ap (λ o. reopened config m s (rename_to o n n' s.directory)) found),
      file,
      unfold open_log_file in refl,
      ap (content_of n) directory
          ∙ content_of-append n (session_header s.current_date) (create n fs) []
              (content_of-create n fs ∙ ap (λ o. some (earlier o)) free),
      ap (content_of n') directory
          ∙ content_of-append_other n n' (session_header s.current_date) (create n fs)
              (longer-equal n b'.' (b'1' ∷ []))
          ∙ content_of-create_other n n' fs (longer-equal n b'.' (b'1' ∷ []))
          ∙ kept,
    )
