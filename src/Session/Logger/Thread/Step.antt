-- ===== src/Session/Logger/Thread/Step.antt =====
-- What the schedules of ofe_session1_code/ofe/src/util/logger.cpp do with the records.
use mathlib.Core.List.{append_assoc, append-nil}
use native.Mathlib.Nat.{mod-le}
use mathlib.Core.Path.{subst}
use rudra_org.Common.{
  ℕ, ◌+◌, ◌^◌, ◌≤◌, ◌<◌, ◌≡◌, refl, ap, sym, ◌∙◌, Bool, true, false, not, ◌&&◌, Option, none, some,
  List, [], ◌∷◌, ◌++◌, leb, if◌then◌else◌, length, select, Bool-cases, inl, inr, arith,
}
use rudra_org.Common.Int.{ℤ, pos, ltb_ℤ, to_int32}
use rudra_org.Common.Text.{Text, equal}
use rudra_org.Session.Logger.{LogConfig, LogRecord}
use rudra_org.Session.Logger.Format.{format_record}
use rudra_org.Session.Logger.Files.{
  Moment, LogFiles, Directory, remove, sort_names, is_log, names, with_directory, purge_loop,
  purge_old_files, open_log_file, max_bytes, rotate_if_needed,
}
use rudra_org.Session.Logger.Thread.Lines.{WritesLine, written_to-WritesLine}
use rudra_org.Session.Logger.Thread.{
  Phase, waiting, writing, finished, LoggerImpl, written_to, console_text, write_record,
  write_rotated, is_empty, io_from,
}

-- The limit of the number of files makes sense.
abbrev pub KeepsFiles : LogConfig → Type 0
KeepsFiles config = ltb_ℤ config.max_files (pos 0) ≡ false

purge_loop_total :
    (max_files : ℤ) (ns : List Text) (fs : Directory)
    → ltb_ℤ max_files (pos 0) ≡ false
    → (fs' : Directory) × (purge_loop max_files ns fs ≡ some fs')
unfolding purge_loop
purge_loop_total max_files [] fs keeps = (fs, rw keeps refl)
purge_loop_total max_files (n ∷ ns) fs keeps =
    split (ltb_ℤ max_files (to_int32 (pos (length (n ∷ ns)))))
      (purge_loop_total max_files ns (remove n fs) keeps)
  where
    split :
        (b : Bool)
        → (fs' : Directory) × (purge_loop max_files ns (remove n fs) ≡ some fs')
        → (fs' : Directory) × ((if b then purge_loop max_files ns (remove n fs) else some fs)
            ≡ some fs')
    split true further = further
    split false further = (fs, refl)

-- Below the size limit a rotation does not throw, and it never raises the count of bytes.
rotate_if_needed_lem :
    (config : LogConfig) (m : Moment) (s : LogFiles)
    → KeepsFiles config
    → s.bytes_written < max_bytes config
    → (s' : LogFiles) × (rotate_if_needed config m s ≡ some s')
      × (s'.bytes_written ≤ s.bytes_written)
unfolding rotate_if_needed purge_old_files open_log_file
rotate_if_needed_lem config m s keeps room =
    let opened = open_log_file config m (record s { file = none }) in
    let (fs, purged) =
      purge_loop_total config.max_files
        (sort_names (select (is_log config) (names opened.directory))) opened.directory keeps in
    elim (Bool-cases (equal m.today s.current_date)) [
      | inl same ↦
          let fits : leb (max_bytes config) s.bytes_written ≡ false = ground arith in
          (s, rw (same, fits) refl, omega arith)
      | inr changed ↦ (
        record opened { directory = fs },
        rw changed (ap (with_directory opened) purged),
        omega arith,
      )
    ]

module _ (local_time : ℤ → Text) where
  abbrev pub size : LogRecord → ℕ
  size rec = length (format_record local_time rec)

  abbrev pub total : List LogRecord → ℕ
  total [] = 0
  total (rec ∷ recs) = size rec + total recs

  -- What the console shows of the records.
  abbrev pub shown : LogConfig → List LogRecord → List Text
  shown config [] = []
  shown config (rec ∷ recs) = console_text local_time config rec ++ shown config recs

  pub total-append : (xs ys : List LogRecord) → total (xs ++ ys) ≡ total xs + total ys
  total-append [] ys = omega arith
  total-append (x ∷ xs) ys = omega (arith, total-append xs ys)

  pub shown-append :
      (config : LogConfig) (xs ys : List LogRecord)
      → shown config (xs ++ ys) ≡ shown config xs ++ shown config ys
  shown-append config [] ys = refl
  shown-append config (x ∷ xs) ys =
      ap (λ (t : List Text). console_text local_time config x ++ t) (shown-append config xs ys)
      ∙ sym (append_assoc (console_text local_time config x) (shown config xs) (shown config ys))

module _ (local_time : ℤ → Text) where
  -- From `f` to `f'` the lines of the records were written one after another, each to the file that
  -- is open after the rotation at some moment with the property.
  abbrev pub Written : (Moment → Type 0) → LogConfig → LogFiles → List LogRecord → LogFiles → Type 0
  Written P config f [] f' = f' ≡ f
  Written P config f (rec ∷ recs) f' =
      (m : Moment) × (f₁ f₂ : LogFiles) × P m
      × (rotate_if_needed config m f ≡ some f₁)
      × WritesLine f₁.file (format_record local_time rec) f₁ f₂
      × Written P config f₂ recs f'

  pub Written-trans :
      (P : Moment → Type 0) (xs ys : List LogRecord) (config : LogConfig) (f f₁ f₂ : LogFiles)
      → Written P config f xs f₁
      → Written P config f₁ ys f₂
      → Written P config f (xs ++ ys) f₂
  Written-trans P [] ys config f f₁ f₂ e h = subst (λ g. Written P config g ys f₂) e h
  Written-trans P (x ∷ xs) ys config f f₁ f₂ (m, g, g', now, rotated, wrote, h) k =
      (m, g, g', now, rotated, wrote, Written-trans P xs ys config _ f₁ f₂ h k)

abbrev pub batch : Phase → List LogRecord
batch waiting = []
batch (writing recs) = recs
batch finished = []

-- The records that the thread has still to write.
abbrev pub pending : LoggerImpl → List LogRecord
pending w = batch w.phase ++ w.queue

module _ (local_time : ℤ → Text) (P : Moment → Type 0) where
  -- From `w`, whose thread is at `p`, to `w'`: the records `handled` were written, in their order,
  -- and no others were taken.
  pub record Stepped (p : Phase) (w w' : LoggerImpl) (handled : List LogRecord) : Type 0 where
    pub same_config : w'.config ≡ w.config
    pub same_running : w'.running ≡ w.running
    pub fifo : batch p ++ w.queue ≡ handled ++ pending w'
    pub wrote : Written local_time P w.config w.files handled w'.files
    pub seen : w'.console ≡ w.console ++ shown local_time w.config handled
    pub load :
        w'.files.bytes_written + total local_time (pending w')
        ≤ w.files.bytes_written + total local_time (batch p ++ w.queue)

  -- A step that writes nothing and keeps what is pending.
  idle :
      (p : Phase) (w w' : LoggerImpl)
      → w'.config ≡ w.config
      → w'.running ≡ w.running
      → w'.console ≡ w.console
      → w'.files ≡ w.files
      → batch p ++ w.queue ≡ pending w'
      → Stepped p w w' []
  idle p w w' config running console files same = record {
    same_config = config;
    same_running = running;
    fifo = same;
    wrote = files;
    seen = console ∙ sym (append-nil w.console);
    load = omega (arith, ap (λ (f : LogFiles). f.bytes_written) files, ap (total local_time) same);
  }

  written_to-bytes :
      (o : Option Text) (line : Text) (s : LogFiles)
      → (written_to o line s).bytes_written ≤ s.bytes_written + length line
  written_to-bytes none line s = omega arith
  written_to-bytes (some n) line s = omega (arith, mod-le (s.bytes_written + length line) (2 ^ 64))

  written-Stepped :
      (m : Moment) (rec : LogRecord) (recs : List LogRecord) (w : LoggerImpl) (files : LogFiles)
      → P m
      → rotate_if_needed w.config m w.files ≡ some files
      → files.bytes_written ≤ w.files.bytes_written
      → Stepped
          (writing (rec ∷ recs))
          w
          (write_record local_time rec (record w { files = files; phase = writing recs }))
          (rec ∷ [])
  unfolding write_record
  written-Stepped m rec recs w files now rotated fewer = record {
    same_config = refl;
    same_running = refl;
    fifo = refl;
    wrote =
        let line = format_record local_time rec in
        (
          m,
          files,
          written_to files.file line files,
          now,
          rotated,
          written_to-WritesLine files.file line files,
          refl,
        );
    seen =
        ap (λ (t : List Text). w.console ++ t)
          (sym (append-nil (console_text local_time w.config rec)));
    load = omega (arith, fewer, written_to-bytes files.file (format_record local_time rec) files);
  }

  pub io_from_lem :
      (m : Moment) (p : Phase) (w : LoggerImpl)
      → P m
      → w.phase ≡ p
      → KeepsFiles w.config
      → w.files.bytes_written + total local_time (batch p ++ w.queue) < max_bytes w.config
      → (w' : LoggerImpl) × (io_from local_time m p w ≡ some w')
        × (handled : List LogRecord) × Stepped p w w' handled
  io_from_lem m waiting w now at keeps room = elim (Bool-cases (is_empty w.queue && w.running)) [
    | inl blocked ↦ (
      w,
      rw blocked refl,
      [],
      idle waiting w w refl refl refl refl (ap (λ q. batch q ++ w.queue) (sym at)),
    )
    | inr ready ↦
        let w' = record w { queue = []; phase = writing w.queue } in
        (w', rw ready refl, [], idle waiting w w' refl refl refl refl (sym (append-nil w.queue)))
  ]
  io_from_lem m (writing []) w now at keeps room =
      let ended = not w.running && is_empty w.queue in
      let w' = record w { phase = if ended then finished else waiting } in
      (
        w',
        refl,
        [],
        idle (writing []) w w' refl refl refl refl
            (ap (λ (t : List LogRecord). t ++ w.queue) (sym (nothing ended))),
      )
    where
      nothing : (b : Bool) → batch (if b then finished else waiting) ≡ []
      nothing true = refl
      nothing false = refl
  io_from_lem m (writing (rec ∷ recs)) w now at keeps room =
      let (files, rotated, fewer) = rotate_if_needed_lem w.config m w.files keeps (omega arith) in
      (
        write_record local_time rec (record w { files = files; phase = writing recs }),
        ap (write_rotated local_time rec (record w { phase = writing recs })) rotated,
        rec ∷ [],
        written-Stepped m rec recs w files now rotated fewer,
      )
  io_from_lem m finished w now at keeps room =
      (w, refl, [], idle finished w w refl refl refl refl (ap (λ q. batch q ++ w.queue) (sym at)))
