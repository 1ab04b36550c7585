-- ===== src/Session/Logger/Thread/OnFile.antt =====
-- The log file of one day of ofe_session1_code/ofe/src/util/logger.cpp, step by step.
use mathlib.Core.Bool.{false≢true}
use mathlib.Core.List.{append_assoc, append-nil, map-append}
use native.Mathlib.Nat.{mod-le}
use rudra_org.Common.{
  ℕ, ◌+◌, ◌^◌, ◌≤◌, ◌<◌, ◌≡◌, refl, ap, sym, ◌∙◌, Bool, true, false, not, ◌&&◌, some, List, [], ◌∷◌,
  ◌++◌, map, leb, ltb, if◌then◌else◌, length, Bool-cases, inl, inr, arith,
}
use rudra_org.Common.Int.{ℤ}
use rudra_org.Common.Text.{Text, equal}
use rudra_org.Session.Logger.{LogConfig, LogRecord}
use rudra_org.Session.Logger.Format.{format_record}
use rudra_org.Session.Logger.Files.{
  Moment, LogFiles, content_of, log_name, max_bytes, rotate_if_needed,
}
use rudra_org.Session.Logger.Files.Rotate.{content_of-append}
use rudra_org.Session.Logger.Thread.{
  Phase, waiting, writing, finished, LoggerImpl, enqueue, stop, is_empty, written_to, write_record,
  write_rotated, io_from,
}
use rudra_org.Session.Logger.Thread.Step.{batch, total, total-append, size, pending}
use rudra_org.Session.Logger.Thread.Schedule.{load}
use rudra_org.Session.Logger.Thread.Drain.{is_finished}

-- Without a rollover the files stay as they are.
rotate_if_needed_idle :
    (config : LogConfig) (m : Moment) (s : LogFiles)
    → equal m.today s.current_date ≡ true
    → s.bytes_written < max_bytes config
    → rotate_if_needed config m s ≡ some s
unfolding rotate_if_needed
rotate_if_needed_idle config m s same room =
    let fits : leb (max_bytes config) s.bytes_written ≡ false = ground arith in rw (same, fits) refl

module _ (local_time : ℤ → Text) (config : LogConfig) (date : Text) where
  -- The log file of the date is open, and holds what makes `lines` with the lines of the records
  -- pending.
  pub record OnFile (running : Bool) (w : LoggerImpl) (lines : List Text) (bytes : ℕ) : Type 0 where
    pub same_config : w.config ≡ config
    pub same_running : w.running ≡ running
    pub going : running ≡ true → is_finished w.phase ≡ false
    pub on_date : w.files.current_date ≡ date
    pub opened : w.files.file ≡ some (log_name config date)
    pub content : List Text
    pub found : content_of (log_name config date) w.files.directory ≡ some content
    pub all : content ++ map (format_record local_time) (pending w) ≡ lines
    pub bounded : load local_time w ≤ bytes

  -- A step that writes nothing and keeps what is pending.
  idle-OnFile :
      (p : Phase) (q : List LogRecord) {running : Bool} (w : LoggerImpl) (lines : List Text)
      (bytes : ℕ)
      → batch p ++ q ≡ pending w
      → (running ≡ true → is_finished p ≡ false)
      → OnFile running w lines bytes
      → OnFile running (record w { queue = q; phase = p }) lines bytes
  idle-OnFile p q w lines bytes same going s = record {
    same_config = s.same_config;
    same_running = s.same_running;
    going = going;
    on_date = s.on_date;
    opened = s.opened;
    content = s.content;
    found = s.found;
    all = ap (λ (t : List LogRecord). s.content ++ map (format_record local_time) t) same ∙ s.all;
    bounded = omega (arith, s.bounded, ap (total local_time) same);
  }

  written-OnFile :
      (rec : LogRecord) (recs : List LogRecord) {running : Bool} (w : LoggerImpl)
      (lines : List Text) (bytes : ℕ)
      → w.phase ≡ writing (rec ∷ recs)
      → OnFile running w lines bytes
      → OnFile running
          (write_record local_time rec (record w { files = w.files; phase = writing recs }))
          lines
          bytes
  unfolding write_record
  written-OnFile rec recs w lines bytes at s =
      let line = format_record local_time rec in
      let n = log_name config date in
      let wrote = ap (λ o. written_to o line w.files) s.opened in
      record {
        same_config = s.same_config;
        same_running = s.same_running;
        going = λ _. refl;
        on_date = ap (λ (f : LogFiles). f.current_date) wrote ∙ s.on_date;
        opened = ap (λ (f : LogFiles). f.file) wrote ∙ s.opened;
        content = s.content ++ line ∷ [];
        found =
            ap (λ (f : LogFiles). content_of n f.directory) wrote
            ∙ content_of-append n line w.files.directory s.content s.found;
        all =
            append_assoc s.content (line ∷ []) (map (format_record local_time) (recs ++ w.queue))
            ∙ ap (λ p. s.content ++ map (format_record local_time) (batch p ++ w.queue)) (sym at)
            ∙ s.all;
        bounded = omega (
          arith,
          s.bounded,
          ap (λ p. total local_time (batch p ++ w.queue)) at,
          ap (λ (f : LogFiles). f.bytes_written) wrote,
          mod-le (w.files.bytes_written + length line) (2 ^ 64),
        );
      }

  pub io_from-OnFile :
      (m : Moment) (p : Phase) (running : Bool) (w : LoggerImpl) (lines : List Text) (bytes : ℕ)
      → w.phase ≡ p
      → equal m.today date ≡ true
      → bytes < max_bytes config
      → OnFile running w lines bytes
      → (w' : LoggerImpl) × (io_from local_time m p w ≡ some w') × OnFile running w' lines bytes
  io_from-OnFile m waiting running w lines bytes at today room s =
      elim (Bool-cases (is_empty w.queue && w.running)) [
        | inl blocked ↦ (w, rw blocked refl, s)
        | inr ready ↦ (
          record w { queue = []; phase = writing w.queue },
          rw ready refl,
          idle-OnFile (writing w.queue) [] w lines bytes
              (append-nil w.queue ∙ ap (λ p. batch p ++ w.queue) (sym at)) (λ _. refl) s,
        )
      ]
  io_from-OnFile m (writing []) running w lines bytes at today room s =
      let ended = not w.running && is_empty w.queue in
      (
        record w { phase = if ended then finished else waiting },
        refl,
        idle-OnFile (if ended then finished else waiting) w.queue w lines bytes
            (ap (λ (t : List LogRecord). t ++ w.queue) (nothing ended)
              ∙ ap (λ p. batch p ++ w.queue) (sym at))
            (λ on. still w.running (s.same_running ∙ on)) s,
      )
    where
      nothing : (b : Bool) → batch (if b then finished else waiting) ≡ []
      nothing true = refl
      nothing false = refl

      still :
          (b : Bool)
          → b ≡ true
          → is_finished (if not b && is_empty w.queue then finished else waiting) ≡ false
      still true on = refl
      still false on = absurd (false≢true on)
  io_from-OnFile m (writing (rec ∷ recs)) running w lines bytes at today room s =
      let rotated : rotate_if_needed w.config m w.files ≡ some w.files =
        rotate_if_needed_idle w.config m w.files (ap (equal m.today) s.on_date ∙ today)
          (omega (arith, s.bounded, ap max_bytes s.same_config)) in
      (
        write_record local_time rec (record w { files = w.files; phase = writing recs }),
        ap (write_rotated local_time rec (record w { phase = writing recs })) rotated,
        written-OnFile rec recs w lines bytes at s,
      )
  io_from-OnFile m finished running w lines bytes at today room s = (w, refl, s)

  pub enqueue-OnFile :
      (rec : LogRecord) {running : Bool} (w : LoggerImpl) (lines : List Text) (bytes : ℕ)
      → OnFile running w lines bytes
      → OnFile running
          (enqueue rec w)
          (lines
            ++ map (format_record local_time) (if ltb (length w.queue) 65536 then rec ∷ [] else []))
          (bytes + size local_time rec)
  unfolding enqueue
  enqueue-OnFile rec w lines bytes s =
      let line = format_record local_time in
      elim (Bool-cases (ltb (length w.queue) 65536)) [
        | inl room ↦ rw room (record {
          same_config = s.same_config;
          same_running = s.same_running;
          going = s.going;
          on_date = s.on_date;
          opened = s.opened;
          content = s.content;
          found = s.found;
          all =
              ap (λ (t : List LogRecord). s.content ++ map line t)
                (sym (append_assoc (batch w.phase) w.queue (rec ∷ [])))
              ∙ ap (λ (t : List Text). s.content ++ t) (map-append line (pending w) (rec ∷ []))
              ∙ sym (append_assoc s.content (map line (pending w)) (line rec ∷ []))
              ∙ ap (λ (t : List Text). t ++ line rec ∷ []) s.all;
          bounded = omega (
            arith,
            s.bounded,
            total-append local_time (batch w.phase) (w.queue ++ rec ∷ []),
            total-append local_time w.queue (rec ∷ []),
            total-append local_time (batch w.phase) w.queue,
          );
        })
        | inr full ↦ rw full (record {
          same_config = s.same_config;
          same_running = s.same_running;
          going = s.going;
          on_date = s.on_date;
          opened = s.opened;
          content = s.content;
          found = s.found;
          all = s.all ∙ sym (append-nil lines);
          bounded = omega (arith, s.bounded);
        })
      ]

  pub stop-OnFile :
      {running : Bool} (w : LoggerImpl) (lines : List Text) (bytes : ℕ)
      → OnFile running w lines bytes
      → OnFile false (stop w) lines bytes
  unfolding stop
  stop-OnFile w lines bytes s = record {
    same_config = s.same_config;
    same_running = refl;
    going = λ off. absurd (false≢true off);
    on_date = s.on_date;
    opened = s.opened;
    content = s.content;
    found = s.found;
    all = s.all;
    bounded = s.bounded;
  }
