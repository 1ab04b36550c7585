-- ===== src/Session/Logger/Thread/Day.antt =====
-- A day of the logger of ofe_session1_code/ofe/src/util/logger.cpp, from its constructor to the end
-- of its destructor, as its log file shows it.
use mathlib.Core.Bool.{false≢true}
use mathlib.Core.List.{append_assoc, append-nil, map-append}
use mathlib.Core.Option.{some-injective}
use mathlib.Core.Path.{subst}
use rudra_org.Common.{
  ℕ, ◌+◌, ◌≤◌, ◌<◌, ◌≡◌, refl, ap, ap₂, sym, ◌∙◌, Bool, true, false, Option, none, some, List, [],
  ◌∷◌, ◌++◌, map, ltb, if◌then◌else◌, length, length-append, All, and_then, arith,
}
use rudra_org.Common.Int.{ℤ}
use rudra_org.Common.Text.{Text, equal}
use rudra_org.Session.Logger.{LogConfig, LogRecord}
use rudra_org.Session.Logger.Format.{format_record}
use rudra_org.Session.Logger.Files.{
  Moment, LogFiles, Directory, content_of, create, log_name, session_header, open_log_file,
  max_bytes,
}
use rudra_org.Session.Logger.Files.Rotate.{
  earlier, content_of-append, content_of-create, open_log_file_lem,
}
use rudra_org.Session.Logger.Thread.{
  finished, LoggerImpl, construct, enqueue, stop, io_step, Action, submit, shut, io, run,
}
use rudra_org.Session.Logger.Thread.Step.{
  KeepsFiles, batch, total, shown, shown-append, size, pending,
}
use rudra_org.Session.Logger.Thread.Schedule.{Any, submitted, after, accepted, Moved, run-Moved}
use rudra_org.Session.Logger.Thread.OnFile.{OnFile, io_from-OnFile, enqueue-OnFile, stop-OnFile}
use rudra_org.Session.Logger.Thread.Drain.{destructor-Drained}

-- An action before the shutdown, at the given date.
abbrev pub before_shutdown : Text → Action → Bool
before_shutdown date (submit rec) = true
before_shutdown date shut = false
before_shutdown date (io m) = equal m.today date

module _ (local_time : ℤ → Text) (config : LogConfig) (date : Text) where
  construct-OnFile :
      (m : Moment) (fs : Directory)
      → m.date_of_open ≡ date
      → m.opens ≡ true
      → OnFile local_time config date true
          (construct config m fs)
          (earlier (content_of (log_name config date) fs) ++ session_header date ∷ [])
          0
  unfolding construct open_log_file
  construct-OnFile m fs same opens =
      let n = log_name config date in
      let none_open : LogFiles = record {
        file = none;
        current_date = [];
        bytes_written = 0;
        directory = fs;
      } in
      let (file, directory) = open_log_file_lem config m none_open date same opens in
      let content = earlier (content_of n fs) in
      record {
        same_config = refl;
        same_running = refl;
        going = λ _. refl;
        on_date = same;
        opened = file;
        content = content ++ session_header date ∷ [];
        found =
            ap (content_of n) directory
            ∙ content_of-append n (session_header date) (create n fs) content
                (content_of-create n fs);
        all = append-nil (content ++ session_header date ∷ []);
        bounded = omega arith;
      }

  relabel :
      {running : Bool} {lines lines' : List Text} {bytes bytes' : ℕ} (w : LoggerImpl)
      → lines ≡ lines'
      → bytes ≡ bytes'
      → OnFile local_time config date running w lines bytes
      → OnFile local_time config date running w lines' bytes'
  relabel {running} {lines} {lines'} {bytes} {bytes'} w e h s =
      subst (λ b. OnFile local_time config date running w lines' b) h
        (subst (λ t. OnFile local_time config date running w t bytes) e s)

  run-OnFile :
      (actions : List Action) (running : Bool) (w : LoggerImpl) (lines : List Text) (bytes : ℕ)
      → All (λ action. before_shutdown date action ≡ true) actions
      → bytes + total local_time (submitted actions) < max_bytes config
      → OnFile local_time config date running w lines bytes
      → (w' : LoggerImpl) × (run local_time actions w ≡ some w')
        × OnFile local_time config date running w'
            (lines ++ map (format_record local_time) (accepted local_time actions w))
            (bytes + total local_time (submitted actions))
  unfolding run io_step
  run-OnFile [] running w lines bytes on room s =
      (w, refl, relabel w (sym (append-nil lines)) (omega arith) s)
  run-OnFile (submit rec ∷ actions) running w lines bytes (now, on) room s =
      let line = format_record local_time in
      let taken = if ltb (length w.queue) 65536 then rec ∷ [] else [] in
      let later = accepted local_time actions (enqueue rec w) in
      let (w', ran, s') =
        run-OnFile actions running (enqueue rec w) (lines ++ map line taken)
          (bytes + size local_time rec) on (omega arith)
          (enqueue-OnFile local_time config date rec w lines bytes s) in
      (
        w',
        ran,
        relabel w'
            (append_assoc lines (map line taken) (map line later)
              ∙ ap (λ (t : List Text). lines ++ t) (sym (map-append line taken later)))
            (omega arith) s',
      )
  run-OnFile (shut ∷ actions) running w lines bytes (now, on) room s = absurd (false≢true now)
  run-OnFile (io m ∷ actions) running w lines bytes (now, on) room s =
      let (w₁, stepped, s₁) =
        io_from-OnFile local_time config date m w.phase running w lines bytes refl now (omega arith)
          s in
      let (w', ran, s') = run-OnFile actions running w₁ lines bytes on room s₁ in
      (
        w',
        ap (λ o. and_then o (run local_time actions)) stepped ∙ ran,
        relabel w'
            (ap
              (λ o. lines ++ map (format_record local_time) (after o (accepted local_time actions)))
              (sym stepped))
            refl s',
      )

module _ (local_time : ℤ → Text) where
  accepted_io : (ms : List Moment) (w : LoggerImpl) → accepted local_time (map io ms) w ≡ []
  accepted_io [] w = refl
  accepted_io (m ∷ ms) w = split (accepted_io ms) (io_step local_time m w)
    where
      split :
          ((w₁ : LoggerImpl) → accepted local_time (map io ms) w₁ ≡ [])
          → (o : Option LoggerImpl) → after o (accepted local_time (map io ms)) ≡ []
      split rest none = refl
      split rest (some w₁) = rest w₁

  submitted_io : (ms : List Moment) → submitted (map io ms) ≡ []
  submitted_io [] = refl
  submitted_io (m ∷ ms) = submitted_io ms

  All-io :
      (date : Text) (ms : List Moment)
      → All (λ (m : Moment). equal m.today date ≡ true) ms
      → All (λ action. before_shutdown date action ≡ true) (map io ms)
  All-io date [] on = on
  All-io date (m ∷ ms) (now, on) = (now, All-io date ms on)

  run-append :
      (xs ys : List Action) (w : LoggerImpl)
      → run local_time (xs ++ ys) w ≡ and_then (run local_time xs w) (run local_time ys)
  unfolding run
  run-append [] ys w = refl
  run-append (submit rec ∷ xs) ys w = run-append xs ys (enqueue rec w)
  run-append (shut ∷ xs) ys w = run-append xs ys (stop w)
  run-append (io m ∷ xs) ys w = split (run-append xs ys) (io_step local_time m w)
    where
      split :
          ((w₁ : LoggerImpl)
            → run local_time (xs ++ ys) w₁ ≡ and_then (run local_time xs w₁) (run local_time ys))
          → (o : Option LoggerImpl)
          → and_then o (run local_time (xs ++ ys))
            ≡ and_then (and_then o (run local_time xs)) (run local_time ys)
      split rest none = refl
      split rest (some w₁) = rest w₁

  All-Any : (ms : List Moment) → All Any ms
  All-Any [] = tt
  All-Any (m ∷ ms) = (tt, All-Any ms)

  -- The destructor brings the lines of what is pending into the file.
  shutdown-Logged :
      (config : LogConfig) (date : Text) (ms : List Moment) (w : LoggerImpl) (lines : List Text)
      (bytes : ℕ)
      → KeepsFiles config
      → bytes < max_bytes config
      → All (λ (m : Moment). equal m.today date ≡ true) ms
      → length (pending w) + 3 ≤ length ms
      → OnFile local_time config date true w lines bytes
      → (w' : LoggerImpl) × (run local_time (shut ∷ map io ms) w ≡ some w')
        × (w'.phase ≡ finished)
        × (content_of (log_name config date) w'.files.directory ≡ some lines)
        × (w'.console ≡ w.console ++ shown local_time config (pending w))
  unfolding run
  shutdown-Logged config date ms w lines bytes keeps room on enough s =
      let line = format_record local_time in
      let (w', ran, d) =
        destructor-Drained local_time Any ms w (All-Any ms)
          (subst KeepsFiles (sym s.same_config) keeps)
          (omega (arith, s.bounded, ap max_bytes s.same_config)) (s.going refl) enough in
      let (w₁, ran₁, s₁) =
        run-OnFile local_time config date (map io ms) false (stop w) lines bytes (All-io date ms on)
          (omega (arith, ap (total local_time) (submitted_io ms)))
          (stop-OnFile local_time config date w lines bytes s) in
      let same : w₁ ≡ w' = some-injective _ _ (sym ran₁ ∙ ran) in
      let nothing : pending w₁ ≡ [] =
        ap pending same ∙ ap₂ (λ p q. batch p ++ q) d.ended d.nothing_left in
      let all : s₁.content ≡ lines =
        sym (append-nil s₁.content)
        ∙ ap (λ (t : List LogRecord). s₁.content ++ map line t) (sym nothing)
        ∙ s₁.all
        ∙ ap (λ (t : List LogRecord). lines ++ map line t) (accepted_io ms (stop w))
        ∙ append-nil lines in
      (
        w',
        ran,
        d.ended,
        ap (λ (v : LoggerImpl). content_of (log_name config date) v.files.directory) (sym same)
            ∙ s₁.found
            ∙ ap (λ (t : List Text). some t) all,
        d.seen ∙ ap (λ c. w.console ++ shown local_time c (pending w)) s.same_config,
      )

  -- A logger is constructed at a moment when its file opens, and until its destructor ends no step
  -- of the thread sees another date. Whatever records come in before the destructor, and however
  -- the steps of the thread fall between them: nothing throws, the thread ends, and the file of the
  -- day holds what it held before, a header, and one line for each record that came in while fewer
  -- than 65536 waited, in their order; the console shows just those. The limit of the files is not
  -- negative, the lines stay below the size limit, and the thread has three steps more than there
  -- are such records.
  pub run-Logged :
      (config : LogConfig) (m : Moment) (fs : Directory) (actions : List Action) (ms : List Moment)
      → KeepsFiles config
      → m.opens ≡ true
      → All (λ action. before_shutdown m.date_of_open action ≡ true) actions
      → All (λ (m' : Moment). equal m'.today m.date_of_open ≡ true) ms
      → total local_time (submitted actions) < max_bytes config
      → length (accepted local_time actions (construct config m fs)) + 3 ≤ length ms
      → let date = m.date_of_open in
        let n = log_name config date in
        let recs = accepted local_time actions (construct config m fs) in
        (w : LoggerImpl) × (run local_time (actions ++ shut ∷ map io ms) (construct config m fs)
          ≡ some w)
        × (w.phase ≡ finished)
        × (content_of n w.files.directory
            ≡ some (
                earlier (content_of n fs)
                ++ session_header date ∷ map (format_record local_time) recs))
        × (w.console ≡ shown local_time config recs)
  run-Logged config m fs actions ms keeps opens before after_all room enough =
      let date = m.date_of_open in
      let fresh = construct config m fs in
      let recs = accepted local_time actions fresh in
      let lines = earlier (content_of (log_name config date) fs) ++ session_header date ∷ [] in
      let (w₁, ran₁, s₁) =
        run-OnFile local_time config date actions true fresh lines 0 before (omega arith)
          (construct-OnFile local_time config date m fs refl opens) in
      let (w₂, ran₂, handled, moved₂) =
        run-Moved local_time actions fresh (unfold construct in keeps)
          (unfold construct open_log_file in omega arith) in
      let moved : Moved local_time fresh w₁ recs handled (total local_time (submitted actions)) =
        subst (λ w. Moved local_time fresh w recs handled (total local_time (submitted actions)))
          (some-injective _ _ (sym ran₂ ∙ ran₁)) moved₂ in
      let fifo : recs ≡ handled ++ pending w₁ = unfold construct in moved.fifo in
      let console : w₁.console ≡ shown local_time config handled = unfold construct in moved.seen in
      let (w', ran, ended, found, seen) =
        shutdown-Logged config date ms w₁ (lines ++ map (format_record local_time) recs)
          (0 + total local_time (submitted actions)) keeps (omega arith) after_all
          (omega (arith, ap (length {A = LogRecord}) fifo, length-append handled (pending w₁)))
          s₁ in
      (
        w',
        run-append actions (shut ∷ map io ms) fresh
            ∙ ap (λ o. and_then o (run local_time (shut ∷ map io ms))) ran₁
            ∙ ran,
        ended,
        found
            ∙ ap (λ (t : List Text). some t)
                (append_assoc (earlier (content_of (log_name config date) fs))
                  (session_header date ∷ []) (map (format_record local_time) recs)),
        seen
            ∙ ap (λ (t : List Text). t ++ shown local_time config (pending w₁)) console
            ∙ sym (shown-append local_time config handled (pending w₁))
            ∙ ap (shown local_time config) (sym fifo),
      )
