-- ===== src/Session/Logger/Thread/Schedule.antt =====
-- Every schedule of the callers and of the thread of ofe_session1_code/ofe/src/util/logger.cpp.
use mathlib.Core.List.{append_assoc, append-nil}
use mathlib.Core.Path.{subst}
use rudra_org.Common.{
  ℕ, ◌+◌, ◌≤◌, ◌<◌, ◌≡◌, refl, ap, ap₂, sym, ◌∙◌, Option, none, some, List, [], ◌∷◌, ◌++◌, ltb,
  if◌then◌else◌, length, and_then, Bool-cases, inl, inr, arith,
}
use rudra_org.Common.Int.{ℤ}
use rudra_org.Common.Text.{Text}
use rudra_org.Session.Logger.{LogRecord}
use rudra_org.Session.Logger.Files.{Moment, max_bytes}
use rudra_org.Session.Logger.Thread.{
  LoggerImpl, enqueue, stop, io_step, Action, submit, shut, io, run,
}
use rudra_org.Session.Logger.Thread.Step.{
  KeepsFiles, Written, Written-trans, batch, total, total-append, shown, shown-append, size,
  pending, io_from_lem,
}

-- Any moment at all.
abbrev pub Any : Moment → Type 0
Any m = Unit

-- All records that come in.
abbrev pub submitted : List Action → List LogRecord
submitted [] = []
submitted (submit rec ∷ actions) = rec ∷ submitted actions
submitted (shut ∷ actions) = submitted actions
submitted (io m ∷ actions) = submitted actions

abbrev pub after : Option LoggerImpl → (LoggerImpl → List LogRecord) → List LogRecord
after none f = []
after (some w) f = f w

module _ (local_time : ℤ → Text) where
  -- Those that come in while fewer than 65536 wait in the queue.
  abbrev pub accepted : List Action → LoggerImpl → List LogRecord
  accepted [] w = []
  accepted (submit rec ∷ actions) w =
      (if ltb (length w.queue) 65536 then rec ∷ [] else []) ++ accepted actions (enqueue rec w)
  accepted (shut ∷ actions) w = accepted actions (stop w)
  accepted (io m ∷ actions) w = after (io_step local_time m w) (accepted actions)

  abbrev pub load : LoggerImpl → ℕ
  load w = w.files.bytes_written + total local_time (pending w)

  -- Between `w` and `w'` the records `taken` came in, of at most `bytes` bytes, and the records
  -- `handled` were written: what was pending and then the records taken are those handled and then
  -- what is pending, in that order, and the console shows those handled.
  pub record Moved (w w' : LoggerImpl) (taken handled : List LogRecord) (bytes : ℕ) : Type 0 where
    pub same_config : w'.config ≡ w.config
    pub fifo : pending w ++ taken ≡ handled ++ pending w'
    pub wrote : Written local_time Any w.config w.files handled w'.files
    pub seen : w'.console ≡ w.console ++ shown local_time w.config handled
    pub bounded : load w' ≤ load w + bytes

  Moved-trans :
      {w w₁ w₂ : LoggerImpl} {taken taken' handled handled' : List LogRecord} {n n' : ℕ}
      → Moved w w₁ taken handled n
      → Moved w₁ w₂ taken' handled' n'
      → Moved w w₂ (taken ++ taken') (handled ++ handled') (n + n')
  Moved-trans {w} {w₁} {w₂} {taken} {taken'} {handled} {handled'} a b = record {
    same_config = b.same_config ∙ a.same_config;
    fifo =
        sym (append_assoc (pending w) taken taken')
        ∙ ap (λ (t : List LogRecord). t ++ taken') a.fifo
        ∙ append_assoc handled (pending w₁) taken'
        ∙ ap (λ (t : List LogRecord). handled ++ t) b.fifo
        ∙ sym (append_assoc handled handled' (pending w₂));
    wrote =
        Written-trans local_time Any handled handled' w.config w.files w₁.files w₂.files a.wrote (
          subst (λ config. Written local_time Any config w₁.files handled' w₂.files) a.same_config
            b.wrote);
    seen =
        b.seen
        ∙ ap₂ (λ (t : List Text) config. t ++ shown local_time config handled') a.seen a.same_config
        ∙ append_assoc w.console (shown local_time w.config handled)
            (shown local_time w.config handled')
        ∙ ap (λ (t : List Text). w.console ++ t)
            (sym (shown-append local_time w.config handled handled'));
    bounded = omega (arith, a.bounded, b.bounded);
  }

  -- Nothing comes in at first.
  idle_trans :
      {w w₁ w₂ : LoggerImpl} {taken handled handled' : List LogRecord} {n : ℕ}
      → Moved w w₁ [] handled 0
      → Moved w₁ w₂ taken handled' n
      → Moved w w₂ taken (handled ++ handled') n
  idle_trans {w} {w₁} {w₂} {taken} {handled} {handled'} a b =
      subst (λ bytes. Moved w w₂ taken (handled ++ handled') bytes) (omega arith) (Moved-trans a b)

  io_step-Moved :
      (m : Moment) (w : LoggerImpl)
      → KeepsFiles w.config
      → load w < max_bytes w.config
      → (w' : LoggerImpl) × (io_step local_time m w ≡ some w')
        × (handled : List LogRecord) × Moved w w' [] handled 0
  unfolding io_step
  io_step-Moved m w keeps room =
      let (w', stepped, handled, s) = io_from_lem local_time Any m w.phase w tt refl keeps room in
      (
        w',
        stepped,
        handled,
        record {
          same_config = s.same_config;
          fifo = append-nil (pending w) ∙ s.fifo;
          wrote = s.wrote;
          seen = s.seen;
          bounded = omega (arith, s.load);
        },
      )

  enqueue-Moved :
      (rec : LogRecord) (w : LoggerImpl)
      → Moved w
          (enqueue rec w)
          (if ltb (length w.queue) 65536 then rec ∷ [] else [])
          []
          (size local_time rec)
  unfolding enqueue
  enqueue-Moved rec w = elim (Bool-cases (ltb (length w.queue) 65536)) [
    | inl room ↦ rw room (record {
      same_config = refl;
      fifo = append_assoc (batch w.phase) w.queue (rec ∷ []);
      wrote = refl;
      seen = sym (append-nil w.console);
      bounded = omega (
        arith,
        total-append local_time (batch w.phase) (w.queue ++ rec ∷ []),
        total-append local_time w.queue (rec ∷ []),
        total-append local_time (batch w.phase) w.queue,
      );
    })
    | inr full ↦ rw full (record {
      same_config = refl;
      fifo = append-nil (pending w);
      wrote = refl;
      seen = sym (append-nil w.console);
      bounded = omega arith;
    })
  ]

  stop-Moved : (w : LoggerImpl) → Moved w (stop w) [] [] 0
  unfolding stop
  stop-Moved w = record {
    same_config = refl;
    fifo = append-nil (pending w);
    wrote = refl;
    seen = sym (append-nil w.console);
    bounded = omega arith;
  }

  -- Under every schedule of incoming records, shutdown and steps of the thread, where the limit of
  -- the files is not negative and all lines stay below the size limit: nothing throws, and the
  -- records pending at the start followed by those that came in while fewer than 65536 waited are
  -- the records handled followed by those still pending, in that order, each handled once. The
  -- line of each record handled went, after the rotation at some moment, to the end of the file then
  -- open, and no other file changed; it was lost where no file was open or the open one had been
  -- removed. The console shows just the lines of the records handled.
  pub run-Moved :
      (actions : List Action) (w : LoggerImpl)
      → KeepsFiles w.config
      → load w + total local_time (submitted actions) < max_bytes w.config
      → (w' : LoggerImpl) × (run local_time actions w ≡ some w')
        × (handled : List LogRecord) × Moved w w'
            (accepted actions w)
            handled
            (total local_time (submitted actions))
  unfolding run
  run-Moved [] w keeps room = (
    w,
    refl,
    [],
    record {
      same_config = refl;
      fifo = append-nil (pending w);
      wrote = refl;
      seen = sym (append-nil w.console);
      bounded = omega arith;
    },
  )
  run-Moved (submit rec ∷ actions) w keeps room =
      let first = enqueue-Moved rec w in
      let (w', ran, handled, rest) =
        run-Moved actions (enqueue rec w) (subst KeepsFiles (sym first.same_config) keeps)
          (omega (arith, first.bounded, ap max_bytes first.same_config)) in
      (w', ran, handled, Moved-trans first rest)
  run-Moved (shut ∷ actions) w keeps room =
      let first = stop-Moved w in
      let (w', ran, handled, rest) =
        run-Moved actions (stop w) (subst KeepsFiles (sym first.same_config) keeps)
          (omega (arith, first.bounded, ap max_bytes first.same_config)) in
      (w', ran, handled, idle_trans first rest)
  run-Moved (io m ∷ actions) w keeps room =
      let (w₁, stepped, handled₁, first) = io_step-Moved m w keeps (omega arith) in
      let (w', ran, handled, rest) =
        run-Moved actions w₁ (subst KeepsFiles (sym first.same_config) keeps)
          (omega (arith, first.bounded, ap max_bytes first.same_config)) in
      (
        w',
        ap (λ o. and_then o (run local_time actions)) stepped ∙ ran,
        handled₁ ++ handled,
        subst
            (λ taken. Moved w w' taken (handled₁ ++ handled) (total local_time (submitted actions)))
            (sym (ap (λ o. after o (accepted actions)) stepped)) (idle_trans first rest),
      )
