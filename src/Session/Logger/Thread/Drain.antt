-- ===== src/Session/Logger/Thread/Drain.antt =====
-- The end of the thread of ofe_session1_code/ofe/src/util/logger.cpp after a shutdown.
use mathlib.Core.List.{append_assoc, append-nil}
use mathlib.Core.Option.{some-injective, none-ne-some}
use mathlib.Core.Path.{subst}
use rudra_org.Common.{
  ℕ, ◌+◌, ◌≤◌, ◌<◌, ◌≡◌, refl, ap, ap₂, sym, ◌∙◌, ◌⊎◌, inl, inr, Bool, true, false, not, ◌&&◌,
  Option, none, some, List, [], ◌∷◌, ◌++◌, map, if◌then◌else◌, length, length-append, and_then, All,
  arith,
}
use rudra_org.Common.Int.{ℤ}
use rudra_org.Common.Text.{Text}
use rudra_org.Session.Logger.{LogConfig, LogRecord}
use rudra_org.Session.Logger.Files.{Moment, LogFiles, max_bytes, rotate_if_needed}
use rudra_org.Session.Logger.Thread.{
  Phase, waiting, writing, finished, LoggerImpl, stop, is_empty, write_rotated, write_record,
  io_from, io_step, shut, io, run,
}
use rudra_org.Session.Logger.Thread.Lines.{
  WritesLine, IsOpen, rotate_if_needed-IsOpen, WritesLine-IsOpen,
}
use rudra_org.Session.Logger.Format.{format_record}
use rudra_org.Session.Logger.Thread.Step.{
  KeepsFiles, Written, Written-trans, shown, shown-append, batch, pending, Stepped, io_from_lem,
}
use rudra_org.Session.Logger.Thread.Schedule.{load}

abbrev pub is_finished : Phase → Bool
is_finished finished = true
is_finished _ = false

-- The steps to the end, once nothing comes in.
abbrev need : Phase → List LogRecord → ℕ
need waiting q = length q + 2
need (writing recs) q = length recs + (if is_empty q then 1 else length q + 3)
need finished q = 0

-- A step ends the thread with nothing left in the queue, or leaves less to do.
abbrev Closer : ℕ → LoggerImpl → Type 0
Closer n w =
    ((w.phase ≡ finished) × (w.queue ≡ []))
    ⊎ ((is_finished w.phase ≡ false) × (need w.phase w.queue < n))

module _ (local_time : ℤ → Text) where
  io_from-Closer :
      (m : Moment) (p : Phase) (w w' : LoggerImpl)
      → w.running ≡ false
      → is_finished p ≡ false
      → io_from local_time m p w ≡ some w'
      → Closer (need p w.queue) w'
  unfolding write_record
  io_from-Closer m waiting w w' stopped going e = split w.queue w.running stopped e
    where
      split :
          (q : List LogRecord) (running : Bool)
          → running ≡ false
          → (if is_empty q && running
              then some w
              else some (record w { queue = []; phase = writing q }))
            ≡ some w'
          → Closer (length q + 2) w'
      split [] true off e' = cc
      split [] false off e' = subst (Closer 2) (some-injective _ _ e') (inr (refl, omega arith))
      split (rec ∷ q) running off e' =
          subst (Closer (length (rec ∷ q) + 2)) (some-injective _ _ e') (inr (refl, omega arith))
  io_from-Closer m (writing []) w w' stopped going e =
      subst (Closer (need (writing []) w.queue)) (some-injective _ _ e)
        (split w.queue w.running stopped)
    where
      split :
          (q : List LogRecord) (running : Bool)
          → running ≡ false
          → let p = if not running && is_empty q then finished else waiting in
            ((p ≡ finished) × (q ≡ []))
            ⊎ ((is_finished p ≡ false) × (need p q < need (writing []) q))
      split q true off = cc
      split [] false off = inl (refl, refl)
      split (rec ∷ q) false off = inr (refl, omega arith)
  io_from-Closer m (writing (rec ∷ recs)) w w' stopped going e =
      split (rotate_if_needed w.config m w.files) e
    where
      split :
          (o : Option LogFiles)
          → write_rotated local_time rec (record w { phase = writing recs }) o ≡ some w'
          → Closer (need (writing (rec ∷ recs)) w.queue) w'
      split none e' = absurd (none-ne-some w' e')
      split (some files) e' =
          subst (Closer (need (writing (rec ∷ recs)) w.queue)) (some-injective _ _ e')
            (inr (refl, omega arith))
  io_from-Closer m finished w w' stopped going e = cc

module _ (local_time : ℤ → Text) (P : Moment → Type 0) where
  -- The thread has ended and has written all that was pending in `w`, in its order.
  pub record Drained (w w' : LoggerImpl) : Type 0 where
    pub ended : w'.phase ≡ finished
    pub nothing_left : w'.queue ≡ []
    pub wrote : Written local_time P w.config w.files (pending w) w'.files
    pub seen : w'.console ≡ w.console ++ shown local_time w.config (pending w)

  ended_lem :
      (ms : List Moment) (w : LoggerImpl)
      → w.phase ≡ finished
      → run local_time (map io ms) w ≡ some w
  unfolding run io_step
  ended_lem [] w at = refl
  ended_lem (m ∷ ms) w at =
      ap (λ p. and_then (io_from local_time m p w) (run local_time (map io ms))) at
      ∙ ended_lem ms w at

  last-Drained :
      (w w₁ : LoggerImpl) (handled : List LogRecord)
      → Stepped local_time P w.phase w w₁ handled
      → w₁.phase ≡ finished
      → w₁.queue ≡ []
      → Drained w w₁
  last-Drained w w₁ handled s ended empty =
      let nothing : pending w₁ ≡ [] = ap₂ (λ p q. batch p ++ q) ended empty in
      let all : pending w ≡ handled =
        s.fifo ∙ ap (λ (t : List LogRecord). handled ++ t) nothing ∙ append-nil handled in
      record {
        ended = ended;
        nothing_left = empty;
        wrote =
            subst (λ recs. Written local_time P w.config w.files recs w₁.files) (sym all) s.wrote;
        seen =
            s.seen
            ∙ ap (λ (t : List LogRecord). w.console ++ shown local_time w.config t) (sym all);
      }

  step-Drained :
      (w w₁ w' : LoggerImpl) (handled : List LogRecord)
      → Stepped local_time P w.phase w w₁ handled
      → Drained w₁ w'
      → Drained w w'
  step-Drained w w₁ w' handled s rest = record {
    ended = rest.ended;
    nothing_left = rest.nothing_left;
    wrote =
        subst (λ recs. Written local_time P w.config w.files recs w'.files) (sym s.fifo)
          (Written-trans local_time P handled (pending w₁) w.config w.files w₁.files w'.files
            s.wrote
            (subst (λ config. Written local_time P config w₁.files (pending w₁) w'.files)
              s.same_config rest.wrote));
    seen =
        rest.seen
        ∙ ap₂ (λ (t : List Text) config. t ++ shown local_time config (pending w₁)) s.seen
            s.same_config
        ∙ append_assoc w.console (shown local_time w.config handled)
            (shown local_time w.config (pending w₁))
        ∙ ap (λ (t : List Text). w.console ++ t)
            (sym (shown-append local_time w.config handled (pending w₁))
              ∙ ap (shown local_time w.config) (sym s.fifo));
  }

  need_pos : (p : Phase) (q : List LogRecord) → is_finished p ≡ false → 1 ≤ need p q
  need_pos waiting q h = omega arith
  need_pos (writing recs) [] h = omega arith
  need_pos (writing recs) (rec ∷ q) h = omega arith
  need_pos finished q h = cc

  need-le : (p : Phase) (q : List LogRecord) → need p q ≤ length (batch p ++ q) + 3
  need-le waiting q = omega arith
  need-le (writing recs) [] = omega (arith, length-append recs [])
  need-le (writing recs) (rec ∷ q) = omega (arith, length-append recs (rec ∷ q))
  need-le finished q = omega arith

  drain_from :
      (ms : List Moment) (w : LoggerImpl)
      → All P ms
      → KeepsFiles w.config
      → load local_time w < max_bytes w.config
      → w.running ≡ false
      → is_finished w.phase ≡ false
      → need w.phase w.queue ≤ length ms
      → (w' : LoggerImpl) × (run local_time (map io ms) w ≡ some w') × Drained w w'
  unfolding run io_step
  drain_from [] w nows keeps room stopped going enough =
      absurd (omega (arith, need_pos w.phase w.queue going))
  drain_from (m ∷ ms) w (now, nows) keeps room stopped going enough =
      let (w₁, stepped, handled, s) = io_from_lem local_time P m w.phase w now refl keeps room in
      let first = ap (λ o. and_then o (run local_time (map io ms))) stepped in
      elim (io_from-Closer local_time m w.phase w w₁ stopped going stepped) [
        | inl (ended, empty) ↦
            (w₁, first ∙ ended_lem ms w₁ ended, last-Drained w w₁ handled s ended empty)
        | inr (still, less) ↦
            let (w', ran, rest) =
              drain_from ms w₁ nows (subst KeepsFiles (sym s.same_config) keeps)
                (omega (arith, s.load, ap max_bytes s.same_config)) (s.same_running ∙ stopped) still
                (omega arith) in
            (w', first ∙ ran, step-Drained w w₁ w' handled s rest)
      ]

  -- The destructor, with moments of the property.
  pub destructor-Drained :
      (ms : List Moment) (w : LoggerImpl)
      → All P ms
      → KeepsFiles w.config
      → load local_time w < max_bytes w.config
      → is_finished w.phase ≡ false
      → length (pending w) + 3 ≤ length ms
      → (w' : LoggerImpl) × (run local_time (shut ∷ map io ms) w ≡ some w') × Drained w w'
  unfolding run stop
  destructor-Drained ms w nows keeps room going enough =
      let (w', ran, drained) =
        drain_from ms (record w { running = false }) nows keeps room refl going
          (omega (arith, need-le w.phase w.queue)) in
      (
        w',
        ran,
        record {
          ended = drained.ended;
          nothing_left = drained.nothing_left;
          wrote = drained.wrote;
          seen = drained.seen;
        },
      )

module _ (local_time : ℤ → Text) where
  -- The lines of the records were written one after another, each at the end of a file that is open
  -- after the rotation at some moment, and no other file changed.
  abbrev pub OnFiles : LogConfig → LogFiles → List LogRecord → LogFiles → Type 0
  OnFiles config f [] f' = f' ≡ f
  OnFiles config f (rec ∷ recs) f' =
      (m : Moment) × (f₁ f₂ : LogFiles) × (n : Text) × (rotate_if_needed config m f ≡ some f₁)
      × (f₁.file ≡ some n)
      × WritesLine (some n) (format_record local_time rec) f₁ f₂
      × OnFiles config f₂ recs f'

  Written-OnFiles :
      (config : LogConfig) (recs : List LogRecord) (f f' : LogFiles)
      → IsOpen f
      → Written local_time (λ m. m.opens ≡ true) config f recs f'
      → OnFiles config f recs f'
  Written-OnFiles config [] f f' is_open same = same
  Written-OnFiles config (rec ∷ recs) f f' is_open (m, f₁, f₂, opens, rotated, wrote, rest) =
      let line = format_record local_time rec in
      let (n, at) = rotate_if_needed-IsOpen config m f f₁ opens is_open rotated in
      let wrote' = subst (λ o. WritesLine o line f₁ f₂) at wrote in
      (
        m,
        f₁,
        f₂,
        n,
        rotated,
        at,
        wrote',
        Written-OnFiles config recs f₂ f' (WritesLine-IsOpen n line f₁ f₂ at wrote') rest,
      )

  -- A shutdown with nothing more coming in, where a file is open and every later opening succeeds,
  -- the limit of the files is not negative and the lines stay below the size limit. The thread ends
  -- within the number of pending records and three more steps. By then the line of every one of
  -- them was written, in their order, at the end of the file that was open after the rotation at
  -- some moment, and no other file changed; lines for a file that a purge has removed are lost with
  -- it. The console shows every one.
  pub shutdown-Drained :
      (ms : List Moment) (w : LoggerImpl)
      → IsOpen w.files
      → All (λ (m : Moment). m.opens ≡ true) ms
      → KeepsFiles w.config
      → load local_time w < max_bytes w.config
      → is_finished w.phase ≡ false
      → length (pending w) + 3 ≤ length ms
      → (w' : LoggerImpl) × (run local_time (shut ∷ map io ms) w ≡ some w')
        × (w'.phase ≡ finished)
        × (w'.queue ≡ [])
        × OnFiles w.config w.files (pending w) w'.files
        × (w'.console ≡ w.console ++ shown local_time w.config (pending w))
  shutdown-Drained ms w is_open opens keeps room going enough =
      let (w', ran, drained) =
        destructor-Drained local_time (λ m. m.opens ≡ true) ms w opens keeps room going enough in
      (
        w',
        ran,
        drained.ended,
        drained.nothing_left,
        Written-OnFiles w.config (pending w) w.files w'.files is_open drained.wrote,
        drained.seen,
      )
