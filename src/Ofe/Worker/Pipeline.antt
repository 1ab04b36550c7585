-- ===== src/Ofe/Worker/Pipeline.antt =====
-- What the worker of include/ofe/core/symbol_worker.h does under every schedule of its two threads.
use mathlib.Core.Path.{subst}
use mathlib.Core.List.{append_assoc, append-nil, map-append}
use rudra_org.Common.{
  ◌^◌, ◌≡◌, refl, sym, ap, ap₂, ◌∙◌, Bool, true, false, some, List, [], ◌∷◌, ◌++◌, map, foldl,
  arith, ltb, ltb→lt, if◌then◌else◌, length, if-append, foldl-append, Bool-cases, inl, inr,
}
use rudra_org.Float.{Double}
use rudra_org.Ofe.Tick.{UniversalTickRecord}
use rudra_org.Ofe.Ring.{RingBuffer}
use rudra_org.Ofe.Ring.Refine.{
  Refines, try_push_full, try_push_room, pushed_ring-Refines, try_pop_nothing, try_pop_item,
  popped_ring, popped_ring-Refines,
}
use rudra_org.Ofe.Signals.{SignalEvent}
use rudra_org.Ofe.Worker.{
  SymbolWorker, Action, submit_tick, run_round, ingress_exponent, submit, round, perform, process,
  publish_tick, run_stages, tick_event,
}

join_events :
    {D : Type 0} ⦃d : Double D⦄ (bus : Bool) (before : List (SignalEvent D))
    (one two : List (UniversalTickRecord D))
    → (before ++ (if bus then map tick_event one else []))
        ++ (if bus then map tick_event two else [])
      ≡ before ++ (if bus then map tick_event (one ++ two) else [])
join_events true before one two = rw (append_assoc, map-append)
join_events false before one two = rw (append_assoc)

module _ {D S : Type 0} ⦃d : Double D⦄ where
  -- The worker runs, and its buffer holds the ticks `q`.
  pub record Queued (w : SymbolWorker D S) (q : List (UniversalTickRecord D)) : Type 0 where
    pub runs : w.running ≡ true
    pub queue : Refines ingress_exponent w.ingress q

  -- Between two moments of one worker the ticks `handled` went through all the stages one after
  -- another, and each was published where there is a bus.
  pub record Handled (w w' : SymbolWorker D S) (handled : List (UniversalTickRecord D))
      : Type 0 where
    pub same_stages : w'.stages ≡ w.stages
    pub same_bus : w'.has_bus ≡ w.has_bus
    pub effect : w'.shared ≡ foldl (λ s tick. run_stages w.stages 0 tick s) w.shared handled
    pub events : w'.published ≡ w.published ++ (if w.has_bus then map tick_event handled else [])

  Handled-refl : (w : SymbolWorker D S) → Handled w w []
  Handled-refl w = record {
    same_stages = refl;
    same_bus = refl;
    effect = refl;
    events = elim (Bool-cases w.has_bus) [
      | inl e ↦ rw (e, append-nil)
      | inr e ↦ rw (e, append-nil)
    ];
  }

  Handled-trans :
      {w w₁ w₂ : SymbolWorker D S} (one two : List (UniversalTickRecord D))
      → Handled w w₁ one
      → Handled w₁ w₂ two
      → Handled w w₂ (one ++ two)
  Handled-trans {w} {w₁} {w₂} one two h k = record {
    same_stages = k.same_stages ∙ h.same_stages;
    same_bus = k.same_bus ∙ h.same_bus;
    effect =
        k.effect
        ∙ ap₂ (λ stages s. foldl (λ s tick. run_stages stages 0 tick s) s two) h.same_stages
            h.effect
        ∙ sym (foldl-append (λ s tick. run_stages w.stages 0 tick s) one two w.shared);
    events =
        k.events
        ∙ ap₂ (λ before bus. before ++ (if bus then map tick_event two else [])) h.events h.same_bus
        ∙ join_events w.has_bus w.published one two;
  }

  process-Handled :
      (w : SymbolWorker D S) (ring : RingBuffer (UniversalTickRecord D))
      (tick : UniversalTickRecord D)
      → Handled w (process (record w { ingress = ring }) tick) (tick ∷ [])
  unfolding process publish_tick
  process-Handled w ring tick = elim (Bool-cases w.has_bus) [
    | inl e ↦ rw e (record { same_stages = refl; same_bus = refl; effect = refl; events = refl })
    | inr e ↦
        rw e (record {
          same_stages = refl;
          same_bus = refl;
          effect = refl;
          events = sym (append-nil _);
        })
  ]

  process-ingress :
      (w : SymbolWorker D S) (tick : UniversalTickRecord D)
      → ((process w tick).ingress ≡ w.ingress) × ((process w tick).running ≡ w.running)
  unfolding process publish_tick
  process-ingress w tick = elim (Bool-cases w.has_bus) [
    | inl e ↦ rw e (refl, refl)
    | inr e ↦ rw e (refl, refl)
  ]

  -- From `w` to `w'`, with `q` waiting before and `accepted` submitted since: `handled` have been
  -- processed, `left` wait, and together they are `q` and then `accepted`, in that order.
  pub record Progress (w w' : SymbolWorker D S) (q accepted : List (UniversalTickRecord D))
      : Type 0 where
    pub handled : List (UniversalTickRecord D)
    pub left : List (UniversalTickRecord D)
    pub queued : Queued w' left
    pub done : Handled w w' handled
    pub fifo : q ++ accepted ≡ handled ++ left

  submit_lem :
      (w : SymbolWorker D S) (q : List (UniversalTickRecord D)) (tick : UniversalTickRecord D)
      → Queued w q
      → let (accepts, w') = submit w tick in Progress w w' q (if accepts then tick ∷ [] else [])
  unfolding submit
  submit_lem w q tick v = elim (Bool-cases (ltb (length q) (2 ^ 12))) [
    | inl fits ↦ rw (try_push_room ingress_exponent tick v.queue (ltb→lt _ _ fits)) (record {
      handled = [];
      left = q ++ tick ∷ [];
      queued = record {
        runs = v.runs;
        queue = pushed_ring-Refines ingress_exponent tick v.queue (ltb→lt _ _ fits);
      };
      done = record {
        same_stages = refl;
        same_bus = refl;
        effect = refl;
        events = (Handled-refl w).events;
      };
      fifo = refl;
    })
    | inr full ↦
        rw (try_push_full ingress_exponent tick v.queue (ground (arith, v.queue.room))) (record {
          handled = [];
          left = q;
          queued = v;
          done = Handled-refl w;
          fifo = append-nil q;
        })
  ]

  round_lem :
      (w : SymbolWorker D S) (q : List (UniversalTickRecord D))
      → Queued w q
      → (w' : SymbolWorker D S) × (round w ≡ some w') × Progress w w' q []
  unfolding round
  round_lem w [] v = (
    w,
    rw (v.runs, try_pop_nothing ingress_exponent v.queue),
    record { handled = []; left = []; queued = v; done = Handled-refl w; fifo = refl },
  )
  round_lem w (tick ∷ q) v =
      let ring = popped_ring ingress_exponent w.ingress in
      let w₁ : SymbolWorker D S = record w { ingress = ring } in
      (
        process w₁ tick,
        rw (v.runs, try_pop_item ingress_exponent tick v.queue),
        record {
          handled = tick ∷ [];
          left = q;
          queued = record {
            runs = (process-ingress w₁ tick).1 ∙ v.runs;
            queue =
                rw ((process-ingress w₁ tick).0)
                  (popped_ring-Refines ingress_exponent tick v.queue);
          };
          done = process-Handled w ring tick;
          fifo = append-nil _;
        },
      )

  Progress-trans :
      {w w₁ w₂ : SymbolWorker D S} {q a₁ a₂ : List (UniversalTickRecord D)}
      → (one : Progress w w₁ q a₁) → Progress w₁ w₂ one.left a₂
      → Progress w w₂ q (a₁ ++ a₂)
  Progress-trans {q} {a₁} {a₂} one two = record {
    handled = one.handled ++ two.handled;
    left = two.left;
    queued = two.queued;
    done = Handled-trans one.handled two.handled one.done two.done;
    fifo =
        sym (append_assoc q a₁ a₂)
        ∙ ap (λ t. t ++ a₂) one.fifo
        ∙ append_assoc one.handled one.left a₂
        ∙ ap (λ t. one.handled ++ t) two.fifo
        ∙ sym (append_assoc one.handled two.handled two.left);
  }

  -- A running worker whose buffer holds the ticks `q`, under any schedule of submissions and rounds
  -- of the loop: nothing undefined happens, and the ticks processed so far followed by those still
  -- waiting are `q` followed by the accepted submissions, in order. Each processed tick went through
  -- all the stages before the next one did, and was published exactly once where there is a bus.
  pub perform-Progress :
      (w : SymbolWorker D S) (q : List (UniversalTickRecord D)) (actions : List (Action D))
      → Queued w q
      → (accepted : List (UniversalTickRecord D)) × (w' : SymbolWorker D S) × (perform w actions
          ≡ some (accepted, w'))
        × Progress w w' q accepted
  unfolding perform
  perform-Progress w q [] v = (
    [],
    w,
    refl,
    record { handled = []; left = q; queued = v; done = Handled-refl w; fifo = append-nil q },
  )
  perform-Progress w q (submit_tick tick ∷ rest) v =
      let one = submit_lem w q tick v in
      let (accepted, w', ran, two) = perform-Progress (submit w tick).1 one.left rest one.queued in
      let accepts = (submit w tick).0 in
      (
        if accepts then tick ∷ accepted else accepted,
        w',
        rw (ran, perform),
        subst (Progress w w' q) (if-append accepts tick accepted) (Progress-trans one two),
      )
  perform-Progress w q (run_round ∷ rest) v =
      let (w₁, rounds, one) = round_lem w q v in
      let (accepted, w', ran, two) = perform-Progress w₁ one.left rest one.queued in
      (accepted, w', rw (rounds, perform) ran, Progress-trans one two)
