-- ===== src/Session/Bars/Engine/Distinct.antt =====
-- The series of the `BarEngine` of ofe_session1_code/ofe/src/core/bar_engine.cpp are at most four, of
-- different sizes.
use rudra_org.Common.{
  ℕ, ◌≤◌, ◌<◌, ◌≡◌, refl, ap, ◌∙◌, Bool, true, false, not, Bool-cases, inl, inr, Option, none, some,
  List, [], ◌∷◌, ◌++◌, map, arith, leb, ◌==◌, if◌then◌else◌, length, length-append, length-map,
  select,
}
use rudra_org.Common.Int.{ℤ}
use rudra_org.Float.{Double, zero_D, ◌≤?◌}
use rudra_org.Session.Tick.{UniversalTickRecord, is_accumulatable}
use rudra_org.Session.BarTypes.{BarType, time, range, volume, BarSize, BarRecord, is_valid}
use rudra_org.Session.Bars.{
  BarSeries, make_series, on_tick, on_session_open, force_close_bar, take_tick, close_with,
  close_current_bar, bar_for, should_close, close_bar_of, accumulate,
}
use rudra_org.Session.Bars.Engine.{
  BarEngine, Request, add, remove, tick_in, session_open, session_close, same_type, same_size,
  has_size, add_series, with_series, remove_series, engine_on_tick, engine_on_session_open,
  on_session_close, after_add, serve, serve_all,
}

same_type_comm : (a b : BarType) → same_type a b ≡ same_type b a
same_type_comm time time = refl
same_type_comm time range = refl
same_type_comm time volume = refl
same_type_comm range time = refl
same_type_comm range range = refl
same_type_comm range volume = refl
same_type_comm volume time = refl
same_type_comm volume range = refl
same_type_comm volume volume = refl

same_size_comm : (a b : BarSize) → same_size a b ≡ same_size b a
same_size_comm a b =
    let numbers : (a.size_value == b.size_value) ≡ (b.size_value == a.size_value) = ground arith in
    rw (same_type_comm a.bar_type b.bar_type, numbers) refl

neither : (b c : Bool) → (if b then true else c) ≡ false → (b ≡ false) × (c ≡ false)
neither true c e = absurd cc
neither false c e = (refl, e)

module _ {D : Type 0} where
  abbrev pub AreDistinct : List (BarSeries D) → Type 0
  AreDistinct [] = Unit
  AreDistinct (s ∷ ss) = (has_size s.bar_size ss ≡ false) × AreDistinct ss

  pub record IsValid (e : BarEngine D) : Type 0 where
    pub at_most_four : length e.series ≤ 4
    pub distinct : AreDistinct e.series

  has_size-cons :
      (size : BarSize) (t : BarSeries D) (ss : List (BarSeries D))
      → same_size t.bar_size size ≡ false
      → has_size size ss ≡ false
      → has_size size (t ∷ ss) ≡ false
  unfolding has_size
  has_size-cons size t ss h k = rw h k

  has_size-uncons :
      (size : BarSize) (t : BarSeries D) (ss : List (BarSeries D))
      → has_size size (t ∷ ss) ≡ false
      → (same_size t.bar_size size ≡ false) × (has_size size ss ≡ false)
  unfolding has_size
  has_size-uncons size t ss h = neither (same_size t.bar_size size) (has_size size ss) h

  has_size-snoc :
      (size : BarSize) (ss : List (BarSeries D)) (s : BarSeries D)
      → has_size size ss ≡ false
      → same_size s.bar_size size ≡ false
      → has_size size (ss ++ s ∷ []) ≡ false
  has_size-snoc size [] s h k = has_size-cons size s [] k h
  has_size-snoc size (t ∷ ss) s h k =
      let (other, rest) = has_size-uncons size t ss h in
      has_size-cons size t (ss ++ s ∷ []) other (has_size-snoc size ss s rest k)

  AreDistinct-snoc :
      (ss : List (BarSeries D)) (s : BarSeries D)
      → has_size s.bar_size ss ≡ false
      → AreDistinct ss
      → AreDistinct (ss ++ s ∷ [])
  unfolding has_size
  AreDistinct-snoc [] s h v = (refl, tt)
  AreDistinct-snoc (t ∷ ss) s h (apart, v) =
      let (other, rest) = has_size-uncons s.bar_size t ss h in
      (
        has_size-snoc t.bar_size ss s apart (same_size_comm s.bar_size t.bar_size ∙ other),
        AreDistinct-snoc ss s rest v,
      )

  has_size-select :
      (p : BarSeries D → Bool) (size : BarSize) (ss : List (BarSeries D))
      → has_size size ss ≡ false
      → has_size size (select p ss) ≡ false
  has_size-select p size [] h = h
  has_size-select p size (t ∷ ss) h =
      let (other, rest) = has_size-uncons size t ss h in
      let ih = has_size-select p size ss rest in
      elim (Bool-cases (p t)) [
        | inl kept ↦ rw kept (has_size-cons size t (select p ss) other ih)
        | inr gone ↦ rw gone ih
      ]

  AreDistinct-select :
      (p : BarSeries D → Bool) (ss : List (BarSeries D))
      → AreDistinct ss
      → AreDistinct (select p ss) × (length (select p ss) ≤ length ss)
  AreDistinct-select p [] v = (tt, omega arith)
  AreDistinct-select p (t ∷ ss) (apart, v) =
      let (v', shorter) = AreDistinct-select p ss v in
      elim (Bool-cases (p t)) [
        | inl kept ↦ rw kept ((has_size-select p t.bar_size ss apart, v'), omega (arith, shorter))
        | inr gone ↦ rw gone (v', omega (arith, shorter))
      ]

  has_size-map :
      (f : BarSeries D → BarSeries D) (size : BarSize) (ss : List (BarSeries D))
      → ((s : BarSeries D) → (f s).bar_size ≡ s.bar_size)
      → has_size size ss ≡ false
      → has_size size (map f ss) ≡ false
  has_size-map f size [] keeps h = h
  has_size-map f size (t ∷ ss) keeps h =
      let (other, rest) = has_size-uncons size t ss h in
      has_size-cons size (f t) (map f ss) (ap (λ own. same_size own size) (keeps t) ∙ other)
        (has_size-map f size ss keeps rest)

  AreDistinct-map :
      (f : BarSeries D → BarSeries D) (ss : List (BarSeries D))
      → ((s : BarSeries D) → (f s).bar_size ≡ s.bar_size)
      → AreDistinct ss
      → AreDistinct (map f ss)
  AreDistinct-map f [] keeps v = tt
  AreDistinct-map f (t ∷ ss) keeps (apart, v) = (
    ap (λ size. has_size size (map f ss)) (keeps t) ∙ has_size-map f t.bar_size ss keeps apart,
    AreDistinct-map f ss keeps v,
  )

  map-IsValid :
      (e : BarEngine D) (f : BarSeries D → BarSeries D)
      → ((s : BarSeries D) → (f s).bar_size ≡ s.bar_size)
      → IsValid e
      → IsValid (record e { series = map f e.series })
  map-IsValid e f keeps v = record {
    at_most_four = omega (arith, length-map e.series f, v.at_most_four);
    distinct = AreDistinct-map f e.series keeps v.distinct;
  }

module _ {D : Type 0} ⦃d : Double D⦄ where
  close_keeps :
      (s : BarSeries D) (now : ℤ) (o : Option (BarRecord D))
      → (close_bar_of s now o).bar_size ≡ s.bar_size
  unfolding close_with
  close_keeps s now none = refl
  close_keeps s now (some bar) = refl

  take_tick_keeps :
      (s : BarSeries D) (tick : UniversalTickRecord D) (bar : BarRecord D)
      → (take_tick s tick bar).bar_size ≡ s.bar_size
  unfolding take_tick close_with
  take_tick_keeps s tick bar = split (should_close s bar tick)
    where
      bar' : BarRecord D
      bar' = accumulate s tick bar

      split :
          (b : Bool)
          → (if b
              then close_with s bar' tick.exchange_ts_ns
              else record s { current_bar = some bar' }).bar_size
            ≡ s.bar_size
      split true = refl
      split false = refl

  on_tick_keeps :
      (tick : UniversalTickRecord D) (s : BarSeries D) → (on_tick s tick).bar_size ≡ s.bar_size
  unfolding on_tick
  on_tick_keeps tick s = split (is_accumulatable tick)
    where
      split :
          (b : Bool)
          → (if not b then s else take_tick s tick (bar_for s tick s.current_bar)).bar_size
            ≡ s.bar_size
      split true = take_tick_keeps s tick (bar_for s tick s.current_bar)
      split false = refl

  abbrev size_or : BarSize → Option (BarSeries D) → BarSize
  size_or size none = size
  size_or size (some s) = s.bar_size

  make_series_size :
      (size : BarSize) (symbol : List ℕ) (symbol_id : ℕ) (tick_size : D) (callback : Bool)
      → size_or size (make_series size symbol symbol_id tick_size callback) ≡ size
  unfolding make_series
  make_series_size size symbol symbol_id tick_size callback =
      split (not (is_valid size)) (tick_size ≤? zero_D)
    where
      made : BarSeries D
      made = record {
        bar_size = size;
        symbol = symbol;
        symbol_id = symbol_id;
        tick_size = tick_size;
        has_callback = callback;
        current_bar = none;
        last_bar = none;
        published = [];
      }

      split : (b c : Bool) → size_or size (if b then none else if c then none else some made) ≡ size
      split true c = refl
      split false true = refl
      split false false = refl

  with_series-IsValid :
      (e : BarEngine D) (size : BarSize) (made : Option (BarSeries D))
      → size_or size made ≡ size
      → IsValid e
      → length e.series < 4
      → has_size size e.series ≡ false
      → IsValid (after_add e (with_series e made))
  with_series-IsValid e size none own v room new = v
  with_series-IsValid e size (some s) own v room new = record {
    at_most_four = omega (arith, length-append e.series (s ∷ []), room);
    distinct = AreDistinct-snoc e.series s (ap (λ t. has_size t e.series) own ∙ new) v.distinct;
  }

  add_series-IsValid :
      (e : BarEngine D) (size : BarSize) → IsValid e → IsValid (after_add e (add_series e size))
  unfolding add_series
  add_series-IsValid e size v = split (leb 4 (length e.series)) (has_size size e.series) refl refl
    where
      made : Option (BarSeries D)
      made = make_series size e.symbol e.symbol_id e.tick_size e.has_callback

      split :
          (b c : Bool)
          → leb 4 (length e.series) ≡ b
          → has_size size e.series ≡ c
          → IsValid (
              after_add e
                (if b then some (false, e) else if c then some (false, e) else with_series e made))
      split true c full known = v
      split false true full known = v
      split false false full known =
          with_series-IsValid e size made
            (make_series_size size e.symbol e.symbol_id e.tick_size e.has_callback) v (ground arith)
            known

  serve-IsValid : (e : BarEngine D) (request : Request D) → IsValid e → IsValid (serve e request)
  unfolding serve remove_series engine_on_tick engine_on_session_open on_session_close
      on_session_open close_current_bar force_close_bar
  serve-IsValid e (add size) v = add_series-IsValid e size v
  serve-IsValid e (remove size) v =
      let (v', shorter) =
        AreDistinct-select (λ s. not (same_size s.bar_size size)) e.series v.distinct in
      record { at_most_four = omega (arith, shorter, v.at_most_four); distinct = v' }
  serve-IsValid e (tick_in tick) v = map-IsValid e (λ s. on_tick s tick) (on_tick_keeps tick) v
  serve-IsValid e (session_open now) v =
      map-IsValid e (λ s. on_session_open s now) (λ s. close_keeps s now s.current_bar) v
  serve-IsValid e (session_close now) v =
      map-IsValid e (λ s. force_close_bar s now) (λ s. close_keeps s now s.current_bar) v

  -- Whatever series are added and removed, and whatever ticks and sessions pass, an engine never has
  -- more than four series, and no two of one size.
  pub serve_all-IsValid :
      (e : BarEngine D) (requests : List (Request D)) → IsValid e → IsValid (serve_all e requests)
  unfolding serve_all
  serve_all-IsValid e [] v = v
  serve_all-IsValid e (request ∷ requests) v =
      serve_all-IsValid (serve e request) requests (serve-IsValid e request v)
