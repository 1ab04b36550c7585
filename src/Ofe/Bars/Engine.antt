-- ===== src/Ofe/Bars/Engine.antt =====
-- `BarEngine` of include/ofe/core/bar_engine.h: the bar series of every symbol.
use rudra_org.Common.{
  ℕ, ◌≡◌, refl, ap, ◌∙◌, Bool, Bool-cases, Option, none, some, List, [], ◌∷◌, ◌++◌, map, ◌==◌,
  if◌then◌else◌, select, inl, inr,
}
use rudra_org.Common.Assoc.{
  Entry, map_option, value_or, lookup, alter, modify, lookup-alter, lookup-modify_self,
  lookup-modify_other,
}
use rudra_org.Float.{Double}
use rudra_org.Ofe.Tick.{UniversalTickRecord}
use rudra_org.Ofe.Bars.{BarType, BarSeries, make_series, ingest, ingest_all}

pub record BarEngine (D : Type 0) : Type 0 where
  pub series_by_symbol : List (Entry (List (BarSeries D)))

module _ {D : Type 0} ⦃d : Double D⦄ where
  abbrev pub series_of : BarEngine D → ℕ → Option (List (BarSeries D))
  series_of engine symbol_id = lookup engine.series_by_symbol symbol_id

  unfoldable pub add_series : BarEngine D → ℕ → BarType → ℕ → BarEngine D
  add_series engine symbol_id bar_type threshold = record {
    series_by_symbol =
        alter engine.series_by_symbol symbol_id []
          (λ series. series ++ make_series bar_type threshold ∷ []);
  }

  unfoldable pub ingest_tick : BarEngine D → UniversalTickRecord D → BarEngine D
  ingest_tick engine tick = record {
    series_by_symbol =
        modify engine.series_by_symbol tick.symbol_id (map (λ series. ingest series tick));
  }

  unfoldable pub ingest_ticks : BarEngine D → List (UniversalTickRecord D) → BarEngine D
  ingest_ticks engine [] = engine
  ingest_ticks engine (tick ∷ ticks) = ingest_ticks (ingest_tick engine tick) ticks

  -- A new series is the last one of its symbol, and the series of the other symbols stay.
  series_of-add_series :
      (engine : BarEngine D) (symbol_id other : ℕ) (bar_type : BarType) (threshold : ℕ)
      → series_of (add_series engine symbol_id bar_type threshold) other ≡ (
          if symbol_id == other
          then some
              (value_or [] (series_of engine symbol_id) ++ make_series bar_type threshold ∷ [])
          else series_of engine other)
  unfolding add_series
  series_of-add_series engine symbol_id other bar_type threshold =
      lookup-alter engine.series_by_symbol symbol_id other [] _

  abbrev of_symbol : ℕ → UniversalTickRecord D → Bool
  of_symbol symbol_id tick = tick.symbol_id == symbol_id

  abbrev each_ingests : List (UniversalTickRecord D) → List (BarSeries D) → List (BarSeries D)
  each_ingests ticks = map (λ series. ingest_all series ticks)

  map-ingest_nil : (series : List (BarSeries D)) → series ≡ each_ingests [] series
  unfolding ingest_all
  map-ingest_nil [] = refl
  map-ingest_nil (s ∷ series) = ap (λ rest. s ∷ rest) (map-ingest_nil series)

  map-ingest_cons :
      (series : List (BarSeries D)) (tick : UniversalTickRecord D)
      (ticks : List (UniversalTickRecord D))
      → each_ingests ticks (map (λ s. ingest s tick) series) ≡ each_ingests (tick ∷ ticks) series
  unfolding ingest_all
  map-ingest_cons [] tick ticks = refl
  map-ingest_cons (s ∷ series) tick ticks =
      ap (λ rest. ingest_all (ingest s tick) ticks ∷ rest) (map-ingest_cons series tick ticks)

  option-ingest_nil :
      (found : Option (List (BarSeries D))) → found ≡ map_option (each_ingests []) found
  unfolding map_option
  option-ingest_nil none = refl
  option-ingest_nil (some series) = ap some (map-ingest_nil series)

  option-ingest_cons :
      (found : Option (List (BarSeries D))) (tick : UniversalTickRecord D)
      (ticks : List (UniversalTickRecord D))
      → map_option (each_ingests ticks) (map_option (map (λ s. ingest s tick)) found)
        ≡ map_option (each_ingests (tick ∷ ticks)) found
  unfolding map_option
  option-ingest_cons none tick ticks = refl
  option-ingest_cons (some series) tick ticks = ap some (map-ingest_cons series tick ticks)

  -- Whatever the interleaving of the symbols, every series of a symbol has ingested exactly the
  -- ticks of its own symbol, in their order.
  pub series_of-ingest_ticks :
      (engine : BarEngine D) (ticks : List (UniversalTickRecord D)) (symbol_id : ℕ)
      → series_of (ingest_ticks engine ticks) symbol_id
        ≡ map_option
            (each_ingests (select (of_symbol symbol_id) ticks))
            (series_of engine symbol_id)
  unfolding ingest_ticks ingest_tick
  series_of-ingest_ticks engine [] symbol_id = option-ingest_nil (series_of engine symbol_id)
  series_of-ingest_ticks engine (tick ∷ ticks) symbol_id =
      let found = series_of engine symbol_id in
      let mine = select (of_symbol symbol_id) ticks in
      let later = series_of-ingest_ticks (ingest_tick engine tick) ticks symbol_id in
      elim (Bool-cases (tick.symbol_id == symbol_id)) [
        | inl same ↦ rw same (
            later
            ∙ ap (map_option (each_ingests mine))
                (lookup-modify_self engine.series_by_symbol tick.symbol_id symbol_id _ same)
            ∙ option-ingest_cons found tick mine)
        | inr apart ↦ rw apart (
            later
            ∙ ap (map_option (each_ingests mine))
                (lookup-modify_other engine.series_by_symbol tick.symbol_id symbol_id _ apart))
      ]
