-- ===== src/Ofe/Delta.antt =====
-- include/ofe/analytics/delta_engine.h: buying against selling, update by update.
pub mod Extremes
mod Tests
use rudra_org.Common.{ℕ, ◌+◌, ◌%◌, ◌^◌, List, [], ◌∷◌, ◌==◌, if◌then◌else◌}
use rudra_org.Float.{Double, zero_D, fmax, fmin, ◌⊕◌, ◌⊖◌, ◌⊗◌}

pub record DeltaState (D : Type 0) : Type 0 where
  pub bar_delta : D
  pub max_delta : D
  pub min_delta : D
  pub cumulative_volume_delta : D
  pub divergence : D
  pub surge : D
  pub update_count : ℕ

pub record DeltaEngine (D : Type 0) : Type 0 where
  pub state : DeltaState D
  pub last_price : D

-- One call's arguments.
pub record Update (D : Type 0) : Type 0 where
  pub price : D
  pub buy_volume : D
  pub sell_volume : D

module _ {D : Type 0} ⦃d : Double D⦄ where
  unfoldable pub reset : DeltaEngine D
  reset = record {
    state = record {
      bar_delta = zero_D;
      max_delta = zero_D;
      min_delta = zero_D;
      cumulative_volume_delta = zero_D;
      divergence = zero_D;
      surge = zero_D;
      update_count = 0;
    };
    last_price = zero_D;
  }

  abbrev pub delta_of : Update D → D
  delta_of u = u.buy_volume ⊖ u.sell_volume

  unfoldable pub update : DeltaEngine D → Update D → DeltaEngine D
  unfolding fmax fmin
  update e u =
      let delta = delta_of u in
      record {
        state = record {
          bar_delta = delta;
          max_delta = fmax e.state.max_delta delta;
          min_delta = fmin e.state.min_delta delta;
          cumulative_volume_delta = e.state.cumulative_volume_delta ⊕ delta;
          divergence =
              if e.state.update_count == 0 then zero_D else (u.price ⊖ e.last_price) ⊗ delta;
          surge = d.fabs delta;
          update_count = (e.state.update_count + 1) % 2 ^ 64;
        };
        last_price = u.price;
      }

  unfoldable pub update_all : DeltaEngine D → List (Update D) → DeltaEngine D
  update_all e [] = e
  update_all e (u ∷ us) = update_all (update e u) us
