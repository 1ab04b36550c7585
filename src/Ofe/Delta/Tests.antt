-- ===== src/Ofe/Delta/Tests.antt =====
-- Runs of the delta engine, and its theorems at concrete updates.
use rudra_org.Common.{◌≡◌, refl, List, [], ◌∷◌, All}
use rudra_org.Common.Int.{pos}
use rudra_org.Float.{◌≼◌}
use rudra_org.Float.Fixed.{Fixed, fixed_double, Fixed-IsOrdered}
use rudra_org.Ofe.Delta.{Update, reset, update, update_all}
use rudra_org.Ofe.Delta.Extremes.{update_all-Within, Within}

abbrev history : List (Update Fixed)
history =
    record { price = pos 100; buy_volume = pos 7; sell_volume = pos 2 }
    ∷ record { price = pos 101; buy_volume = pos 1; sell_volume = pos 4 }
    ∷ []

totals : (update_all reset history).state.cumulative_volume_delta ≡ pos 2
unfolding update_all update reset
totals = refl

update_all-Within_example :
    let e = update_all reset history in
    (e.state.min_delta ≼ pos 0)
    × (pos 0 ≼ e.state.max_delta)
    × All (Within Fixed-IsOrdered e.state.min_delta e.state.max_delta) history
unfolding reset
update_all-Within_example =
    update_all-Within Fixed-IsOrdered reset history refl refl (refl, (refl, tt))
