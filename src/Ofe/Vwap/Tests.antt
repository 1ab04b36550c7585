-- ===== src/Ofe/Vwap/Tests.antt =====
-- Runs of the average price, and its theorem at a concrete history.
use rudra_org.Common.{◌*◌, ◌≡◌, refl, List, [], ◌∷◌}
use rudra_org.Common.Int.{pos}
use rudra_org.Float.Fixed.{Fixed, fixed_double, unit}
use rudra_org.Ofe.Vwap.{Call, reset_call, add_call, reset, add, run, snapshot}
use rudra_org.Ofe.Vwap.Sums.{since_reset, total, sums, run-sums}

-- A reset, an add of no volume, and two trades around 100.
abbrev calls : List (Call Fixed)
calls =
    add_call (pos (90 * unit)) (pos (5 * unit))
    ∷ reset_call
    ∷ add_call (pos (98 * unit)) (pos (2 * unit))
    ∷ add_call (pos (70 * unit)) (pos 0)
    ∷ add_call (pos (102 * unit)) (pos (2 * unit))
    ∷ []

averaged : (snapshot (run calls reset)).vwap ≡ pos (100 * unit)
unfolding snapshot reset add
averaged = refl

run-sums_example :
    let ts = since_reset [] calls in
    (run calls reset ≡ sums ts)
    × ((snapshot (run calls reset)).total_volume ≡ total (λ t. t.volume) ts)
run-sums_example = run-sums calls
