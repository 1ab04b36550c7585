-- ===== src/Ofe/LeeReady/Tests.antt =====
-- Runs of the classifier, and its theorems at concrete quotes.
use rudra_org.Common.{◌≡◌, ◌≢◌, refl, none, some}
use rudra_org.Common.Int.{pos}
use rudra_org.Float.Fixed.{Fixed, fixed_double, Fixed-IsOrdered}
use rudra_org.Ofe.LeeReady.{unknown, buy, sell, QuoteSnapshot, classify}
use rudra_org.Ofe.LeeReady.Table.{IsNumeric, classify_normal, classify-ne-unknown}

-- Below the midpoint, inside the spread.
abbrev inside : QuoteSnapshot Fixed
inside = record { bid = pos 100; ask = pos 110; last_trade = pos 101 }

abbrev crossed : QuoteSnapshot Fixed
crossed = record { bid = pos 110; ask = pos 100; last_trade = pos 105 }

inside_buys : classify inside (some sell) ≡ buy
unfolding classify
inside_buys = refl

inside-IsNumeric : IsNumeric Fixed-IsOrdered inside
inside-IsNumeric = record { bid_num = refl; ask_num = refl; last_num = refl }

crossed-IsNumeric : IsNumeric Fixed-IsOrdered crossed
crossed-IsNumeric = record { bid_num = refl; ask_num = refl; last_num = refl }

classify_normal_example : classify inside (some sell) ≡ buy
classify_normal_example = classify_normal Fixed-IsOrdered inside (some sell) inside-IsNumeric refl

classify-ne-unknown_example : classify crossed none ≢ unknown
classify-ne-unknown_example = classify-ne-unknown Fixed-IsOrdered crossed crossed-IsNumeric
