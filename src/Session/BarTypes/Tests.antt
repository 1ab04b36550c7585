-- ===== src/Session/BarTypes/Tests.antt =====
-- Labels of concrete bar sizes.
use rudra_org.Common.{◌≡◌, refl, some}
use rudra_org.Common.Text.{codes, numeral}
use rudra_org.Session.BarTypes.{BarSize, time, volume, label, is_valid}
use rudra_org.Session.BarTypes.Labels.{read_label, rounded, read_label-label}

four_hours : label (record { bar_type = time; size_value = 14400 }) ≡ codes "4h"
unfolding label numeral
four_hours = refl

-- A header gives "5000-vol" as an example of a label.
five_thousand : label (record { bar_type = volume; size_value = 5000 }) ≡ codes "5K-vol"
unfolding label numeral
five_thousand = refl

abbrev contracts : BarSize
contracts = record { bar_type = volume; size_value = 1500 }

read_label-label_example : read_label (label contracts) ≡ some (rounded contracts)
unfolding is_valid
read_label-label_example = read_label-label contracts refl
