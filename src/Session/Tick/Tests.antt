-- ===== src/Session/Tick/Tests.antt =====
-- Runs of the condition filter, and its theorem at concrete conditions.
use rudra_org.Common.{◌≡◌, refl, true, false}
use rudra_org.Session.Tick.{should_exclude_tick}
use rudra_org.Session.Tick.Filter.{should_exclude_tick_lem}

-- Extended hours count as an exclusion in regular hours only.
extended_hours : should_exclude_tick 1 false ≡ false
unfolding should_exclude_tick
extended_hours = refl

should_exclude_tick_lem_example : should_exclude_tick 36 false ≡ true
should_exclude_tick_lem_example = should_exclude_tick_lem 36 false
