-- ===== src/Ofe/Router.antt =====
-- include/ofe/core/tick_router.h: ticks go to one of several locked queues by their symbol. Each
-- call holds its shard's mutex throughout, so a history is a sequence of calls.
pub mod Fifo
mod Tests
use rudra_org.Common.{
  ℕ, ◌%◌, ◌≡◌, Option, none, some, List, [], ◌∷◌, ◌++◌, ◌==◌, if◌then◌else◌, get_elem?, set,
  replicate,
}
use rudra_org.Ofe.Tick.{UniversalTickRecord}

-- A shard is its queue, oldest tick first.
pub record TickRouter (D : Type 0) : Type 0 where
  pub shard_count : ℕ
  pub shards : List (List (UniversalTickRecord D))

module _ {D : Type 0} where
  unfoldable pub make_router : ℕ → TickRouter D
  make_router requested =
      let count = if requested == 0 then 1 else requested in
      record { shard_count = count; shards = replicate count [] }

  unfoldable pub shard_for_symbol : TickRouter D → ℕ → ℕ
  shard_for_symbol r symbol_id = symbol_id % r.shard_count

  -- `none` is the exception of `shards_.at`.
  unfoldable pub dispatch : TickRouter D → UniversalTickRecord D → Option (TickRouter D)
  dispatch r tick =
      let index = shard_for_symbol r tick.symbol_id in
      elim (get_elem? r.shards index) [
        | none ↦ none
        | some queue ↦ some (record r { shards = set r.shards index (queue ++ tick ∷ []) })
      ]

  -- The inner option is what goes through `out`, and none for `false`.
  abbrev pub pop_queue :
      TickRouter D
      → ℕ
      → Option (List (UniversalTickRecord D))
      → Option (Option (UniversalTickRecord D) × TickRouter D)
  pop_queue r index none = none
  pop_queue r index (some []) = some (none, r)
  pop_queue r index (some (tick ∷ queue)) =
      some (some tick, record r { shards = set r.shards index queue })

  unfoldable pub try_pop : TickRouter D → ℕ → Option (Option (UniversalTickRecord D) × TickRouter D)
  try_pop r shard_index = pop_queue r shard_index (get_elem? r.shards shard_index)

  unfoldable pub dispatch_all : TickRouter D → List (UniversalTickRecord D) → Option (TickRouter D)
  dispatch_all r [] = some r
  dispatch_all r (tick ∷ ticks) = elim (dispatch r tick) [
    | none ↦ none
    | some r' ↦ dispatch_all r' ticks
  ]
