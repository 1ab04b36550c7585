-- ===== src/Ofe/Router/Fifo.antt =====
-- The router of include/ofe/core/tick_router.h keeps each shard's ticks, in order.
use native.Mathlib.Nat.{mod-lt}
use mathlib.Core.List.{append_assoc, append-nil}
use mathlib.Core.Option.{some-injective}
use rudra_org.Common.Assoc.{map_option}
use rudra_org.Common.{
  Option-cases, get_elem?-same_length, ℕ, ◌%◌, ◌<◌, ◌≡◌, refl, sym, ap, ◌∙◌, Option, none, some,
  List, [], ◌∷◌, ◌++◌, arith, ◌==◌, if◌then◌else◌, length, get_elem?, set, get_elem?-of_lt,
  lt_of_get_elem?, get_elem?-set, length-set, select, Bool-cases, inl, inr, ==_iff,
  length-replicate,
}
use rudra_org.Ofe.Tick.{UniversalTickRecord}
use rudra_org.Ofe.Router.{
  TickRouter, make_router, shard_for_symbol, dispatch, dispatch_all, try_pop,
}

module _ {D : Type 0} where
  -- As many queues as shards, and at least one.
  pub record IsValid (r : TickRouter D) : Type 0 where
    pub some_shard : 0 < r.shard_count
    pub one_each : length r.shards ≡ r.shard_count

  pub make_router-IsValid : (requested : ℕ) → IsValid (make_router requested)
  unfolding make_router
  make_router-IsValid requested =
      let count : ℕ = if requested == 0 then 1 else requested in
      record { some_shard = ground arith; one_each = length-replicate count [] }

  -- The ticks of a list that belong to one shard.
  abbrev pub of_shard :
      TickRouter D → ℕ → List (UniversalTickRecord D) → List (UniversalTickRecord D)
  of_shard r index = select λ tick. shard_for_symbol r tick.symbol_id == index

  -- One call: the tick goes behind the queue of its own shard and no other queue changes.
  pub dispatch_lem :
      (r : TickRouter D) (tick : UniversalTickRecord D)
      → IsValid r
      → (r' : TickRouter D) × (dispatch r tick ≡ some r')
        × IsValid r'
        × (r'.shard_count ≡ r.shard_count)
        × ((index : ℕ) (queue : List (UniversalTickRecord D))
            → get_elem? r.shards index ≡ some queue
            → get_elem? r'.shards index ≡ some (queue ++ of_shard r index (tick ∷ [])))
  unfolding dispatch shard_for_symbol
  dispatch_lem r tick v =
      let home : ℕ = tick.symbol_id % r.shard_count in
      let inside : home < length r.shards =
        omega (arith, v.one_each, mod-lt tick.symbol_id v.some_shard) in
      let (queue, found) = get_elem?-of_lt r.shards home inside in
      let after : List (List (UniversalTickRecord D)) = set r.shards home (queue ++ tick ∷ []) in
      (
        record r { shards = after },
        rw (found, dispatch),
        record {
          some_shard = v.some_shard;
          one_each = length-set r.shards home (queue ++ tick ∷ []) ∙ v.one_each;
        },
        refl,
        λ index other e.
            rw (get_elem?-set r.shards home index (queue ++ tick ∷ []) inside)
              (pick home index queue other found e),
      )
    where
      pick :
          (home index : ℕ) (queue other : List (UniversalTickRecord D))
          → get_elem? r.shards home ≡ some queue
          → get_elem? r.shards index ≡ some other
          → (if home == index then some (queue ++ tick ∷ []) else get_elem? r.shards index)
            ≡ some (other ++ (if home == index then tick ∷ [] else []))
      pick home index queue other e e' = elim (Bool-cases (home == index)) [
        | inl same ↦ rw same (
            ap (λ t. some (t ++ tick ∷ []))
              (some-injective queue other
                (sym e ∙ ap (get_elem? r.shards) ((==_iff home index).0 same) ∙ e')))
        | inr apart ↦ rw (apart, append-nil) e'
      ]

  of_shard-cons :
      (r : TickRouter D) (index : ℕ) (tick : UniversalTickRecord D)
      (ticks : List (UniversalTickRecord D))
      → of_shard r index (tick ∷ ticks) ≡ of_shard r index (tick ∷ []) ++ of_shard r index ticks
  of_shard-cons r index tick ticks =
      elim (Bool-cases (shard_for_symbol r tick.symbol_id == index)) [ inl e ↦ rw e | inr e ↦ rw e ]

  of_shard_congr :
      (r r' : TickRouter D) (index : ℕ) (ticks : List (UniversalTickRecord D))
      → r'.shard_count ≡ r.shard_count
      → of_shard r' index ticks ≡ of_shard r index ticks
  unfolding shard_for_symbol
  of_shard_congr r r' index ticks e = rw e

  dispatch_all_kept :
      (r : TickRouter D) (ticks : List (UniversalTickRecord D))
      → IsValid r
      → (r' : TickRouter D) × (dispatch_all r ticks ≡ some r')
        × IsValid r'
        × (r'.shard_count ≡ r.shard_count)
        × ((index : ℕ) (queue : List (UniversalTickRecord D))
            → get_elem? r.shards index ≡ some queue
            → get_elem? r'.shards index ≡ some (queue ++ of_shard r index ticks))
  unfolding dispatch_all
  dispatch_all_kept r [] v = (r, refl, v, refl, λ index queue e. rw append-nil e)
  dispatch_all_kept r (tick ∷ ticks) v =
      let (r₁, sent, v₁, same, kept) = dispatch_lem r tick v in
      let (r₂, rest, v₂, same', more) = dispatch_all_kept r₁ ticks v₁ in
      (
        r₂,
        rw (sent, dispatch_all) rest,
        v₂,
        same' ∙ same,
        λ index queue e.
            more index (queue ++ of_shard r index (tick ∷ [])) (kept index queue e)
            ∙ ap some (
                append_assoc queue (of_shard r index (tick ∷ [])) (of_shard r₁ index ticks)
                ∙ ap (λ t. queue ++ t)
                    (ap (λ t. of_shard r index (tick ∷ []) ++ t)
                        (of_shard_congr r r₁ index ticks same)
                      ∙ sym (of_shard-cons r index tick ticks))),
      )

  -- After any number of dispatches to a router with as many queues as shards, no call has thrown,
  -- and each shard's queue is what it was followed by just the ticks of its symbols, in the order of
  -- the calls.
  pub dispatch_all_lem :
      (r : TickRouter D) (ticks : List (UniversalTickRecord D))
      → IsValid r
      → (r' : TickRouter D) × (dispatch_all r ticks ≡ some r')
        × IsValid r'
        × ((index : ℕ)
            → get_elem? r'.shards index
              ≡ map_option (λ queue. queue ++ of_shard r index ticks) (get_elem? r.shards index))
  unfolding map_option
  dispatch_all_lem r ticks v =
      let (r', sent, v', same, kept) = dispatch_all_kept r ticks v in
      (
        r',
        sent,
        v',
        λ index. elim (Option-cases (get_elem? r.shards index)) [
          | inl e ↦ rw e (
              get_elem?-same_length r.shards r'.shards index
                (omega (arith, v.one_each, v'.one_each, same)) e)
          | inr (queue, e) ↦ rw e (kept index queue e)
        ],
      )

  -- The outcome of a pop, by what the shard holds.
  abbrev pub PopOutcome : TickRouter D → ℕ → Option (List (UniversalTickRecord D)) → Type 0
  PopOutcome r index none = try_pop r index ≡ none
  PopOutcome r index (some []) = try_pop r index ≡ some (none, r)
  PopOutcome r index (some (tick ∷ queue)) =
      (r' : TickRouter D) × (try_pop r index ≡ some (some tick, r'))
      × ((other : ℕ)
          → get_elem? r'.shards other
            ≡ (if index == other then some queue else get_elem? r.shards other))

  -- A pop of a shard takes its oldest tick and leaves the other shards alone; one of an empty shard
  -- changes nothing; one of a shard that is not there throws.
  try_pop_lem : (r : TickRouter D) (index : ℕ) → PopOutcome r index (get_elem? r.shards index)
  unfolding try_pop
  try_pop_lem r index = split (get_elem? r.shards index) refl
    where
      split :
          (found : Option (List (UniversalTickRecord D)))
          → get_elem? r.shards index ≡ found
          → PopOutcome r index found
      split none e = rw (e, try_pop)
      split (some []) e = rw (e, try_pop)
      split (some (tick ∷ queue)) e = (
        record r { shards = set r.shards index queue },
        rw (e, try_pop),
        λ other. get_elem?-set r.shards index other queue (lt_of_get_elem? r.shards index e),
      )
