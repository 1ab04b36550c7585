-- ===== src/Session/Ring/Run.antt =====
-- Whole sequences of calls of the ring buffer of ofe_session1_code/ofe/src/core/ring_buffer.cpp.
use native.Mathlib.Nat.{mod-eq_of_lt, mod-eq-sub-mod, mul-add-mod_self_right, mod-mod_of_dvd}
use rudra_org.Common.{
  ℕ, zero, suc, ◌+◌, ◌-◌, ◌%◌, ◌^◌, ◌≤◌, ◌<◌, ◌≡◌, refl, sym, ap, ◌∙◌, true, false, some, List, [],
  ◌∷◌, arith, length, length-replicate, ◌==◌, ==_ne, ◌*◌, Bool-cases, ltb, ltb→lt, inl, inr,
  get_elem?,
}
use rudra_org.Common.Bits.{two_pow-pos, two_pow-dvd, two_pow-split, bit_and-mask}
use rudra_org.Common.Queue
use rudra_org.Common.Queue.{Op, push, pop, Reply, pushed, popped}
use rudra_org.Session.Ring.{
  SpscRingBuffer, initial, dropped_count, peek, size_approx, full, empty, call, run,
}
use rudra_org.Session.Ring.Refine.{
  Refines, empty_test, some_test, full_test, room_test, try_push_full, try_push_room, pushed_ring,
  pushed_ring-Refines, refused_ring, refused_ring-Refines, try_pop_nothing, try_pop_item,
  popped_ring, popped_ring-Refines,
}

-- The distance from the head to the tail, given that `2^64` is `parts * 2^k`.
distance_lem :
    (k head n parts : ℕ)
    → 2 ^ 64 ≡ parts * 2 ^ k
    → head < 2 ^ k
    → n < 2 ^ k
    → ((head + n) % 2 ^ k + 2 ^ 64 - head) % 2 ^ k ≡ n
distance_lem k head n zero whole inside few = absurd (omega arith)
distance_lem k head n (suc parts) whole inside few = elim (Bool-cases (ltb (head + n) (2 ^ k))) [
  | inl below ↦
      let plain = mod-eq_of_lt (ltb→lt (head + n) (2 ^ k) below) in
      ap (λ t. t % 2 ^ k) (omega arith)
      ∙ mul-add-mod_self_right (suc parts) (2 ^ k) n
      ∙ mod-eq_of_lt few
  | inr beyond ↦
      let over : 2 ^ k ≤ head + n = ground arith in
      let rest : head + n - 2 ^ k < 2 ^ k = omega arith in
      let once = mod-eq-sub-mod over ∙ mod-eq_of_lt rest in
      ap (λ t. t % 2 ^ k) (omega arith) ∙ mul-add-mod_self_right parts (2 ^ k) n ∙ mod-eq_of_lt few
]

module _ {ℓ} {A : Type ℓ} where
  -- The pushes that were refused.
  abbrev pub refused : Reply A → ℕ
  refused (pushed true) = 0
  refused (pushed false) = 1
  refused (popped a) = 0

  abbrev pub refusals : List (Reply A) → ℕ
  refusals [] = 0
  refusals (reply ∷ replies) = refused reply + refusals replies

module _ {ℓ} {A : Type ℓ} (k : ℕ) where
  -- A call on a buffer that holds `q`, by what the queue does.
  abbrev Answers : SpscRingBuffer A → Op A → Reply A × List A → Type ℓ
  Answers r op (reply, q') =
      (r' : SpscRingBuffer A) × (call k r op ≡ some (reply, r'))
      × Refines k r' q'
      × (r'.dropped ≡ (r.dropped + refused reply) % 2 ^ 64)

  call_lem :
      (r : SpscRingBuffer A) (q : List A) (op : Op A)
      → Refines k r q
      → r.dropped < 2 ^ 64
      → Answers r op (Queue.step (2 ^ k - 1) q op)
  unfolding call Queue.step
  call_lem r q (push a) v small = elim (Bool-cases (ltb (length q) (2 ^ k - 1))) [
    | inl fits ↦
        let few : suc (length q) < 2 ^ k = ground arith in
        rw fits (
          pushed_ring k r a,
          rw (try_push_room k r q a v few) refl,
          pushed_ring-Refines k r q a v few,
          omega arith,
        )
    | inr over ↦
        let all : suc (length q) ≡ 2 ^ k = ground (arith, v.room) in
        rw over (
          refused_ring k r,
          rw (try_push_full k r q a v all) refl,
          refused_ring-Refines k r q v,
          refl,
        )
  ]
  call_lem r [] pop v small = (r, rw (try_pop_nothing k r v) refl, v, omega arith)
  call_lem r (x ∷ q) pop v small = (
    popped_ring k r,
    rw (try_pop_item k r x q v) refl,
    popped_ring-Refines k r x q v,
    omega arith,
  )

  pub run_from :
      (r : SpscRingBuffer A) (q : List A) (ops : List (Op A))
      → Refines k r q
      → r.dropped < 2 ^ 64
      → let replies = Queue.run (2 ^ k - 1) q ops in
        (r' : SpscRingBuffer A) × (run k r ops ≡ some (replies, r'))
        × (dropped_count r' ≡ (r.dropped + refusals replies) % 2 ^ 64)
  unfolding run Queue.run dropped_count
  run_from r q [] v small = (r, refl, omega arith)
  run_from r q (op ∷ ops) v small =
      let (r', answered, v', d) = call_lem r q op v small in
      let (r'', rest, d') = run_from r' (Queue.step (2 ^ k - 1) q op).1 ops v' (omega (arith, d)) in
      (r'', rw (answered, run, rest) refl, omega (arith, d, d'))

  pub initial-Refines : k ≤ 63 → (blank : A) → Refines k (initial k blank) []
  unfolding initial
  initial-Refines small blank = record {
    small = small;
    slot_count = length-replicate (2 ^ k) blank;
    head_in = two_pow-pos k;
    tail_at = sym (mod-eq_of_lt (two_pow-pos k));
    room = two_pow-pos k;
    items = tt;
  }

  -- Any sequence of pushes and pops on a fresh buffer with `2^k` slots, k at most 63, answers each
  -- call as a first-in first-out queue of at most `2^k - 1` items does: one slot is never used. No
  -- pop ever reads outside of the slots, and the count of dropped items is that of the refused
  -- pushes, in 64 bits.
  pub run_lem :
      (blank : A) (ops : List (Op A))
      → k ≤ 63
      → let replies = Queue.run (2 ^ k - 1) [] ops in
        (r' : SpscRingBuffer A) × (run k (initial k blank) ops ≡ some (replies, r'))
        × (dropped_count r' ≡ refusals replies % 2 ^ 64)
  unfolding initial
  run_lem blank ops small =
      let (r', ran, d) =
        run_from (initial k blank) [] ops (initial-Refines small blank) (omega arith) in
      (r', ran, omega (arith, d))

  -- On a buffer that holds `q`: the size is the number of items, the front element is the oldest
  -- item, and the buffer is empty, or full, when it holds nothing, or one item less than its slots.
  queries_lem :
      (r : SpscRingBuffer A) (q : List A)
      → Refines k r q
      → (size_approx k r ≡ length q)
        × (peek k r ≡ get_elem? q 0)
        × (empty r ≡ (length q == 0))
        × (full k r ≡ (length q == 2 ^ k - 1))
  unfolding size_approx peek empty full
  queries_lem r q v = (
    bit_and-mask k _
        ∙ mod-mod_of_dvd (2 ^ k) _ (two_pow-dvd k v.small)
        ∙ ap (λ t. (t + 2 ^ 64 - r.head) % 2 ^ k) v.tail_at
        ∙ distance_lem k r.head (length q) (2 ^ (64 - k)) (two_pow-split k v.small) v.head_in
            v.room,
    front q v,
    emptiness q v,
    fullness,
  )
    where
      front : (p : List A) → Refines k r p → peek k r ≡ get_elem? p 0
      front [] w = rw (empty_test k w) refl
      front (x ∷ p) w = rw (some_test k w) w.items.0

      emptiness : (p : List A) → Refines k r p → empty r ≡ (length p == 0)
      emptiness [] w = empty_test k w
      emptiness (x ∷ p) w = some_test k w ∙ sym (==_ne _ _ (λ e. omega arith))

      fullness : full k r ≡ (length q == 2 ^ k - 1)
      fullness = elim (Bool-cases (length q == 2 ^ k - 1)) [
        | inl last ↦ rw last (full_test k v (ground (arith, v.room)))
        | inr more ↦ rw more (room_test k v (ground (arith, v.room)))
      ]
