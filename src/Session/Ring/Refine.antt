-- ===== src/Session/Ring/Refine.antt =====
-- The ring buffer of ofe_session1_code/ofe/src/core/ring_buffer.cpp against the bounded queue. One
-- slot always stays free, so the queue holds one item less than there are slots.
use native.Mathlib.Nat.{mod-add-mod, mod-lt, mod-eq_of_lt, add-mod_right}
use rudra_org.Common.{
  ℕ, suc, ◌+◌, ◌%◌, ◌^◌, ◌≤◌, ◌<◌, ◌≡◌, refl, sym, ap, ◌∙◌, true, false, List, [], ◌∷◌, ◌++◌, arith,
  length, length-append, length-set, set, ◌==◌, ==_iff, ==_ne,
}
use rudra_org.Common.Bits.{bit_and-mask, two_pow-le, two_pow-pos}
use rudra_org.Common.Window.{Holds, Holds-set_next, moved_on, step-mod}
use rudra_org.Session.Ring.{SpscRingBuffer, nothing, item, successor, try_push, try_pop}

successor_lem : (k index : ℕ) → k ≤ 63 → index < 2 ^ k → successor k index ≡ (index + 1) % 2 ^ k
successor_lem k index small inside =
    bit_and-mask k _ ∙ ap (λ n. n % 2 ^ k) (mod-eq_of_lt (omega (arith, two_pow-le k small)))

module _ {ℓ} {A : Type ℓ} (k : ℕ) where
  -- The slots from the head on hold the items of the queue, and the tail is just past them.
  pub record Refines (r : SpscRingBuffer A) (q : List A) : Type ℓ where
    pub small : k ≤ 63
    pub slot_count : length r.slots ≡ 2 ^ k
    pub head_in : r.head < 2 ^ k
    pub tail_at : r.tail ≡ (r.head + length q) % 2 ^ k
    pub room : length q < 2 ^ k
    pub items : Holds (2 ^ k) r.slots r.head q

  next_tail_lem :
      {r : SpscRingBuffer A} {q : List A}
      → Refines r q
      → successor k r.tail ≡ (r.head + suc (length q)) % 2 ^ k
  next_tail_lem {r} {q} v =
      successor_lem k r.tail v.small (rw (v.tail_at) (mod-lt _ (two_pow-pos k)))
      ∙ ap (λ t. (t + 1) % 2 ^ k) v.tail_at
      ∙ mod-add-mod (r.head + length q) (2 ^ k) 1
      ∙ ap (λ t. t % 2 ^ k) (omega arith)

  -- The tests of the code for a full and an empty buffer.
  pub full_test :
      {r : SpscRingBuffer A} {q : List A}
      → Refines r q
      → suc (length q) ≡ 2 ^ k
      → (successor k r.tail == r.head) ≡ true
  full_test {r} {q} v all = (==_iff _ _).1 (
      next_tail_lem v
      ∙ ap (λ t. (r.head + t) % 2 ^ k) all
      ∙ add-mod_right r.head (2 ^ k)
      ∙ mod-eq_of_lt v.head_in)

  pub room_test :
      {r : SpscRingBuffer A} {q : List A}
      → Refines r q
      → suc (length q) < 2 ^ k
      → (successor k r.tail == r.head) ≡ false
  room_test {r} {q} v few = ==_ne _ _ (λ e.
      moved_on (2 ^ k) (suc (length q)) r.head v.head_in (omega arith) few
        (sym e ∙ next_tail_lem v))

  pub empty_test : {r : SpscRingBuffer A} → Refines r [] → (r.head == r.tail) ≡ true
  empty_test {r} v =
      (==_iff _ _).1
        (sym (mod-eq_of_lt v.head_in) ∙ ap (λ t. t % 2 ^ k) (omega arith) ∙ sym v.tail_at)

  pub some_test :
      {r : SpscRingBuffer A} {x : A} {q : List A} → Refines r (x ∷ q) → (r.head == r.tail) ≡ false
  some_test {r} {x} {q} v =
      ==_ne _ _ (λ e.
        moved_on (2 ^ k) (suc (length q)) r.head v.head_in (omega arith) v.room (e ∙ v.tail_at))

  -- The buffer after each kind of call.
  abbrev pub pushed_ring : SpscRingBuffer A → A → SpscRingBuffer A
  pushed_ring r a = record r { slots = set r.slots r.tail a; tail = successor k r.tail }

  abbrev pub refused_ring : SpscRingBuffer A → SpscRingBuffer A
  refused_ring r = record r { dropped = (r.dropped + 1) % 2 ^ 64 }

  abbrev pub popped_ring : SpscRingBuffer A → SpscRingBuffer A
  popped_ring r = record r { head = successor k r.head }

  pub try_push_room :
      (r : SpscRingBuffer A) (q : List A) (a : A)
      → Refines r q
      → suc (length q) < 2 ^ k
      → try_push k a r ≡ (true, pushed_ring r a)
  unfolding try_push
  try_push_room r q a v few = rw (room_test v few) refl

  pub try_push_full :
      (r : SpscRingBuffer A) (q : List A) (a : A)
      → Refines r q
      → suc (length q) ≡ 2 ^ k
      → try_push k a r ≡ (false, refused_ring r)
  unfolding try_push
  try_push_full r q a v all = rw (full_test v all) refl

  pub pushed_ring-Refines :
      (r : SpscRingBuffer A) (q : List A) (a : A)
      → Refines r q
      → suc (length q) < 2 ^ k
      → Refines (pushed_ring r a) (q ++ a ∷ [])
  pushed_ring-Refines r q a v few = record {
    small = v.small;
    slot_count = length-set r.slots r.tail a ∙ v.slot_count;
    head_in = v.head_in;
    tail_at =
        next_tail_lem v ∙ ap (λ t. (r.head + t) % 2 ^ k) (omega (arith, length-append q (a ∷ [])));
    room = omega (arith, length-append q (a ∷ []));
    items =
        Holds-set_next (2 ^ k) r.slots q r.head r.tail a (omega (arith, v.slot_count)) v.head_in
          v.room v.tail_at v.items;
  }

  pub refused_ring-Refines :
      (r : SpscRingBuffer A) (q : List A) → Refines r q → Refines (refused_ring r) q
  refused_ring-Refines r q v = record {
    small = v.small;
    slot_count = v.slot_count;
    head_in = v.head_in;
    tail_at = v.tail_at;
    room = v.room;
    items = v.items;
  }

  pub popped_ring-Refines :
      (r : SpscRingBuffer A) (x : A) (q : List A) → Refines r (x ∷ q) → Refines (popped_ring r) q
  popped_ring-Refines r x q v =
      let next = successor_lem k r.head v.small v.head_in in
      record {
        small = v.small;
        slot_count = v.slot_count;
        head_in = rw next (mod-lt _ (two_pow-pos k));
        tail_at =
            v.tail_at
            ∙ step-mod r.head (length q) (2 ^ k)
            ∙ ap (λ t. (t + length q) % 2 ^ k) (sym next);
        room = omega (arith, v.room);
        items = rw next v.items.1;
      }

  pub try_pop_nothing : (r : SpscRingBuffer A) → Refines r [] → try_pop k r ≡ nothing
  unfolding try_pop
  try_pop_nothing r v = rw (empty_test v) refl

  pub try_pop_item :
      (r : SpscRingBuffer A) (x : A) (q : List A)
      → Refines r (x ∷ q)
      → try_pop k r ≡ item x (popped_ring r)
  unfolding try_pop
  try_pop_item r x q v = rw (some_test v, v.items.0) refl
