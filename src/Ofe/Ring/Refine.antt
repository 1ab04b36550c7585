-- ===== src/Ofe/Ring/Refine.antt =====
-- The ring buffer of include/ofe/core/ring_buffer.h against the bounded queue.
use native.Mathlib.Nat.{mod-mod_of_dvd, mod-add-mod, mod-lt, mod-mod}
use native.Mathlib.Numerals.{add-one}
use mathlib.Core.Path.{subst}
use mathlib.Core.List.{map-append, append_assoc}
use rudra_org.Common.{
  ℕ, zero, suc, ◌+◌, ◌-◌, ◌%◌, ◌^◌, ◌≤◌, ◌<◌, ◌≡◌, refl, sym, ap, ◌∙◌, true, false, Option, none,
  some, List, [], ◌∷◌, ◌++◌, map, arith, length, length-append, length-map, replicate,
  length-replicate, get_elem?, length-set, set, ◌==◌, ◌≢◌,
}
use rudra_org.Common.Bits.{bit_and-mask, two_pow-dvd, two_pow-le, two_pow-pos}
use rudra_org.Common.Window.{Holds, Holds-set_at, Holds-rotate}
use rudra_org.Ofe.Ring.{RingBuffer, add_size, sub_size, index_of, try_push, try_pop, nothing, item}

pub vacant_next {ℓ} :
    {A : Type ℓ} (a : A) (cap n : ℕ)
    → n < cap
    → replicate (cap - n) a ≡ a ∷ replicate (cap - suc n) a
vacant_next a cap n h =
    let e : cap - n ≡ suc (cap - suc n) = omega arith in ap (λ t. replicate t a) e

pub replicate-snoc {ℓ} :
    {A : Type ℓ} (a : A) (n : ℕ) → replicate n a ++ a ∷ [] ≡ replicate (suc n) a
replicate-snoc a zero = refl
replicate-snoc a (suc n) = ap (λ t. a ∷ t) (replicate-snoc a n)

module _ {ℓ} {A : Type ℓ} (k : ℕ) where
  -- The buffer holds the queue `q`: read from the tail once round the storage, it is the items of
  -- `q` in order and then vacant slots only.
  pub record Refines (r : RingBuffer A) (q : List A) : Type ℓ where
    pub small : k ≤ 63
    pub storage_size : length r.storage ≡ 2 ^ k
    pub tail_in : r.tail < 2 ^ 64
    pub head_at : r.head ≡ add_size r.tail (length q)
    pub room : length q ≤ 2 ^ k
    pub slots :
        Holds (2 ^ k) r.storage (r.tail % 2 ^ k) (map some q ++ replicate (2 ^ k - length q) none)

  rest_length :
      (q : List A)
      → suc (length q) ≤ 2 ^ k
      → suc (length (map {B = Option A} some q ++ replicate (2 ^ k - suc (length q)) none)) ≡ 2 ^ k
  rest_length q room =
      let total = length-append (map some q) (replicate (2 ^ k - suc (length q)) none) in
      omega (
        arith,
        total,
        length-map {B = Option A} q some,
        length-replicate {A = Option A} (2 ^ k - suc (length q)) none,
      )

  refilled :
      (q : List A)
      → suc (length q) ≤ 2 ^ k
      → (map {B = Option A} some q ++ replicate (2 ^ k - suc (length q)) none) ++ none ∷ []
        ≡ map some q ++ replicate (2 ^ k - length q) none
  refilled q room =
      rw (append_assoc, replicate-snoc {A = Option A} none (2 ^ k - suc (length q)))
        (ap (λ t. map some q ++ t) (sym (vacant_next none (2 ^ k) (length q) room)))

  -- The size that the code computes from its counters is the length of the queue.
  pub used : {r : RingBuffer A} {q : List A} → Refines r q → sub_size r.head r.tail ≡ length q
  used {r} {q} v = rw v.head_at (omega (arith, v.room, v.tail_in, two_pow-le k v.small))

  -- The slot that a push writes.
  index_of_head :
      {r : RingBuffer A} {q : List A}
      → Refines r q
      → r.head % 2 ^ k ≡ (r.tail % 2 ^ k + length q) % 2 ^ k
  index_of_head {r} {q} v = rw v.head_at (
      mod-mod_of_dvd (2 ^ k) (r.tail + length q) (two_pow-dvd k v.small)
      ∙ sym (mod-add-mod r.tail (2 ^ k) (length q)))

  pub try_push_full :
      {r : RingBuffer A} {q : List A} (a : A)
      → Refines r q
      → length q ≡ 2 ^ k
      → try_push k a r ≡ (false, r)
  unfolding try_push
  try_push_full {r} {q} a v full = ground (arith, used v)

  unfoldable pub pushed_ring : RingBuffer A → A → RingBuffer A
  pushed_ring r a = record r {
    storage = set r.storage (index_of k r.head) (some a);
    head = add_size r.head 1;
  }

  pub try_push_room :
      {r : RingBuffer A} {q : List A} (a : A)
      → Refines r q
      → length q < 2 ^ k
      → try_push k a r ≡ (true, pushed_ring r a)
  unfolding try_push pushed_ring
  try_push_room {r} {q} a v room = ground (arith, used v)

  span :
      (q : List A)
      → length q < 2 ^ k
      → length (map {B = Option A} some q)
          + suc (length (replicate {A = Option A} (2 ^ k - suc (length q)) none))
        ≤ 2 ^ k
  span q room =
      rw (length-map q some, length-replicate {A = Option A} (2 ^ k - suc (length q)) none)
        (omega arith)

  pub pushed_ring-Refines :
      {r : RingBuffer A} {q : List A} (a : A)
      → Refines r q
      → length q < 2 ^ k
      → Refines (pushed_ring r a) (q ++ a ∷ [])
  unfolding pushed_ring
  pushed_ring-Refines {r} {q} a v room = record {
    small = v.small;
    storage_size = length-set r.storage (index_of k r.head) (some a) ∙ v.storage_size;
    tail_in = v.tail_in;
    head_at = rw (length-append q (a ∷ []), v.head_at) (omega arith);
    room = rw (length-append q (a ∷ [])) (omega arith);
    slots =
        rw (map-append, append_assoc, length-append q (a ∷ []), add-one (length q))
          (Holds-set_at (2 ^ k) r.storage (map some q) (replicate (2 ^ k - suc (length q)) none)
            none (some a) (r.tail % 2 ^ k) (index_of k r.head) (omega (arith, v.storage_size))
            (mod-lt r.tail (two_pow-pos k)) (span q room)
            (bit_and-mask k r.head
              ∙ index_of_head v
              ∙ ap (λ t. (r.tail % 2 ^ k + t) % 2 ^ k) (sym (length-map q some)))
            (rw (vacant_next {A = Option A} none (2 ^ k) (length q) room) at v.slots));
  }

  pub try_pop_nothing : {r : RingBuffer A} → Refines r [] → try_pop k r ≡ nothing
  unfolding try_pop
  try_pop_nothing {r} v =
      let same : r.head ≡ r.tail = omega (arith, v.head_at, v.tail_in) in ground arith

  unfoldable pub popped_ring : RingBuffer A → RingBuffer A
  popped_ring r = record r {
    storage = set r.storage (index_of k r.tail) none;
    tail = add_size r.tail 1;
  }

  pub try_pop_item :
      {r : RingBuffer A} {q : List A} (x : A)
      → Refines r (x ∷ q)
      → try_pop k r ≡ item x (popped_ring r)
  unfolding try_pop popped_ring
  try_pop_item {r} {q} x v =
      let apart : r.tail ≢ r.head =
        omega (arith, v.head_at, v.tail_in, v.room, two_pow-le k v.small) in
      let found : get_elem? r.storage (index_of k r.tail) ≡ some (some x) =
        rw (bit_and-mask k r.tail) v.slots.0 in
      let no : (r.tail == r.head) ≡ false = ground arith in rw (no, found)

  next_index :
      {r : RingBuffer A} {q : List A}
      → Refines r q
      → add_size r.tail 1 % 2 ^ k ≡ (r.tail % 2 ^ k + 1) % 2 ^ k
  next_index {r} v =
      mod-mod_of_dvd (2 ^ k) (r.tail + 1) (two_pow-dvd k v.small)
      ∙ sym (mod-add-mod r.tail (2 ^ k) 1)

  -- The slots after a pop, from the one behind the popped item on.
  popped_slots :
      {r : RingBuffer A} {q : List A} (x : A)
      → Refines r (x ∷ q)
      → Holds
          (2 ^ k)
          (set r.storage (index_of k r.tail) none)
          ((r.tail % 2 ^ k + 1) % 2 ^ k)
          (map some q ++ replicate (2 ^ k - length q) none)
  popped_slots {r} {q} x v =
      let rest : List (Option A) = map some q ++ replicate (2 ^ k - suc (length q)) none in
      let slots' = set r.storage (index_of k r.tail) none in
      let low = mod-lt r.tail (two_pow-pos k) in
      let long : suc (length rest) ≡ 2 ^ k = rest_length q v.room in
      let here : index_of k r.tail ≡ (r.tail % 2 ^ k + 0) % 2 ^ k =
        bit_and-mask k r.tail ∙ sym (mod-mod r.tail (2 ^ k)) ∙ ap (λ t. t % 2 ^ k) (omega arith) in
      let emptied : Holds (2 ^ k) slots' (r.tail % 2 ^ k) (none ∷ rest) =
        Holds-set_at (2 ^ k) r.storage [] rest (some x) none (r.tail % 2 ^ k) (index_of k r.tail)
          (omega (arith, v.storage_size)) low (omega arith) here v.slots in
      let refill : rest ++ none ∷ [] ≡ map some q ++ replicate (2 ^ k - length q) none =
        refilled q v.room in
      subst (Holds (2 ^ k) slots' ((r.tail % 2 ^ k + 1) % 2 ^ k)) refill
        (Holds-rotate (2 ^ k) slots' rest none (r.tail % 2 ^ k) low long emptied)

  pub popped_ring-Refines :
      {r : RingBuffer A} {q : List A} (x : A) → Refines r (x ∷ q) → Refines (popped_ring r) q
  unfolding popped_ring
  popped_ring-Refines {r} {q} x v = record {
    small = v.small;
    storage_size = length-set r.storage (index_of k r.tail) none ∙ v.storage_size;
    tail_in = omega arith;
    head_at = omega (arith, v.head_at);
    room = omega (arith, v.room);
    slots =
        subst
          (λ t.
            Holds (2 ^ k) (set r.storage (index_of k r.tail) none) t
              (map some q ++ replicate (2 ^ k - length q) none))
          (sym (next_index v)) (popped_slots x v);
  }
