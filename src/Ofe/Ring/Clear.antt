-- ===== src/Ofe/Ring/Clear.antt =====
-- `clear` and the destructor's `clear_unsafe` of include/ofe/core/ring_buffer.h.
use native.Mathlib.Nat.{mod-lt, add-mod_right, mod-eq_of_lt, mod-add-mod}
use mathlib.Core.Path.{subst}
use rudra_org.Common.{
  ℕ, zero, suc, ◌+◌, ◌-◌, ◌%◌, ◌^◌, ◌<◌, ◌≡◌, sym, ap, ◌∙◌, true, false, Option, none, some, List,
  [], ◌∷◌, ◌≢◌, arith, length, get_elem?, replicate, length-replicate, ◌==◌,
}
use rudra_org.Common.Bits.{bit_and-mask, two_pow-pos, two_pow-le}
use rudra_org.Common.Window.{Holds, Holds-rotate}
use rudra_org.Ofe.Ring.{RingBuffer, index_of, clear, destroy_from, clear_unsafe}
use rudra_org.Ofe.Ring.Refine.{
  Refines, replicate-snoc, try_pop_nothing, try_pop_item, popped_ring, popped_ring-Refines,
}

-- A run of one item round the whole array starts anywhere.
turned {ℓ} :
    {A : Type ℓ} (cap n h : ℕ) (slots : List A) (a : A)
    → suc n ≡ cap
    → h < cap
    → (steps : ℕ) → Holds cap slots h (replicate (suc n) a)
    → Holds cap slots ((h + steps) % cap) (replicate (suc n) a)
turned cap n h slots a e low zero held =
    subst (λ t. Holds cap slots t (replicate (suc n) a))
      (sym (mod-eq_of_lt low) ∙ ap (λ t. t % cap) (omega arith)) held
turned cap n h slots a e low (suc steps) held =
    subst (λ t. Holds cap slots t (replicate (suc n) a))
      (mod-add-mod (h + steps) cap 1 ∙ ap (λ t. t % cap) (omega arith))
      (subst (Holds cap slots (((h + steps) % cap + 1) % cap)) (replicate-snoc a n) (
        Holds-rotate cap slots (replicate n a) a ((h + steps) % cap)
          (mod-lt (h + steps) (omega arith)) (ap suc (length-replicate n a) ∙ e)
          (turned cap n h slots a e low steps held)))

round_to : (cap h i : ℕ) → h < cap → i < cap → (h + (cap + i - h)) % cap ≡ i
round_to cap h i low here =
    ap (λ t. t % cap) (omega arith) ∙ add-mod_right i cap ∙ mod-eq_of_lt here

module _ {ℓ} {A : Type ℓ} (k : ℕ) where
  -- No slot of the storage holds an object.
  abbrev pub IsVacant : List (Option A) → Type ℓ
  IsVacant storage = (i : ℕ) → i < 2 ^ k → get_elem? storage i ≡ some none

  vacant_slot :
      (cap n h i : ℕ) (slots : List (Option A))
      → suc n ≡ cap
      → h < cap
      → i < cap
      → Holds cap slots h (replicate (suc n) none)
      → get_elem? slots i ≡ some none
  vacant_slot cap n h i slots e low here held =
      subst (λ t. get_elem? slots t ≡ some none) (round_to cap h i low here)
        (turned cap n h slots none e low (cap + i - h) held).0

  -- A buffer that holds the empty queue holds no object.
  Refines-IsVacant : {r : RingBuffer A} → Refines k r [] → IsVacant r.storage
  Refines-IsVacant {r} v i here =
      let size : 2 ^ k - 0 ≡ suc (2 ^ k - 1) = omega (arith, two_pow-pos k) in
      vacant_slot (2 ^ k) (2 ^ k - 1) (r.tail % 2 ^ k) i r.storage (omega (arith, two_pow-pos k))
        (mod-lt r.tail (two_pow-pos k)) here
        (subst (λ t. Holds (2 ^ k) r.storage (r.tail % 2 ^ k) (replicate t none)) size v.slots)

  -- `clear` on a buffer that holds `q` ends once the fuel exceeds the number of items, and leaves a
  -- buffer that holds the empty queue.
  pub clear-Refines :
      (fuel : ℕ) (r : RingBuffer A) (q : List A)
      → Refines k r q
      → length q < fuel
      → (r' : RingBuffer A) × (clear k fuel r ≡ some r') × Refines k r' []
  unfolding clear
  clear-Refines zero r q v h = absurd (omega arith)
  clear-Refines (suc fuel) r [] v h = (r, rw (try_pop_nothing k v, clear), v)
  clear-Refines (suc fuel) r (x ∷ q) v h =
      let (r', ends, v') =
        clear-Refines fuel (popped_ring k r) q (popped_ring-Refines k x v) (omega arith) in
      (r', rw (try_pop_item k x v, clear) ends, v')

  held_slot :
      {r : RingBuffer A} {q : List A} (x : A)
      → Refines k r (x ∷ q)
      → get_elem? r.storage (index_of k r.tail) ≡ some (some x)
  held_slot {r} x v = rw (bit_and-mask k r.tail) v.slots.0

  destroy_from_lem :
      (fuel : ℕ) (r : RingBuffer A) (q : List A)
      → Refines k r q
      → length q < fuel
      → (storage : List (Option A)) × (destroy_from k fuel r.tail r.head r.storage ≡ some storage)
        × IsVacant storage
  unfolding destroy_from popped_ring
  destroy_from_lem zero r q v h = absurd (omega arith)
  destroy_from_lem (suc fuel) r [] v h =
      let same : r.head ≡ r.tail = omega (arith, v.head_at, v.tail_in) in
      let stop : (r.tail == r.head) ≡ true = ground arith in
      (r.storage, rw (stop, destroy_from), Refines-IsVacant v)
  destroy_from_lem (suc fuel) r (x ∷ q) v h =
      let apart : r.tail ≢ r.head =
        omega (arith, v.head_at, v.tail_in, v.room, two_pow-le k v.small) in
      let more : (r.tail == r.head) ≡ false = ground arith in
      let (storage, ends, bare) =
        destroy_from_lem fuel (popped_ring k r) q (popped_ring-Refines k x v) (omega arith) in
      (storage, rw (more, held_slot x v, destroy_from) ends, bare)

  -- The destructor of a buffer that holds `q` ends once the fuel exceeds the number of items, and
  -- has then destroyed every object in the storage.
  pub clear_unsafe-IsVacant :
      (fuel : ℕ) (r : RingBuffer A) (q : List A)
      → Refines k r q
      → length q < fuel
      → (storage : List (Option A)) × (clear_unsafe k fuel r ≡ some storage) × IsVacant storage
  unfolding clear_unsafe
  clear_unsafe-IsVacant = destroy_from_lem
