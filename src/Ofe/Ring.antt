-- ===== src/Ofe/Ring.antt =====
-- include/ofe/core/ring_buffer.h: the single-producer single-consumer ring buffer, as its calls run
-- one after another. Indices are free-running `size_t` counters that wrap at 2^64.
pub mod Refine
pub mod Run
pub mod Clear
mod Tests
use Prim.Native.Nat.{bit_and}
use rudra_org.Common.{
  ℕ, zero, suc, ◌+◌, ◌-◌, ◌%◌, ◌^◌, ◌≡◌, Bool, true, false, Option, none, some, List, [], ◌∷◌, leb,
  ◌==◌, if◌then◌else◌, set, get_elem?, replicate,
}
use rudra_org.Common.Queue.{Op, push, pop, Reply, pushed, popped}

-- A slot of the raw storage holds a constructed object, or none.
pub record RingBuffer {ℓ} (A : Type ℓ) : Type ℓ where
  pub storage : List (Option A)
  pub head : ℕ
  pub tail : ℕ

-- What `try_pop` comes to. Reading a slot with no object would be undefined behaviour.
pub data Popped {ℓ} (A : Type ℓ) : Type ℓ where
  nothing : Popped A
  item : A → RingBuffer A → Popped A
  undefined : Popped A

-- `size_t` addition and subtraction.
abbrev pub add_size : ℕ → ℕ → ℕ
add_size a b = (a + b) % 2 ^ 64

abbrev pub sub_size : ℕ → ℕ → ℕ
sub_size a b = (a + 2 ^ 64 - b) % 2 ^ 64

module _ {ℓ} {A : Type ℓ} where
  unfoldable pub empty : RingBuffer A → Bool
  empty r = r.head == r.tail

  unfoldable pub size_approx : RingBuffer A → ℕ
  size_approx r = sub_size r.head r.tail

-- The template parameter is `Capacity = 2^k`, the shape that the static assertions allow.
abbrev pub capacity : ℕ → ℕ
capacity k = 2 ^ k

-- `cursor & mask_`
abbrev pub index_of : ℕ → ℕ → ℕ
index_of k cursor = bit_and cursor (2 ^ k - 1)

module _ {ℓ} {A : Type ℓ} (k : ℕ) where
  unfoldable pub initial : RingBuffer A
  initial = record { storage = replicate (capacity k) none; head = 0; tail = 0 }

  unfoldable pub emplace : A → RingBuffer A → Bool × RingBuffer A
  emplace value r = if leb (capacity k) (sub_size r.head r.tail) then (false, r) else (
    true,
    record r { storage = set r.storage (index_of k r.head) (some value); head = add_size r.head 1 },
  )

  unfoldable pub try_push : A → RingBuffer A → Bool × RingBuffer A
  unfolding emplace
  try_push value r = emplace value r

  -- The read of the slot, its destruction and the store of the new tail.
  abbrev pub take_slot : RingBuffer A → Option (Option A) → Popped A
  take_slot r (some (some a)) =
      item a
        (record r { storage = set r.storage (index_of k r.tail) none; tail = add_size r.tail 1 })
  take_slot r (some none) = undefined
  take_slot r none = undefined

  unfoldable pub try_pop : RingBuffer A → Popped A
  try_pop r =
      if r.tail == r.head then nothing else take_slot r (get_elem? r.storage (index_of k r.tail))

  -- `while (try_pop(value)) {}` on fuel; `none` is a run that has not ended, or an undefined one.
  unfoldable pub clear : ℕ → RingBuffer A → Option (RingBuffer A)
  clear zero r = none
  clear (suc fuel) r = elim (try_pop r) [
    | nothing ↦ some r
    | item a r' ↦ clear fuel r'
    | undefined ↦ none
  ]

  -- `std::destroy_at` of a slot with no object would be undefined behaviour: `none`.
  abbrev pub destroyed : Option (Option A) → Option (List (Option A)) → Option (List (Option A))
  destroyed (some (some a)) further = further
  destroyed (some none) further = none
  destroyed none further = none

  -- The loop of `clear_unsafe`, which the destructor runs: `none` when the fuel runs out too.
  unfoldable pub destroy_from : ℕ → ℕ → ℕ → List (Option A) → Option (List (Option A))
  destroy_from zero cursor head storage = none
  destroy_from (suc fuel) cursor head storage = elim (cursor == head) [
    | true ↦ some storage
    | false ↦
        destroyed (get_elem? storage (index_of k cursor))
          (destroy_from fuel (add_size cursor 1) head (set storage (index_of k cursor) none))
  ]

  unfoldable pub clear_unsafe : ℕ → RingBuffer A → Option (List (Option A))
  clear_unsafe fuel r = destroy_from fuel r.tail r.head r.storage

  -- A client's calls in order, with what each returns; `none` once a call is undefined.
  abbrev pub after_pop : Popped A → RingBuffer A → Option (Reply A × RingBuffer A)
  after_pop nothing r = some (popped none, r)
  after_pop (item a r') r = some (popped (some a), r')
  after_pop undefined r = none

  unfoldable pub call : RingBuffer A → Op A → Option (Reply A × RingBuffer A)
  call r (push a) = let (done, r') = try_push a r in some (pushed done, r')
  call r pop = after_pop (try_pop r) r

  unfoldable pub run : RingBuffer A → List (Op A) → Option (List (Reply A))
  run r [] = some []
  run r (op ∷ ops) = elim (call r op) [
    | none ↦ none
    | some (reply, r') ↦ elim (run r' ops) [ none ↦ none | some rest ↦ some (reply ∷ rest) ]
  ]
