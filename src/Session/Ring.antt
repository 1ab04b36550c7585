-- ===== src/Session/Ring.antt =====
-- ofe_session1_code/ofe/include/core/ring_buffer.h and src/core/ring_buffer.cpp: the ring buffer
-- with masked indices, as its calls run one after another.
pub mod Refine
pub mod Run
mod Tests
use Prim.Native.Nat.{bit_and}
use rudra_org.Common.{
  ℕ, zero, suc, ◌+◌, ◌-◌, ◌%◌, ◌^◌, Bool, true, false, Option, none, some, List, [], ◌∷◌, ◌==◌,
  if◌then◌else◌, set, get_elem?, replicate,
}
use rudra_org.Common.Queue.{Op, push, pop, Reply, pushed, popped}

pub record SpscRingBuffer {ℓ} (A : Type ℓ) : Type ℓ where
  pub head : ℕ
  pub tail : ℕ
  pub dropped : ℕ
  pub slots : List A

-- What `try_pop` comes to. An index outside of the slots would be undefined behaviour.
pub data Taken {ℓ} (A : Type ℓ) : Type ℓ where
  nothing : Taken A
  item : A → SpscRingBuffer A → Taken A
  undefined : Taken A

-- `Capacity` is a power of two, `2^k`.
abbrev pub mask : ℕ → ℕ
mask k = 2 ^ k - 1

-- `(index + 1) & MASK`, in `size_t`.
abbrev pub successor : ℕ → ℕ → ℕ
successor k index = bit_and ((index + 1) % 2 ^ 64) (mask k)

module _ {ℓ} {A : Type ℓ} (k : ℕ) where
  -- `blank` is the value that a slot is constructed with.
  unfoldable pub initial : A → SpscRingBuffer A
  initial blank = record { head = 0; tail = 0; dropped = 0; slots = replicate (2 ^ k) blank }

  unfoldable pub try_push : A → SpscRingBuffer A → Bool × SpscRingBuffer A
  try_push value r =
      let next_tail = successor k r.tail in
      if next_tail == r.head
      then (false, record r { dropped = (r.dropped + 1) % 2 ^ 64 })
      else (true, record r { slots = set r.slots r.tail value; tail = next_tail })

  abbrev pub take_slot : SpscRingBuffer A → Option A → Taken A
  take_slot r (some a) = item a (record r { head = successor k r.head })
  take_slot r none = undefined

  unfoldable pub try_pop : SpscRingBuffer A → Taken A
  try_pop r = if r.head == r.tail then nothing else take_slot r (get_elem? r.slots r.head)

  -- The pointer to the front element as the element; none stands for a null pointer.
  unfoldable pub peek : SpscRingBuffer A → Option A
  peek r = if r.head == r.tail then none else get_elem? r.slots r.head

  unfoldable pub size_approx : SpscRingBuffer A → ℕ
  size_approx r = bit_and ((r.tail + 2 ^ 64 - r.head) % 2 ^ 64) (mask k)

  unfoldable pub full : SpscRingBuffer A → Bool
  full r = successor k r.tail == r.head

  -- A client's calls in order, with what each returns; none once a call is undefined.
  abbrev pub after_pop : Taken A → SpscRingBuffer A → Option (Reply A × SpscRingBuffer A)
  after_pop nothing r = some (popped none, r)
  after_pop (item a r') r = some (popped (some a), r')
  after_pop undefined r = none

  unfoldable pub call : SpscRingBuffer A → Op A → Option (Reply A × SpscRingBuffer A)
  call r (push a) = let (done, r') = try_push a r in some (pushed done, r')
  call r pop = after_pop (try_pop r) r

  unfoldable pub run : SpscRingBuffer A → List (Op A) → Option (List (Reply A) × SpscRingBuffer A)
  run r [] = some ([], r)
  run r (op ∷ ops) = elim (call r op) [
    | none ↦ none
    | some (reply, r') ↦ elim (run r' ops) [
      | none ↦ none
      | some (rest, r'') ↦ some (reply ∷ rest, r'')
    ]
  ]

unfoldable pub empty {ℓ} : {A : Type ℓ} → SpscRingBuffer A → Bool
empty r = r.head == r.tail

unfoldable pub dropped_count {ℓ} : {A : Type ℓ} → SpscRingBuffer A → ℕ
dropped_count r = r.dropped
