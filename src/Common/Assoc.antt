-- ===== src/Common/Assoc.antt =====
-- `std::unordered_map` with a number for a key, as an association list.
use Prim.Native.Nat.{ℕ}
use mathlib.Core.Path.{◌≡◌, refl, sym, ap}
use mathlib.Core.Logic.{inl, inr}
use mathlib.Core.Bool.{Bool, true, false}
use mathlib.Core.Option.{Option, none, some}
use mathlib.Core.List.{List, [], ◌∷◌}
use native.Mathlib.Omega.{arith}
use rudra_org.Common.Tests.{if◌then◌else◌, Bool-cases, ◌==◌, ==_iff}

pub record Entry {ℓ} (A : Type ℓ) : Type ℓ where
  pub key : ℕ
  pub value : A

unfoldable pub map_option {ℓ κ} : {A : Type ℓ} {B : Type κ} → (A → B) → Option A → Option B
map_option f none = none
map_option f (some a) = some (f a)

same_key : (a k k' : ℕ) → (a == k) ≡ true → (a == k') ≡ (k == k')
same_key a k k' h = ground arith

apart_key : (a k k' : ℕ) → (a == k) ≡ false → (a == k') ≡ true → (k == k') ≡ false
apart_key a k k' h h' = ground arith

module _ {ℓ} {A : Type ℓ} where
  abbrev pub value_or : A → Option A → A
  value_or a none = a
  value_or a (some b) = b

  -- `find`
  unfoldable pub lookup : List (Entry A) → ℕ → Option A
  lookup [] k = none
  lookup (e ∷ es) k = if e.key == k then some e.value else lookup es k

  -- A change of `map[k]`, which first inserts the default where the key is missing.
  unfoldable pub alter : List (Entry A) → ℕ → A → (A → A) → List (Entry A)
  alter [] k a f = record { key = k; value = f a } ∷ []
  alter (e ∷ es) k a f =
      if e.key == k then record { key = e.key; value = f e.value } ∷ es else e ∷ alter es k a f

  -- A change of the value that `find` gives, if it gives one.
  unfoldable pub modify : List (Entry A) → ℕ → (A → A) → List (Entry A)
  modify [] k f = []
  modify (e ∷ es) k f =
      if e.key == k then record { key = e.key; value = f e.value } ∷ es else e ∷ modify es k f

  unfoldable pub erase : List (Entry A) → ℕ → List (Entry A)
  erase [] k = []
  erase (e ∷ es) k = if e.key == k then erase es k else e ∷ erase es k

  if_same : (b : Bool) (x : Option A) → x ≡ (if b then x else x)
  if_same true x = refl
  if_same false x = refl

  if_else :
      (b : Bool) (x y z : Option A) → (if b then x else if b then y else z) ≡ (if b then x else z)
  if_else true x y z = refl
  if_else false x y z = refl

  -- Two tests that do not hold both may be made in either order.
  if_swap :
      (b c : Bool) (x y z : Option A)
      → (b ≡ true → c ≡ false)
      → (if b then x else if c then y else z) ≡ (if c then y else if b then x else z)
  if_swap true c x y z h = rw (h refl) refl
  if_swap false true x y z h = refl
  if_swap false false x y z h = refl

  pub lookup-alter :
      (es : List (Entry A)) (k k' : ℕ) (a : A) (f : A → A)
      → lookup (alter es k a f) k'
        ≡ (if k == k' then some (f (value_or a (lookup es k))) else lookup es k')
  unfolding lookup alter
  lookup-alter [] k k' a f = refl
  lookup-alter (e ∷ es) k k' a f = elim (Bool-cases (e.key == k)) [
    | inl here ↦
        rw (here, same_key e.key k k' here)
          (sym (if_else (k == k') (some (f e.value)) (some e.value) (lookup es k')))
    | inr away ↦
        rw (away, lookup-alter es k k' a f)
          (if_swap (e.key == k') (k == k') _ _ _ (apart_key e.key k k' away))
  ]

  pub lookup-modify :
      (es : List (Entry A)) (k k' : ℕ) (f : A → A)
      → lookup (modify es k f) k' ≡ (if k == k' then map_option f (lookup es k) else lookup es k')
  unfolding lookup modify map_option
  lookup-modify [] k k' f = if_same (k == k') none
  lookup-modify (e ∷ es) k k' f = elim (Bool-cases (e.key == k)) [
    | inl here ↦
        rw (here, same_key e.key k k' here)
          (sym (if_else (k == k') (some (f e.value)) (some e.value) (lookup es k')))
    | inr away ↦
        rw (away, lookup-modify es k k' f)
          (if_swap (e.key == k') (k == k') _ _ _ (apart_key e.key k k' away))
  ]

  pub lookup-modify_other :
      (es : List (Entry A)) (k k' : ℕ) (f : A → A)
      → (k == k') ≡ false
      → lookup (modify es k f) k' ≡ lookup es k'
  lookup-modify_other es k k' f apart = rw (lookup-modify es k k' f, apart) refl

  pub lookup-modify_self :
      (es : List (Entry A)) (k k' : ℕ) (f : A → A)
      → (k == k') ≡ true
      → lookup (modify es k f) k' ≡ map_option f (lookup es k')
  lookup-modify_self es k k' f same =
      let e : k ≡ k' = (==_iff k k').0 same in
      rw (lookup-modify es k k' f, same) (ap (λ key. map_option f (lookup es key)) e)

  pub lookup-erase :
      (es : List (Entry A)) (k k' : ℕ)
      → lookup (erase es k) k' ≡ (if k == k' then none else lookup es k')
  unfolding lookup erase
  lookup-erase [] k k' = if_same (k == k') none
  lookup-erase (e ∷ es) k k' = elim (Bool-cases (e.key == k)) [
    | inl here ↦
        rw (here, lookup-erase es k k', same_key e.key k k' here)
          (sym (if_else (k == k') none (some e.value) (lookup es k')))
    | inr away ↦
        rw (away, lookup-erase es k k')
          (if_swap (e.key == k') (k == k') _ _ _ (apart_key e.key k k' away))
  ]
