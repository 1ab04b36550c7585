-- ===== src/Common/Window.antt =====
-- A run of slots in an array that goes round at its end: what both ring buffers store.
use mathlib.Core.Logic.{◌≢◌}
use Prim.Native.Nat.{ℕ, suc, ◌+◌, ◌-◌, ◌%◌, ◌≤◌, ◌<◌}
use mathlib.Core.Path.{◌≡◌, refl, ap, sym, ◌∙◌}
use mathlib.Core.List.{List, [], ◌∷◌, ◌++◌}
use mathlib.Core.Option.{some}
use native.Mathlib.Nat.{mod-add-mod, mod-eq_of_lt, mod-eq-sub-mod, mod-lt, add-mod_right}
use mathlib.Core.Logic.{inl, inr}
use rudra_org.Common.Tests.{Bool-cases, ltb, ltb→lt}
use native.Mathlib.Omega.{arith}
use rudra_org.Common.Lists.{length, get_elem?, set, get_elem?-set_self, get_elem?-set_ne}

-- A slot is its own successor after no number of steps from 1 to `cap - 1`.
pub moved_on :
    (cap steps start : ℕ) → start < cap → 1 ≤ steps → steps < cap → start ≢ (start + steps) % cap
moved_on cap steps start inside some_step few e = elim (Bool-cases (ltb (start + steps) cap)) [
  | inl below ↦ let plain = mod-eq_of_lt (ltb→lt (start + steps) cap below) in omega arith
  | inr beyond ↦
      let over : cap ≤ start + steps = ground arith in
      let once = mod-eq-sub-mod over in
      let rest : start + steps - cap < cap = omega arith in
      let plain = mod-eq_of_lt rest in omega arith
]

-- One step further round is one more step from the start.
pub step-mod : (h n cap : ℕ) → (h + suc n) % cap ≡ ((h + 1) % cap + n) % cap
step-mod h n cap = ap (λ k. k % cap) (omega arith) ∙ sym (mod-add-mod (h + 1) cap n)

module _ {ℓ} {A : Type ℓ} (cap : ℕ) where
  -- The slots from index `h` on, going round at `cap`, hold the items of the list in order.
  abbrev pub Holds : List A → ℕ → List A → Type ℓ
  Holds slots h [] = Unit
  Holds slots h (x ∷ q) = (get_elem? slots h ≡ some x) × Holds slots ((h + 1) % cap) q

  -- A write just past the run extends it.
  pub Holds-set_next :
      (slots q : List A) (h i : ℕ) (v : A)
      → cap ≤ length slots
      → h < cap
      → length q < cap
      → i ≡ (h + length q) % cap
      → Holds slots h q
      → Holds (set slots i v) h (q ++ v ∷ [])
  Holds-set_next slots [] h i v size hh room e held =
      let here : i ≡ h = e ∙ ap (λ t. t % cap) (omega arith) ∙ mod-eq_of_lt hh in
      (rw here (get_elem?-set_self slots h v (omega arith)), tt)
  Holds-set_next slots (x ∷ q) h i v size hh room e (first, rest) =
      let apart : i ≢ h =
        rw e (λ p. moved_on cap (suc (length q)) h hh (omega arith) room (sym p)) in
      (
        get_elem?-set_ne slots v apart ∙ first,
        Holds-set_next slots q ((h + 1) % cap) i v size (omega arith) (omega arith)
            (e ∙ step-mod h (length q) cap) rest,
      )

  -- A write to a slot behind the run leaves the run alone.
  pub Holds-set_behind :
      (slots q : List A) (h k d : ℕ) (v : A)
      → h < cap
      → suc d + length q ≤ cap
      → k ≡ (h + suc d) % cap
      → Holds slots k q
      → Holds (set slots h v) k q
  Holds-set_behind slots [] h k d v hh room e held = tt
  Holds-set_behind slots (x ∷ q) h k d v hh room e (first, rest) =
      let apart : h ≢ k = rw e (moved_on cap (suc d) h hh (omega arith) (omega arith)) in
      (
        get_elem?-set_ne slots v apart ∙ first,
        Holds-set_behind slots q h ((k + 1) % cap) (suc d) v hh (omega arith)
            (rw e (mod-add-mod (h + suc d) cap 1 ∙ ap (λ t. t % cap) (omega arith))) rest,
      )

  -- A run in two parts.
  pub Holds-append :
      (slots p s : List A) (h i : ℕ)
      → h < cap
      → i ≡ (h + length p) % cap
      → Holds slots h (p ++ s)
      → Holds slots h p × Holds slots i s
  Holds-append slots [] s h i hh e held =
      let here : i ≡ h = e ∙ ap (λ t. t % cap) (omega arith) ∙ mod-eq_of_lt hh in (tt, rw here held)
  Holds-append slots (x ∷ p) s h i hh e (first, rest) =
      let (one, two) =
        Holds-append slots p s ((h + 1) % cap) i (omega arith) (e ∙ step-mod h (length p) cap)
          rest in
      ((first, one), two)

  pub append-Holds :
      (slots p s : List A) (h i : ℕ)
      → h < cap
      → i ≡ (h + length p) % cap
      → Holds slots h p
      → Holds slots i s
      → Holds slots h (p ++ s)
  append-Holds slots [] s h i hh e one two =
      let here : i ≡ h = e ∙ ap (λ t. t % cap) (omega arith) ∙ mod-eq_of_lt hh in rw (← here) two
  append-Holds slots (x ∷ p) s h i hh e (first, one) two = (
    first,
    append-Holds slots p s ((h + 1) % cap) i (omega arith) (e ∙ step-mod h (length p) cap) one two,
  )

  -- A write to one slot of a run replaces its item.
  pub Holds-set_at :
      (slots p s : List A) (x v : A) (h i : ℕ)
      → cap ≤ length slots
      → h < cap
      → length p + suc (length s) ≤ cap
      → i ≡ (h + length p) % cap
      → Holds slots h (p ++ x ∷ s)
      → Holds (set slots i v) h (p ++ v ∷ s)
  Holds-set_at slots p s x v h i size hh room e held =
      let (before, (_, behind)) = Holds-append slots p (x ∷ s) h i hh e held in
      let low : i < cap = rw e (mod-lt (h + length p) (omega arith)) in
      let extended = Holds-set_next slots p h i v size hh (omega arith) e before in
      append-Holds (set slots i v) p (v ∷ s) h i hh e
        (Holds-append (set slots i v) p (v ∷ []) h i hh e extended).0
        (
          get_elem?-set_self slots i v (omega arith),
          Holds-set_behind slots s i ((i + 1) % cap) 0 v low (omega arith) refl behind,
        )

  -- A run round the whole array may be read from its second slot.
  pub Holds-rotate :
      (slots q : List A) (x : A) (h : ℕ)
      → h < cap
      → suc (length q) ≡ cap
      → Holds slots h (x ∷ q)
      → Holds slots ((h + 1) % cap) (q ++ x ∷ [])
  Holds-rotate slots q x h hh size (first, rest) =
      append-Holds slots q (x ∷ []) ((h + 1) % cap) h (omega arith) round rest (first, tt)
    where
      round : h ≡ ((h + 1) % cap + length q) % cap
      round =
          sym (mod-eq_of_lt hh)
          ∙ sym (add-mod_right h cap)
          ∙ ap (λ t. (h + t) % cap) (sym size)
          ∙ step-mod h (length q) cap
