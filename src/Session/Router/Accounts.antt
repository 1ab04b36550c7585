-- ===== src/Session/Router/Accounts.antt =====
-- The counters and the registry of ofe_session1_code/ofe/src/core/tick_router.cpp.
use rudra_org.Common.{
  ℕ, ◌+◌, ◌^◌, ◌≤◌, ◌<◌, ◌≡◌, refl, sym, ap, ◌∙◌, Bool, true, false, Bool-cases, inl, inr, Option,
  none, some, Option-cases, List, [], ◌∷◌, arith, leb, if◌then◌else◌, length, get_elem?, length-set,
  get_elem?-of_lt, ◌==◌,
}
use rudra_org.Common.Assoc.{Entry, lookup, alter, erase}
use rudra_org.Session.Tick.{UniversalTickRecord}
use rudra_org.Session.Ring.{try_push}
use rudra_org.Session.Router.{
  TickRouter, Routing, next_count, tick_exponent, register_symbol, unregister_symbol, push_to,
  route, route_all,
}

abbrev pub accounted : TickRouter → ℕ
accounted r = r.ticks_routed + r.ticks_dropped + r.ticks_unknown

module _ {D : Type 0} where
  -- Every registered pointer leads to a buffer.
  abbrev pub IsBacked : Routing D → Type 0
  IsBacked s =
      (symbol_id pointer : ℕ)
      → lookup s.router.symbol_map symbol_id ≡ some pointer
      → pointer < length s.buffers

  -- A call returned, with the same registry and as many buffers, and accounted for one more tick.
  abbrev Accounts : Routing D → Option (Bool × Routing D) → Type 0
  Accounts s outcome =
      (placed : Bool) × (s' : Routing D) × (outcome ≡ some (placed, s'))
      × (s'.router.symbol_map ≡ s.router.symbol_map)
      × (length s'.buffers ≡ length s.buffers)
      × (accounted s'.router ≡ accounted s.router + 1)

  push_to-Accounts :
      (s : Routing D) (tick : UniversalTickRecord D) (pointer : ℕ)
      → accounted s.router + 1 < 2 ^ 64
      → pointer < length s.buffers
      → Accounts s (push_to s tick pointer (get_elem? s.buffers pointer))
  push_to-Accounts s tick pointer room inside =
      let (buffer, found) = get_elem?-of_lt s.buffers pointer inside in
      rw found (
        _,
        _,
        refl,
        refl,
        length-set s.buffers pointer _,
        split (try_push tick_exponent tick buffer).0,
      )
    where
      split :
          (b : Bool)
          → (if b then next_count s.router.ticks_routed else s.router.ticks_routed)
              + (if b then s.router.ticks_dropped else next_count s.router.ticks_dropped)
              + s.router.ticks_unknown
            ≡ accounted s.router + 1
      split true = omega arith
      split false = omega arith

  route-Accounts :
      (s : Routing D) (tick : UniversalTickRecord D)
      → accounted s.router + 1 < 2 ^ 64
      → IsBacked s
      → Accounts s (route s tick)
  unfolding route
  route-Accounts s tick room backed =
      elim (Option-cases (lookup s.router.symbol_map tick.symbol_id)) [
        | inl missing ↦ rw missing (false, _, refl, refl, refl, omega arith)
        | inr (pointer, found) ↦
            rw found (push_to-Accounts s tick pointer room (backed tick.symbol_id pointer found))
      ]

  -- Where every registered pointer leads to a buffer and the counters stay below 2^64, every call of
  -- `route` returns, and each tick is counted exactly once: as routed, as dropped or as unknown.
  pub route_all-accounted :
      (s : Routing D) (ticks : List (UniversalTickRecord D))
      → IsBacked s
      → accounted s.router + length ticks < 2 ^ 64
      → (s' : Routing D) × (route_all s ticks ≡ some s')
        × (accounted s'.router ≡ accounted s.router + length ticks)
  unfolding route_all
  route_all-accounted s [] backed room = (s, refl, omega arith)
  route_all-accounted s (tick ∷ ticks) backed room =
      let (placed, s₁, ran, same, kept, one) = route-Accounts s tick (omega arith) backed in
      let backed₁ : IsBacked s₁ = λ symbol_id pointer found.
        omega (
          arith,
          kept,
          backed symbol_id pointer (ap (λ m. lookup m symbol_id) (sym same) ∙ found),
        ) in
      let (s₂, rest, all) = route_all-accounted s₁ ticks backed₁ (omega (arith, one)) in
      (s₂, rw (ran, route_all) rest, omega (arith, all, one))

length-alter : (es : List (Entry ℕ)) (k a : ℕ) (f : ℕ → ℕ) → length (alter es k a f) ≤ length es + 1
unfolding alter
length-alter [] k a f = omega arith
length-alter (e ∷ es) k a f = elim (Bool-cases (e.key == k)) [
  | inl here ↦ rw here (omega arith)
  | inr away ↦ rw away (omega (arith, length-alter es k a f))
]

length-erase : (es : List (Entry ℕ)) (k : ℕ) → length (erase es k) ≤ length es
unfolding erase
length-erase [] k = omega arith
length-erase (e ∷ es) k = elim (Bool-cases (e.key == k)) [
  | inl here ↦ rw here (omega (arith, length-erase es k))
  | inr away ↦ rw away (omega (arith, length-erase es k))
]

-- The registry never holds more symbols than the router was made for: a registration keeps it so,
-- whether it is refused or not, and an unregistration does.
registry_bound :
    (r : TickRouter) (symbol_id : ℕ) (buffer : Option ℕ)
    → length r.symbol_map ≤ r.max_symbols
    → (length (register_symbol r symbol_id buffer).1.symbol_map ≤ r.max_symbols)
      × (length (unregister_symbol r symbol_id).symbol_map ≤ r.max_symbols)
unfolding register_symbol unregister_symbol
registry_bound r symbol_id none h = (h, omega (arith, length-erase r.symbol_map symbol_id))
registry_bound r symbol_id (some buffer) h = (
  bounded (leb r.max_symbols (length r.symbol_map)) refl,
  omega (arith, length-erase r.symbol_map symbol_id),
)
  where
    bounded :
        (b : Bool)
        → leb r.max_symbols (length r.symbol_map) ≡ b
        → let out : Bool × TickRouter = if b then (false, r) else (
          true,
          record r { symbol_map = alter r.symbol_map symbol_id buffer (λ old. buffer) },
        ) in
          length out.1.symbol_map ≤ r.max_symbols
    bounded true e = h
    bounded false e = ground (arith, length-alter r.symbol_map symbol_id buffer (λ old. buffer))
