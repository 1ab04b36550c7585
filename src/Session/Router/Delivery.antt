-- ===== src/Session/Router/Delivery.antt =====
-- What ofe_session1_code/ofe/src/core/tick_router.cpp does with a tick of a registered symbol.
use rudra_org.Common.{
  ℕ, suc, ◌-◌, ◌^◌, ◌<◌, ◌≡◌, refl, Bool, Bool-cases, inl, inr, some, List, [], ◌∷◌, ◌++◌, arith,
  ltb, if◌then◌else◌, length, get_elem?, set,
}
use rudra_org.Common.Assoc.{lookup}
use rudra_org.Session.Tick.{UniversalTickRecord}
use rudra_org.Session.Ring.{SpscRingBuffer}
use rudra_org.Session.Ring.Refine.{
  Refines, try_push_full, try_push_room, pushed_ring, pushed_ring-Refines, refused_ring,
  refused_ring-Refines,
}
use rudra_org.Session.Router.{Routing, next_count, tick_exponent, push_to, route}

module _ {D : Type 0} where
  -- The buffer is the only one that changed, it holds `queue`, and a counter has moved.
  pub record Delivered (s s' : Routing D) (pointer : ℕ) (queue : List (UniversalTickRecord D))
      (placed : Bool) : Type 0 where
    pub buffer' : SpscRingBuffer (UniversalTickRecord D)
    pub only : s'.buffers ≡ set s.buffers pointer buffer'
    pub holds : Refines tick_exponent buffer' queue
    pub routed :
        s'.router.ticks_routed
        ≡ (if placed then next_count s.router.ticks_routed else s.router.ticks_routed)
    pub dropped :
        s'.router.ticks_dropped
        ≡ (if placed then s.router.ticks_dropped else next_count s.router.ticks_dropped)

  push_to-Delivered :
      (s : Routing D) (tick : UniversalTickRecord D) (pointer : ℕ)
      (buffer : SpscRingBuffer (UniversalTickRecord D)) (q : List (UniversalTickRecord D))
      → Refines tick_exponent buffer q
      → let placed = ltb (length q) (2 ^ tick_exponent - 1) in
        (s' : Routing D) × (push_to s tick pointer (some buffer) ≡ some (placed, s'))
        × Delivered s s' pointer (if placed then q ++ tick ∷ [] else q) placed
  push_to-Delivered s tick pointer buffer q v =
      elim (Bool-cases (ltb (length q) (2 ^ tick_exponent - 1))) [
        | inl fits ↦
            let few : suc (length q) < 2 ^ 14 = ground arith in
            rw (fits, try_push_room 14 buffer q tick v few)
              (
                _,
                refl,
                record {
                  buffer' = pushed_ring 14 buffer tick;
                  only = refl;
                  holds = pushed_ring-Refines 14 buffer q tick v few;
                  routed = refl;
                  dropped = refl;
                },
              )
        | inr over ↦
            let all : suc (length q) ≡ 2 ^ 14 = ground (arith, v.room) in
            rw (over, try_push_full 14 buffer q tick v all)
              (
                _,
                refl,
                record {
                  buffer' = refused_ring 14 buffer;
                  only = refl;
                  holds = refused_ring-Refines 14 buffer q v;
                  routed = refl;
                  dropped = refl;
                },
              )
      ]

  -- A tick of a symbol that is registered with a buffer that holds `q` is placed behind `q` if `q` is
  -- shorter than the buffer's slots less one, and is dropped otherwise. The result says which, the
  -- right counter moves, and no other buffer changes.
  pub route-Delivered :
      (s : Routing D) (tick : UniversalTickRecord D) (pointer : ℕ)
      (buffer : SpscRingBuffer (UniversalTickRecord D)) (q : List (UniversalTickRecord D))
      → lookup s.router.symbol_map tick.symbol_id ≡ some pointer
      → get_elem? s.buffers pointer ≡ some buffer
      → Refines tick_exponent buffer q
      → let placed = ltb (length q) (2 ^ tick_exponent - 1) in
        (s' : Routing D) × (route s tick ≡ some (placed, s'))
        × Delivered s s' pointer (if placed then q ++ tick ∷ [] else q) placed
  unfolding route
  route-Delivered s tick pointer buffer q registered found v =
      let (s', ran, delivered) = push_to-Delivered s tick pointer buffer q v in
      (s', rw (registered, found) ran, delivered)
