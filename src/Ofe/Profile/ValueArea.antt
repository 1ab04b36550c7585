-- ===== src/Ofe/Profile/ValueArea.antt =====
-- The value area of include/ofe/analytics/volume_profile.h: the loop ends, and what it takes.
use mathlib.Core.List.{append_assoc}
use rudra_org.Common.{
  ℕ, zero, suc, ◌+◌, ◌≤◌, ◌≡◌, ◌⊎◌, refl, sym, ap, ◌∙◌, Bool, true, false, not, ◌&&◌, ◌||◌,
  Bool-cases, inl, inr, List, [], ◌∷◌, ◌++◌, arith, length, length-append, if◌then◌else◌,
}
use rudra_org.Float.{Double, zero_D, ◌⊕◌, ◌⊗◌, ◌<?◌}
use rudra_org.Ofe.Profile.Poc.{entries, max_element-entries}
use rudra_org.Ofe.Profile.{
  Level, Cursor, Area, is_empty, prev, next, prev_from, next_from, sum_volume, move_left,
  move_right, widen, goes_on, value_area, fuel_for, start_area, snapshot, snapshot_from,
  max_element,
}

-- `order` holds the entries of both lists, each list in its own order.
pub data Interleaving {A : Type 0} : List A → List A → List A → Type 0 where
  done : Interleaving [] [] []
  from_left :
      {x : A} {ls rs order : List A}
      → Interleaving ls rs order
      → Interleaving (x ∷ ls) rs (x ∷ order)
  from_right :
      {x : A} {ls rs order : List A}
      → Interleaving ls rs order
      → Interleaving ls (x ∷ rs) (x ∷ order)

pub Interleaving-append :
    {A : Type 0} {ls rs order ls' rs' order' : List A}
    → Interleaving ls rs order
    → Interleaving ls' rs' order'
    → Interleaving (ls ++ ls') (rs ++ rs') (order ++ order')
Interleaving-append done k = k
Interleaving-append (from_left h) k = from_left (Interleaving-append h k)
Interleaving-append (from_right h) k = from_right (Interleaving-append h k)

module _ {D : Type 0} ⦃d : Double D⦄ where
  -- The bounds are the prices at the two iterators.
  abbrev pub IsTracked : Area D → Type 0
  IsTracked a = (a.value_area_low ≡ a.left.here.price) × (a.value_area_high ≡ a.right.here.price)

  sum_volume-append :
      (xs ys : List (Level D)) (total : D)
      → sum_volume total (xs ++ ys) ≡ sum_volume (sum_volume total xs) ys
  sum_volume-append [] ys total = refl
  sum_volume-append (x ∷ xs) ys total = sum_volume-append xs ys (total ⊕ x.volume)

  -- The last of some entries, or the one before them.
  abbrev pub last_or : Level D → List (Level D) → Level D
  last_or l [] = l
  last_or l (x ∷ xs) = last_or x xs

  last_or-append :
      (l : Level D) (xs ys : List (Level D)) → last_or (last_or l xs) ys ≡ last_or l (xs ++ ys)
  last_or-append l [] ys = refl
  last_or-append l (x ∷ xs) ys = last_or-append x xs ys

  -- From one state of the loop to a later one, the entries `ls` next to the left iterator and `rs`
  -- next to the right one are taken, the iterators stand at the last of them, and their volumes are
  -- added in some order.
  pub record Takes (a b : Area D) : Type 0 where
    pub ls : List (Level D)
    pub rs : List (Level D)
    pub order : List (Level D)
    pub interleaved : Interleaving ls rs order
    pub from_before : a.left.before ≡ ls ++ b.left.before
    pub from_after : a.right.after ≡ rs ++ b.right.after
    pub left_end : b.left.here ≡ last_or a.left.here ls
    pub right_end : b.right.here ≡ last_or a.right.here rs
    pub sum : b.accumulated ≡ sum_volume a.accumulated order

  takes_none : (a : Area D) → Takes a a
  takes_none a = record {
    ls = [];
    rs = [];
    order = [];
    interleaved = done;
    from_before = refl;
    from_after = refl;
    left_end = refl;
    right_end = refl;
    sum = refl;
  }

  Takes-trans : (a b c : Area D) → Takes a b → Takes b c → Takes a c
  Takes-trans a b c t u = record {
    ls = t.ls ++ u.ls;
    rs = t.rs ++ u.rs;
    order = t.order ++ u.order;
    interleaved = Interleaving-append t.interleaved u.interleaved;
    from_before =
        t.from_before
        ∙ ap (λ rest. t.ls ++ rest) u.from_before
        ∙ sym (append_assoc t.ls u.ls c.left.before);
    from_after =
        t.from_after
        ∙ ap (λ rest. t.rs ++ rest) u.from_after
        ∙ sym (append_assoc t.rs u.rs c.right.after);
    left_end =
        u.left_end ∙ ap (λ l. last_or l u.ls) t.left_end ∙ last_or-append a.left.here t.ls u.ls;
    right_end =
        u.right_end ∙ ap (λ l. last_or l u.rs) t.right_end ∙ last_or-append a.right.here t.rs u.rs;
    sum =
        u.sum
        ∙ ap (λ total. sum_volume total u.order) t.sum
        ∙ sym (sum_volume-append t.order u.order a.accumulated);
  }

  prev_lem :
      (it : Cursor D) (l : Level D) (ls : List (Level D))
      → it.before ≡ l ∷ ls
      → prev it ≡ record { before = ls; here = l; after = it.here ∷ it.after }
  prev_lem it l ls e = ap (prev_from it) e

  next_lem :
      (it : Cursor D) (l : Level D) (ls : List (Level D))
      → it.after ≡ l ∷ ls
      → next it ≡ record { before = it.here ∷ it.before; here = l; after = ls }
  next_lem it l ls e = ap (next_from it) e

  move_left-Takes :
      (l : Level D) (ls : List (Level D)) (a : Area D)
      → a.left.before ≡ l ∷ ls
      → (t : Takes a (move_left a)) × (length t.order ≡ 1)
  unfolding move_left
  move_left-Takes l ls a e =
      let moved = prev_lem a.left l ls e in
      (
        record {
          ls = l ∷ [];
          rs = [];
          order = l ∷ [];
          interleaved = from_left done;
          from_before = e ∙ sym (ap (λ it. l ∷ it.before) moved);
          from_after = refl;
          left_end = ap (λ it. it.here) moved;
          right_end = refl;
          sum = ap (λ it. a.accumulated ⊕ it.here.volume) moved;
        },
        refl,
      )

  move_right-Takes :
      (l : Level D) (ls : List (Level D)) (a : Area D)
      → a.right.after ≡ l ∷ ls
      → (t : Takes a (move_right a)) × (length t.order ≡ 1)
  unfolding move_right
  move_right-Takes l ls a e =
      let moved = next_lem a.right l ls e in
      (
        record {
          ls = [];
          rs = l ∷ [];
          order = l ∷ [];
          interleaved = from_right done;
          from_before = refl;
          from_after = e ∙ sym (ap (λ it. l ∷ it.after) moved);
          left_end = refl;
          right_end = ap (λ it. it.here) moved;
          sum = ap (λ it. a.accumulated ⊕ it.here.volume) moved;
        },
        refl,
      )

  -- At least one entry is taken, and the bounds stay at the iterators.
  abbrev Advances : Area D → Area D → Type 0
  Advances a b = (t : Takes a b) × (1 ≤ length t.order) × (IsTracked a → IsTracked b)

  not_empty :
      (ls : List (Level D))
      → not (is_empty ls) ≡ true
      → (l : Level D) × (rest : List (Level D)) × (ls ≡ l ∷ rest)
  not_empty [] e = absurd cc
  not_empty (l ∷ ls) e = (l, ls, refl)

  move_left-Advances : (a : Area D) → not (is_empty a.left.before) ≡ true → Advances a (move_left a)
  unfolding move_left
  move_left-Advances a e =
      let (l, ls, e') = not_empty a.left.before e in
      let (t, one) = move_left-Takes l ls a e' in (t, omega (arith, one), λ v. (refl, v.1))

  move_right-Advances :
      (a : Area D) → not (is_empty a.right.after) ≡ true → Advances a (move_right a)
  unfolding move_right
  move_right-Advances a e =
      let (l, ls, e') = not_empty a.right.after e in
      let (t, one) = move_right-Takes l ls a e' in (t, omega (arith, one), λ v. (v.0, refl))

  move_left_keeps_right : (a : Area D) → (move_left a).right.after ≡ a.right.after
  unfolding move_left
  move_left_keeps_right a = refl

  Advances-trans : (a b c : Area D) → Advances a b → Advances b c → Advances a c
  unfolding Takes-trans
  Advances-trans a b c (t, one, v) (u, one', w) =
      (Takes-trans a b c t u, omega (arith, length-append t.order u.order), λ h. w (v h))

  -- The three branches of the loop's body.
  branches :
      (a : Area D) (can_left can_right left_larger right_larger : Bool)
      → not (is_empty a.left.before) ≡ can_left
      → not (is_empty a.right.after) ≡ can_right
      → (can_left || can_right) ≡ true
      → Advances a (
          if can_left && (not can_right || left_larger)
          then move_left a
          else if can_right && (not can_left || right_larger)
          then move_right a
          else let a' = if can_left then move_left a else a in
            if can_right then move_right a' else a')
  branches a true false lv rv h k some_side = move_left-Advances a h
  branches a true true true rv h k some_side = move_left-Advances a h
  branches a true true false true h k some_side = move_right-Advances a k
  branches a true true false false h k some_side =
      let k' = ap (λ ls. not (is_empty ls)) (move_left_keeps_right a) ∙ k in
      Advances-trans a (move_left a) (move_right (move_left a)) (move_left-Advances a h)
        (move_right-Advances (move_left a) k')
  branches a false true lv rv h k some_side = move_right-Advances a k
  branches a false false lv rv h k some_side = absurd cc

  goes_on-lem :
      (target : D) (a : Area D)
      → goes_on target a ≡ true
      → (not (is_empty a.left.before) || not (is_empty a.right.after)) ≡ true
  unfolding goes_on
  goes_on-lem target a e = ground arith

  widen-Advances : (target : D) (a : Area D) → goes_on target a ≡ true → Advances a (widen a)
  unfolding widen
  widen-Advances target a e = branches a _ _ _ _ refl refl (goes_on-lem target a e)

  length-Interleaving :
      {ls rs order : List (Level D)}
      → Interleaving ls rs order
      → length order ≡ length ls + length rs
  length-Interleaving done = refl
  length-Interleaving (from_left h) = omega (arith, length-Interleaving h)
  length-Interleaving (from_right h) = omega (arith, length-Interleaving h)

  Takes-fuel : (a b : Area D) (t : Takes a b) → fuel_for a ≡ fuel_for b + length t.order
  Takes-fuel a b t = omega (
    arith,
    ap length t.from_before,
    ap length t.from_after,
    length-append t.ls b.left.before,
    length-append t.rs b.right.after,
    length-Interleaving t.interleaved,
  )

  no_fuel : (target : D) (a : Area D) → fuel_for a ≡ 0 → goes_on target a ≡ false
  no_fuel target a e = elim (Bool-cases (goes_on target a)) [
    | inl on ↦
        let (t, one, v) = widen-Advances target a on in
        absurd (omega (arith, Takes-fuel a (widen a) t))
    | inr off ↦ off
  ]

  value_area-Takes :
      (n : ℕ) (target : D) (a : Area D)
      → fuel_for a ≤ n
      → Takes a (value_area n target a)
        × (IsTracked a → IsTracked (value_area n target a))
        × (goes_on target (value_area n target a) ≡ false)
  unfolding value_area
  value_area-Takes zero target a h = (takes_none a, (λ v. v), no_fuel target a (omega arith))
  value_area-Takes (suc n) target a h =
      split (goes_on target a) refl (λ k. value_area-Takes n target (widen a) k)
    where
      split :
          (b : Bool)
          → goes_on target a ≡ b
          → (fuel_for (widen a) ≤ n
              → let out = value_area n target (widen a) in
                Takes (widen a) out
                × (IsTracked (widen a) → IsTracked out)
                × (goes_on target out ≡ false))
          → let out = if b then value_area n target (widen a) else a in
            Takes a out × (IsTracked a → IsTracked out) × (goes_on target out ≡ false)
      split false off rest = (takes_none a, (λ v. v), off)
      split true on rest =
          let (t, one, v) = widen-Advances target a on in
          let (t', v', off) = rest (omega (arith, Takes-fuel a (widen a) t)) in
          (Takes-trans a (widen a) _ t t', (λ w. v' (v w)), off)

  -- The loop has stopped.
  abbrev pub Stops : D → Area D → Type 0
  Stops target a =
      ((a.accumulated <? target) ≡ false)
      ⊎ ((is_empty a.left.before ≡ true) × (is_empty a.right.after ≡ true))

  goes_on-Stops : (target : D) (a : Area D) → goes_on target a ≡ false → Stops target a
  unfolding goes_on
  goes_on-Stops target a e = ground arith

  -- On a profile with entries the loop ends. It starts from an iterator of the profile, takes
  -- entries next to it on the left and on the right, in some order, and adds up their volumes in
  -- that order. The bounds that are reported are the prices of the last entry taken on the left and
  -- of the last one taken on the right, or the price at the start where none was taken there. The
  -- loop stops because the target is reached or because every entry is taken.
  pub snapshot_value_area :
      (l : Level D) (ls : List (Level D)) (ratio : D)
      → let result = snapshot (l ∷ ls) ratio in
        (poc : Cursor D) × (a : Area D) × (entries poc ≡ l ∷ ls)
        × (poc.here.price ≡ result.poc_price)
        × (t : Takes (start_area poc) a) × (result.value_area_low ≡ (last_or poc.here t.ls).price)
        × (result.value_area_high ≡ (last_or poc.here t.rs).price)
        × Stops (result.total_volume ⊗ ratio) a
  unfolding snapshot snapshot_from
  snapshot_value_area l ls ratio =
      let first : Cursor D = record { before = []; here = l; after = ls } in
      let poc = max_element first (l ∷ []) ls in
      let target = sum_volume zero_D (l ∷ ls) ⊗ ratio in
      let start = start_area poc in
      let a = value_area (fuel_for start) target start in
      let (t, tracked, off) = value_area-Takes (fuel_for start) target start (omega arith) in
      let (low, high) = tracked (refl, refl) in
      (
        poc,
        a,
        max_element-entries first (l ∷ []) ls refl,
        refl,
        t,
        low ∙ ap (λ (e : Level D). e.price) t.left_end,
        high ∙ ap (λ (e : Level D). e.price) t.right_end,
        goes_on-Stops target a off,
      )
