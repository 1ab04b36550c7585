-- ===== src/Session/Bars/Levels.antt =====
-- The volumes at the price levels of ofe_session1_code/ofe/src/core/bar_engine.cpp.
use rudra_org.Common.{
  ℕ, ◌+◌, ◌^◌, ◌<◌, ◌≡◌, refl, ap, ◌∙◌, Bool, true, false, List, [], ◌∷◌, All, arith, if◌then◌else◌,
}
use rudra_org.Common.Int.{
  ℤ, pos, pos_part, neg_part, ◌+ℤ◌, ◌-ℤ◌, ltb_ℤ, to_int32, IsInt32, to_int32-eq_self,
}
use rudra_org.Float.{Double, ◌⊖◌, ◌⊗◌, ◌<?◌}
use rudra_org.Session.Tick.{UniversalTickRecord}
use rudra_org.Session.BarTypes.{PriceLevelRecord, blank_level}
use rudra_org.Session.Bars.{is_ask, add_to_level, at_level, insert_level, sort_levels, flag_poc}

-- The total is that of the two sides, neither of which is negative, and the delta their difference.
pub record IsBalanced {D : Type 0} (l : PriceLevelRecord D) : Type 0 where
  pub ask_pos : neg_part l.ask_vol ≡ 0
  pub bid_pos : neg_part l.bid_vol ≡ 0
  pub total_is : pos_part l.total_vol ≡ pos_part l.ask_vol + pos_part l.bid_vol
  pub total_pos : neg_part l.total_vol ≡ 0
  pub delta_is : l.delta ≡ l.ask_vol -ℤ l.bid_vol

abbrev pub volume_sum : {D : Type 0} → List (PriceLevelRecord D) → ℕ
volume_sum [] = 0
volume_sum (l ∷ ls) = pos_part l.total_vol + volume_sum ls

-- Sums that fit.
to_int32-add :
    (a b : ℤ)
    → neg_part a ≡ 0
    → neg_part b ≡ 0
    → pos_part a + pos_part b < 2 ^ 31
    → (neg_part (to_int32 (a +ℤ b)) ≡ 0) × (pos_part (to_int32 (a +ℤ b)) ≡ pos_part a + pos_part b)
unfolding ◌+ℤ◌
to_int32-add a b low low' room =
    let same = to_int32-eq_self (a +ℤ b) (ground arith, ground arith) in
    rw same (ground arith, ground arith)

sub_fits :
    (a b : ℤ)
    → neg_part a ≡ 0
    → neg_part b ≡ 0
    → pos_part a + pos_part b < 2 ^ 31
    → IsInt32 (a -ℤ b)
unfolding ◌-ℤ◌
sub_fits a b low low' room = (ground arith, ground arith)

module _ {D : Type 0} where
  rebuilt-IsBalanced :
      (l : PriceLevelRecord D) (a b : ℤ)
      → neg_part a ≡ 0
      → neg_part b ≡ 0
      → pos_part a + pos_part b < 2 ^ 31
      → let l' = record l {
        ask_vol = a;
        bid_vol = b;
        total_vol = to_int32 (a +ℤ b);
        delta = to_int32 (a -ℤ b);
      } in
        IsBalanced l' × (pos_part l'.total_vol ≡ pos_part a + pos_part b)
  rebuilt-IsBalanced l a b low low' room =
      let (total_low, total) = to_int32-add a b low low' room in
      (
        record {
          ask_pos = low;
          bid_pos = low';
          total_is = total;
          total_pos = total_low;
          delta_is = to_int32-eq_self (a -ℤ b) (sub_fits a b low low' room);
        },
        total,
      )

  -- A trade of `v` at a level.
  add_to_level-IsBalanced :
      (tick : UniversalTickRecord D) (l : PriceLevelRecord D) (v : ℕ)
      → IsBalanced l
      → tick.volume ≡ pos v
      → pos_part l.total_vol + v < 2 ^ 31
      → IsBalanced (add_to_level tick l)
        × (pos_part (add_to_level tick l).total_vol ≡ pos_part l.total_vol + v)
  unfolding add_to_level
  add_to_level-IsBalanced tick l v b e room = split (is_ask tick.side)
    where
      add : ℤ → ℤ
      add a = to_int32 (a +ℤ to_int32 tick.volume)

      added :
          (a : ℤ)
          → neg_part a ≡ 0
          → pos_part a + v < 2 ^ 31
          → (neg_part (add a) ≡ 0) × (pos_part (add a) ≡ pos_part a + v)
      added a low fits =
          let whole : to_int32 tick.volume ≡ pos v =
            ap to_int32 e ∙ to_int32-eq_self (pos v) (omega arith, omega arith) in
          rw whole (to_int32-add a (pos v) low refl fits)

      split :
          (b : Bool)
          → let ask_vol = if b then add l.ask_vol else l.ask_vol in
            let bid_vol = if b then l.bid_vol else add l.bid_vol in
            let l' = record l {
              ask_vol = ask_vol;
              bid_vol = bid_vol;
              total_vol = to_int32 (ask_vol +ℤ bid_vol);
              delta = to_int32 (ask_vol -ℤ bid_vol);
            } in
            IsBalanced l' × (pos_part l'.total_vol ≡ pos_part l.total_vol + v)
      split true =
          let (low, sum) = added l.ask_vol b.ask_pos (omega (arith, b.total_is)) in
          let (balanced, total) =
            rebuilt-IsBalanced l (add l.ask_vol) l.bid_vol low b.bid_pos
              (omega (arith, b.total_is, sum)) in
          (balanced, omega (arith, total, sum, b.total_is))
      split false =
          let (low, sum) = added l.bid_vol b.bid_pos (omega (arith, b.total_is)) in
          let (balanced, total) =
            rebuilt-IsBalanced l l.ask_vol (add l.bid_vol) b.ask_pos low
              (omega (arith, b.total_is, sum)) in
          (balanced, omega (arith, total, sum, b.total_is))

  -- Levels that are balanced and have a volume in all.
  abbrev pub AreBalanced : ℕ → List (PriceLevelRecord D) → Type 0
  AreBalanced sum ls = All IsBalanced ls × (volume_sum ls ≡ sum)

  flagged : (l : PriceLevelRecord D) → IsBalanced l → IsBalanced (record l { is_poc = true })
  flagged l b = record {
    ask_pos = b.ask_pos;
    bid_pos = b.bid_pos;
    total_is = b.total_is;
    total_pos = b.total_pos;
    delta_is = b.delta_is;
  }

  pub flag_poc-AreBalanced :
      (most : ℤ) (ls : List (PriceLevelRecord D))
      → All IsBalanced ls
      → AreBalanced (volume_sum ls) (flag_poc most ls)
  unfolding flag_poc
  flag_poc-AreBalanced most [] bs = (tt, refl)
  flag_poc-AreBalanced most (l ∷ ls) (b, bs) =
      split (ltb_ℤ l.total_vol most) (flag_poc-AreBalanced most ls bs)
    where
      split :
          (c : Bool)
          → AreBalanced (volume_sum ls) (flag_poc most ls)
          → AreBalanced
              (volume_sum (l ∷ ls))
              (if c then l ∷ flag_poc most ls else record l { is_poc = true } ∷ ls)
      split true (bs', sum) = ((b, bs'), omega (arith, sum))
      split false rest = ((flagged l b, bs), refl)

module _ {D : Type 0} ⦃d : Double D⦄ where
  insert_level-AreBalanced :
      (l : PriceLevelRecord D) (ls : List (PriceLevelRecord D))
      → IsBalanced l
      → All IsBalanced ls
      → AreBalanced (pos_part l.total_vol + volume_sum ls) (insert_level l ls)
  insert_level-AreBalanced l [] b bs = ((b, tt), refl)
  insert_level-AreBalanced l (m ∷ ms) b (c, cs) =
      split (m.price <? l.price) (insert_level-AreBalanced l ms b cs)
    where
      split :
          (lower : Bool)
          → AreBalanced (pos_part l.total_vol + volume_sum ms) (insert_level l ms)
          → AreBalanced
              (pos_part l.total_vol + volume_sum (m ∷ ms))
              (if lower then m ∷ insert_level l ms else l ∷ m ∷ ms)
      split true (cs', sum) = ((c, cs'), omega (arith, sum))
      split false rest = ((b, (c, cs)), refl)

  pub sort_levels-AreBalanced :
      (ls : List (PriceLevelRecord D))
      → All IsBalanced ls
      → AreBalanced (volume_sum ls) (sort_levels ls)
  unfolding sort_levels
  sort_levels-AreBalanced [] bs = (tt, refl)
  sort_levels-AreBalanced (l ∷ ls) (b, bs) =
      let (cs, sum) = sort_levels-AreBalanced ls bs in
      let (cs', sum') = insert_level-AreBalanced l (sort_levels ls) b cs in
      (cs', omega (arith, sum, sum'))

  blank_level-IsBalanced : (price : D) → IsBalanced (record blank_level { price = price })
  unfolding ◌-ℤ◌
  blank_level-IsBalanced price = record {
    ask_pos = refl;
    bid_pos = refl;
    total_is = refl;
    total_pos = refl;
    delta_is = refl;
  }

  -- A trade of `v` raises the volume of the levels by `v`, at whichever level it happens.
  pub at_level-AreBalanced :
      (rounded tick_size : D) (tick : UniversalTickRecord D) (v : ℕ)
      (ls : List (PriceLevelRecord D))
      → tick.volume ≡ pos v
      → volume_sum ls + v < 2 ^ 31
      → All IsBalanced ls
      → AreBalanced (volume_sum ls + v) (at_level rounded tick_size (add_to_level tick) ls)
  unfolding at_level
  at_level-AreBalanced rounded tick_size tick v [] e room bs =
      let (b, sum) = add_to_level-IsBalanced tick _ v (blank_level-IsBalanced rounded) e room in
      ((b, tt), omega (arith, sum))
  at_level-AreBalanced rounded tick_size tick v (l ∷ ls) e room (b, bs) =
      split (d.fabs (l.price ⊖ rounded) <? (tick_size ⊗ d.literal 1 2))
        (at_level-AreBalanced rounded tick_size tick v ls e (omega arith) bs)
    where
      further : List (PriceLevelRecord D)
      further = at_level rounded tick_size (add_to_level tick) ls

      split :
          (here : Bool)
          → AreBalanced (volume_sum ls + v) further
          → AreBalanced
              (volume_sum (l ∷ ls) + v)
              (if here then add_to_level tick l ∷ ls else l ∷ further)
      split true rest =
          let (b', sum) = add_to_level-IsBalanced tick l v b e (omega arith) in
          ((b', bs), omega (arith, sum))
      split false (bs', sum) = ((b, bs'), omega (arith, sum))
