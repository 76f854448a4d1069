-- ===== src/Orders/Settling.antt =====
-- What a fill of one side leaves of the lots of that side and of the other.
use kalshi_market_maker.Prelude.{
  suc, ap, ◌∙◌, pos_part, neg_part, pos, ◌+ℤ◌, ◌≤ℤ◌, ◌<ℤ◌, List, [], ◌∷◌, Dict, ◌≡◌, sym, ◌⊎◌, inl,
  inr, arith, All, All-append, Bool-cases, int_laws, length, +ℤ_zero, ltb_ℤ→lt,
}
use kalshi_market_maker.Float.{Double}
use kalshi_market_maker.Quantity
use kalshi_market_maker.Quantity.{Quantity, zero_quantity}
use kalshi_market_maker.Types.{Fill}
use kalshi_market_maker.Orders.{Lot, settle_lots, push_remaining}
use kalshi_market_maker.Orders.Loop.{IsOpenLot, total, total-append, match_lots-IsSettled}

pub total_nonneg : (ls : List Lot) → All IsOpenLot ls → pos 0 ≤ℤ total ls
total_nonneg [] a = omega arith
total_nonneg (l ∷ ls) a = omega (int_laws, total_nonneg ls a.1)

module _ {W : Type 0} ⦃d : Double W⦄ (fill : Fill W) where
  pushed_open :
      (rem : Quantity) (same : List Lot)
      → All IsOpenLot same
      → All IsOpenLot (push_remaining fill rem same)
  pushed_open rem same a = elim (Bool-cases (Quantity.is_positive rem)) [
    | inl more ↦ rw more (All-append IsOpenLot same _ a (ltb_ℤ→lt (pos 0) rem.centi more, tt))
    | inr spent ↦ rw spent a
  ]

  pushed_spent :
      (rem : Quantity) (same : List Lot) → rem.centi ≡ pos 0 → push_remaining fill rem same ≡ same
  pushed_spent rem same e = rw e

  pushed_total :
      (rem : Quantity) (same other opp : List Lot)
      → pos 0 ≤ℤ rem.centi
      → fill.quantity.centi +ℤ total opp ≡ rem.centi +ℤ total other
      → total (push_remaining fill rem same) +ℤ total other
        ≡ fill.quantity.centi +ℤ (total same +ℤ total opp)
  pushed_total rem same other opp n c =
      let grown : total (push_remaining fill rem same) ≡ total same +ℤ rem.centi =
        elim (Bool-cases (Quantity.is_positive rem)) [
          | inl more ↦ rw more (rw total-append (rw +ℤ_zero))
          | inr spent ↦
              let e : rem.centi ≡ pos 0 = ground arith in
              rw spent (rw e (sym (+ℤ_zero (total same))))
        ] in
      rw grown (omega (int_laws, ap pos_part c, ap neg_part c))

  pushed_one_sided :
      (rem : Quantity) (same other opp : List Lot)
      → pos 0 <ℤ fill.quantity.centi
      → All IsOpenLot opp
      → (same ≡ []) ⊎ (other ≡ [])
      → (rem.centi ≡ pos 0) ⊎ (opp ≡ [])
      → fill.quantity.centi +ℤ total opp ≡ rem.centi +ℤ total other
      → (push_remaining fill rem same ≡ []) ⊎ (opp ≡ [])
  pushed_one_sided rem same other opp q o one (inr e) c = inr e
  pushed_one_sided rem same other opp q o (inl none_held) (inl e) c =
      inl (pushed_spent rem same e ∙ none_held)
  pushed_one_sided rem same other opp q o (inr none_held) (inl e) c =
      let spent = rw (none_held, e) at c in
      absurd (omega (int_laws, total_nonneg opp o, ap pos_part spent, ap neg_part spent))

  -- A fill of one side, from the lots of that side and of the other.
  pub settled_side :
      (same other : List Lot) (spreads : Dict W)
      → pos 0 <ℤ fill.quantity.centi
      → All IsOpenLot same
      → All IsOpenLot other
      → (same ≡ []) ⊎ (other ≡ [])
      → let after = settle_lots fill other spreads in
        let same' = push_remaining fill after.remaining same in
        All IsOpenLot same'
        × All IsOpenLot after.opposing
        × ((same' ≡ []) ⊎ (after.opposing ≡ []))
        × (total same' +ℤ total other ≡ fill.quantity.centi +ℤ (total same +ℤ total after.opposing))
  unfolding settle_lots
  settled_side same other spreads q a b one =
      let after = settle_lots fill other spreads in
      let s =
        match_lots-IsSettled fill.market_ticker fill.price_cents (suc (length other)) fill.quantity
          other spreads (omega arith) b (omega arith) in
      (
        pushed_open after.remaining same a,
        s.open_lots,
        pushed_one_sided after.remaining same other after.opposing q s.open_lots one s.over
            s.conserved,
        pushed_total after.remaining same other after.opposing s.not_negative s.conserved,
      )
