-- ===== src/Orders/Loop.antt =====
-- The matching loop of `record_fill` in source/exchange/order_manager.cpp.
use kalshi_market_maker.Prelude.{
  ℕ, zero, suc, ℤ, pos, ◌+ℤ◌, ◌≤ℤ◌, ◌<ℤ◌, ◌<◌, List, [], ◌∷◌, ◌++◌, String, Dict, ◌≡◌, refl, sym,
  +ℤ_assoc, ◌-ℤ◌, eqb_ℤ, ltb_ℤ, ltb_ℤ→lt, ap, pos_part, neg_part, ◌⊎◌, inl, inr, arith, length, All,
  true, false, Bool-cases, int_laws, -ℤ_parts,
}
use kalshi_market_maker.Float.{Double}
use kalshi_market_maker.Quantity
use kalshi_market_maker.Quantity.{Quantity}
use kalshi_market_maker.Orders.{Lot, Matching, match_front, match_lots}

abbrev pub IsOpenLot : Lot → Type 0
IsOpenLot l = pos 0 <ℤ l.remaining.centi

-- The hundredths of a contract in an inventory.
abbrev pub total : List Lot → ℤ
total [] = pos 0
total (l ∷ ls) = l.remaining.centi +ℤ total ls

pub total-append : (xs ys : List Lot) → total (xs ++ ys) ≡ total xs +ℤ total ys
total-append [] ys = omega int_laws
total-append (x ∷ xs) ys =
    rw (total-append xs ys) (sym (+ℤ_assoc x.remaining.centi (total xs) (total ys)))

-- What a run of the loop from a fill and its opposing lots has done.
pub record IsSettled {W : Type 0} (r : Quantity) (lots : List Lot) (after : Matching W)
    : Type 0 where
  pub open_lots : All IsOpenLot after.opposing
  pub not_negative : pos 0 ≤ℤ after.remaining.centi
  pub conserved : r.centi +ℤ total after.opposing ≡ after.remaining.centi +ℤ total lots
  pub over : (after.remaining.centi ≡ pos 0) ⊎ (after.opposing ≡ [])

sub_self : (a : ℤ) → a -ℤ a ≡ pos 0
sub_self a = omega int_laws

left_over : (a b : ℤ) → a <ℤ b → eqb_ℤ (b -ℤ a) (pos 0) ≡ false
left_over a b h = ground (arith, -ℤ_parts b a)

used_up : (a : ℤ) → eqb_ℤ (a -ℤ a) (pos 0) ≡ true
used_up a = ground (arith, -ℤ_parts a a)

module _ {W : Type 0} ⦃d : Double W⦄ (ticker : String) (price : ℤ) where
  module _ (remaining : Quantity) (front : Lot) (rest : List Lot) (spreads : Dict W) where
    -- A fill at least as large as the front lot uses it up.
    front_used :
        front.remaining.centi ≤ℤ remaining.centi
        → let after = match_front ticker price remaining front rest spreads in
          (after.remaining.centi ≡ remaining.centi -ℤ front.remaining.centi)
          × (after.opposing ≡ rest)
    unfolding match_front
    front_used h = ground (arith, used_up front.remaining.centi)

    -- A smaller one is used up by it.
    front_kept :
        remaining.centi <ℤ front.remaining.centi
        → let after = match_front ticker price remaining front rest spreads in
          (after.remaining.centi ≡ pos 0)
          × (after.opposing
              ≡ record front { remaining = Quantity.sub front.remaining remaining } ∷ rest)
    unfolding match_front
    front_kept h =
        ground (arith, left_over remaining.centi front.remaining.centi h, sub_self remaining.centi)

  match_lots_spent :
      (fuel : ℕ) (r : Quantity) (lots : List Lot) (spreads : Dict W)
      → Quantity.is_positive r ≡ false
      → match_lots fuel ticker price r lots spreads
        ≡ (record { remaining = r; opposing = lots; spreads = spreads })
  unfolding match_lots
  match_lots_spent zero r lots spreads h = refl
  match_lots_spent (suc fuel) r [] spreads h = refl
  match_lots_spent (suc fuel) r (front ∷ rest) spreads h = rw (h, match_lots)

  match_lots_more :
      (fuel : ℕ) (r : Quantity) (front : Lot) (rest : List Lot) (spreads : Dict W)
      → Quantity.is_positive r ≡ true
      → let m = match_front ticker price r front rest spreads in
        match_lots (suc fuel) ticker price r (front ∷ rest) spreads
        ≡ match_lots fuel ticker price m.remaining m.opposing m.spreads
  unfolding match_lots
  match_lots_more fuel r front rest spreads h = rw (h, match_lots)

  IsSettled-by_front :
      (r : Quantity) (front : Lot) (rest : List Lot) (spreads : Dict W)
      → All IsOpenLot rest
      → pos 0 ≤ℤ r.centi
      → r.centi <ℤ front.remaining.centi
      → let m = match_front ticker price r front rest spreads in IsSettled r (front ∷ rest) m
  IsSettled-by_front r front rest spreads a n h =
      let m = match_front ticker price r front rest spreads in
      let (zero_left, lots) = front_kept r front rest spreads h in
      record {
        open_lots = rw lots (omega int_laws, a);
        not_negative = rw zero_left (omega arith);
        conserved = rw (zero_left, lots) (omega int_laws);
        over = inl zero_left;
      }

  IsSettled-after_front :
      (r : Quantity) (front : Lot) (rest : List Lot) (spreads : Dict W) (after : Matching W)
      → front.remaining.centi ≤ℤ r.centi
      → let m = match_front ticker price r front rest spreads in
        IsSettled m.remaining m.opposing after → IsSettled r (front ∷ rest) after
  IsSettled-after_front r front rest spreads after h s =
      let (left, lots) = front_used r front rest spreads h in
      let balance = rw lots at (rw left at s.conserved) in
      record {
        open_lots = s.open_lots;
        not_negative = s.not_negative;
        conserved = omega (int_laws, ap pos_part balance, ap neg_part balance);
        over = s.over;
      }

  -- With fuel above the number of opposing positive lots, the matching loop ends because the
  -- fill or the lots are used up, keeps lots positive, and takes from the lots what it takes
  -- from the fill.
  pub match_lots-IsSettled :
      (fuel : ℕ) (r : Quantity) (lots : List Lot) (spreads : Dict W)
      → length lots < fuel
      → All IsOpenLot lots
      → pos 0 ≤ℤ r.centi
      → IsSettled r lots (match_lots fuel ticker price r lots spreads)
  match_lots-IsSettled zero r lots spreads h a n = elim h [ ]
  match_lots-IsSettled (suc fuel) r [] spreads h a n =
      unfold match_lots in
      record { open_lots = tt; not_negative = n; conserved = refl; over = inr refl }
  match_lots-IsSettled (suc fuel) r (front ∷ rest) spreads h a n =
      let m = match_front ticker price r front rest spreads in
      elim (Bool-cases (Quantity.is_positive r)) [
        | inl more ↦
            rw (match_lots_more fuel r front rest spreads more)
              (elim (Bool-cases (ltb_ℤ r.centi front.remaining.centi)) [
                | inl smaller ↦
                    let (spent, lots) =
                      front_kept r front rest spreads
                        (ltb_ℤ→lt r.centi front.remaining.centi smaller) in
                    rw (match_lots_spent fuel m.remaining m.opposing m.spreads (rw spent)) (
                      IsSettled-by_front r front rest spreads a.1 n
                        (ltb_ℤ→lt r.centi front.remaining.centi smaller))
                | inr larger ↦
                    let fits : front.remaining.centi ≤ℤ r.centi = ground arith in
                    let (left, lots) = front_used r front rest spreads fits in
                    IsSettled-after_front r front rest spreads _ fits (
                      match_lots-IsSettled fuel m.remaining m.opposing m.spreads
                        (rw lots (omega arith)) (rw lots a.1) (rw left (omega int_laws)))
              ])
        | inr spent ↦ rw (match_lots_spent (suc fuel) r (front ∷ rest) spreads spent) (record {
          open_lots = a;
          not_negative = n;
          conserved = refl;
          over = inl (ground arith);
        })
      ]
