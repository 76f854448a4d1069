-- ===== src/Book/Depth.antt =====
-- A side seen as the size that rests at each price.
use kalshi_market_maker.Prelude.{
  ℤ, pos, ◌+ℤ◌, ◌<ℤ◌, neg, ltb_ℤ, leb_ℤ, eqb_ℤ, max_ℤ, List, [], ◌∷◌, if◌then◌else◌, ◌≡◌, refl,
  arith, All, int_laws, +ℤ_parts, neg_parts, zero_+ℤ, ℤ-trichotomy, inl, inr, sym, ap, Bool, true,
  false, ◌&&◌,
}
use kalshi_market_maker.Quantity
use kalshi_market_maker.Quantity.{Quantity, zero_quantity}
use kalshi_market_maker.Types.{Level, Orderbook, Side, buys_yes, buys_no}
use kalshi_market_maker.Book.{apply_delta}
use kalshi_market_maker.Book.Levels.{
  merge, apply_side_delta-merge, merge_deeper, merge_here, merge_between,
}
use kalshi_market_maker.Book.Sorted.{IsLadder, IsLadderBook, BelowPrice}

-- The hundredths of a contract at a price, 0 where there is no level.
unfoldable pub resting : List Level → ℤ → ℤ
resting [] p = pos 0
resting (l ∷ ls) p = if eqb_ℤ l.price_cents p then l.quantity.centi else resting ls p

abbrev pub levels_of : Orderbook → Side → List Level
levels_of b buys_yes = b.yes_levels
levels_of b buys_no = b.no_levels

abbrev pub same_side : Side → Side → Bool
same_side buys_yes buys_yes = true
same_side buys_no buys_no = true
same_side _ _ = false

resting_above :
    (b p : ℤ) (ls : List Level) → All (BelowPrice b) ls → ltb_ℤ p b ≡ false → resting ls p ≡ pos 0
unfolding resting
resting_above b p [] a h = refl
resting_above b p (l ∷ ls) a h = ground (arith, resting_above b p ls a.1 h)

abbrev DepthAfter : List Level → List Level → ℤ → ℤ → Quantity → Type 0
DepthAfter before after p q delta =
    resting after q
    ≡ (if eqb_ℤ p q then max_ℤ (pos 0) (resting before q +ℤ delta.centi) else resting before q)

module _ (l : Level) (ls : List Level) (p q : ℤ) (delta : Quantity) (s : IsLadder (l ∷ ls)) where
  resting_deeper :
      p <ℤ l.price_cents
      → DepthAfter ls (merge ls p delta) p q delta
      → DepthAfter (l ∷ ls) (l ∷ merge ls p delta) p q delta
  unfolding resting
  resting_deeper h ih = ground arith

  resting_here :
      l.price_cents ≡ p
      → DepthAfter
          (l ∷ ls)
          (if Quantity.le (Quantity.add l.quantity delta) zero_quantity
            then ls
            else record l { quantity = Quantity.add l.quantity delta } ∷ ls)
          p
          q
          delta
  unfolding resting
  resting_here h = ground (arith, resting_above l.price_cents q ls s.1)

  resting_between :
      l.price_cents <ℤ p
      → DepthAfter
          (l ∷ ls)
          (if Quantity.is_positive delta
            then record { price_cents = p; quantity = delta } ∷ l ∷ ls
            else l ∷ ls)
          p
          q
          delta
  unfolding resting
  resting_between h = ground (arith, resting_above l.price_cents q ls s.1, zero_+ℤ delta.centi)

resting-merge :
    (ls : List Level) (p q : ℤ) (delta : Quantity)
    → IsLadder ls
    → DepthAfter ls (merge ls p delta) p q delta
resting-merge [] p q delta s =
    unfold resting merge in ground (arith, +ℤ_parts (pos 0) delta.centi, zero_+ℤ delta.centi)
resting-merge (l ∷ ls) p q delta s = elim (ℤ-trichotomy p l.price_cents) [
  | inl h ↦
      rw (merge_deeper l ls p delta h)
        (resting_deeper l ls p q delta s h (resting-merge ls p q delta s.2))
  | inr (inl h) ↦ rw (merge_here l ls p delta (sym h)) (resting_here l ls p q delta s (sym h))
  | inr (inr h) ↦ rw (merge_between l ls p delta h) (resting_between l ls p q delta s h)
]

sum_positive : (a b : ℤ) → pos 0 <ℤ a → pos 0 <ℤ b → leb_ℤ (a +ℤ b) (pos 0) ≡ false
sum_positive a b h k = ground (arith, +ℤ_parts a b)

positive_test : (q : Quantity) → pos 0 <ℤ q.centi → Quantity.is_positive q ≡ true
positive_test q h = ground arith

not_empty : (a : ℤ) → pos 0 <ℤ a → leb_ℤ a (pos 0) ≡ false
not_empty a h = ground arith

add_undo : (a b : ℤ) → a +ℤ b +ℤ neg b ≡ a
add_undo a b = omega int_laws

undone : (a : ℤ) → leb_ℤ (a +ℤ neg a) (pos 0) ≡ true
undone a = ground (arith, +ℤ_parts a (neg a), neg_parts a)

-- Adding size and taking it off again leaves a side as it was.
merge_undo_here :
    (l : Level) (ls : List Level) (delta : Quantity)
    → pos 0 <ℤ l.quantity.centi
    → pos 0 <ℤ delta.centi
    → merge (merge (l ∷ ls) l.price_cents delta) l.price_cents (Quantity.negated delta) ≡ l ∷ ls
merge_undo_here l ls delta s h =
    let grown = sum_positive l.quantity.centi delta.centi s h in
    let back = add_undo l.quantity.centi delta.centi in
    let bigger : Level = record l { quantity = Quantity.add l.quantity delta } in
    rw (merge_here l ls l.price_cents delta refl, grown)
      (rw (merge_here bigger ls l.price_cents (Quantity.negated delta) refl)
        (rw (back, not_empty l.quantity.centi s)))

merge_undo :
    (ls : List Level) (p : ℤ) (delta : Quantity)
    → IsLadder ls
    → pos 0 <ℤ delta.centi
    → merge (merge ls p delta) p (Quantity.negated delta) ≡ ls
merge_undo [] p delta s h =
    unfold merge in ground (arith, +ℤ_parts delta.centi (neg delta.centi), neg_parts delta.centi)
merge_undo (l ∷ ls) p delta s h = elim (ℤ-trichotomy p l.price_cents) [
  | inl below ↦
      rw (merge_deeper l ls p delta below, merge_deeper l (merge ls p delta) p _ below)
        (ap (◌∷◌ l) (merge_undo ls p delta s.2 h))
  | inr (inl same) ↦ rw same (merge_undo_here l ls delta s.0 h)
  | inr (inr above) ↦
      rw (merge_between l ls p delta above, positive_test delta h)
        (rw (merge_here (record { price_cents = p; quantity = delta }) (l ∷ ls) p _ refl)
          (rw (undone delta.centi)))
]

-- On a ladder book a delta changes the size at its own side and price to the old size plus the
-- delta, at least 0, and no other size.
pub resting-apply_delta :
    (b : Orderbook) (side : Side) (p : ℤ) (delta : Quantity) (at_side : Side) (q : ℤ)
    → IsLadderBook b
    → resting (levels_of (apply_delta b side p delta) at_side) q ≡ (
        if same_side side at_side && eqb_ℤ p q
        then max_ℤ (pos 0) (resting (levels_of b at_side) q +ℤ delta.centi)
        else resting (levels_of b at_side) q)
unfolding apply_delta
resting-apply_delta b buys_yes p delta buys_yes q s =
    rw apply_side_delta-merge (resting-merge b.yes_levels p q delta s.0)
resting-apply_delta b buys_no p delta buys_no q s =
    rw apply_side_delta-merge (resting-merge b.no_levels p q delta s.1)
resting-apply_delta b buys_yes p delta buys_no q s = refl
resting-apply_delta b buys_no p delta buys_yes q s = refl

-- On a ladder book, taking off a positive size just added restores the book.
pub apply_delta_undo :
    (b : Orderbook) (side : Side) (p : ℤ) (delta : Quantity)
    → IsLadderBook b
    → pos 0 <ℤ delta.centi
    → apply_delta (apply_delta b side p delta) side p (Quantity.negated delta) ≡ b
unfolding apply_delta
apply_delta_undo b buys_yes p delta s h =
    rw apply_side_delta-merge
      (rw apply_side_delta-merge (rw (merge_undo b.yes_levels p delta s.0 h)))
apply_delta_undo b buys_no p delta s h =
    rw apply_side_delta-merge
      (rw apply_side_delta-merge (rw (merge_undo b.no_levels p delta s.1 h)))
