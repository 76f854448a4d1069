-- ===== src/Portfolio/Reconciling.antt =====
-- When `reconcile` reports the accounts in sync, and which tickers it looks at.
use kalshi_market_maker.Prelude.{
  ℤ, pos, ap, if◌then◌else◌, get_or-insert, Bool, true, false, not, ◌&&◌, ◌||◌, String, List, [],
  ◌∷◌, ◌≡◌, refl, sym, ◌∙◌, ◌↔◌, arith, Dict, get_or, has_key, has_key-insert, insert, lookup,
  contains, str_eq, str_eq_iff, str_eq_refl, ◌+ℤ◌, eqb_ℤ_iff,
}
use kalshi_market_maker.Quantity
use kalshi_market_maker.Quantity.{Quantity, zero_quantity}
use kalshi_market_maker.Types.{MarketPosition}
use kalshi_market_maker.Portfolio.{
  PositionDiff, position_diff, explained, collect_diffs, sort_diffs, insert_diff, is_empty,
  reconcile_positions, to_check, add_once, add_tickers, add_nonzero, add_keys, positions_by_ticker,
  baseline_by_ticker,
}

sort_diffs-is_empty : (xs : List PositionDiff) → is_empty (sort_diffs xs) ≡ is_empty xs
unfolding sort_diffs
sort_diffs-is_empty [] = refl
sort_diffs-is_empty (x ∷ xs) = inserted (sort_diffs xs)
  where
    inserted : (ys : List PositionDiff) → is_empty (insert_diff x ys) ≡ false
    inserted [] = refl
    inserted (y ∷ ys) = ground arith

-- Nothing is collected exactly when every ticker's position is explained.
abbrev AllExplained : (String → PositionDiff) → List String → Type 0
AllExplained entry ts = (t : String) → contains t ts ≡ true → explained (entry t) ≡ true

none_collected :
    (entry : String → PositionDiff) (ts : List String)
    → is_empty (collect_diffs entry ts) ≡ true
    → AllExplained entry ts
unfolding collect_diffs contains
none_collected entry [] e t h = cc
none_collected entry (u ∷ ts) e t h =
    ground
      (arith, none_collected entry ts, none_collected entry ts (ground arith) t, str_eq_iff u t)

all_explained :
    (entry : String → PositionDiff) (ts : List String)
    → AllExplained entry ts
    → is_empty (collect_diffs entry ts) ≡ true
unfolding collect_diffs
all_explained entry [] h = refl
all_explained entry (u ∷ ts) h =
    rw (h u (here u ts)) (all_explained entry ts (λ t k. h t (there u t ts k)))
  where
    here : (u : String) (ts : List String) → contains u (u ∷ ts) ≡ true
    here u ts = unfold contains in ground (arith, str_eq_refl u)

    there : (u t : String) (ts : List String) → contains t ts ≡ true → contains t (u ∷ ts) ≡ true
    there u t ts k = unfold contains in ground arith

-- The exchange reports a position of the ticker that is not flat.
unfoldable pub names_nonzero : String → List MarketPosition → Bool
names_nonzero t [] = false
names_nonzero t (p ∷ ps) =
    (str_eq p.ticker t && not (Quantity.is_zero p.position)) || names_nonzero t ps

contains-add_once :
    (t u : String) (s : List String) → contains t (add_once u s) ≡ (str_eq u t || contains t s)
unfolding contains
contains-add_once t u s = ground (arith, str_eq_iff u t)

contains-add_tickers :
    (t : String) (ts s : List String)
    → contains t (add_tickers ts s) ≡ (contains t ts || contains t s)
unfolding contains add_tickers
contains-add_tickers t [] s = refl
contains-add_tickers t (u ∷ ts) s =
    ground (arith, contains-add_tickers t ts (add_once u s), contains-add_once t u s)

contains-add_nonzero :
    (t : String) (ps : List MarketPosition) (s : List String)
    → contains t (add_nonzero ps s) ≡ (names_nonzero t ps || contains t s)
unfolding contains add_nonzero names_nonzero
contains-add_nonzero t [] s = refl
contains-add_nonzero t (p ∷ ps) s = ground (
  arith,
  contains-add_nonzero t ps s,
  contains-add_nonzero t ps (add_once p.ticker s),
  contains-add_once t p.ticker s,
)

contains-add_keys :
    (t : String) (m : Dict Quantity) (s : List String)
    → contains t (add_keys m s) ≡ (has_key t m || contains t s)
unfolding contains add_keys has_key lookup
contains-add_keys t [] s = refl
contains-add_keys t ((u, q) ∷ m) s =
    ground (arith, contains-add_keys t m (add_once u s), contains-add_once t u s)

-- A ticker is checked exactly when it is traded, has a baseline, or is named by the exchange with a
-- position that is not flat.
pub to_check_lem :
    (t : String) (tickers : List String) (exchange : List MarketPosition) (baseline : Dict Quantity)
    → contains t (to_check tickers exchange baseline)
      ≡ (has_key t baseline || (names_nonzero t exchange || contains t tickers))
unfolding to_check
to_check_lem t tickers exchange baseline = ground (
  arith,
  contains-add_keys t baseline (add_nonzero exchange (add_tickers tickers [])),
  contains-add_nonzero t exchange (add_tickers tickers []),
  contains-add_tickers t tickers [],
  nothing t,
)
  where
    nothing : (t : String) → contains t [] ≡ false
    nothing t = unfold contains in refl

-- The baseline holds the positions that are not flat, of tickers that are not traded.
has_key-baseline :
    (t : String) (traded : List String) (ps : List MarketPosition) (m : Dict Quantity)
    → has_key t (baseline_by_ticker traded ps m)
      ≡ ((names_nonzero t ps && not (contains t traded)) || has_key t m)
unfolding baseline_by_ticker names_nonzero
has_key-baseline t traded [] m = refl
has_key-baseline t traded (p ∷ ps) m = ground (
  arith,
  has_key-baseline t traded ps m,
  has_key-baseline t traded ps (insert p.ticker p.position m),
  has_key-insert p.ticker t p.position m,
  str_eq_iff p.ticker t,
)

no_keys : (t : String) → has_key {V = Quantity} t [] ≡ false
no_keys t = unfold has_key lookup in refl

-- The last position of the ticker that the list reports, in hundredths of a contract, and `z` if it
-- reports none.
unfoldable pub last_position : String → ℤ → List MarketPosition → ℤ
last_position t z [] = z
last_position t z (p ∷ ps) = last_position t (if str_eq p.ticker t then p.position.centi else z) ps

-- The same over the reports that are not flat.
unfoldable pub last_nonflat : String → ℤ → List MarketPosition → ℤ
last_nonflat t z [] = z
last_nonflat t z (p ∷ ps) =
    last_nonflat t
      (if str_eq p.ticker t && not (Quantity.is_zero p.position) then p.position.centi else z) ps

abbrev stored : String → Dict Quantity → ℤ
stored t m = (get_or t zero_quantity m).centi

stored-insert :
    (k t : String) (q : Quantity) (m : Dict Quantity)
    → stored t (insert k q m) ≡ (if str_eq k t then q.centi else stored t m)
stored-insert k t q m = ground (arith, get_or-insert k t q zero_quantity m)

stored-positions :
    (t : String) (ps : List MarketPosition) (m : Dict Quantity)
    → stored t (positions_by_ticker ps m) ≡ last_position t (stored t m) ps
unfolding positions_by_ticker last_position
stored-positions t [] m = refl
stored-positions t (p ∷ ps) m =
    stored-positions t ps (insert p.ticker p.position m)
    ∙ ap (λ z. last_position t z ps) (stored-insert p.ticker t p.position m)

-- A baseline counts outside the traded tickers alone.
stored-baseline :
    (t : String) (traded : List String) (ps : List MarketPosition) (m : Dict Quantity)
    → stored t (baseline_by_ticker traded ps m)
      ≡ (if contains t traded then stored t m else last_nonflat t (stored t m) ps)
unfolding baseline_by_ticker last_nonflat
stored-baseline t traded [] m = ground arith
stored-baseline t traded (p ∷ ps) m = ground (
  arith,
  stored-baseline t traded ps m,
  stored-baseline t traded ps (insert p.ticker p.position m),
  stored-insert p.ticker t p.position m,
  str_eq_iff p.ticker t,
)

module _ (local : String → Quantity) (tickers : List String)
    (exchange baseline : List MarketPosition) where
  abbrev pub IsChecked : String → Type 0
  IsChecked t =
      ((names_nonzero t baseline && not (contains t tickers))
        || (names_nonzero t exchange || contains t tickers))
      ≡ true

  -- What the exchange last reported is our own position, of a traded ticker, and our own with the
  -- leftover of the baseline, of any other.
  abbrev pub Agrees : String → Type 0
  Agrees t =
      (local t).centi +ℤ (if contains t tickers then pos 0 else last_nonflat t (pos 0) baseline)
      ≡ last_position t (pos 0) exchange

  expected :
      (t : String)
      → stored t (baseline_by_ticker tickers baseline [])
        ≡ (if contains t tickers then pos 0 else last_nonflat t (pos 0) baseline)
  unfolding get_or lookup
  expected t = stored-baseline t tickers baseline []

  reported :
      (t : String) → stored t (positions_by_ticker exchange []) ≡ last_position t (pos 0) exchange
  unfolding get_or lookup
  reported t = stored-positions t exchange []

  as_reported :
      (t : String)
      → (local t).centi +ℤ stored t (baseline_by_ticker tickers baseline [])
        ≡ stored t (positions_by_ticker exchange [])
      → Agrees t
  as_reported t h = ap (λ z. (local t).centi +ℤ z) (sym (expected t)) ∙ h ∙ reported t

  as_stored :
      (t : String)
      → Agrees t
      → (local t).centi +ℤ stored t (baseline_by_ticker tickers baseline [])
        ≡ stored t (positions_by_ticker exchange [])
  as_stored t h = ap (λ z. (local t).centi +ℤ z) (expected t) ∙ h ∙ sym (reported t)

  -- The reconciliation is in sync exactly when the position that the exchange last reported is
  -- our own for every traded ticker, whatever the baseline says of it, and our own plus the
  -- last leftover in the baseline for every other ticker that the exchange or the baseline
  -- names with a position.
  pub reconcile_iff :
      ((reconcile_positions local tickers exchange baseline).in_sync ≡ true)
      ↔ ((t : String) → IsChecked t → Agrees t)
  unfolding reconcile_positions
  reconcile_iff = (
    λ e t c. as_reported t (
        (eqb_ℤ_iff _ _).0
          (none_collected entry checked (sym (sort_diffs-is_empty _) ∙ e) t (listed t c))),
    λ h.
        sort_diffs-is_empty _
        ∙ all_explained entry checked (λ t k. (eqb_ℤ_iff _ _).1 (as_stored t (h t (unlisted t k)))),
  )
    where
      base : Dict Quantity
      base = baseline_by_ticker tickers baseline []

      entry : String → PositionDiff
      entry = position_diff local (positions_by_ticker exchange []) base

      checked : List String
      checked = to_check tickers exchange base

      listed : (t : String) → IsChecked t → contains t checked ≡ true
      listed t c = ground (
        arith,
        to_check_lem t tickers exchange base,
        has_key-baseline t tickers baseline [],
        no_keys t,
      )

      unlisted : (t : String) → contains t checked ≡ true → IsChecked t
      unlisted t c = ground (
        arith,
        to_check_lem t tickers exchange base,
        has_key-baseline t tickers baseline [],
        no_keys t,
      )
