-- ===== src/Risk/Latch.antt =====
-- The constraint bits of source/engine/risk_manager.cpp between two resumes.
use kalshi_market_maker.Prelude.{
  ℤ, pos, insert, ℕ, zero, suc, ◌<◌, Bool, true, false, ◌||◌, Bool-cases, inl, inr, String, List,
  [], ◌∷◌, ◌≡◌, refl, ap, ◌∙◌, arith, if◌then◌else◌, done,
}
use kalshi_market_maker.Float.{Double, fmax}
use kalshi_market_maker.Types.{Side}
use kalshi_market_maker.Iface.{OrderManagerIface}
use kalshi_market_maker.Portfolio.{PortfolioSnapshot, total_pnl_cents}
use kalshi_market_maker.Risk.{
  Bits, Constraint, index, RiskManager, any_bit, set_bit, no_bits, num_constraints, over_exposure,
  portfolio_loss, drawdown, pnl_limit, set_constraint, halt, resume, is_halted, is_set, check_order,
  check_exposure, check_pnl, update_portfolio, update, cache_tickers, count_orders, manual_halt,
  cents_to_dollars,
}

index_in_range : (c : Constraint) → index c < num_constraints
index_in_range c = ground arith

any-set_bit : (n i : ℕ) (bits : Bits) → i < n → any_bit n (set_bit i bits) ≡ true
unfolding any_bit
any-set_bit zero i bits h = elim h [ ]
any-set_bit (suc n) i bits h = ground (arith, any-set_bit n i bits)

any-no_bits : (n : ℕ) → any_bit n no_bits ≡ false
unfolding any_bit
any-no_bits zero = refl
any-no_bits (suc n) = any-no_bits n

module _ {W : Type 0} where
  halted-set : (c : Constraint) (r : RiskManager W) → is_halted (set_constraint c r) ≡ true
  unfolding is_halted set_constraint
  halted-set c r = any-set_bit num_constraints (index c) r.constraints (index_in_range c)

  -- What a method does when it sets a bit under a condition.
  halted-set_if :
      (b : Bool) (c : Constraint) (r : RiskManager W)
      → is_halted (if b then set_constraint c r else r) ≡ (b || is_halted r)
  halted-set_if true c r = halted-set c r
  halted-set_if false c r = refl

  halted-peak :
      (r : RiskManager W) (peak : W)
      → is_halted (record r { peak_total_pnl_cents = peak }) ≡ is_halted r
  unfolding is_halted
  halted-peak r peak = refl

module _ {W : Type 0} ⦃d : Double W⦄ where
  abbrev pub over_exposed : PortfolioSnapshot W → RiskManager W → Bool
  over_exposed snap r =
      d.lt r.limits.max_total_exposure_dollars (d.div snap.total_notional_cents cents_to_dollars)

  abbrev pub loss_breached : PortfolioSnapshot W → RiskManager W → Bool
  loss_breached snap r =
      d.lt (d.div (total_pnl_cents snap) cents_to_dollars) r.limits.max_total_loss_dollars

  -- The loss from the high-water mark, which this snapshot may raise.
  abbrev pub drawdown_breached : PortfolioSnapshot W → RiskManager W → Bool
  drawdown_breached snap r = d.lt r.limits.max_drawdown_dollars (
      d.div (d.sub (fmax r.peak_total_pnl_cents (total_pnl_cents snap)) (total_pnl_cents snap))
        cents_to_dollars)

  halted-check_exposure :
      (snap : PortfolioSnapshot W) (r : RiskManager W)
      → is_halted (check_exposure snap r) ≡ (over_exposed snap r || is_halted r)
  unfolding check_exposure
  halted-check_exposure snap r = halted-set_if (over_exposed snap r) over_exposure r

  halted-check_pnl :
      (snap : PortfolioSnapshot W) (r : RiskManager W)
      → is_halted (check_pnl snap r)
        ≡ (drawdown_breached snap r || (loss_breached snap r || is_halted r))
  unfolding check_pnl
  halted-check_pnl snap r =
      let lossy : RiskManager W =
        if loss_breached snap r then set_constraint portfolio_loss r else r in
      let marked : RiskManager W = record lossy {
        peak_total_pnl_cents = fmax r.peak_total_pnl_cents (total_pnl_cents snap);
      } in
      halted-set_if (drawdown_breached snap r) drawdown marked
      ∙ ap (λ b. drawdown_breached snap r || b)
          (halted-peak lossy _ ∙ halted-set_if (loss_breached snap r) portfolio_loss r)

  -- The exposure check leaves the limits and the high-water mark alone.
  exposure_keeps :
      (snap : PortfolioSnapshot W) (r : RiskManager W)
      → ((check_exposure snap r).limits ≡ r.limits)
        × ((check_exposure snap r).peak_total_pnl_cents ≡ r.peak_total_pnl_cents)
  unfolding check_exposure set_constraint
  exposure_keeps snap r = elim (Bool-cases (over_exposed snap r)) [
    | inl over ↦ (rw over, rw over)
    | inr within ↦ (rw within, rw within)
  ]

  -- On finite figures update_portfolio returns, and trading is halted after it exactly when it
  -- was before, or the exposure cap, loss cap or drawdown limit is breached.
  pub update_portfolio_halts :
      (snap : PortfolioSnapshot W) (r : RiskManager W)
      → d.is_finite snap.total_notional_cents ≡ true
      → d.is_finite (total_pnl_cents snap) ≡ true
      → ((update_portfolio snap r).0 ≡ done tt)
        × (is_halted (update_portfolio snap r).1 ≡ (
            drawdown_breached snap r
            || (loss_breached snap r || (over_exposed snap r || is_halted r))))
  unfolding update_portfolio is_halted
  update_portfolio_halts snap r notional pnl =
      let (limits, peak) = exposure_keeps snap r in
      (
        rw (notional, pnl),
        rw (notional, pnl)
            (halted-check_pnl snap (check_exposure snap r)
              ∙ rw (limits, peak, halted-check_exposure snap r)),
      )

-- What may happen between two resumes. `update` reads any state of any order manager.
pub data Watch {W S : Type 0} ⦃d : Double W⦄ (om : OrderManagerIface W S) (r : RiskManager W)
    : RiskManager W → Type 0 where
  refreshed : (s : S) (tickers : List String) → Watch om r (update om s tickers r)
  marked : (snap : PortfolioSnapshot W) → Watch om r (update_portfolio snap r).1
  constrained : (c : Constraint) → Watch om r (set_constraint c r)
  halted : Watch om r (halt r)

pub data Watched {W S : Type 0} ⦃d : Double W⦄ (om : OrderManagerIface W S) (r : RiskManager W)
    : RiskManager W → Type 0 where
  start : Watched om r r
  next : {q p : RiskManager W} → Watched om r q → Watch om q p → Watched om r p

module _ {W S : Type 0} ⦃d : Double W⦄ (om : OrderManagerIface W S) where
  cached-constraints :
      (s : S) (ts : List String) (r : RiskManager W)
      → (cache_tickers om s ts r).constraints ≡ r.constraints
  unfolding cache_tickers
  cached-constraints s [] r = refl
  cached-constraints s (t ∷ ts) r = cached-constraints s ts (record r {
    cached_position = insert t (om.net_position s t) r.cached_position;
    cached_total_pnl_cents = d.add r.cached_total_pnl_cents (om.realized_pnl s t);
  })

  pub halted-update :
      (s : S) (ts : List String) (r : RiskManager W)
      → is_halted r ≡ true
      → is_halted (update om s ts r) ≡ true
  unfolding update is_halted
  halted-update s ts r h =
      let blank : RiskManager W = record r {
        cached_position = [];
        cached_open_order_count = count_orders (om.open_orders s) [];
        cached_total_pnl_cents = d.of_int (pos 0);
      } in
      let cached = cache_tickers om s ts blank in
      let kept : is_halted cached ≡ true =
        ap (any_bit num_constraints) (cached-constraints s ts blank) ∙ h in
      halted-set_if
        (d.lt (d.div cached.cached_total_pnl_cents cents_to_dollars) r.limits.daily_loss_limit)
        pnl_limit cached
      ∙ ground (arith, kept)

  pub halted-update_portfolio :
      (snap : PortfolioSnapshot W) (r : RiskManager W)
      → is_halted r ≡ true
      → is_halted (update_portfolio snap r).1 ≡ true
  halted-update_portfolio snap r h = elim (Bool-cases (d.is_finite snap.total_notional_cents)) [
    | inr wild ↦ unfold update_portfolio in rw wild h
    | inl notional ↦ elim (Bool-cases (d.is_finite (total_pnl_cents snap))) [
      | inr wild ↦
          unfold update_portfolio in
          rw (notional, wild) (halted-check_exposure snap r ∙ ground arith)
      | inl pnl ↦ (update_portfolio_halts snap r notional pnl).1 ∙ ground arith
    ]
  ]

  Watch-halted : {r q : RiskManager W} → Watch om r q → is_halted r ≡ true → is_halted q ≡ true
  Watch-halted {r} (refreshed s ts) h = halted-update s ts r h
  Watch-halted {r} (marked snap) h = halted-update_portfolio snap r h
  Watch-halted {r} (constrained c) h = halted-set c r
  Watch-halted {r} halted h = unfold halt in halted-set manual_halt r

  Watched-halted : {r q : RiskManager W} → Watched om r q → is_halted r ≡ true → is_halted q ≡ true
  Watched-halted start h = h
  Watched-halted (next w step) h = Watch-halted step (Watched-halted w h)

  -- Once a constraint is set, check_order refuses every order after any refreshes, snapshots,
  -- further constraints and halts, until a clear or a resume.
  pub halt_holds :
      {r q : RiskManager W}
      → Watched om r q
      → is_halted r ≡ true
      → (ticker : String) (side : Side) (price quantity : ℤ)
      → check_order q ticker side price quantity ≡ false
  unfolding check_order
  halt_holds w h ticker side price quantity = rw (Watched-halted w h)

  -- A resume lifts every constraint.
  pub resume_lifts :
      (r : RiskManager W) (c : Constraint)
      → (is_halted (resume r) ≡ false) × (is_set (resume r) c ≡ false)
  unfolding resume is_halted is_set
  resume_lifts r c = (any-no_bits num_constraints, refl)
