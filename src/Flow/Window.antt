-- ===== src/Flow/Window.antt =====
-- The windowed volumes of source/engine/flow_imbalance.cpp, and the dropping of old entries.
use kalshi_market_maker.Prelude.{
  ℤ, ◌-ℤ◌, ◌≤ℤ◌, ltb_ℤ, false, Bool-cases, inl, inr, String, List, [], ◌∷◌, ◌++◌, Option-cases, ◌≡◌,
  refl, ap, sym, ◌∙◌, arith, if◌then◌else◌, lookup, get_or, get_or-insert, lookup-insert, str_eq,
  str_eq_refl, str_eq_iff, int_laws,
}
use mathlib.Core.Path.{subst}
use kalshi_market_maker.Quantity
use kalshi_market_maker.Quantity.{Quantity, zero_quantity}
use kalshi_market_maker.Types.{Side, buys_yes, buys_no}
use kalshi_market_maker.Flow.{
  FlowImbalanceConfig, Entry, Fills, evict, sum_window, record_fill, windowed_volume, seconds,
}

sum-evict :
    (early late : ℤ) (es : List Entry) (yes_volume no_volume : Quantity)
    → early ≤ℤ late
    → sum_window late (evict early es) yes_volume no_volume
      ≡ sum_window late es yes_volume no_volume
unfolding sum_window evict
sum-evict early late [] yes_volume no_volume h = refl
sum-evict early late (e ∷ es) yes_volume no_volume h =
    ground (arith, sum-evict early late es yes_volume no_volume h)

-- The volumes with one entry more.
abbrev pub with_entry : ℤ → Entry → Quantity × Quantity → Quantity × Quantity
with_entry cutoff e v = if ltb_ℤ e.when cutoff then v else elim e.side [
  | buys_yes ↦ (Quantity.add v.0 e.quantity, v.1)
  | buys_no ↦ (v.0, Quantity.add v.1 e.quantity)
]

sum-append :
    (cutoff : ℤ) (es : List Entry) (e : Entry) (yes_volume no_volume : Quantity)
    → sum_window cutoff (es ++ e ∷ []) yes_volume no_volume
      ≡ with_entry cutoff e (sum_window cutoff es yes_volume no_volume)
unfolding sum_window
sum-append cutoff [] e yes_volume no_volume = ground arith
sum-append cutoff (x ∷ es) e yes_volume no_volume = ground (
  arith,
  sum-append cutoff es e yes_volume no_volume,
  sum-append cutoff es e (Quantity.add yes_volume x.quantity) no_volume,
  sum-append cutoff es e yes_volume (Quantity.add no_volume x.quantity),
)

pub window_moves : (a b k : ℤ) → a ≤ℤ b → a -ℤ k ≤ℤ b -ℤ k
window_moves a b k h = omega int_laws

module _ {W : Type 0} (config : FlowImbalanceConfig W) where
  volume_of_entries :
      (fills : Fills) (t : String) (now : ℤ)
      → windowed_volume config fills t now
        ≡ sum_window
            (now -ℤ seconds config.window_seconds)
            (get_or t [] fills)
            zero_quantity
            zero_quantity
  unfolding windowed_volume get_or
  volume_of_entries fills t now = elim (Option-cases (lookup t fills)) [
    | inl e ↦ rw (e, windowed_volume, get_or)
    | inr (es, e) ↦ rw (e, windowed_volume, get_or)
  ]

  volume_here :
      (fills : Fills) (t : String) (side : Side) (q : Quantity) (when now : ℤ)
      → when ≤ℤ now
      → windowed_volume config (record_fill config t side q when fills) t now
        ≡ with_entry
            (now -ℤ seconds config.window_seconds)
            (record { when = when; side = side; quantity = q })
            (windowed_volume config fills t now)
  unfolding record_fill
  volume_here fills t side q when now h =
      let cutoff = now -ℤ seconds config.window_seconds in
      let early = when -ℤ seconds config.window_seconds in
      let es = get_or t [] fills in
      let e : Entry = record { when = when; side = side; quantity = q } in
      volume_of_entries (record_fill config t side q when fills) t now
      ∙ ap (λ x. sum_window cutoff x zero_quantity zero_quantity)
          (get_or-insert t t (evict early (es ++ e ∷ [])) [] fills
            ∙ ap (λ b. if b then evict early (es ++ e ∷ []) else es) (str_eq_refl t))
      ∙ sum-evict early cutoff (es ++ e ∷ []) zero_quantity zero_quantity
          (window_moves when now (seconds config.window_seconds) h)
      ∙ sum-append cutoff es e zero_quantity zero_quantity
      ∙ ap (with_entry cutoff e) (sym (volume_of_entries fills t now))

  volume_elsewhere :
      (fills : Fills) (t u : String) (side : Side) (q : Quantity) (when now : ℤ)
      → str_eq t u ≡ false
      → windowed_volume config (record_fill config t side q when fills) u now
        ≡ windowed_volume config fills u now
  unfolding record_fill windowed_volume
  volume_elsewhere fills t u side q when now h = ground (
    arith,
    h,
    lookup-insert t u
        (evict (when -ℤ seconds config.window_seconds)
          (get_or t [] fills ++ (record { when = when; side = side; quantity = q }) ∷ []))
        fills,
  )

  -- A fill no later than now adds its size to the windowed volume of its market and side if
  -- the window reaches it, and changes no other volume, although old entries are dropped.
  pub record_fill-volume :
      (fills : Fills) (t u : String) (side : Side) (q : Quantity) (when now : ℤ)
      → when ≤ℤ now
      → windowed_volume config (record_fill config t side q when fills) u now ≡ (
          if str_eq t u
          then with_entry
              (now -ℤ seconds config.window_seconds)
              (record { when = when; side = side; quantity = q })
              (windowed_volume config fills u now)
          else windowed_volume config fills u now)
  unfolding record_fill
  record_fill-volume fills t u side q when now h = elim (Bool-cases (str_eq t u)) [
    | inl e ↦
        subst
          (λ b. windowed_volume config (record_fill config t side q when fills) u now ≡ (
            if b
            then with_entry (now -ℤ seconds config.window_seconds)
                (record { when = when; side = side; quantity = q })
                (windowed_volume config fills u now)
            else windowed_volume config fills u now))
          (sym e)
          (subst
            (λ x.
              windowed_volume config (record_fill config t side q when fills) x now
              ≡ with_entry (now -ℤ seconds config.window_seconds)
                  (record { when = when; side = side; quantity = q })
                  (windowed_volume config fills x now))
            ((str_eq_iff t u).0 e) (volume_here fills t side q when now h))
    | inr e ↦ rw e (volume_elsewhere fills t u side q when now e)
  ]
