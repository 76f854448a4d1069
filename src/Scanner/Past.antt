-- ===== src/Scanner/Past.antt =====
-- Which markets source/exchange/ticker_scanner.cpp takes for over: the order of the date keys.
use kalshi_market_maker.Prelude.{
  ℕ, suc, ◌+◌, ◌≤◌, ◌<◌, ltb, ℤ, pos, ltb_ℤ, ltb_ℤ→lt, Bool, true, false, ◌||◌, String, List, [],
  ◌∷◌, length, Option, none, some, if◌then◌else◌, Bool-cases, inl, inr, ◌≡◌, ◌↔◌, ◌⊎◌, refl, arith,
  str_eq,
}
use Prim.Native.Char.{Char}
use kalshi_market_maker.Scanner.Dates.{
  Date, with_char, two_digits, month_tokens, find_month, date_of_token, token_date, after_dash,
  event_date, date_key, ticker_event_date_key, is_past_event,
}

-- Months and days as a calendar has them.
pub record IsDated (date : Date) : Type 0 where
  pub first_month : 1 ≤ date.month
  pub last_month : date.month ≤ 12
  pub first_day : 1 ≤ date.day
  pub last_day : date.day ≤ 31

-- Earlier in the calendar.
abbrev pub IsBefore : Date → Date → Type 0
IsBefore a b =
    (a.year < b.year)
    ⊎ ((a.year ≡ b.year) × ((a.month < b.month) ⊎ ((a.month ≡ b.month) × (a.day < b.day))))

find_month-bounds :
    (ms : List String) (token : String) (first month : ℕ)
    → find_month ms token first ≡ some month
    → (first ≤ month) × (month < first + length ms)
unfolding find_month
find_month-bounds [] token first month e = cc e
find_month-bounds (m ∷ ms) token first month e = elim (Bool-cases (str_eq m token)) [
  | inl h ↦ ground (arith, e, h)
  | inr h ↦ ground (arith, e, h, find_month-bounds ms token (suc first) month)
]

-- The end of `date_of_token`, after its digits.
day_checked :
    (year month day : ℕ) (bad : Bool) (date : Date)
    → (bad ≡ false → (1 ≤ day) × (day ≤ 31))
    → 1 ≤ month
    → month ≤ 12
    → (if bad then none else some (record { year = year; month = month; day = day })) ≡ some date
    → IsDated date
day_checked year month day true date b l u e = cc e
day_checked year month day false date b l u e = record {
  first_month = ground (arith, e, l);
  last_month = ground (arith, e, u);
  first_day = ground (arith, e, b refl);
  last_day = ground (arith, e, b refl);
}

month_checked :
    (year day : ℕ) (found : Option ℕ) (date : Date)
    → ((month : ℕ) → found ≡ some month → (1 ≤ month) × (month < 13))
    → elim found as (λ _. Option Date) [
      | none ↦ none
      | some month ↦
          if ltb day 1 || ltb 31 day
          then none
          else some (record { year = year; month = month; day = day })
    ]
      ≡ some date
    → IsDated date
month_checked year day none date b e = cc e
month_checked year day (some month) date b e =
    let (l, u) = b month refl in
    day_checked year month day (ltb day 1 || ltb 31 day) date (λ h. ground (arith, h)) l
      (omega arith) e

digits_checked :
    (bad : Bool) (found : Option Date) (date : Date)
    → (found ≡ some date → IsDated date)
    → (if bad then none else found) ≡ some date
    → IsDated date
digits_checked true found date k e = cc e
digits_checked false found date k e = k e

date_of_token-IsDated :
    (a b : Char) (m : String) (c e : Char) (date : Date)
    → date_of_token a b m c e ≡ some date
    → IsDated date
unfolding date_of_token
date_of_token-IsDated a b m c e date h =
    digits_checked _ _ date
      (month_checked (2000 + two_digits a b) (two_digits c e) (find_month month_tokens m 1) date
        (find_month-bounds month_tokens m 1))
      h

with_char-IsDated :
    (s : String) (k : Char → String → Option Date) (date : Date)
    → ((c : Char) (rest : String) → k c rest ≡ some date → IsDated date)
    → with_char s k ≡ some date
    → IsDated date
with_char-IsDated String.[] k date h e = cc e
with_char-IsDated (String.◌∷◌ c s) k date h e = h c s e

token_date-IsDated : (s : String) (date : Date) → token_date s ≡ some date → IsDated date
unfolding token_date
token_date-IsDated s date = with_char-IsDated s _ date (λ y1 s. with_char-IsDated s _ date (λ y2 s.
    with_char-IsDated s _ date (λ m0 s. with_char-IsDated s _ date (λ m1 s.
      with_char-IsDated s _ date (λ m2 s. with_char-IsDated s _ date (λ d1 s.
        with_char-IsDated s _ date (λ d2 rest.
          date_of_token-IsDated y1 y2 (String.◌∷◌ m0 (String.◌∷◌ m1 (String.◌∷◌ m2 String.[]))) d1
            d2 date)))))))

event_date-IsDated : (ticker : String) (date : Date) → event_date ticker ≡ some date → IsDated date
unfolding event_date
event_date-IsDated ticker date e = after (after_dash ticker) e
  where
    after :
        (s : Option String)
        → elim s as (λ _. Option Date) [ none ↦ none | some s ↦ token_date s ] ≡ some date
        → IsDated date
    after none e = cc e
    after (some s) e = token_date-IsDated s date e

key_order : (a b : Date) → IsDated a → IsDated b → (date_key a < date_key b) ↔ IsBefore a b
unfolding date_key
key_order a b p q = ((λ h. omega arith), (λ h. ground arith))

-- The date key of the ticker, compared with that of a day.
is_past-key :
    (found : Option Date) (today : Date)
    → IsDated today
    → ((date : Date) → found ≡ some date → IsDated date)
    → (elim (elim found as (λ _. Option ℤ) [ none ↦ none | some date ↦ some (pos (date_key date)) ])
          as (λ _. Bool) [ none ↦ false | some key ↦ ltb_ℤ key (pos (date_key today)) ]
        ≡ true)
      ↔ ((date : Date) × (found ≡ some date) × IsBefore date today)
is_past-key none today p k = ((λ e. cc e), (λ (date, e, b). cc e))
is_past-key (some date) today p k = (
  (λ e. (
    date,
    refl,
    (key_order date today (k date refl) p).0
        (omega (arith, ltb_ℤ→lt (pos (date_key date)) (pos (date_key today)) e)),
  )),
  (λ (other, e, b). ground (arith, e, (key_order other today (k other e) p).1 b)),
)

-- On a day of the calendar, a market is taken for over exactly when its ticker holds a date
-- that is earlier by year, month and day.
pub is_past_event_iff :
    (ticker : String) (today : Date)
    → IsDated today
    → (is_past_event ticker (pos (date_key today)) ≡ true)
      ↔ ((date : Date) × (event_date ticker ≡ some date) × IsBefore date today)
unfolding is_past_event ticker_event_date_key
is_past_event_iff ticker today p =
    is_past-key (event_date ticker) today p (event_date-IsDated ticker)
