-- ===== src/Scanner/Dates.antt =====
-- The event dates in the tickers of source/exchange/ticker_scanner.cpp: `ticker_event_date_key`.
use Prim.Native.Char.{Char, code}
use kalshi_market_maker.Prelude.{
  ℕ, suc, ◌+◌, ◌-◌, ◌*◌, ◌==◌, leb, ltb, ℤ, pos, ltb_ℤ, Bool, false, not, ◌&&◌, ◌||◌, String, List,
  [], ◌∷◌, Option, none, some, if◌then◌else◌, str_eq,
}

-- Year, month and day.
pub record Date : Type 0 where
  pub year : ℕ
  pub month : ℕ
  pub day : ℕ

-- What follows the first hyphen.
unfoldable pub after_dash : String → Option String
after_dash String.[] = none
after_dash (String.◌∷◌ c s) = if code c == b'-' then some s else after_dash s

abbrev pub with_char : {A : Type 0} → String → (Char → String → Option A) → Option A
with_char String.[] k = none
with_char (String.◌∷◌ c s) k = k c s

abbrev pub is_ascii_digit : Char → Bool
is_ascii_digit c = leb b'0' (code c) && leb (code c) b'9'

abbrev pub two_digits : Char → Char → ℕ
two_digits tens ones = (code tens - b'0') * 10 + (code ones - b'0')

abbrev pub month_tokens : List String
month_tokens =
    "JAN" ∷ "FEB" ∷ "MAR" ∷ "APR" ∷ "MAY" ∷ "JUN" ∷ "JUL" ∷ "AUG" ∷ "SEP" ∷ "OCT" ∷ "NOV" ∷ "DEC"
    ∷ []

-- `std::ranges::find`, as the number of the token counted from `first`.
unfoldable pub find_month : List String → String → ℕ → Option ℕ
find_month [] token first = none
find_month (m ∷ ms) token first =
    if str_eq m token then some first else find_month ms token (suc first)

-- The checks on a token of seven characters.
unfoldable pub date_of_token : Char → Char → String → Char → Char → Option Date
unfolding find_month
date_of_token year_tens year_ones month_token day_tens day_ones =
    if not (is_ascii_digit year_tens)
      || (not (is_ascii_digit year_ones)
          || (not (is_ascii_digit day_tens) || not (is_ascii_digit day_ones)))
    then none
    else elim (find_month month_tokens month_token 1) [
      | none ↦ none
      | some month ↦
          if ltb (two_digits day_tens day_ones) 1 || ltb 31 (two_digits day_tens day_ones)
          then none
          else some (record {
            year = 2000 + two_digits year_tens year_ones;
            month = month;
            day = two_digits day_tens day_ones;
          })
    ]

unfoldable pub token_date : String → Option Date
unfolding date_of_token
token_date s = with_char s (λ year_tens s. with_char s (λ year_ones s. with_char s (λ m0 s.
    with_char s (λ m1 s. with_char s (λ m2 s. with_char s (λ day_tens s.
      with_char s (λ day_ones rest.
        date_of_token year_tens year_ones (String.◌∷◌ m0 (String.◌∷◌ m1 (String.◌∷◌ m2 String.[])))
          day_tens day_ones)))))))

unfoldable pub event_date : String → Option Date
unfolding after_dash token_date
event_date ticker = elim (after_dash ticker) [ none ↦ none | some s ↦ token_date s ]

unfoldable pub date_key : Date → ℕ
date_key date = (date.year * 10_000 + date.month * 100) + date.day

unfoldable pub ticker_event_date_key : String → Option ℤ
unfolding event_date date_key
ticker_event_date_key ticker = elim (event_date ticker) [
  | none ↦ none
  | some date ↦ some (pos (date_key date))
]

-- The market names an event that is over.
unfoldable pub is_past_event : String → ℤ → Bool
unfolding ticker_event_date_key
is_past_event ticker today_key = elim (ticker_event_date_key ticker) [
  | none ↦ false
  | some key ↦ ltb_ℤ key today_key
]
