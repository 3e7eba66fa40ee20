-- ===== src/Calendar.antt =====
-- packages/market_rules/trading_hours.py: the Tehran market calendar and the request window.
-- A local (Tehran) time is a day number, as by Python's `date.toordinal`, and the microsecond of the
-- day. Day 1 is Monday, 1 January of year 1. The conversion of other time zones to Tehran is the
-- time zone database's and stands outside.
pub mod NextOpen
pub mod Session
mod Tests
use iran_market_radar.Base.{
  ℕ, zero, suc, ◌+◌, ◌-◌, ◌*◌, ◌/◌, ◌%◌, Bool, true, false, not, ◌&&◌, List, [], ◌∷◌, Option, none,
  some, ltb, leb, ◌==◌, if◌then◌else◌, exists_in,
}

-- A `datetime` in Tehran.
pub record Local : Type 0 where
  pub day : ℕ
  pub time : ℕ

-- Microseconds in a second, and the time of day of hour `h`, minute `m`.
abbrev pub second : ℕ
second = 1_000_000

abbrev pub at_time : ℕ → ℕ → ℕ
at_time h m = (h * 3600 + m * 60) * second

abbrev pub day_length : ℕ
day_length = at_time 24 0

abbrev pub tse_premarket_start : ℕ
tse_premarket_start = at_time 8 45

abbrev pub tse_market_open : ℕ
tse_market_open = at_time 9 0

abbrev pub tse_market_close : ℕ
tse_market_close = at_time 12 30

-- `date.weekday()`: Monday is 0, Saturday 5, Sunday 6.
abbrev pub weekday : ℕ → ℕ
weekday day = (day + 6) % 7

-- Saturday to Wednesday.
abbrev pub iran_trading_weekdays : List ℕ
iran_trading_weekdays = 5 ∷ 6 ∷ 0 ∷ 1 ∷ 2 ∷ []

abbrev pub contains : ℕ → List ℕ → Bool
contains n xs = exists_in (λ x. x == n) xs

unfoldable pub is_tse_trading_day : List ℕ → Local → Bool
is_tse_trading_day holidays l =
    contains (weekday l.day) iran_trading_weekdays && not (contains l.day holidays)

unfoldable pub is_tse_market_open : List ℕ → Local → Bool
is_tse_market_open holidays l =
    if not (is_tse_trading_day holidays l)
    then false
    else leb tse_market_open l.time && ltb l.time tse_market_close

unfoldable pub is_tse_premarket : List ℕ → Local → Bool
is_tse_premarket holidays l =
    if not (is_tse_trading_day holidays l)
    then false
    else leb tse_premarket_start l.time && ltb l.time tse_market_open

-- `datetime.combine(day, TSE_MARKET_OPEN)`.
abbrev pub open_on : ℕ → Local
open_on day = record { day = day; time = tse_market_open }

-- The loop `for offset in range(1, 370)`, with `left` offsets to go; `none` is the RuntimeError.
unfoldable pub search_open : List ℕ → ℕ → ℕ → ℕ → Option Local
search_open holidays day offset zero = none
search_open holidays day offset (suc left) =
    let rest = search_open holidays day (offset + 1) left in
    if is_tse_trading_day holidays (open_on (day + offset))
    then some (open_on (day + offset))
    else rest

unfoldable pub next_tse_market_open : List ℕ → Local → Option Local
next_tse_market_open holidays l =
    if is_tse_market_open holidays l
    then some l
    else if is_tse_trading_day holidays l && ltb l.time tse_market_open
    then some (open_on l.day)
    else search_open holidays l.day 1 369

-- `int((later - earlier).total_seconds())` for a later time that is not before the earlier one.
abbrev pub instant : Local → ℕ
instant l = l.day * day_length + l.time

abbrev pub seconds_between : Local → Local → ℕ
seconds_between earlier later = (instant later - instant earlier) / second

abbrev pub at_least_one : ℕ → ℕ
at_least_one n = if ltb n 1 then 1 else n

-- `none` passes on the RuntimeError of `next_tse_market_open`.
unfoldable pub seconds_until_next_market_open : List ℕ → Local → Option ℕ
seconds_until_next_market_open holidays l =
    if is_tse_market_open holidays l then some 0 else elim (next_tse_market_open holidays l) [
      | none ↦ none
      | some next ↦ some (at_least_one (seconds_between l next))
    ]

pub data Status : Type 0 where
  market_open holiday pre_market pre_session post_market weekend : Status

-- The fields of the session state that other components read.
pub record SessionState : Type 0 where
  pub status_code : Status
  pub is_open : Bool
  pub is_premarket : Bool
  pub is_workday : Bool
  pub is_holiday : Bool
  pub upstream_requests_allowed : Bool
  pub live_collection_allowed : Bool
  pub cadence_seconds : ℕ
  pub auto_trade_interval_minutes : ℕ
  pub seconds_until_next_open : ℕ
  pub next_open : Local

-- The status of a closed market.
unfoldable pub closed_status : List ℕ → Local → Status
closed_status holidays l =
    if contains l.day holidays
    then holiday
    else if is_tse_premarket holidays l
    then pre_market
    else if is_tse_trading_day holidays l && ltb l.time tse_premarket_start
    then pre_session
    else if is_tse_trading_day holidays l && leb tse_market_close l.time
    then post_market
    else weekend

unfoldable pub session_at : List ℕ → Local → Status → Bool → ℕ → Local → SessionState
session_at holidays l status is_open cadence next = record {
  status_code = status;
  is_open = is_open;
  is_premarket = is_tse_premarket holidays l;
  is_workday = is_tse_trading_day holidays l;
  is_holiday = contains l.day holidays;
  upstream_requests_allowed = is_open;
  live_collection_allowed = is_open;
  cadence_seconds = cadence;
  auto_trade_interval_minutes = if is_open then 1 else at_least_one ((cadence + 59) / 60);
  seconds_until_next_open = if is_open then 0 else cadence;
  next_open = next;
}

unfoldable pub get_market_session_state : List ℕ → Local → Option SessionState
get_market_session_state holidays l =
    if is_tse_market_open holidays l
    then some (session_at holidays l market_open true 60 l)
    else elim (next_tse_market_open holidays l) [
      | none ↦ none
      | some next ↦ some (
          session_at holidays l (closed_status holidays l) false
            (at_least_one (seconds_between l next)) next)
    ]
