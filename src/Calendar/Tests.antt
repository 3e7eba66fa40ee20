-- ===== src/Calendar/Tests.antt =====
-- The calendar on concrete days. Day 739_000 is a Wednesday.
use iran_market_radar.Base.{
  ℕ, zero, suc, ◌+◌, ◌*◌, ◌≤◌, ◌<◌, ◌≡◌, refl, ◌↔◌, true, false, List, [], ◌∷◌, none, some, arith,
}
use iran_market_radar.Calendar.{
  Local, SessionState, Status, at_time, day_length, second, instant, market_open, weekend, open_on,
  is_tse_market_open, is_tse_trading_day, next_tse_market_open, search_open,
  get_market_session_state, session_at,
}
use iran_market_radar.Calendar.NextOpen.{next_tse_market_open-first}
use iran_market_radar.Calendar.Session.{
  Means, get_market_session_state-Means, get_market_session_state-cadence,
}

-- After the close on a Wednesday, with the Saturday that follows a holiday.
abbrev holidays : List ℕ
holidays = 739_003 ∷ []

abbrev evening : Local
evening = record { day = 739_000; time = at_time 15 0 }

abbrev sunday : Local
sunday = open_on 739_004

evening-next : next_tse_market_open holidays evening ≡ some sunday
unfolding next_tse_market_open is_tse_market_open is_tse_trading_day search_open
evening-next = refl

next_tse_market_open-first_example :
    (is_tse_market_open holidays sunday ≡ true)
    × (instant evening ≤ instant sunday)
    × ((m : Local)
        → m.time < day_length
        → instant evening ≤ instant m
        → instant m < instant sunday
        → is_tse_market_open holidays m ≡ false)
next_tse_market_open-first_example =
    next_tse_market_open-first holidays evening sunday (ground arith) evening-next

abbrev evening_state : SessionState
evening_state = elim (get_market_session_state holidays evening) [
  | none ↦ session_at holidays evening weekend false 0 evening
  | some s ↦ s
]

evening-state : get_market_session_state holidays evening ≡ some evening_state
unfolding get_market_session_state next_tse_market_open is_tse_market_open is_tse_trading_day
    search_open
evening-state = refl

evening-closed : evening_state.is_open ≡ false
unfolding get_market_session_state next_tse_market_open is_tse_market_open is_tse_trading_day
    search_open session_at
evening-closed = refl

get_market_session_state-Means_example :
    Means holidays evening evening_state.status_code
    × ((t : Status) → Means holidays evening t → t ≡ evening_state.status_code)
    × ((evening_state.upstream_requests_allowed ≡ true) ↔ (evening_state.status_code ≡ market_open))
    × (next_tse_market_open holidays evening ≡ some evening_state.next_open)
get_market_session_state-Means_example =
    get_market_session_state-Means holidays evening evening_state evening-state

get_market_session_state-cadence_example :
    (1 ≤ evening_state.cadence_seconds)
    × (instant evening + evening_state.cadence_seconds * second
        < instant evening_state.next_open + second)
    × (instant evening_state.next_open
        < instant evening + evening_state.cadence_seconds * second + second)
get_market_session_state-cadence_example =
    get_market_session_state-cadence holidays evening evening_state (ground arith) evening-state
      evening-closed

-- Every day of a year is a holiday.
abbrev days_from : ℕ → ℕ → List ℕ
days_from day zero = []
days_from day (suc n) = day ∷ days_from (day + 1) n

abbrev long_holiday : List ℕ
long_holiday = days_from 739_000 370

long_holiday-none : next_tse_market_open long_holiday evening ≡ none
unfolding next_tse_market_open is_tse_market_open is_tse_trading_day search_open
long_holiday-none = refl
