-- ===== src/Calendar/Session.antt =====
-- The session state: what each status says of the day and the time, and the cadence.
use iran_market_radar.Base.{
  ℕ, ◌+◌, ◌*◌, ◌≤◌, ◌<◌, ◌≡◌, refl, ◌≢◌, ◌↔◌, inl, inr, true, false, List, some, arith, Bool-cases,
  Option-cases,
}
use iran_market_radar.Calendar.{
  Local, SessionState, Status, market_open, holiday, pre_market, pre_session, post_market, weekend,
  day_length, second, tse_premarket_start, tse_market_open, tse_market_close, contains, weekday,
  iran_trading_weekdays, instant, is_tse_trading_day, is_tse_market_open, is_tse_premarket,
  next_tse_market_open, closed_status, session_at, at_least_one, seconds_between,
  get_market_session_state,
}
use iran_market_radar.Calendar.NextOpen.{closed-lt-next}

-- What each status means.
abbrev pub Means : List ℕ → Local → Status → Type 0
Means h l market_open =
    (is_tse_trading_day h l ≡ true) × (tse_market_open ≤ l.time) × (l.time < tse_market_close)
Means h l holiday = contains l.day h ≡ true
Means h l pre_market =
    (is_tse_trading_day h l ≡ true) × (tse_premarket_start ≤ l.time) × (l.time < tse_market_open)
Means h l pre_session = (is_tse_trading_day h l ≡ true) × (l.time < tse_premarket_start)
Means h l post_market = (is_tse_trading_day h l ≡ true) × (tse_market_close ≤ l.time)
Means h l weekend =
    (contains l.day h ≡ false) × (contains (weekday l.day) iran_trading_weekdays ≡ false)

closed_status-Means :
    (h : List ℕ) (l : Local) → is_tse_market_open h l ≡ false → Means h l (closed_status h l)
unfolding closed_status is_tse_premarket is_tse_market_open is_tse_trading_day
closed_status-Means h l closed = ground arith

open-Means : (h : List ℕ) (l : Local) → is_tse_market_open h l ≡ true → Means h l market_open
unfolding is_tse_market_open
open-Means h l now = ground arith

closed_status-ne : (h : List ℕ) (l : Local) → closed_status h l ≢ market_open
unfolding closed_status
closed_status-ne h l e = ground arith

-- No two statuses have their meaning at once.
Means-unique : (h : List ℕ) (l : Local) (s t : Status) → Means h l s → Means h l t → s ≡ t
unfolding is_tse_trading_day
Means-unique h l s t p q = ground arith

open-state :
    (h : List ℕ) (l : Local) (s : SessionState)
    → get_market_session_state h l ≡ some s
    → is_tse_market_open h l ≡ true
    → (s ≡ session_at h l market_open true 60 l) × (next_tse_market_open h l ≡ some l)
unfolding get_market_session_state next_tse_market_open
open-state h l s e now = (ground arith, ground arith)

closed-state :
    (h : List ℕ) (l : Local) (s : SessionState)
    → get_market_session_state h l ≡ some s
    → is_tse_market_open h l ≡ false
    → (n : Local) × (next_tse_market_open h l ≡ some n)
      × (s ≡ session_at h l (closed_status h l) false (at_least_one (seconds_between l n)) n)
unfolding get_market_session_state
closed-state h l s e closed = elim (Option-cases (next_tse_market_open h l)) [
  | inl e' ↦ absurd (ground arith)
  | inr (n, e') ↦ (n, e', ground arith)
]

-- The session state is right in its status, which is the only one whose meaning holds; requests to
-- the source are allowed exactly under the status of an open market; and the next opening is that
-- of the calendar.
pub get_market_session_state-Means :
    (h : List ℕ) (l : Local) (s : SessionState)
    → get_market_session_state h l ≡ some s
    → Means h l s.status_code
      × ((t : Status) → Means h l t → t ≡ s.status_code)
      × ((s.upstream_requests_allowed ≡ true) ↔ (s.status_code ≡ market_open))
      × (next_tse_market_open h l ≡ some s.next_open)
unfolding session_at
get_market_session_state-Means h l s e = elim (Bool-cases (is_tse_market_open h l)) [
  | inl now ↦
      let (same, next) = open-state h l s e now in
      let meant = open-Means h l now in
      rw same (meant, λ t p. Means-unique h l t market_open p meant, (λ _. refl, λ _. refl), next)
  | inr closed ↦
      let (n, next, same) = closed-state h l s e closed in
      let meant = closed_status-Means h l closed in
      rw same (
        meant,
        λ t p. Means-unique h l t (closed_status h l) p meant,
        (λ f. cc, λ m. absurd (closed_status-ne h l m)),
        next,
      )
]

-- While the market is closed, the cadence is at least a second; sleeping for it overruns the next
-- opening by less than a second, and stops less than a second short of it.
pub get_market_session_state-cadence :
    (h : List ℕ) (l : Local) (s : SessionState)
    → l.time < day_length
    → get_market_session_state h l ≡ some s
    → s.is_open ≡ false
    → (1 ≤ s.cadence_seconds)
      × (instant l + s.cadence_seconds * second < instant s.next_open + second)
      × (instant s.next_open < instant l + s.cadence_seconds * second + second)
unfolding session_at
get_market_session_state-cadence h l s day_time e shut =
    elim (Bool-cases (is_tse_market_open h l)) [
      | inl now ↦ let (same, next) = open-state h l s e now in cc
      | inr closed ↦
          let (n, next, same) = closed-state h l s e closed in
          let ahead = closed-lt-next h l n day_time closed next in rw same (ground arith)
    ]
