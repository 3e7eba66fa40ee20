-- ===== src/Calendar/NextOpen.antt =====
-- The next opening of the market: that it is an opening, the first one, and when there is none.
use mathlib.Core.Path.{subst}
use iran_market_radar.Base.{
  ℕ, zero, suc, ◌+◌, ◌-◌, ◌≤◌, ◌<◌, ◌≡◌, refl, ◌↔◌, ◌⊎◌, inl, inr, Bool, true, false, List, none,
  some, arith, ltb, Bool-cases, ◌∙◌,
}
use iran_market_radar.Calendar.{
  Local, day_length, tse_market_open, tse_market_close, open_on, instant, is_tse_trading_day,
  is_tse_market_open, search_open, next_tse_market_open,
}

-- Whether the exchange trades on a day.
abbrev pub trades_on : List ℕ → ℕ → Bool
trades_on holidays day = is_tse_trading_day holidays (open_on day)

-- Only the date matters.
trades_on_date : (h : List ℕ) (l : Local) → is_tse_trading_day h l ≡ trades_on h l.day
unfolding is_tse_trading_day
trades_on_date h l = refl

open_iff :
    (h : List ℕ) (l : Local)
    → (is_tse_market_open h l ≡ true)
      ↔ ((trades_on h l.day ≡ true) × (tse_market_open ≤ l.time) × (l.time < tse_market_close))
unfolding is_tse_market_open
open_iff h l = ground (arith, trades_on_date h l)

-- `n` is the opening of the first trading day at an offset of at least `offset`.
abbrev IsFirst : List ℕ → ℕ → ℕ → Local → Type 0
IsFirst h day offset n =
    (k : ℕ) × (offset ≤ k)
    × (n ≡ open_on (day + k))
    × (trades_on h (day + k) ≡ true)
    × ((j : ℕ) → offset ≤ j → j < k → trades_on h (day + j) ≡ false)

IsFirst-step :
    (h : List ℕ) (day offset : ℕ) (n : Local)
    → trades_on h (day + offset) ≡ false
    → IsFirst h day (offset + 1) n
    → IsFirst h day offset n
IsFirst-step h day offset n closed (k, le, e, t, before) = (
  k,
  omega arith,
  e,
  t,
  λ j p q. elim (Bool-cases (ltb offset j)) [
    | inl lt ↦ before j (ground arith) q
    | inr ge ↦ let same : j ≡ offset = ground arith in rw same closed
  ],
)

search_open-IsFirst :
    (h : List ℕ) (day offset left : ℕ) (n : Local)
    → search_open h day offset left ≡ some n
    → IsFirst h day offset n
unfolding search_open
search_open-IsFirst h day offset zero n e = cc
search_open-IsFirst h day offset (suc left) n e = elim (Bool-cases (trades_on h (day + offset))) [
  | inl t ↦ (offset, omega arith, ground arith, t, λ j p q. absurd (omega arith))
  | inr f ↦
      IsFirst-step h day offset n f (search_open-IsFirst h day (offset + 1) left n (ground arith))
]

-- What keeps the market closed.
closed_time :
    (h : List ℕ) (m : Local)
    → (m.time < tse_market_open) ⊎ (tse_market_close ≤ m.time)
    → is_tse_market_open h m ≡ false
unfolding is_tse_market_open
closed_time h m t = ground arith

closed_day : (h : List ℕ) (m : Local) → trades_on h m.day ≡ false → is_tse_market_open h m ≡ false
unfolding is_tse_market_open
closed_day h m t = rw (trades_on_date h m ∙ t)

open_on-open :
    (h : List ℕ) (day : ℕ) → trades_on h day ≡ true → is_tse_market_open h (open_on day) ≡ true
unfolding is_tse_market_open
open_on-open h day t = rw t

-- A closed market's next opening, as the code finds it.
next_open-cases :
    (h : List ℕ) (l n : Local)
    → is_tse_market_open h l ≡ false
    → next_tse_market_open h l ≡ some n
    → ((n ≡ open_on l.day) × (trades_on h l.day ≡ true) × (l.time < tse_market_open))
      ⊎ (IsFirst h l.day 1 n × ((trades_on h l.day ≡ false) ⊎ (tse_market_open ≤ l.time)))
unfolding next_tse_market_open
next_open-cases h l n closed e = elim (Bool-cases (trades_on h l.day)) [
  | inl t ↦ elim (Bool-cases (ltb l.time tse_market_open)) [
    | inl early ↦ inl (ground (arith, trades_on_date h l), t, ground arith)
    | inr late ↦ inr (
      search_open-IsFirst h l.day 1 369 n (ground (arith, trades_on_date h l)),
      inr (ground arith),
    )
  ]
  | inr f ↦ inr (search_open-IsFirst h l.day 1 369 n (ground (arith, trades_on_date h l)), inl f)
]

closed_late :
    (h : List ℕ) (l : Local)
    → is_tse_market_open h l ≡ false
    → trades_on h l.day ≡ true
    → tse_market_open ≤ l.time
    → tse_market_close ≤ l.time
unfolding is_tse_market_open
closed_late h l closed t le = ground (arith, trades_on_date h l)

-- On the day of the given time the market stays closed if that day's session is over or absent.
closed_rest :
    (h : List ℕ) (l m : Local)
    → is_tse_market_open h l ≡ false
    → (trades_on h l.day ≡ false) ⊎ (tse_market_open ≤ l.time)
    → m.day ≡ l.day
    → l.time ≤ m.time
    → is_tse_market_open h m ≡ false
closed_rest h l m closed past same later = elim (Bool-cases (trades_on h l.day)) [
  | inl t ↦ elim past [
    | inl f ↦ cc
    | inr le ↦ let late = closed_late h l closed t le in closed_time h m (inr (omega arith))
  ]
  | inr f ↦ closed_day h m (rw same f)
]

closed_until :
    (h : List ℕ) (l n m : Local)
    → is_tse_market_open h l ≡ false
    → (trades_on h l.day ≡ false) ⊎ (tse_market_open ≤ l.time)
    → IsFirst h l.day 1 n
    → m.time < day_length
    → instant l ≤ instant m
    → instant m < instant n
    → l.time < day_length
    → is_tse_market_open h m ≡ false
closed_until h l n m closed past (k, le, e, t, before) mt from to lt =
    let before_n : instant m < instant (open_on (l.day + k)) =
      subst (λ x. instant m < instant x) e to in
    elim (Bool-cases (ltb l.day m.day)) [
      | inr same ↦
          let same_day : m.day ≡ l.day = ground arith in
          closed_rest h l m closed past same_day (omega arith)
      | inl after ↦ elim (Bool-cases (ltb m.day (l.day + k))) [
        | inl earlier ↦
            let j : m.day ≡ l.day + (m.day - l.day) = ground arith in
            closed_day h m (rw j (before (m.day - l.day) (ground arith) (ground arith)))
        | inr reached ↦
            let le_day : l.day + k ≤ m.day = ground arith in closed_time h m (inl (omega arith))
      ]
    ]

open_now :
    (h : List ℕ) (l n : Local)
    → is_tse_market_open h l ≡ true
    → next_tse_market_open h l ≡ some n
    → n ≡ l
unfolding next_tse_market_open
open_now h l n now e = ground arith

-- The next opening is reached from any time of the day: the market is open at it, it is not before
-- the given time, and the market is closed at every moment from the given time up to it.
pub next_tse_market_open-first :
    (h : List ℕ) (l n : Local)
    → l.time < day_length
    → next_tse_market_open h l ≡ some n
    → (is_tse_market_open h n ≡ true)
      × (instant l ≤ instant n)
      × ((m : Local)
          → m.time < day_length
          → instant l ≤ instant m
          → instant m < instant n
          → is_tse_market_open h m ≡ false)
next_tse_market_open-first h l n day_time e = elim (Bool-cases (is_tse_market_open h l)) [
  | inl now ↦
      let same : n ≡ l = open_now h l n now e in
      rw same (now, omega arith, λ m mt from to. absurd (omega arith))
  | inr closed ↦ elim (next_open-cases h l n closed e) [
    | inl (same, t, early) ↦
        rw same
          (open_on-open h l.day t, omega arith, λ m mt from to. closed_time h m (inl (omega arith)))
    | inr (first, past) ↦ (
      rw first.2 (open_on-open h (l.day + first.0) first.3),
      rw first.2 (let pos = first.1 in omega arith),
      λ m mt from to. closed_until h l n m closed past first mt from to day_time,
    )
  ]
]

-- The search finds no opening only if none of the days at the offsets from `offset` on trades.
search_open-none :
    (h : List ℕ) (day offset left j : ℕ)
    → search_open h day offset left ≡ none
    → offset ≤ j
    → j < offset + left
    → trades_on h (day + j) ≡ false
unfolding search_open
search_open-none h day offset zero j e le lt = absurd (omega arith)
search_open-none h day offset (suc left) j e le lt =
    elim (Bool-cases (trades_on h (day + offset))) [
      | inl t ↦ ground arith
      | inr f ↦ elim (Bool-cases (ltb offset j)) [
        | inl after ↦
            search_open-none h day (offset + 1) left j (ground arith) (ground arith) (omega arith)
        | inr same ↦ let j_offset : j ≡ offset = ground arith in rw j_offset f
      ]
    ]

-- The RuntimeError: the search for an opening fails only where the market is closed, its opening
-- of the day is not ahead, and the exchange trades on none of the next 369 days.
pub next_tse_market_open-none :
    (h : List ℕ) (l : Local) (j : ℕ)
    → next_tse_market_open h l ≡ none
    → 1 ≤ j
    → j ≤ 369
    → (is_tse_market_open h l ≡ false)
      × ((trades_on h l.day ≡ false) ⊎ (tse_market_open ≤ l.time))
      × (trades_on h (l.day + j) ≡ false)
unfolding next_tse_market_open
next_tse_market_open-none h l j e le lt = (
  ground arith,
  ground (arith, trades_on_date h l),
  search_open-none h l.day 1 369 j (ground arith) le (omega arith),
)

-- From a closed market the next opening is strictly ahead.
pub closed-lt-next :
    (h : List ℕ) (l n : Local)
    → l.time < day_length
    → is_tse_market_open h l ≡ false
    → next_tse_market_open h l ≡ some n
    → instant l < instant n
closed-lt-next h l n day_time closed e = elim (next_open-cases h l n closed e) [
  | inl (same, t, early) ↦ rw same (omega arith)
  | inr (first, past) ↦ rw first.2 (let ahead = first.1 in omega arith)
]
