-- ===== src/Auth/Tests.antt =====
-- The attempt limit on a store that holds one counter for each account, and a token check.
use mathlib.Core.Path.{subst}
use mathlib.Core.Option.{some-injective}
use iran_market_radar.Base.{
  sym, ap, ◌∙◌, ℕ, ◌+◌, ◌≤◌, ◌<◌, ◌≡◌, ◌≢◌, refl, ◌↔◌, true, false, Option, none, some, List, [],
  ◌∷◌, ltb, ◌==◌, if◌then◌else◌, arith, All,
}
use iran_market_radar.Auth.{
  RateStore, LoginRequest, enforce_login_rate_limit, login, logins, Payload, bearer,
  get_current_user,
}
use iran_market_radar.Auth.Limit.{
  compared_at, Presents, IsAdmin, IsGuess, Counts, logins-compared, get_current_user-accepts,
}

-- The value and the end of life of each key.
abbrev Counters : Type 0
Counters = ℕ → ℕ × ℕ

abbrev live : ℕ → ℕ → Counters → ℕ
live key now s = if ltb now (s key).1 then (s key).0 else 0

abbrev counting : RateStore Counters
counting = record {
  attempt = λ key now s.
      let n = live key now s + 1 in some (n, λ k. if k == key then (n, now + 300) else s k);
  delete = λ key s. some (λ k. if k == key then (0, 0) else s k);
}

live-apart :
    (key other t : ℕ) (v : ℕ × ℕ) (s : Counters)
    → other ≢ key
    → live key t (λ k. if k == other then v else s k) ≡ live key t s
live-apart key other t v s apart = ground (arith, apart)

abbrev put : ℕ → ℕ → ℕ → Counters → Counters
put key n until s = λ k. if k == key then (n, until) else s k

live-put :
    (key now t n : ℕ) (s : Counters) → t < now + 300 → live key t (put key n (now + 300) s) ≡ n
live-put key now t n s inside = ground arith

counting-Counts : Counts counting live
counting-Counts = record {
  increments = λ key now n s s' e. sym (ap (λ x. x.0) (some-injective _ _ e));
  keeps = λ key now n t s s' e inside.
      let same =
        some-injective (live key now s + 1, put key (live key now s + 1) (now + 300) s) (n, s') e in
      subst (λ x. live key t x ≡ n) (ap (λ x. x.1) same)
        (live-put key now t (live key now s + 1) s inside ∙ ap (λ x. x.0) same);
  attempts_apart = λ key other now n t s s' e apart.
      let same =
        some-injective (live other now s + 1, put other (live other now s + 1) (now + 300) s)
          (n, s') e in
      subst (λ x. live key t x ≡ live key t s) (ap (λ x. x.1) same)
        (live-apart key other t (live other now s + 1, now + 300) s apart);
  deletes_apart = λ key other t s s' e apart.
      subst (λ x. live key t x ≡ live key t s) (some-injective _ s' e)
        (live-apart key other t (0, 0) s apart);
}

abbrev guess_at : ℕ → LoginRequest
guess_at now = record { key = 3; now = now; user_match = true; pass_match = false }

-- A successful login at another account, between the guesses.
abbrev other_login : LoginRequest
other_login = record { key = 4; now = 13; user_match = true; pass_match = true }

abbrev guesses : List LoginRequest
guesses =
    guess_at 10
    ∷ guess_at 11
    ∷ guess_at 12
    ∷ guess_at 13
    ∷ other_login
    ∷ guess_at 14
    ∷ guess_at 15
    ∷ guess_at 16
    ∷ []

abbrev fresh : Counters
fresh = λ k. (0, 0)

-- The sixth and the seventh guess are refused.
five_compared : compared_at 3 guesses (logins counting guesses fresh) ≡ 5
unfolding logins login enforce_login_rate_limit
five_compared = refl

guesses-IsGuess : All (IsGuess 3 300) guesses
guesses-IsGuess = ground arith

logins-compared_example : compared_at 3 guesses (logins counting guesses fresh) ≤ 5
logins-compared_example =
    logins-compared counting live counting-Counts 3 300 guesses fresh guesses-IsGuess

abbrev owner : Payload
owner = record { is_admin = true; subject = some 1 }

abbrev decode_one : ℕ → Option Payload
decode_one token = if token == 8 then some owner else none

get_current_user-accepts_example :
    (get_current_user decode_one (bearer (some 8)) none ≡ some owner)
    ↔ ((token : ℕ) × Presents (bearer (some 8)) none token × IsAdmin decode_one token owner)
get_current_user-accepts_example = get_current_user-accepts decode_one (bearer (some 8)) none owner
