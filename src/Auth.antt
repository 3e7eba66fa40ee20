-- ===== src/Auth.antt =====
-- apps/api/routes/auth.py: the login with its shared attempt limit, and the check of a session token.
-- The attempt counters live in Redis and the tokens are signed by a library: both are parameters.
pub mod Limit
mod Tests
use iran_market_radar.Base.{
  ℕ, Bool, true, false, not, ◌&&◌, Option, none, some, List, [], ◌∷◌, ltb, if◌then◌else◌, or_else,
}

-- The pipeline `INCR key; EXPIRE key 300` at a time in seconds, and `DEL key`; `none` is a RedisError.
pub record RateStore (S : Type 0) : Type 0 where
  pub attempt : ℕ → ℕ → S → Option (ℕ × S)
  pub delete : ℕ → S → Option S

abbrev pub login_window_seconds : ℕ
login_window_seconds = 300

abbrev pub login_attempts_per_window : ℕ
login_attempts_per_window = 5

-- The answers of `login`: 503, 429, 401, and a session.
pub data LoginAnswer : Type 0 where
  unavailable too_many unauthorized session : LoginAnswer

-- `key` is `_login_rate_key(username)`; the other two are the comparisons with the settings.
pub record LoginRequest : Type 0 where
  pub key : ℕ
  pub now : ℕ
  pub user_match : Bool
  pub pass_match : Bool

module _ {S : Type 0} (store : RateStore S) where
  -- `_enforce_login_rate_limit`: the error that it raises, if any, and the store.
  unfoldable pub enforce_login_rate_limit : ℕ → ℕ → S → Option LoginAnswer × S
  enforce_login_rate_limit key now s = elim (store.attempt key now s) [
    | none ↦ (some unavailable, s)
    | some r ↦ if ltb login_attempts_per_window r.0 then (some too_many, r.1) else (none, r.1)
  ]

  -- `_clear_login_rate_limit` goes on after a RedisError.
  abbrev pub clear_login_rate_limit : ℕ → S → S
  clear_login_rate_limit key s = or_else (store.delete key s) s

  unfoldable pub login : LoginRequest → S → LoginAnswer × S
  login req s =
      let limited = enforce_login_rate_limit req.key req.now s in
      elim limited.0 [
        | some answer ↦ (answer, limited.1)
        | none ↦
            if not (req.user_match && req.pass_match)
            then (unauthorized, limited.1)
            else (session, clear_login_rate_limit req.key limited.1)
      ]

  -- A series of requests, and their answers.
  unfoldable pub logins : List LoginRequest → S → List LoginAnswer
  logins [] s = []
  logins (req ∷ reqs) s = let r = login req s in r.0 ∷ logins reqs r.1

-- A decoded token.
pub record Payload : Type 0 where
  pub is_admin : Bool
  pub subject : Option ℕ

abbrev pub has_subject : Option ℕ → Bool
has_subject none = false
has_subject (some s) = true

-- The header `Authorization`: absent, `Bearer <token>` with a token or an empty one, or another text.
pub data Authorization : Type 0 where
  absent : Authorization
  bearer : Option ℕ → Authorization
  other_header : Authorization

abbrev pub token_of : Authorization → Option ℕ → Option ℕ
token_of (bearer token) cookie = token
token_of absent cookie = cookie
token_of other_header cookie = cookie

-- `decode` is `jwt.decode` with the secret, the algorithm, the issuer and the audience; `none` is a
-- JWTError.
module _ (decode : ℕ → Option Payload) where
  unfoldable pub verify_token : ℕ → Option Payload
  verify_token token = elim (decode token) [
    | none ↦ none
    | some p ↦ if p.is_admin && has_subject p.subject then some p else none
  ]

  -- `none` is the answer 401.
  unfoldable pub get_current_user : Authorization → Option ℕ → Option Payload
  get_current_user header cookie = elim (token_of header cookie) [
    | none ↦ none
    | some token ↦ verify_token token
  ]
