-- ===== src/Auth/Limit.antt =====
-- At most five passwords are compared in a window, and only an administrator's token is accepted.
use mathlib.Core.Path.{subst}
use iran_market_radar.Base.{
  ◌⊎◌, inl, inr, sym, if◌then◌else◌, by_if, by_option, ℕ, ◌+◌, ◌-◌, ◌≤◌, ◌<◌, ◌≡◌, ◌≢◌, refl, ap,
  ◌==◌, or_else, ◌∙◌, ◌↔◌, true, false, ◌&&◌, Option, none, some, List, [], ◌∷◌, ltb, arith, All,
  Option-cases,
}
use iran_market_radar.Auth.{
  clear_login_rate_limit, RateStore, LoginAnswer, unavailable, too_many, unauthorized, session,
  LoginRequest, enforce_login_rate_limit, login, logins, Payload, has_subject, Authorization,
  token_of, verify_token, get_current_user, bearer, absent, other_header,
}

-- The requests at the account `key` that are answered after a comparison of the password.
abbrev pub is_compared : LoginAnswer → ℕ
is_compared unavailable = 0
is_compared too_many = 0
is_compared unauthorized = 1
is_compared session = 1

abbrev pub compared_at : ℕ → List LoginRequest → List LoginAnswer → ℕ
compared_at key [] answers = 0
compared_at key (r ∷ rs) [] = 0
compared_at key (r ∷ rs) (a ∷ as') =
    (if r.key == key then is_compared a else 0) + compared_at key rs as'

-- A request that, if it is for the account `key`, is a wrong guess in the window of 300 seconds that
-- ends at `limit`; a request for another account is arbitrary.
abbrev pub IsGuess : ℕ → ℕ → LoginRequest → Type 0
IsGuess key limit r =
    r.key ≡ key → (r.now < limit) × (limit ≤ r.now + 300) × ((r.user_match && r.pass_match) ≡ false)

module _ {S : Type 0} (store : RateStore S) where
  -- The documented behaviour of the commands: `count` is the value of a live key or 0; `INCR` returns
  -- one more, `EXPIRE` keeps that value for 300 seconds, and neither they nor `DEL` touch other keys.
  pub record Counts (count : ℕ → ℕ → S → ℕ) : Type 0 where
    pub increments :
        (key now n : ℕ) (s s' : S)
        → store.attempt key now s ≡ some (n, s')
        → n ≡ count key now s + 1
    pub keeps :
        (key now n t : ℕ) (s s' : S)
        → store.attempt key now s ≡ some (n, s')
        → t < now + 300
        → count key t s' ≡ n
    pub attempts_apart :
        (key other now n t : ℕ) (s s' : S)
        → store.attempt other now s ≡ some (n, s')
        → other ≢ key
        → count key t s' ≡ count key t s
    pub deletes_apart :
        (key other t : ℕ) (s s' : S)
        → store.delete other s ≡ some s'
        → other ≢ key
        → count key t s' ≡ count key t s

  module _ (count : ℕ → ℕ → S → ℕ) (laws : Counts count) where
    guess-answer :
        (r : LoginRequest) (s : S)
        → (r.user_match && r.pass_match) ≡ false
        → ((store.attempt r.key r.now s ≡ none) × (login store r s ≡ (unavailable, s)))
          ⊎ ((n : ℕ) × (s' : S) × (store.attempt r.key r.now s ≡ some (n, s'))
              × (login store r s ≡ (if ltb 5 n then too_many else unauthorized, s')))
    unfolding login enforce_login_rate_limit
    guess-answer r s wrong = elim (Option-cases (store.attempt r.key r.now s)) [
      | inl down ↦ inl (down, ground arith)
      | inr ((n, s'), up) ↦ inr (n, s', up, ground arith)
    ]

    clear-apart :
        (key other t : ℕ) (s : S)
        → other ≢ key
        → count key t (clear_login_rate_limit store other s) ≡ count key t s
    clear-apart key other t s apart =
        either (store.delete other s) (λ s' e. laws.deletes_apart key other t s s' e apart)
      where
        either :
            (o : Option S)
            → ((s' : S) → o ≡ some s' → count key t s' ≡ count key t s)
            → count key t (or_else o s) ≡ count key t s
        either none h = refl
        either (some s') h = h s' refl

    -- A login at another account leaves the count.
    login-apart :
        (key t : ℕ) (r : LoginRequest) (s : S)
        → r.key ≢ key
        → count key t (login store r s).1 ≡ count key t s
    unfolding login enforce_login_rate_limit
    login-apart key t r s apart = elim (Option-cases (store.attempt r.key r.now s)) [
      | inl down ↦ ground (arith, down)
      | inr ((n, s'), up) ↦
          let kept = laws.attempts_apart key r.key r.now n t s s' up apart in
          let cleared = clear-apart key r.key t s' apart in ground (arith, up, kept, cleared)
    ]

    -- A wrong guess in the window, and what the later requests need.
    guess-bounded :
        (r : LoginRequest) (rs : List LoginRequest) (key limit c : ℕ) (s : S)
        → (r.now < limit) × (limit ≤ r.now + 300) × ((r.user_match && r.pass_match) ≡ false)
        → r.key ≡ key
        → ((t : ℕ) → t < limit → c ≤ count key t s)
        → ((s' : S)
            → ((t : ℕ) → t < limit → c + 1 ≤ count key t s')
            → compared_at key rs (logins store rs s') ≤ 5 - (c + 1))
        → compared_at key rs (logins store rs s) ≤ 5 - c
        → is_compared (login store r s).0 + compared_at key rs (logins store rs (login store r s).1)
          ≤ 5 - c
    guess-bounded r rs key limit c s guess here low later same =
        let Bound = λ (x : LoginAnswer × S).
          is_compared x.0 + compared_at key rs (logins store rs x.1) ≤ 5 - c in
        elim (guess-answer r s guess.2) [
          | inl (down, e) ↦ subst Bound (sym e) (omega (arith, same))
          | inr (n, s', up, e) ↦
              let counted = laws.increments r.key r.now n s s' up in
              let before : c ≤ count r.key r.now s =
                subst (λ k. c ≤ count k r.now s) (sym here) (low r.now guess.0) in
              let more : ((t : ℕ) → t < limit → c + 1 ≤ count key t s') = λ t inside.
                let kept = laws.keeps r.key r.now n t s s' up (omega (arith, inside, guess.1)) in
                let least : c + 1 ≤ count r.key t s' = omega (arith, kept, counted, before) in
                subst (λ k. c + 1 ≤ count k t s') here least in
              let rest = later s' more in
              subst Bound (sym e) (
                by_if (λ a. is_compared a + compared_at key rs (logins store rs s') ≤ 5 - c)
                  (ltb 5 n) (λ _. omega (arith, rest))
                  (λ few. ground (arith, rest, few, counted, before)))
        ]

    guesses-bounded :
        (key limit : ℕ) (rs : List LoginRequest) (c : ℕ) (s : S)
        → All (IsGuess key limit) rs
        → ((t : ℕ) → t < limit → c ≤ count key t s)
        → compared_at key rs (logins store rs s) ≤ 5 - c
    unfolding logins
    guesses-bounded key limit [] c s g low = omega arith
    guesses-bounded key limit (r ∷ rs) c s g low =
        by_if (λ n. n + compared_at key rs (logins store rs (login store r s).1) ≤ 5 - c)
          (r.key == key)
          (λ same.
            let here : r.key ≡ key = ground arith in
            guess-bounded r rs key limit c s (g.0 here) here low
              (λ s' low'. guesses-bounded key limit rs (c + 1) s' g.1 low')
              (guesses-bounded key limit rs c s g.1 low))
          (λ apart.
            let rest = guesses-bounded key limit rs c (login store r s).1 g.1 (λ t inside.
              let kept = login-apart key t r s (λ e. ground arith) in
              omega (arith, kept, low t inside)) in
            omega (arith, rest))

    -- Whatever the state of the counters, the outages of Redis and the requests for other accounts: of
    -- the guesses at one account within 300 seconds, if they are all wrong, at most five are compared
    -- with the password.
    pub logins-compared :
        (key limit : ℕ) (rs : List LoginRequest) (s : S)
        → All (IsGuess key limit) rs
        → compared_at key rs (logins store rs s) ≤ 5
    logins-compared key limit rs s g = guesses-bounded key limit rs 0 s g (λ t inside. omega arith)

-- The token that a request presents: that of a header `Bearer`, whatever the cookie; and without such
-- a header, that of the cookie.
pub data Presents (header : Authorization) (cookie : Option ℕ) (token : ℕ) : Type 0 where
  in_header : header ≡ bearer (some token) → Presents header cookie token
  in_cookie :
      ((t : Option ℕ) → header ≢ bearer t) → cookie ≡ some token → Presents header cookie token

presented :
    (header : Authorization) (cookie : Option ℕ) (token : ℕ)
    → token_of header cookie ≡ some token
    → Presents header cookie token
presented (bearer t) cookie token e = in_header (ap bearer e)
presented absent cookie token e = in_cookie (λ t h. cc) e
presented other_header cookie token e = in_cookie (λ t h. cc) e

chosen :
    (header : Authorization) (cookie : Option ℕ) (token : ℕ)
    → Presents header cookie token
    → token_of header cookie ≡ some token
chosen header cookie token (in_header h) = ap (λ x. token_of x cookie) h
chosen (bearer t) cookie token (in_cookie other e) = absurd (other t refl)
chosen absent cookie token (in_cookie other e) = e
chosen other_header cookie token (in_cookie other e) = e

-- What an accepted token decodes to.
abbrev pub IsAdmin : (ℕ → Option Payload) → ℕ → Payload → Type 0
IsAdmin decode token p =
    (decode token ≡ some p) × (p.is_admin ≡ true) × ((s : ℕ) × (p.subject ≡ some s))

subject_given : (s : Option ℕ) → has_subject s ≡ true → (n : ℕ) × (s ≡ some n)
subject_given none h = cc
subject_given (some n) h = (n, refl)

verify_token-IsAdmin :
    (decode : ℕ → Option Payload) (token : ℕ) (p : Payload)
    → (verify_token decode token ≡ some p) ↔ IsAdmin decode token p
unfolding verify_token
verify_token-IsAdmin decode token p =
    let P = λ (o : Option Payload). o ≡ some p → IsAdmin decode token p in
    (
      by_option P (decode token) (λ _ e. cc)
          (λ q decoded.
            by_if P (q.is_admin && has_subject q.subject)
              (λ fit e.
                let same : decode token ≡ some p = decoded ∙ e in
                (same, ground arith, subject_given p.subject (ground arith)))
              (λ _ e. cc)),
      λ a. let (decoded, admin, (n, subject)) = a in ground (arith, decoded, admin, subject),
    )

-- A user is accepted exactly when the token presented, that of the header before that of the cookie,
-- decodes to an administrator's with a subject; the payload returned is the decoded one.
pub get_current_user-accepts :
    (decode : ℕ → Option Payload) (header : Authorization) (cookie : Option ℕ) (p : Payload)
    → (get_current_user decode header cookie ≡ some p)
      ↔ ((token : ℕ) × Presents header cookie token × IsAdmin decode token p)
unfolding get_current_user
get_current_user-accepts decode header cookie p =
    let P = λ (o : Option Payload).
      o ≡ some p → (token : ℕ) × Presents header cookie token × IsAdmin decode token p in
    (
      by_option P (token_of header cookie) (λ _ e. cc)
          (λ token given e. (
            token,
            presented header cookie token given,
            (verify_token-IsAdmin decode token p).0 e,
          )),
      λ a.
          let given = chosen header cookie a.0 a.1 in
          let accepted = (verify_token-IsAdmin decode a.0 p).1 a.2 in cc,
    )
