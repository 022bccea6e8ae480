-- ===== src/Identity/Limits.antt =====
-- The limit on logging in (`loginPassword` of apps/identity/src/application/identity.service.ts,
-- `RedisRateLimiter` of apps/identity/src/infrastructure/redis/redis.adapters.ts).
use mathlib.Core.Path.{subst}
use food_ordering_app.Prelude.{
  ℕ, suc, ◌+◌, ◌*◌, ◌≤◌, ◌<◌, String, Bool, true, false, not, ◌&&◌, Option, none, some, List, [],
  ◌∷◌, ◌==◌, if◌then◌else◌, find, ltb, leb, ◌≡◌, refl, arith, eq_iff, Bool-cases, Option-cases, inl,
  inr, ◌⊎◌,
}
use food_ordering_app.Effect.{Action, Result, err, rate_limit}
use food_ordering_app.Effect.Keeps.{Keeps}
use food_ordering_app.Identity.Model.{
  RefreshTokenRecord, DeviceContext, AuthTokens, Timed, Scope, login, otp_requests, World, Env,
}
use food_ordering_app.Identity.Users
use food_ordering_app.Identity.Sessions
use food_ordering_app.Identity.RefreshTokens
use food_ordering_app.Identity.RefreshTokens.{is_live, revoke_where}
use food_ordering_app.Identity.Audit.{append, with_transaction}
use food_ordering_app.Identity.Redis.{
  set_otp, del_otp, incr_attempts, clear_attempts, deny, hit, read, counted, write_rate,
}
use food_ordering_app.Identity.Service.{
  issue_session, issue_access_token, draw, refresh_expiry, publish_event, hash_password,
  create_customer, generate_otp_code, login_password, login_limit, window_seconds,
}
use food_ordering_app.Identity.Account.{rotate}
use food_ordering_app.Identity.Calls.{
  Call, registers, logs_in, asks_code, gives_code, refreshes, logs_out, logs_out_all, introspects,
  assigns, asks_me, lists, revokes, waits, step,
}
use food_ordering_app.Identity.Kept.{Kept, step-kept, login_found-kept}
use food_ordering_app.Text.{trim}

-- A counter of at least `n` that lasts until `end`; or none is needed yet.
abbrev HasCounted : ℕ → ℕ → ℕ → Option (Timed ℕ) → Type 0
HasCounted end n now none = n ≡ 0
HasCounted end n now (some t) = ((n ≡ 0) × (t.expiry ≤ now)) ⊎ ((end ≤ t.expiry) × (n ≤ t.value))

-- One more is counted.
counted-HasCounted :
    (end n now : ℕ) (c : Option (Timed ℕ))
    → now < end
    → end ≤ now + window_seconds * 1000
    → HasCounted end n now c
    → (end ≤ (counted now window_seconds c).expiry) × (suc n ≤ (counted now window_seconds c).value)
unfolding counted
counted-HasCounted end n now none lt near h = (near, omega arith)
counted-HasCounted end n now (some t) lt near (inl (z, e)) = ground arith
counted-HasCounted end n now (some t) lt near (inr (e, v)) = ground arith

HasCounted-gone : (end now : ℕ) (c : Option (Timed ℕ)) → read now c ≡ none → HasCounted end 0 now c
unfolding read
HasCounted-gone end now none gone = refl
HasCounted-gone end now (some t) gone = inl (refl, ground arith)

HasCounted-later :
    (end n now later : ℕ) (c : Option (Timed ℕ))
    → now ≤ later
    → HasCounted end n now c
    → HasCounted end n later c
HasCounted-later end n now later none le h = h
HasCounted-later end n now later (some t) le (inl (z, e)) = inl (z, omega arith)
HasCounted-later end n now later (some t) le (inr h) = inr h

module _ (env : Env) (key : String) (end n : ℕ) where
  -- Before `end`, at least `n` attempts are counted, unless none was made.
  pub record IsCounted (w : World) : Type 0 where
    pub near : end ≤ w.now + window_seconds * 1000
    pub counted_at : w.now < end → HasCounted end n w.now (w.rates login key)

  -- An action that leaves the counters and the clock alone.
  alone :
      {A : Type 0} (m : Action World A)
      → ((w : World) → ((m w).1.rates ≡ w.rates) × ((m w).1.now ≡ w.now))
      → Keeps IsCounted m
  alone m same = record {
    at = λ w h. record {
      near = rw (same w).1 h.near;
      counted_at = λ lt. rw ((same w).0, (same w).1) (h.counted_at (omega (arith, (same w).1, lt)));
    };
  }

  hit-IsCounted :
      (scope : Scope) (id : String) (limit : ℕ)
      → Keeps IsCounted (hit scope id limit window_seconds)
  unfolding hit write_rate
  hit-IsCounted login id limit = record {
    at = λ w h. record {
      near = h.near;
      counted_at = λ lt. elim (Bool-cases (id == key)) [
        | inl e ↦
            let same : id ≡ key = ground (arith, eq_iff id key) in
            let counts : HasCounted end n w.now (w.rates login id) = rw same (h.counted_at lt) in
            let (x, v) = counted-HasCounted end n w.now (w.rates login id) lt h.near counts in
            rw e (inr (x, omega (arith, v)))
        | inr e ↦ rw e (h.counted_at lt)
      ];
    };
  }
  hit-IsCounted otp_requests id limit = record {
    at = λ w h. record { near = h.near; counted_at = h.counted_at };
  }

  rotate-rates :
      (existing : RefreshTokenRecord) (device : DeviceContext) (w : World)
      → ((rotate env existing device w).1.rates ≡ w.rates)
        × ((rotate env existing device w).1.now ≡ w.now)
  unfolding rotate issue_access_token draw refresh_expiry RefreshTokens.create RefreshTokens.revoke
      revoke_where Users.find_by_id Sessions.touch append
  rotate-rates existing device w =
      elim (Option-cases (Users.map_found (find (Users.is_user existing.user_id) w.users))) [
        | inl e ↦ (ground arith, ground arith)
        | inr (user, e) ↦ (ground arith, ground arith)
      ]

  IsCounted-kept : Kept env IsCounted
  unfolding append publish_event set_otp del_otp incr_attempts clear_attempts deny generate_otp_code
      hash_password Sessions.revoke Sessions.revoke_all_for_user revoke_where Users.assign_role
      create_customer with_transaction Users.find_by_email Users.find_by_phone Users.create_user
      issue_session issue_access_token draw Sessions.create refresh_expiry RefreshTokens.create
  IsCounted-kept = record {
    appends = λ a b c d e. alone _ (λ w. (refl, refl));
    publishes = λ a b c. alone _ (λ w. (ground arith, ground arith));
    sets_otp = λ a b c. alone _ (λ w. (refl, refl));
    dels_otp = λ a. alone _ (λ w. (refl, refl));
    incrs = λ a b. alone _ (λ w. (refl, refl));
    clears = λ a. alone _ (λ w. (refl, refl));
    denies = λ a b. alone _ (λ w. (refl, refl));
    hits = hit-IsCounted;
    generates = alone _ (λ w. (refl, refl));
    hashes = λ a. alone _ (λ w. (refl, refl));
    revokes_session = λ a. alone _ (λ w. (refl, refl));
    revokes_sessions = λ a. alone _ (λ w. (refl, refl));
    revokes_tokens = λ a. alone _ (λ w. (refl, refl));
    assigns_role = λ a b. alone _ (λ w. (ground arith, ground arith));
    creates = λ a b c d. alone _ (λ w. (ground arith, ground arith));
    issues = λ a b c. alone _ (λ w. (refl, refl));
    rotates = λ hash w existing device f l h.
        (alone (rotate env existing device) (rotate-rates existing device)).at w h;
    waits = λ w t h. record {
      near = omega (arith, h.near);
      counted_at = λ lt.
          HasCounted-later end n w.now (w.now + t) (w.rates login key) (omega arith)
            (h.counted_at (omega arith));
    };
  }

-- The answer of the rate limiter.
abbrev is_limited : Result AuthTokens → Bool
is_limited (err (rate_limit _)) = true
is_limited _ = false

module _ (env : Env) where
  abbrev is_allowed : String → ℕ → Call → World → Bool
  is_allowed key end (logs_in identifier password device) w =
      env.to_lower_case identifier == key
      && (ltb w.now end && not (is_limited (login_password env identifier password device w).0))
  is_allowed key end _ w = false

  -- How often a login with a key was let through before a time.
  abbrev pub logins_allowed : String → ℕ → List Call → World → ℕ
  logins_allowed key end [] w = 0
  logins_allowed key end (c ∷ cs) w =
      (if is_allowed key end c w then 1 else 0) + logins_allowed key end cs (step env c w)

  login-IsCounted :
      (key : String) (end n : ℕ) (identifier password : String) (device : DeviceContext) (w : World)
      → env.to_lower_case identifier ≡ key
      → w.now < end
      → IsCounted env key end n w
      → is_limited (login_password env identifier password device w).0 ≡ false
      → IsCounted env key end (suc n) (login_password env identifier password device w).1
        × (suc n ≤ login_limit)
  unfolding login_password hit write_rate Users.find_by_email_or_phone
  login-IsCounted key end n identifier password device w same lt h allowed =
      let id = env.to_lower_case identifier in
      let counts : HasCounted end n w.now (w.rates login id) = rw same (h.counted_at lt) in
      let (x, v) = counted-HasCounted end n w.now (w.rates login id) lt h.near counts in
      let is : (id == key) ≡ true = ground (arith, eq_iff id key) in
      let found = Users.map_found (find (Users.matches env (trim identifier)) w.users) in
      let after : World = (hit login id login_limit window_seconds w).1 in
      let one_more : IsCounted env key end (suc n) after = record {
        near = h.near;
        counted_at = λ l. rw is (inr (x, v));
      } in
      elim (Bool-cases (leb (counted w.now window_seconds (w.rates login id)).value login_limit)) [
        | inl e ↦ (
          subst (IsCounted env key end (suc n)) (ground arith) (
              (login_found-kept env (IsCounted-kept env key end (suc n)) found password device).at
                after one_more),
          ground arith,
        )
        | inr e ↦ absurd (ground arith)
      ]

  step-IsCounted :
      (key : String) (end n : ℕ) (c : Call) (w : World)
      → IsCounted env key end n w
      → is_allowed key end c w ≡ true
      → IsCounted env key end (suc n) (step env c w) × (suc n ≤ login_limit)
  unfolding step
  step-IsCounted key end n (logs_in identifier password device) w h a =
      login-IsCounted key end n identifier password device w
        (ground (arith, eq_iff (env.to_lower_case identifier) key)) (ground arith) h (ground arith)
  step-IsCounted key end n (registers _ _) w h a = absurd (ground arith)
  step-IsCounted key end n (asks_code _ _ _) w h a = absurd (ground arith)
  step-IsCounted key end n (gives_code _ _ _) w h a = absurd (ground arith)
  step-IsCounted key end n (refreshes _ _) w h a = absurd (ground arith)
  step-IsCounted key end n (logs_out _ _) w h a = absurd (ground arith)
  step-IsCounted key end n (logs_out_all _) w h a = absurd (ground arith)
  step-IsCounted key end n (introspects _) w h a = absurd (ground arith)
  step-IsCounted key end n (assigns _ _) w h a = absurd (ground arith)
  step-IsCounted key end n (asks_me _) w h a = absurd (ground arith)
  step-IsCounted key end n (lists _ _) w h a = absurd (ground arith)
  step-IsCounted key end n (revokes _ _) w h a = absurd (ground arith)
  step-IsCounted key end n (waits _) w h a = absurd (ground arith)

  logins-IsCounted :
      (key : String) (end n : ℕ) (calls : List Call) (w : World)
      → n ≤ login_limit
      → IsCounted env key end n w
      → n + logins_allowed key end calls w ≤ login_limit
  logins-IsCounted key end n [] w le h = omega arith
  logins-IsCounted key end n (c ∷ cs) w le h = elim (Bool-cases (is_allowed key end c w)) [
    | inl a ↦
        let (more, fits) = step-IsCounted key end n c w h a in
        ground (arith, logins-IsCounted key end (suc n) cs (step env c w) fits more)
    | inr a ↦ ground (
      arith,
      logins-IsCounted key end n cs (step env c w) le
          (step-kept env (IsCounted-kept env key end n) c w h),
    )
  ]

  -- Whatever calls the service gets, at most ten logins with one identifier, in lower case, get past
  -- the rate limiter in the ten minutes after its counter was gone.
  pub logins-limited :
      (key : String) (calls : List Call) (w : World)
      → read w.now (w.rates login key) ≡ none
      → logins_allowed key (w.now + window_seconds * 1000) calls w ≤ login_limit
  logins-limited key calls w gone =
      let end = w.now + window_seconds * 1000 in
      let fresh : IsCounted env key end 0 w = record {
        near = omega arith;
        counted_at = λ lt. HasCounted-gone end w.now (w.rates login key) gone;
      } in
      omega (arith, logins-IsCounted key end 0 calls w (omega arith) fresh)
