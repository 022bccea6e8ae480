-- ===== src/Identity/Guesses.antt =====
-- Guessing a one-time code (`verifyOtp` of apps/identity/src/application/identity.service.ts).
use mathlib.Core.Path.{subst}
use food_ordering_app.Prelude.{
  ℕ, suc, ◌+◌, ◌≤◌, String, Bool, true, false, not, ◌&&◌, Option, none, some, List, [], ◌∷◌, ◌==◌,
  if◌then◌else◌, find, ltb, leb, is_some, ◌≡◌, refl, arith, eq_iff, eq_refl, Bool-cases,
  Option-cases, inl, inr,
}
use food_ordering_app.Effect.{Result, ok, err, unauthorized, pure}
use food_ordering_app.Effect.Keeps.{Keeps, Keeps-then, Keeps-pure}
use food_ordering_app.Domain.{Topic, Payload}
use food_ordering_app.Text.{trim}
use food_ordering_app.Identity.Model.{UserRecord, DeviceContext, AuthTokens, OtpType, World, Env}
use food_ordering_app.Identity.Users
use food_ordering_app.Identity.Audit.{append}
use food_ordering_app.Identity.Redis.{
  set_otp, get_otp, del_otp, incr_attempts, clear_attempts, read, counted,
}
use food_ordering_app.Identity.Service.{
  publish_event, generate_otp_code, send_otp, verify_otp, verify_found, check_otp, check_stored,
  otp_ttl_seconds, otp_max_attempts, otp_sent,
}
use food_ordering_app.Identity.Attempts.{
  HasGuessed, HasGuessed-later, counted-keeps, counted-compared, AreKeys, check_otp-AreKeys,
}

-- A code that is typed in some time after the last one.
pub record Guess : Type 0 where
  pub delay : ℕ
  pub identifier : String
  pub code : String
  pub device : DeviceContext

module _ (env : Env) where
  -- At least `n` guesses of a user's code are counted.
  abbrev AreGuessed : String → ℕ → World → Type 0
  AreGuessed id n w = HasGuessed n w.now (w.otp id) (w.attempts id)

  AreKeys-AreGuessed :
      (id : String) (n : ℕ) (w v : World) → AreKeys id w v → AreGuessed id n w → AreGuessed id n v
  AreKeys-AreGuessed id n w v (now, inl gone) h = rw gone tt
  AreKeys-AreGuessed id n w v (now, inr (o, t)) h = rw (now, o, t) h

  -- The user that an identifier names.
  abbrev named : String → World → Option UserRecord
  named identifier w = Users.map_found (find (Users.matches env (trim identifier)) w.users)

  abbrev is_of : String → Option UserRecord → Bool
  is_of id none = false
  is_of id (some u) = u.id == id

  -- An answer that tells whether the code that was typed in is the stored one.
  abbrev tells : Result AuthTokens → Bool
  tells (ok _) = true
  tells (err (unauthorized m)) = not (m == "Code expired") && not (m == "Invalid code")
  tells (err _) = false

  -- Whether `verifyOtp` tells a client about the code of a user.
  abbrev is_told : String → Guess → World → Bool
  is_told id g w =
      is_of id (named g.identifier w) && tells (verify_otp env g.identifier g.code g.device w).0

  abbrev at_guess : Guess → World → World
  at_guess g w = record w { now = w.now + g.delay }

  abbrev after_guess : Guess → World → World
  after_guess g w = (verify_otp env g.identifier g.code g.device (at_guess g w)).1

  -- How many codes are told right or wrong for a user.
  abbrev pub codes_told : String → List Guess → World → ℕ
  codes_told id [] w = 0
  codes_told id (g ∷ gs) w =
      (if is_told id g (at_guess g w) then 1 else 0) + codes_told id gs (after_guess g w)

  verify_found-AreGuessed :
      (id : String) (n : ℕ) (found : Option UserRecord) (code : String) (device : DeviceContext)
      (w : World)
      → AreGuessed id n w
      → AreGuessed id n (verify_found env found code device w).1
  unfolding verify_found incr_attempts
  verify_found-AreGuessed id n none code device w h = h
  verify_found-AreGuessed id n (some user) code device w h =
      let v : World = (incr_attempts user.id otp_ttl_seconds w).1 in
      AreKeys-AreGuessed id n v (check_otp env user code device w).1
        (check_otp-AreKeys env user code device w id)
        (elim (Bool-cases (user.id == id)) [
          | inl e ↦
              let same : user.id ≡ id = ground (arith, eq_iff user.id id) in
              rw (e, same) (counted-keeps n w.now (w.otp id) (w.attempts id) h)
          | inr e ↦ rw e h
        ])

  -- Nothing is told after five attempts, or without a stored code.
  check_otp-tells :
      (user : UserRecord) (code : String) (device : DeviceContext) (w : World)
      → tells (check_otp env user code device w).0 ≡ true
      → (leb (counted w.now otp_ttl_seconds (w.attempts user.id)).value otp_max_attempts ≡ true)
        × (is_some (read w.now (w.otp user.id)) ≡ true)
  unfolding check_otp del_otp clear_attempts get_otp incr_attempts check_stored append
  check_otp-tells user code device w told =
      elim (Bool-cases
        (ltb otp_max_attempts (counted w.now otp_ttl_seconds (w.attempts user.id)).value)) [
          | inl many ↦ absurd (ground arith)
          | inr few ↦ elim (Option-cases (read w.now (w.otp user.id))) [
            | inl gone ↦ absurd (ground arith)
            | inr (hash, stored) ↦ (ground arith, ground arith)
          ]
        ]

  verify_found-tells :
      (id : String) (found : Option UserRecord) (code : String) (device : DeviceContext) (w : World)
      → is_of id found ≡ true
      → tells (verify_found env found code device w).0 ≡ true
      → (leb (counted w.now otp_ttl_seconds (w.attempts id)).value otp_max_attempts ≡ true)
        × (is_some (read w.now (w.otp id)) ≡ true)
  unfolding verify_found
  verify_found-tells id none code device w of told = absurd (ground arith)
  verify_found-tells id (some user) code device w of told =
      let same : user.id ≡ id = ground (arith, eq_iff user.id id) in
      subst
        (λ k.
          (leb (counted w.now otp_ttl_seconds (w.attempts k)).value otp_max_attempts ≡ true)
          × (is_some (read w.now (w.otp k)) ≡ true))
        same (check_otp-tells user code device w told)

  verify_found-compared :
      (id : String) (n : ℕ) (found : Option UserRecord) (code : String) (device : DeviceContext)
      (w : World)
      → AreGuessed id n w
      → is_of id found ≡ true
      → is_some (read w.now (w.otp id)) ≡ true
      → AreGuessed id (suc n) (verify_found env found code device w).1
  unfolding verify_found incr_attempts
  verify_found-compared id n none code device w h of s = absurd (ground arith)
  verify_found-compared id n (some user) code device w h of s =
      let v : World = (incr_attempts user.id otp_ttl_seconds w).1 in
      let same : user.id ≡ id = ground (arith, eq_iff user.id id) in
      AreKeys-AreGuessed id (suc n) v (check_otp env user code device w).1
        (check_otp-AreKeys env user code device w id)
        (rw (of, same) (counted-compared n w.now (w.otp id) (w.attempts id) h s).0)

  codes-AreGuessed :
      (id : String) (n : ℕ) (gs : List Guess) (w : World)
      → n ≤ otp_max_attempts
      → AreGuessed id n w
      → n + codes_told id gs w ≤ otp_max_attempts
  unfolding verify_otp Users.find_by_email_or_phone
  codes-AreGuessed id n [] w le h = omega arith
  codes-AreGuessed id n (g ∷ gs) w le h =
      let v = at_guess g w in
      let later : AreGuessed id n v =
        HasGuessed-later n w.now (w.now + g.delay) (w.otp id) (w.attempts id) (omega arith) h in
      let found = named g.identifier v in
      elim (Bool-cases (is_told id g v)) [
        | inl c ↦
            let of : is_of id found ≡ true = ground arith in
            let (few, stored) = verify_found-tells id found g.code g.device v of (ground arith) in
            let more : AreGuessed id (suc n) (after_guess g w) =
              verify_found-compared id n found g.code g.device v later of stored in
            let (_, counts) = counted-compared n v.now (v.otp id) (v.attempts id) later stored in
            ground (arith, codes-AreGuessed id (suc n) gs (after_guess g w) (ground arith) more)
        | inr c ↦
            let same : AreGuessed id n (after_guess g w) =
              verify_found-AreGuessed id n found g.code g.device v later in
            ground (arith, codes-AreGuessed id n gs (after_guess g w) le same)
      ]

  publish_event-AreGuessed :
      (id : String) (n : ℕ) (topic : Topic) (key : String) (payload : Payload)
      → Keeps (AreGuessed id n) (publish_event env topic key payload)
  unfolding publish_event
  publish_event-AreGuessed id n topic key payload = record {
    at = λ w h.
        AreKeys-AreGuessed id n w (publish_event env topic key payload w).1
          (ground arith, inr (ground arith, ground arith)) h;
  }

  send_otp-AreGuessed :
      (user : UserRecord) (type : OtpType) (device : DeviceContext) (w : World)
      → AreGuessed user.id 0 (send_otp env user type device w).1
  unfolding send_otp generate_otp_code set_otp clear_attempts append
  send_otp-AreGuessed user type device w =
      (Keeps-then (publish_event env Topic.user_otp_requested user.id _) (pure otp_sent)
          (publish_event-AreGuessed user.id 0 Topic.user_otp_requested user.id _)
          (Keeps-pure otp_sent)).at
        _ (rw (eq_refl user.id) (inr (refl, omega arith)))

  -- Once a code was sent to a user, at most five of the codes that are typed in before any other call
  -- are told right or wrong, whoever types them in, under whatever identifiers, and whenever.
  pub guesses-limited :
      (user : UserRecord) (type : OtpType) (device : DeviceContext) (w : World) (gs : List Guess)
      → codes_told user.id gs (send_otp env user type device w).1 ≤ otp_max_attempts
  guesses-limited user type device w gs = omega (
    arith,
    codes-AreGuessed user.id 0 gs (send_otp env user type device w).1 (omega arith)
        (send_otp-AreGuessed user type device w),
  )
