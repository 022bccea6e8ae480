-- ===== src/Identity/Attempts.antt =====
-- The counter of the codes that are typed in for a user (`verifyOtp` of
-- apps/identity/src/application/identity.service.ts).
use mathlib.Core.Path.{subst}
use food_ordering_app.Prelude.{
  ℕ, suc, ◌+◌, ◌*◌, ◌≤◌, ◌<◌, String, true, Option, none, some, ◌==◌, ltb, is_some, ◌≡◌, refl, sym,
  arith, Bool-cases, inl, inr, ◌⊎◌,
}
use food_ordering_app.Keyed.{write}
use food_ordering_app.Identity.Model.{UserRecord, DeviceContext, Timed, World, Env}
use food_ordering_app.Identity.Sessions
use food_ordering_app.Identity.RefreshTokens
use food_ordering_app.Identity.Audit.{append}
use food_ordering_app.Identity.Redis.{
  get_otp, del_otp, incr_attempts, clear_attempts, read, counted,
}
use food_ordering_app.Identity.Service.{
  issue_session, issue_access_token, draw, refresh_expiry, check_otp, check_stored, compare_otp,
  verify_otp_constant_time, otp_ttl_seconds, otp_max_attempts,
}

-- A counter of at least `n` that outlives the code; or no counter yet; or no code.
abbrev pub HasGuessed : ℕ → ℕ → Option (Timed String) → Option (Timed ℕ) → Type 0
HasGuessed n now none t = Unit {0}
HasGuessed n now (some o) none =
    (o.expiry ≤ now) ⊎ ((n ≡ 0) × (o.expiry ≤ now + otp_ttl_seconds * 1000))
HasGuessed n now (some o) (some t) = (o.expiry ≤ now) ⊎ ((o.expiry ≤ t.expiry) × (n ≤ t.value))

pub HasGuessed-later :
    (n now later : ℕ) (o : Option (Timed String)) (t : Option (Timed ℕ))
    → now ≤ later
    → HasGuessed n now o t
    → HasGuessed n later o t
HasGuessed-later n now later none t le h = tt
HasGuessed-later n now later (some o) none le (inl e) = inl (omega arith)
HasGuessed-later n now later (some o) none le (inr (z, e)) = inr (z, omega arith)
HasGuessed-later n now later (some o) (some t) le (inl e) = inl (omega arith)
HasGuessed-later n now later (some o) (some t) le (inr h) = inr h

-- One more guess is counted.
counted-HasGuessed :
    (n now : ℕ) (o : Timed String) (t : Option (Timed ℕ))
    → now < o.expiry
    → HasGuessed n now (some o) t
    → (o.expiry ≤ (counted now otp_ttl_seconds t).expiry)
      × (suc n ≤ (counted now otp_ttl_seconds t).value)
unfolding counted
counted-HasGuessed n now o none lt (inl e) = absurd (omega arith)
counted-HasGuessed n now o none lt (inr (z, e)) = (omega arith, omega arith)
counted-HasGuessed n now o (some t) lt (inl e) = absurd (omega arith)
counted-HasGuessed n now o (some t) lt (inr (e, v)) = ground arith

-- A guess that is not compared is counted too.
pub counted-keeps :
    (n now : ℕ) (o : Option (Timed String)) (t : Option (Timed ℕ))
    → HasGuessed n now o t
    → HasGuessed n now o (some (counted now otp_ttl_seconds t))
counted-keeps n now none t h = tt
counted-keeps n now (some o) t h = elim (Bool-cases (ltb now o.expiry)) [
  | inl lt ↦ let (e, v) = counted-HasGuessed n now o t (ground arith) h in inr (e, omega (arith, v))
  | inr ge ↦ inl (ground arith)
]

pub counted-compared :
    (n now : ℕ) (o : Option (Timed String)) (t : Option (Timed ℕ))
    → HasGuessed n now o t
    → is_some (read now o) ≡ true
    → HasGuessed (suc n) now o (some (counted now otp_ttl_seconds t))
      × (suc n ≤ (counted now otp_ttl_seconds t).value)
unfolding read
counted-compared n now none t h s = absurd (ground arith)
counted-compared n now (some o) t h s =
    let (e, v) = counted-HasGuessed n now o t (ground arith) h in (inr (e, v), v)

-- The code of a user is gone, or it is there with the same counter.
abbrev pub AreKeys : String → World → World → Type 0
AreKeys id w v =
    (v.now ≡ w.now)
    × ((v.otp id ≡ none) ⊎ ((v.otp id ≡ w.otp id) × (v.attempts id ≡ w.attempts id)))

-- A state without the code and the counter of a user.
abbrev forgotten : String → World → World
forgotten user w = record w { otp = write user none w.otp; attempts = write user none w.attempts }

forgotten-AreKeys : (user id : String) (w : World) → AreKeys id w (forgotten user w)
forgotten-AreKeys user id w = elim (Bool-cases (user == id)) [
  | inl e ↦ (refl, inl (rw e refl))
  | inr e ↦ (refl, inr (rw e refl, rw e refl))
]

module _ (env : Env) where
  -- What a code that is typed in does to the keys of a user.
  compare_otp-AreKeys :
      (user : UserRecord) (code : String) (attempts : ℕ) (hash : String) (device : DeviceContext)
      (w : World) (id : String)
      → AreKeys id w (compare_otp env user code attempts hash device w).1
  unfolding compare_otp del_otp clear_attempts issue_session issue_access_token draw Sessions.create
      refresh_expiry RefreshTokens.create append
  compare_otp-AreKeys user code attempts hash device w id =
      let (n, keys) = forgotten-AreKeys user.id id w in
      elim (Bool-cases (verify_otp_constant_time env code hash)) [
        | inl right ↦ rw right (n, keys)
        | inr wrong ↦ rw wrong (refl, inr (refl, refl))
      ]

  check_stored-AreKeys :
      (user : UserRecord) (code : String) (attempts : ℕ) (stored : Option String)
      (device : DeviceContext) (w : World) (id : String)
      → AreKeys id w (check_stored env user code attempts stored device w).1
  unfolding check_stored append
  check_stored-AreKeys user code attempts none device w id = (refl, inr (refl, refl))
  check_stored-AreKeys user code attempts (some hash) device w id =
      compare_otp-AreKeys user code attempts hash device w id

  pub check_otp-AreKeys :
      (user : UserRecord) (code : String) (device : DeviceContext) (w : World) (id : String)
      → AreKeys id (incr_attempts user.id otp_ttl_seconds w).1 (check_otp env user code device w).1
  unfolding check_otp del_otp clear_attempts get_otp incr_attempts
  check_otp-AreKeys user code device w id =
      let v : World = (incr_attempts user.id otp_ttl_seconds w).1 in
      let attempts = (counted w.now otp_ttl_seconds (w.attempts user.id)).value in
      elim (Bool-cases (ltb otp_max_attempts attempts)) [
        | inl many ↦
            let is : (check_otp env user code device w).1 ≡ forgotten user.id v = ground arith in
            subst (AreKeys id v) (sym is) (forgotten-AreKeys user.id id v)
        | inr few ↦
            let stored = read v.now (v.otp user.id) in
            let is : (check_otp env user code device w).1
                ≡ (check_stored env user code attempts stored device v).1 =
              ground arith in
            subst (AreKeys id v) (sym is)
              (check_stored-AreKeys user code attempts stored device v id)
      ]
