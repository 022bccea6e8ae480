-- ===== src/Identity/Tests.antt =====
-- Runs of the identity service on small data, and its theorems at concrete inputs.
use Prim.Native.String
use text.Mathlib.TextLemmas
use food_ordering_app.Prelude.{
  ℕ, zero, suc, ◌+◌, ◌≤◌, ◌&&◌, String, true, false, none, some, List, [], ◌∷◌, ◌==◌, find, any,
  ◌≡◌, refl, ap, arith,
}
use food_ordering_app.Effect.{ok, err, unauthorized}
use food_ordering_app.Domain.{customer}
use food_ordering_app.Identity.Model.{
  UserRecord, UserRow, SessionRecord, RefreshTokenRecord, AuthTokens, by_email, World, Env,
}
use food_ordering_app.Identity.Users
use food_ordering_app.Identity.Sessions
use food_ordering_app.Identity.RefreshTokens
use food_ordering_app.Identity.Audit.{append}
use food_ordering_app.Identity.Sessions.{is_live_session}
use food_ordering_app.Identity.Redis.{counted, deny, is_revoked, read}
use food_ordering_app.Identity.Service.{
  Registration, request_otp, send_otp, otp_sent, login_limit, publish_event, issue_access_token,
  draw, refresh_expiry, otp_max_attempts,
}
use food_ordering_app.Identity.Account.{
  no_device, inactive, session_expired, refresh, revoke_session, introspect_token,
  introspect_payload, logout, logout_token, logout_found, logout_row, refresh_found, rotate,
  revoke_given, revoke_found, deny_given, deny_some,
}
use food_ordering_app.Identity.Calls.{Call, registers, logs_in, refreshes, waits, run}
use food_ordering_app.Identity.Families.{IsSingle, live_in}
use food_ordering_app.Identity.Distinct.{AreDistinct, run-AreDistinct}
use food_ordering_app.Identity.Rotation.{run-IsSingle}
use food_ordering_app.Identity.Reuse.{refresh-reused}
use food_ordering_app.Identity.Limits.{logins_allowed, logins-limited}
use food_ordering_app.Identity.Ends.{
  revoke_session-ends, revoke_session-refuses, revoke_session-denies,
}
use food_ordering_app.Identity.Codes.{request_otp-hides}
use food_ordering_app.Identity.Guesses.{Guess, codes_told, guesses-limited}

-- Distinct texts.
abbrev uuid : ℕ → String
uuid zero = "a"
uuid (suc n) = String.◌∷◌ "a" (uuid n)

uuid-length : (n : ℕ) → String.count (uuid n) ≡ n + 1
uuid-length zero = refl
uuid-length (suc n) = omega (arith, TextLemmas.length-cons "a" (uuid n), uuid-length n)

uuid_inj : (m n : ℕ) → uuid m ≡ uuid n → m ≡ n
uuid_inj m n e = omega (arith, uuid-length m, uuid-length n, ap String.count e)

-- A signed token is its id.
abbrev env : Env
env = record {
  uuid = uuid;
  random_code = λ n. 7;
  sha256 = λ s. s;
  bcrypt_hash = λ n s. s;
  bcrypt_compare = λ s h. s == h;
  sign = λ u jti e. jti;
  verify = λ n t. some (record { user_id = "ann"; role = customer; jti = t });
  to_lower_case = λ s. s;
  citext_eq = λ a b. a == b;
  access_ttl_seconds = 900;
  refresh_ttl_seconds = 1000;
  last_active_first = λ ss. ss;
  connected = true;
  active_trace = none;
  send = λ m. ok tt;
}

abbrev ann_row : UserRow
ann_row = record {
  id = "ann";
  name = "Ann";
  email = "ann@x.y";
  phone = "123";
  created_at = 0;
  roles = customer ∷ [];
}

abbrev ann : UserRecord
ann = record {
  id = "ann";
  name = "Ann";
  email = "ann@x.y";
  phone = "123";
  created_at = 0;
  role = customer;
}

abbrev session : SessionRecord
session = record {
  id = "s";
  user_id = "ann";
  device_ua = none;
  ip = none;
  access_jti = some "j";
  created_at = 0;
  last_active = 0;
  revoked_at = none;
}

abbrev row : RefreshTokenRecord
row = record {
  id = "t";
  user_id = "ann";
  session_id = "s";
  token_hash = "r";
  family_id = "f";
  expires_at = 1000;
  revoked_at = none;
  created_at = 0;
}

abbrev start : World
start = record {
  users = ann_row ∷ [];
  credentials = λ u. some "secret";
  sessions = session ∷ [];
  tokens = row ∷ [];
  audit = [];
  otp = λ u. none;
  attempts = λ u. none;
  denied = λ j. none;
  rates = λ s k. none;
  now = 0;
  draws = 9;
  sent = [];
}

abbrev blank : World
blank = record start { users = []; sessions = []; tokens = [] }

abbrev ann_input : Registration
ann_input = record { name = "Ann"; email = "ann@x.y"; phone = "1234567890"; password = "Secret123" }

abbrev calls : List Call
calls = registers ann_input no_device ∷ (waits 5 ∷ (refreshes "aaaaaaaaaaaaaa" no_device ∷ []))

blank-IsSingle : IsSingle env blank
blank-IsSingle = record { single = λ family. omega arith; drawn = tt }

run-IsSingle_example : IsSingle env (run env calls blank)
run-IsSingle_example = run-IsSingle env uuid_inj calls blank blank-IsSingle

run-AreDistinct_example : AreDistinct env (run env calls blank).users
run-AreDistinct_example = run-AreDistinct env calls blank tt

abbrev answered : AuthTokens
answered = record { access_token = uuid 9; refresh_token = uuid 10; user = ann }

abbrev later : List Call
later = waits 5 ∷ (logs_in "ann@x.y" "secret" no_device ∷ [])

refresh_works : (refresh env "r" no_device start).0 ≡ ok answered
unfolding refresh RefreshTokens.find_by_hash refresh_found rotate RefreshTokens.revoke
    RefreshTokens.revoke_where Users.find_by_id Users.map_found Users.map_user issue_access_token
    draw refresh_expiry RefreshTokens.create Sessions.touch append
refresh_works = refl

refresh-reused_example :
    let v = refresh env "r" no_device (run env later (refresh env "r" no_device start).1) in
    (v.0 ≡ err (unauthorized session_expired))
    × (live_in "f" v.1.tokens ≡ 0)
    × (any (λ s. s.id == "s" && is_live_session s) v.1.sessions ≡ false)
refresh-reused_example =
    refresh-reused env "r" no_device no_device start row answered later refl refresh_works

logins-limited_example : logins_allowed env "ann@x.y" 600000 later start ≤ login_limit
unfolding read
logins-limited_example = logins-limited env "ann@x.y" later start refl

abbrev spent_row : RefreshTokenRecord
spent_row = record row { revoked_at = some 0 }

revoked_found :
    find (λ r. r.token_hash == "r") (revoke_session env "ann" "s" start).1.tokens ≡ some spent_row
unfolding revoke_session revoke_given revoke_found Sessions.find_by_id
    RefreshTokens.revoke_by_session RefreshTokens.revoke_where RefreshTokens.revoke_in
    Sessions.revoke deny_given deny_some deny append publish_event
revoked_found = refl

revoke_session-ends_example :
    any (λ r. r.id == "s" && is_live_session r) (revoke_session env "ann" "s" start).1.sessions
    ≡ false
revoke_session-ends_example = revoke_session-ends env "ann" session start refl refl

revoke_session-refuses_example :
    (refresh env "r" no_device (run env later (revoke_session env "ann" "s" start).1)).0
    ≡ err (unauthorized session_expired)
revoke_session-refuses_example =
    revoke_session-refuses env "ann" session start (revoke_session env "ann" "s" start).1 later "r"
      no_device spent_row refl refl refl revoked_found refl

revoke_session-denies_example :
    let v = (revoke_session env "ann" "s" start).1 in
    (introspect_token env "j" (record v { now = v.now + 5 })).0 ≡ ok inactive
revoke_session-denies_example =
    revoke_session-denies env "ann" session start (revoke_session env "ann" "s" start).1 "j"
      (record { user_id = "ann"; role = customer; jti = "j" }) 5 refl refl refl (omega arith) refl
      refl refl

request_otp-hides_example : (request_otp env "nobody" by_email no_device start).0 ≡ ok otp_sent
unfolding counted
request_otp-hides_example = request_otp-hides env "nobody" by_email no_device start (λ m. refl)

abbrev guesses : List Guess
guesses = record { delay = 5; identifier = "ann@x.y"; code = "000007"; device = no_device } ∷ []

guesses-limited_example :
    codes_told env "ann" guesses (send_otp env ann by_email no_device start).1 ≤ otp_max_attempts
guesses-limited_example = guesses-limited env ann by_email no_device start guesses

-- The tokens that a user got before the last refresh stay active when the session ends.
old_access_stays :
    (introspect_token env "j"
      (revoke_session env "ann" "s" (refresh env "r" no_device start).1).1).0
    ≡ ok (record { active = true; user_id = some "ann"; role = some customer; jti = some "j" })
unfolding refresh RefreshTokens.find_by_hash refresh_found rotate RefreshTokens.revoke
    RefreshTokens.revoke_where Users.find_by_id Users.map_found Users.map_user issue_access_token
    draw refresh_expiry RefreshTokens.create Sessions.touch append introspect_token
    introspect_payload is_revoked read revoke_session revoke_given revoke_found Sessions.find_by_id
    RefreshTokens.revoke_by_session RefreshTokens.revoke_in Sessions.revoke deny_given deny_some
    deny publish_event
old_access_stays = refl

abbrev again : AuthTokens
again = record { access_token = uuid 12; refresh_token = uuid 13; user = ann }

-- Logging out with a token that was exchanged leaves the one that replaced it alive.
logout_leaves_successor :
    (refresh env
      (uuid 10)
      no_device
      (logout env none (some "r") (refresh env "r" no_device start).1).1).0
    ≡ ok again
unfolding refresh RefreshTokens.find_by_hash refresh_found rotate RefreshTokens.revoke
    RefreshTokens.revoke_where RefreshTokens.revoke_in Users.find_by_id Users.map_found
    Users.map_user issue_access_token draw refresh_expiry RefreshTokens.create Sessions.touch append
    logout logout_token logout_found logout_row Sessions.revoke deny_given deny_some
logout_leaves_successor = refl
