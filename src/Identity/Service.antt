-- ===== src/Identity/Service.antt =====
-- `IdentityService` (apps/identity/src/application/identity.service.ts): sessions, registration and
-- logging in. The rest of its methods is in Identity/Account.
use Prim.Native.String
use food_ordering_app.Prelude.{
  ℕ, suc, ◌+◌, ◌-◌, ◌*◌, String, Bool, false, not, Option, none, some, [], ◌∷◌, ◌++◌, ◌==◌,
  if◌then◌else◌, ltb, is_some,
}
use food_ordering_app.Effect.{
  ok, err, conflict, unauthorized, rate_limit, Action, pure, raise, raise_if, gets, ◌>>=◌, ◌>>◌,
}
use food_ordering_app.Text.{trim}
use food_ordering_app.Domain.{customer, Topic, Payload, otp_requested, registered, Envelope}
use food_ordering_app.Identity.Model.{
  UserRecord, DeviceContext, AuthTokens, AuditAction, no_metadata, reason, remaining, requested,
  OtpType, AccessToken, login, otp_requests, World, Env,
}
use food_ordering_app.Identity.Security.{
  assert_email, assert_phone, assert_password_policy, normalize_phone, six_digits, digit,
}
use food_ordering_app.Identity.Users
use food_ordering_app.Identity.Sessions
use food_ordering_app.Identity.RefreshTokens
use food_ordering_app.Identity.Audit.{append, with_transaction}
use food_ordering_app.Identity.Redis.{set_otp, get_otp, del_otp, incr_attempts, clear_attempts, hit}

abbrev pub otp_ttl_seconds : ℕ
otp_ttl_seconds = 300

abbrev pub otp_max_attempts : ℕ
otp_max_attempts = 5

abbrev pub otp_request_limit : ℕ
otp_request_limit = 3

abbrev pub login_limit : ℕ
login_limit = 10

-- `OTP_REQUEST_WINDOW_SECONDS` and `LOGIN_WINDOW_SECONDS`
abbrev pub window_seconds : ℕ
window_seconds = 600

pub record OtpAnswer : Type 0 where
  pub message : String
  pub expires_in : ℕ

abbrev pub otp_sent : OtpAnswer
otp_sent = record { message = "OTP sent"; expires_in = otp_ttl_seconds }

pub record Registration : Type 0 where
  pub name : String
  pub email : String
  pub phone : String
  pub password : String

module _ (env : Env) where
  open env use {
    uuid, random_code, sha256, bcrypt_hash, bcrypt_compare, sign, to_lower_case, access_ttl_seconds,
    refresh_ttl_seconds, connected, active_trace, send,
  }

  -- `randomUUID()`
  unfoldable pub draw : Action World String
  draw w = (ok (uuid w.draws), record w { draws = suc w.draws })

  abbrev pub message_of : Topic → String → Payload → World → Envelope
  message_of topic key payload w = record {
    event_id = uuid w.draws;
    topic = topic;
    key = key;
    payload = payload;
    trace_id = active_trace;
    occurred_at = w.now;
  }

  -- `KafkaEventPublisher.publish` of an event with the next UUID and the active trace: without a
  -- producer the event is dropped.
  unfoldable pub publish_event : Topic → String → Payload → Action World (Unit {0})
  publish_event topic key payload w =
      let m = message_of topic key payload w in
      let drawn : World = record w { draws = suc w.draws } in
      if connected
      then elim (send m) [
        | ok _ ↦ (ok tt, record drawn { sent = w.sent ++ (m ∷ []) })
        | err e ↦ (err e, drawn)
      ]
      else (ok tt, drawn)

  -- `JwtTokenService.issueAccessToken`
  unfoldable pub issue_access_token : UserRecord → Action World AccessToken
  issue_access_token user w =
      let jti = uuid w.draws in
      (
        ok (record { token = sign user jti (w.now + access_ttl_seconds * 1000); jti = jti }),
        record w { draws = suc w.draws },
      )

  -- `Date.now() + refreshTtlSeconds * 1000`
  unfoldable pub refresh_expiry : Action World ℕ
  refresh_expiry = gets (λ w. w.now + refresh_ttl_seconds * 1000)

  unfoldable pub issue_session : UserRecord → DeviceContext → AuditAction → Action World AuthTokens
  issue_session user device action = do
    access ← issue_access_token user
    refresh ← draw
    family ← draw
    session ← Sessions.create env user.id device access.jti
    expiry ← refresh_expiry
    RefreshTokens.create env user.id session.id (sha256 refresh) family expiry
    append action (some user.id) (some session.id) device no_metadata
    pure (record { access_token = access.token; refresh_token = refresh; user = user })

  -- The salted hash of a password.
  unfoldable pub hash_password : String → Action World String
  hash_password password w = (ok (bcrypt_hash w.draws password), record w { draws = suc w.draws })

  -- The transaction of `register`.
  unfoldable pub create_customer : String → String → String → String → Action World UserRecord
  create_customer name email phone password_hash = with_transaction (do
    by_email ← Users.find_by_email env email
    raise_if (is_some by_email) (conflict "This email is already registered. Login instead?")
    by_phone ← Users.find_by_phone phone
    raise_if (is_some by_phone) (conflict "This phone is already registered.")
    Users.create_user env (trim name) email phone password_hash customer)

  unfoldable pub register : Registration → DeviceContext → Action World AuthTokens
  register input device = do
    assert_email input.email
    assert_phone input.phone
    assert_password_policy input.password
    password_hash ← hash_password input.password
    user ←
        create_customer input.name (trim (to_lower_case input.email)) (normalize_phone input.phone)
          password_hash
    append AuditAction.user_registered (some user.id) none device no_metadata
    publish_event Topic.user_registered user.id (registered user.id user.name user.email)
    issue_session user device AuditAction.login_success

  -- `passwords.compare`, if there is a hash.
  abbrev pub is_password : String → Option String → Bool
  is_password password none = false
  is_password password (some hash) = if hash == "" then false else bcrypt_compare password hash

  -- `loginPassword` for the user that was found.
  unfoldable pub login_user : UserRecord → String → DeviceContext → Action World AuthTokens
  login_user user password device = do
    hash ← Users.get_password_hash user.id
    (if is_password password hash then issue_session user device AuditAction.login_success else (do
      append AuditAction.login_failure (some user.id) none device no_metadata
      raise (unauthorized "Incorrect credentials")))

  -- `loginPassword` for what was found.
  unfoldable pub login_found : Option UserRecord → String → DeviceContext → Action World AuthTokens
  login_found none password device = do
    append AuditAction.login_failure none none device (reason "not_found")
    raise (unauthorized "Incorrect credentials")
  login_found (some user) password device = login_user user password device

  unfoldable pub login_password : String → String → DeviceContext → Action World AuthTokens
  login_password identifier password device = do
    allowed ← hit login (to_lower_case identifier) login_limit window_seconds
    raise_if (not allowed) (rate_limit "Too many attempts. Try again later.")
    found ← Users.find_by_email_or_phone env (trim identifier)
    login_found found password device

  -- `generateOtpCode`
  unfoldable pub generate_otp_code : Action World String
  generate_otp_code w = (ok (six_digits (random_code w.draws)), record w { draws = suc w.draws })

  -- `requestOtp` for the user that was found.
  unfoldable pub send_otp : UserRecord → OtpType → DeviceContext → Action World OtpAnswer
  send_otp user type device = do
    code ← generate_otp_code
    set_otp user.id (sha256 code) otp_ttl_seconds
    clear_attempts user.id
    append AuditAction.otp_request (some user.id) none device (requested type)
    publish_event Topic.user_otp_requested user.id
        (otp_requested user.id user.email user.phone code)
    pure otp_sent

  -- `requestOtp` for what was found: an unknown identifier gets the same answer.
  unfoldable pub otp_found : Option UserRecord → OtpType → DeviceContext → Action World OtpAnswer
  otp_found none type device = pure otp_sent
  otp_found (some user) type device = send_otp user type device

  unfoldable pub request_otp : String → OtpType → DeviceContext → Action World OtpAnswer
  request_otp identifier type device = do
    allowed ← hit otp_requests (trim (to_lower_case identifier)) otp_request_limit window_seconds
    raise_if (not allowed) (rate_limit "Too many OTP requests. Try again later.")
    found ← Users.find_by_email_or_phone env (trim identifier)
    otp_found found type device

  -- `verifyOtpConstantTime`: two hashes in hexadecimal digits are the same bytes if they are the
  -- same text.
  unfoldable pub verify_otp_constant_time : String → String → Bool
  verify_otp_constant_time code stored = sha256 code == stored

  abbrev pub invalid_code : ℕ → String
  invalid_code attempts =
      String.◌++◌ "Invalid code. "
        (String.◌++◌ (digit (otp_max_attempts - attempts)) " attempts remaining.")

  -- `verifyOtp` with a stored code.
  unfoldable pub compare_otp :
      UserRecord → String → ℕ → String → DeviceContext → Action World AuthTokens
  compare_otp user code attempts stored device =
      if verify_otp_constant_time code stored
      then (do
        del_otp user.id
        clear_attempts user.id
        issue_session user device AuditAction.otp_login_success)
      else (do
        append AuditAction.otp_login_failure (some user.id) none device
            (remaining (otp_max_attempts - attempts))
        raise (unauthorized (invalid_code attempts)))

  -- `verifyOtp` for what is stored; a hash is never empty.
  unfoldable pub check_stored :
      UserRecord → String → ℕ → Option String → DeviceContext → Action World AuthTokens
  check_stored user code attempts none device = do
    append AuditAction.otp_login_failure (some user.id) none device (reason "expired")
    raise (unauthorized "Code expired")
  check_stored user code attempts (some hash) device = compare_otp user code attempts hash device

  -- `verifyOtp` for the user that was found.
  unfoldable pub check_otp : UserRecord → String → DeviceContext → Action World AuthTokens
  check_otp user code device = do
    attempts ← incr_attempts user.id otp_ttl_seconds
    (if ltb otp_max_attempts attempts
        then (do
          del_otp user.id
          clear_attempts user.id
          raise (rate_limit "Too many failed attempts. Request a new code."))
        else (do stored ← get_otp user.id; check_stored user code attempts stored device))

  unfoldable pub verify_found : Option UserRecord → String → DeviceContext → Action World AuthTokens
  verify_found none code device = raise (unauthorized "Invalid code")
  verify_found (some user) code device = check_otp user code device

  unfoldable pub verify_otp : String → String → DeviceContext → Action World AuthTokens
  verify_otp identifier code device = do
    found ← Users.find_by_email_or_phone env (trim identifier)
    verify_found found code device
