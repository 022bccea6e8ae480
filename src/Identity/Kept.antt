-- ===== src/Identity/Kept.antt =====
-- What every part of the calls of the identity service keeps
-- (apps/identity/src/application/identity.service.ts), all calls keep.
use mathlib.Core.Path.{subst}
use food_ordering_app.Prelude.{
  ℕ, ◌+◌, String, Bool, true, Option, none, some, List, [], ◌∷◌, ◌==◌, find, is_some, ltb, ◌≡◌,
  arith, Bool-cases, Option-cases, inl, inr,
}
use food_ordering_app.Effect.Keeps.{Keeps, keeps_rules, Keeps-for_each, Keeps-then}
use food_ordering_app.Domain.{Role, Topic, Payload}
use food_ordering_app.Identity.Model.{
  UserRecord, SessionRecord, AccessPayload, RefreshTokenRecord, DeviceContext, AuditAction,
  AuditMetadata, OtpType, Scope, World, Env,
}
use food_ordering_app.Identity.Users
use food_ordering_app.Identity.Sessions
use food_ordering_app.Identity.RefreshTokens
use food_ordering_app.Identity.RefreshTokens.{is_live, revoke_where}
use food_ordering_app.Identity.Audit.{append}
use food_ordering_app.Identity.Security.{assert_email, assert_phone, assert_password_policy}
use food_ordering_app.Identity.Service.{
  Registration, register, login_password, login_user, request_otp, send_otp, verify_otp, check_otp,
  compare_otp, issue_session, publish_event, hash_password, create_customer, generate_otp_code,
  login_found, window_seconds, otp_found, check_stored, verify_found,
}
use food_ordering_app.Identity.Account.{
  refresh, rotate, reuse_detected, logout, logout_row, logout_all, introspect_token, assign_role,
  get_me, list_sessions, revoke_session, revoke_found, deny_given, deny_some, given, logout_found,
  logout_token, refresh_found, introspect_payload, revoke_given,
}
use food_ordering_app.Identity.Calls.{
  Call, registers, logs_in, asks_code, gives_code, refreshes, logs_out, logs_out_all, introspects,
  assigns, asks_me, lists, revokes, waits, step, run,
}
use food_ordering_app.Identity.Redis.{
  set_otp, get_otp, del_otp, incr_attempts, clear_attempts, deny, is_revoked, hit,
}

-- What every part of the calls keeps.
pub record Kept (env : Env) (P : World → Type 0) : Type 0 where
  pub appends :
      (action : AuditAction) (user session : Option String) (device : DeviceContext)
      (about : AuditMetadata)
      → Keeps P (append action user session device about)
  pub publishes :
      (topic : Topic) (key : String) (payload : Payload)
      → Keeps P (publish_event env topic key payload)
  pub sets_otp : (user hash : String) (seconds : ℕ) → Keeps P (set_otp user hash seconds)
  pub dels_otp : (user : String) → Keeps P (del_otp user)
  pub incrs : (user : String) (seconds : ℕ) → Keeps P (incr_attempts user seconds)
  pub clears : (user : String) → Keeps P (clear_attempts user)
  pub denies : (jti : String) (seconds : ℕ) → Keeps P (deny jti seconds)
  pub hits : (scope : Scope) (id : String) (limit : ℕ) → Keeps P (hit scope id limit window_seconds)
  pub generates : Keeps P (generate_otp_code env)
  pub hashes : (password : String) → Keeps P (hash_password env password)
  pub revokes_session : (id : String) → Keeps P (Sessions.revoke id)
  pub revokes_sessions : (user : String) → Keeps P (Sessions.revoke_all_for_user user)
  pub revokes_tokens : (test : RefreshTokenRecord → Bool) → Keeps P (revoke_where test)
  pub assigns_role : (user : String) (role : Role) → Keeps P (Users.assign_role user role)
  pub creates :
      (name email phone hash : String) → Keeps P (create_customer env name email phone hash)
  pub issues :
      (user : UserRecord) (device : DeviceContext) (action : AuditAction)
      → Keeps P (issue_session env user device action)
  pub rotates :
      (hash : String) (w : World) (existing : RefreshTokenRecord) (device : DeviceContext)
      → find (λ t. t.token_hash == hash) w.tokens ≡ some existing
      → is_live existing ≡ true
      → P w
      → P (rotate env existing device w).1
  pub waits : (w : World) (milliseconds : ℕ) → P w → P (record w { now = w.now + milliseconds })

module _ (env : Env) {P : World → Type 0} (kept : Kept env P) where
  register-kept :
      (input : Registration) (device : DeviceContext) → Keeps P (register env input device)
  unfolding register assert_email assert_phone assert_password_policy
  register-kept input device =
      search (keeps_rules, kept.hashes, kept.creates, kept.appends, kept.publishes, kept.issues)
        depth 16

  login_user-kept :
      (user : UserRecord) (password : String) (device : DeviceContext)
      → Keeps P (login_user env user password device)
  unfolding login_user Users.get_password_hash
  login_user-kept user password device = search (keeps_rules, kept.issues, kept.appends) depth 16

  pub login_found-kept :
      (found : Option UserRecord) (password : String) (device : DeviceContext)
      → Keeps P (login_found env found password device)
  unfolding login_found
  login_found-kept none password device = search (keeps_rules, kept.appends) depth 16
  login_found-kept (some user) password device = login_user-kept user password device

  login_password-kept :
      (identifier password : String) (device : DeviceContext)
      → Keeps P (login_password env identifier password device)
  unfolding login_password Users.find_by_email_or_phone
  login_password-kept identifier password device =
      search (keeps_rules, kept.hits, login_found-kept) depth 16

  otp_found-kept :
      (found : Option UserRecord) (type : OtpType) (device : DeviceContext)
      → Keeps P (otp_found env found type device)
  unfolding otp_found send_otp
  otp_found-kept none type device = search keeps_rules depth 16
  otp_found-kept (some user) type device =
      let drawn : Keeps P (generate_otp_code env) = kept.generates in
      search (keeps_rules, kept.sets_otp, kept.clears, kept.appends, kept.publishes) depth 16

  request_otp-kept :
      (identifier : String) (type : OtpType) (device : DeviceContext)
      → Keeps P (request_otp env identifier type device)
  unfolding request_otp Users.find_by_email_or_phone
  request_otp-kept identifier type device = search (keeps_rules, kept.hits, otp_found-kept) depth 16

  compare_otp-kept :
      (user : UserRecord) (code : String) (attempts : ℕ) (hash : String) (device : DeviceContext)
      → Keeps P (compare_otp env user code attempts hash device)
  unfolding compare_otp
  compare_otp-kept user code attempts hash device =
      search (keeps_rules, kept.dels_otp, kept.clears, kept.issues, kept.appends) depth 16

  check_stored-kept :
      (user : UserRecord) (code : String) (attempts : ℕ) (stored : Option String)
      (device : DeviceContext)
      → Keeps P (check_stored env user code attempts stored device)
  unfolding check_stored
  check_stored-kept user code attempts none device = search (keeps_rules, kept.appends) depth 16
  check_stored-kept user code attempts (some hash) device =
      compare_otp-kept user code attempts hash device

  verify_found-kept :
      (found : Option UserRecord) (code : String) (device : DeviceContext)
      → Keeps P (verify_found env found code device)
  unfolding verify_found check_otp get_otp
  verify_found-kept none code device = search keeps_rules depth 16
  verify_found-kept (some user) code device =
      search (keeps_rules, kept.incrs, kept.dels_otp, kept.clears, check_stored-kept) depth 16

  verify_otp-kept :
      (identifier code : String) (device : DeviceContext)
      → Keeps P (verify_otp env identifier code device)
  unfolding verify_otp Users.find_by_email_or_phone
  verify_otp-kept identifier code device = search (keeps_rules, verify_found-kept) depth 16

  deny_some-kept : (jti : Option String) → Keeps P (deny_some env jti)
  unfolding deny_some
  deny_some-kept none = search keeps_rules depth 16
  deny_some-kept (some jti) = search (keeps_rules, kept.denies) depth 16

  deny_given-kept : (jti : Option String) → Keeps P (deny_given env jti)
  unfolding deny_given
  deny_given-kept jti = deny_some-kept (given jti)

  reuse_detected-kept :
      (existing : RefreshTokenRecord) (device : DeviceContext)
      → Keeps P (reuse_detected env existing device)
  unfolding reuse_detected RefreshTokens.revoke_family Sessions.find_by_id
  reuse_detected-kept existing device =
      search (keeps_rules, kept.revokes_tokens, kept.revokes_session, kept.appends, deny_given-kept)
        depth 16

  logout_found-kept : (found : Option RefreshTokenRecord) → Keeps P (logout_found env found)
  unfolding logout_found logout_row RefreshTokens.revoke
  logout_found-kept none = search keeps_rules depth 16
  logout_found-kept (some row) =
      search (keeps_rules, kept.revokes_tokens, kept.revokes_session, kept.appends) depth 16

  logout_token-kept : (token : Option String) → Keeps P (logout_token env token)
  unfolding logout_token RefreshTokens.find_by_hash
  logout_token-kept none = search keeps_rules depth 16
  logout_token-kept (some token) = search (keeps_rules, logout_found-kept) depth 16

  logout-kept : (jti token : Option String) → Keeps P (logout env jti token)
  unfolding logout
  logout-kept jti token =
      Keeps-then (deny_given env jti) (logout_token env (given token)) (deny_given-kept jti)
        (logout_token-kept (given token))

  logout_all-kept : (user_id : String) → Keeps P (logout_all env user_id)
  unfolding logout_all RefreshTokens.revoke_all_for_user
  logout_all-kept user_id =
      search
        (
          keeps_rules, kept.revokes_sessions, kept.revokes_tokens, kept.appends, kept.publishes,
          Keeps-for_each, deny_given-kept,
        )
        depth 16

  refresh-kept : (token : String) (device : DeviceContext) → Keeps P (refresh env token device)
  unfolding refresh RefreshTokens.find_by_hash refresh_found
  refresh-kept token device = record {
    at = λ w h. elim (Option-cases (find (λ t. t.token_hash == env.sha256 token) w.tokens)) [
      | inl e ↦ subst P (ground arith) h
      | inr (t, e) ↦ elim (Bool-cases (is_some t.revoked_at)) [
        | inl r ↦ subst P (ground arith) ((reuse_detected-kept t device).at w h)
        | inr l ↦ elim (Bool-cases (ltb t.expires_at w.now)) [
          | inl x ↦ subst P (ground arith) h
          | inr x ↦
              subst P (ground arith) (kept.rotates (env.sha256 token) w t device e (ground arith) h)
        ]
      ]
    ];
  }

  introspect_payload-kept :
      (payload : Option AccessPayload) → Keeps P (introspect_payload env payload)
  unfolding introspect_payload is_revoked
  introspect_payload-kept none = search keeps_rules depth 16
  introspect_payload-kept (some payload) = search keeps_rules depth 16

  introspect_token-kept : (token : String) → Keeps P (introspect_token env token)
  unfolding introspect_token
  introspect_token-kept token = record {
    at = λ w h. (introspect_payload-kept (env.verify w.now token)).at w h;
  }

  revoke_given-kept :
      (user_id : String) (found : Option SessionRecord) → Keeps P (revoke_given env user_id found)
  unfolding revoke_given revoke_found RefreshTokens.revoke_by_session
  revoke_given-kept user_id none = search keeps_rules depth 16
  revoke_given-kept user_id (some session) =
      search
        (
          keeps_rules, kept.revokes_tokens, kept.revokes_session, kept.appends, kept.publishes,
          deny_given-kept,
        )
        depth 16

  revoke_session-kept :
      (user_id session_id : String) → Keeps P (revoke_session env user_id session_id)
  unfolding revoke_session Sessions.find_by_id
  revoke_session-kept user_id session_id = search (keeps_rules, revoke_given-kept) depth 16

  assign-kept : (user_id : String) (role : Role) → Keeps P (assign_role user_id role)
  unfolding assign_role Users.find_by_id
  assign-kept user_id role = search (keeps_rules, kept.assigns_role, kept.appends) depth 16

  get_me-kept : (user_id : String) → Keeps P (get_me user_id)
  unfolding get_me Users.find_by_id
  get_me-kept user_id = record {
    at = λ w h. elim (Option-cases (Users.map_found (find (Users.is_user user_id) w.users))) [
      | inl e ↦ subst P (ground arith) h
      | inr (u, e) ↦ subst P (ground arith) h
    ];
  }

  list_sessions-kept :
      (user_id : String) (current : Option String) → Keeps P (list_sessions env user_id current)
  unfolding list_sessions Sessions.list_by_user
  list_sessions-kept user_id current = search keeps_rules depth 16

  pub step-kept : (c : Call) (w : World) → P w → P (step env c w)
  unfolding step
  step-kept (registers input device) w h = (register-kept input device).at w h
  step-kept (logs_in identifier password device) w h =
      (login_password-kept identifier password device).at w h
  step-kept (asks_code identifier type device) w h =
      (request_otp-kept identifier type device).at w h
  step-kept (gives_code identifier code device) w h =
      (verify_otp-kept identifier code device).at w h
  step-kept (refreshes token device) w h = (refresh-kept token device).at w h
  step-kept (logs_out jti token) w h = (logout-kept jti token).at w h
  step-kept (logs_out_all user_id) w h = (logout_all-kept user_id).at w h
  step-kept (introspects token) w h = (introspect_token-kept token).at w h
  step-kept (assigns user_id role) w h = (assign-kept user_id role).at w h
  step-kept (asks_me user_id) w h = (get_me-kept user_id).at w h
  step-kept (lists user_id current) w h = (list_sessions-kept user_id current).at w h
  step-kept (revokes user_id session_id) w h = (revoke_session-kept user_id session_id).at w h
  step-kept (waits milliseconds) w h = kept.waits w milliseconds h

  pub run-kept : (calls : List Call) (w : World) → P w → P (run env calls w)
  unfolding run
  run-kept [] w h = h
  run-kept (c ∷ cs) w h = run-kept cs (step env c w) (step-kept c w h)
