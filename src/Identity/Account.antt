-- ===== src/Identity/Account.antt =====
-- `IdentityService` (apps/identity/src/application/identity.service.ts): rotation of refresh tokens,
-- logging out, introspection, roles and sessions.
use food_ordering_app.Prelude.{
  ℕ, String, Bool, true, false, not, Option, none, some, List, ◌==◌, if◌then◌else◌, ltb, is_some,
  map, select, or_else,
}
use food_ordering_app.Effect.{
  not_found, unauthorized, Action, pure, raise, raise_if, gets, for_each, ◌>>=◌, ◌>>◌,
}
use food_ordering_app.Domain.{Role, Topic, all_revoked, session_revoked}
use food_ordering_app.Identity.Model.{
  UserRecord, SessionRecord, RefreshTokenRecord, DeviceContext, AuthTokens, AuditAction,
  no_metadata, new_role, AccessPayload, World, Env,
}
use food_ordering_app.Identity.Users
use food_ordering_app.Identity.Sessions
use food_ordering_app.Identity.RefreshTokens
use food_ordering_app.Identity.Audit.{append}
use food_ordering_app.Identity.Redis.{deny, is_revoked}
use food_ordering_app.Identity.Service.{draw, issue_access_token, refresh_expiry, publish_event}

-- An optional text, none if it is empty.
abbrev pub given : Option String → Option String
given none = none
given (some s) = if s == "" then none else some s

abbrev pub no_device : DeviceContext
no_device = record { ip = none; user_agent = none }

pub record Introspection : Type 0 where
  pub active : Bool
  pub user_id : Option String
  pub role : Option Role
  pub jti : Option String

abbrev pub inactive : Introspection
inactive = record { active = false; user_id = none; role = none; jti = none }

pub record SessionView : Type 0 where
  pub id : String
  pub device : String
  pub ip : String
  pub created_at : ℕ
  pub last_active : ℕ
  pub current : Bool

abbrev pub session_expired : String
session_expired = "Your session expired. Please login again."

abbrev user_found : Option UserRecord → Action World UserRecord
user_found none = raise (not_found "User not found")
user_found (some user) = pure user

unfoldable pub get_me : String → Action World UserRecord
get_me user_id = do found ← Users.find_by_id user_id; user_found found

-- A role is one of the two in the model, so the test for another one has no case.
unfoldable pub assign_role : String → Role → Action World (String × Role)
assign_role user_id role = do
  found ← Users.find_by_id user_id
  raise_if (not (is_some found)) (not_found "User not found")
  assigned ← Users.assign_role user_id role
  append AuditAction.role_assigned (some user_id) none no_device (new_role assigned)
  pure (user_id, assigned)

abbrev is_current : Option String → String → Bool
is_current none id = false
is_current (some c) id = id == c

abbrev pub view_of : Option String → SessionRecord → SessionView
view_of current s = record {
  id = s.id;
  device = or_else s.device_ua "Unknown device";
  ip = or_else s.ip "";
  created_at = s.created_at;
  last_active = s.last_active;
  current = is_current (given current) s.id;
}

module _ (env : Env) where
  open env use {sha256, verify, access_ttl_seconds}

  unfoldable pub deny_some : Option String → Action World (Unit {0})
  deny_some none = pure tt
  deny_some (some jti) = deny jti access_ttl_seconds

  -- `if (jti) await denylist.revoke(jti, accessTtlSeconds)`
  unfoldable pub deny_given : Option String → Action World (Unit {0})
  deny_given jti = deny_some (given jti)

  unfoldable pub jti_of : Option SessionRecord → Option String
  jti_of none = none
  jti_of (some s) = s.access_jti

  -- `refresh` with a token that was revoked: the whole family and the session go.
  unfoldable pub reuse_detected : RefreshTokenRecord → DeviceContext → Action World AuthTokens
  reuse_detected existing device = do
    RefreshTokens.revoke_family existing.family_id
    session ← Sessions.find_by_id existing.session_id
    deny_given (jti_of session)
    Sessions.revoke existing.session_id
    append AuditAction.refresh_reuse_detected (some existing.user_id) (some existing.session_id)
        device no_metadata
    raise (unauthorized session_expired)

  -- `refresh` with a live token: it is revoked, and a new one of its family is issued.
  unfoldable pub rotate : RefreshTokenRecord → DeviceContext → Action World AuthTokens
  rotate existing device = do
    RefreshTokens.revoke existing.id
    found ← Users.find_by_id existing.user_id
    elim found [
      | none ↦ raise (unauthorized session_expired)
      | some user ↦ do
        access ← issue_access_token env user
        refresh ← draw env
        expiry ← refresh_expiry env
        RefreshTokens.create env user.id existing.session_id (sha256 refresh) existing.family_id
            expiry
        Sessions.touch existing.session_id access.jti
        append AuditAction.token_refresh (some user.id) (some existing.session_id) device
            no_metadata
        pure (record { access_token = access.token; refresh_token = refresh; user = user })
    ]

  -- `refresh` for the token that was found, at a time.
  unfoldable pub refresh_found :
      Option RefreshTokenRecord → ℕ → DeviceContext → Action World AuthTokens
  refresh_found none now device = raise (unauthorized session_expired)
  refresh_found (some existing) now device =
      if is_some existing.revoked_at
      then reuse_detected existing device
      else if ltb existing.expires_at now
      then raise (unauthorized session_expired)
      else rotate existing device

  unfoldable pub refresh : String → DeviceContext → Action World AuthTokens
  refresh refresh_token device = do
    found ← RefreshTokens.find_by_hash (sha256 refresh_token)
    now ← gets (λ w. w.now)
    refresh_found found now device

  -- `logout` for the row of the refresh token.
  unfoldable pub logout_row : RefreshTokenRecord → Action World (Unit {0})
  logout_row row = do
    RefreshTokens.revoke row.id
    Sessions.revoke row.session_id
    append AuditAction.logout (some row.user_id) (some row.session_id) no_device no_metadata

  unfoldable pub logout_found : Option RefreshTokenRecord → Action World String
  logout_found none = pure "Logged out"
  logout_found (some row) = do logout_row row; pure "Logged out"

  -- `logout` with the refresh token that is given.
  unfoldable pub logout_token : Option String → Action World String
  logout_token none = pure "Logged out"
  logout_token (some token) = do
    found ← RefreshTokens.find_by_hash (sha256 token)
    logout_found found

  unfoldable pub logout : Option String → Option String → Action World String
  logout access_jti refresh_token = do deny_given access_jti; logout_token (given refresh_token)

  unfoldable pub logout_all : String → Action World String
  logout_all user_id = do
    sessions ← Sessions.revoke_all_for_user user_id
    RefreshTokens.revoke_all_for_user user_id
    for_each (λ s. deny_given s.access_jti) sessions
    append AuditAction.logout_all (some user_id) none no_device no_metadata
    publish_event env Topic.session_revoked user_id (all_revoked user_id)
    pure "All sessions revoked"

  abbrev pub active_payload : AccessPayload → Introspection
  active_payload payload = record {
    active = true;
    user_id = some payload.user_id;
    role = some payload.role;
    jti = some payload.jti;
  }

  -- `introspectToken` for what the token says.
  unfoldable pub introspect_payload : Option AccessPayload → Action World Introspection
  introspect_payload none = pure inactive
  introspect_payload (some payload) = do
    revoked ← is_revoked payload.jti
    pure (if revoked then inactive else active_payload payload)

  unfoldable pub introspect_token : String → Action World Introspection
  introspect_token access_token = do
    now ← gets (λ w. w.now)
    introspect_payload (verify now access_token)

  unfoldable pub list_sessions : String → Option String → Action World (List SessionView)
  list_sessions user_id current = do
    sessions ← Sessions.list_by_user env user_id
    pure (map (view_of current) (select (λ s. not (is_some s.revoked_at)) sessions))

  -- `revokeSession` for the session that was found.
  unfoldable pub revoke_found : String → SessionRecord → Action World String
  revoke_found user_id session = do
    RefreshTokens.revoke_by_session session.id
    Sessions.revoke session.id
    deny_given session.access_jti
    append AuditAction.session_revoked (some user_id) (some session.id) no_device no_metadata
    publish_event env Topic.session_revoked user_id (session_revoked user_id session.id)
    pure "Session revoked"

  unfoldable pub revoke_given : String → Option SessionRecord → Action World String
  revoke_given user_id none = raise (not_found "Session not found")
  revoke_given user_id (some session) =
      if session.user_id == user_id
      then revoke_found user_id session
      else raise (not_found "Session not found")

  unfoldable pub revoke_session : String → String → Action World String
  revoke_session user_id session_id = do
    found ← Sessions.find_by_id session_id
    revoke_given user_id found
