-- ===== src/Identity/Model.antt =====
-- The data of the identity service (apps/identity/src/domain/types.ts, application/ports.ts), its
-- tables and its keys in Redis.
use food_ordering_app.Prelude.{ℕ, String, Bool, Option, List}
use food_ordering_app.Effect.{Result}
use food_ordering_app.Domain.{Role, Envelope}

pub record UserRecord : Type 0 where
  pub id : String
  pub name : String
  pub email : String
  pub phone : String
  pub created_at : ℕ
  pub role : Role

-- A row of the table of users with the roles that are joined to it.
pub record UserRow : Type 0 where
  pub id : String
  pub name : String
  pub email : String
  pub phone : String
  pub created_at : ℕ
  pub roles : List Role

pub record SessionRecord : Type 0 where
  pub id : String
  pub user_id : String
  pub device_ua : Option String
  pub ip : Option String
  pub access_jti : Option String
  pub created_at : ℕ
  pub last_active : ℕ
  pub revoked_at : Option ℕ

pub record RefreshTokenRecord : Type 0 where
  pub id : String
  pub user_id : String
  pub session_id : String
  pub token_hash : String
  pub family_id : String
  pub expires_at : ℕ
  pub revoked_at : Option ℕ
  pub created_at : ℕ

pub record DeviceContext : Type 0 where
  pub ip : Option String
  pub user_agent : Option String

pub record AuthTokens : Type 0 where
  pub access_token : String
  pub refresh_token : String
  pub user : UserRecord

pub data AuditAction : Type 0 where
  user_registered login_success login_failure otp_request otp_login_success : AuditAction
  otp_login_failure logout logout_all session_revoked token_refresh : AuditAction
  refresh_reuse_detected role_assigned : AuditAction

pub data OtpType : Type 0 where
  by_email by_phone : OtpType

-- The metadata that the service gives with an action.
pub data AuditMetadata : Type 0 where
  no_metadata : AuditMetadata
  reason : String → AuditMetadata
  remaining : ℕ → AuditMetadata
  requested : OtpType → AuditMetadata
  new_role : Role → AuditMetadata

pub record AuditEntry : Type 0 where
  pub action : AuditAction
  pub user_id : Option String
  pub target_session_id : Option String
  pub ip : Option String
  pub ua : Option String
  pub metadata : AuditMetadata

-- What an access token says.
pub record AccessPayload : Type 0 where
  pub user_id : String
  pub role : Role
  pub jti : String

pub record AccessToken : Type 0 where
  pub token : String
  pub jti : String

-- The scopes of the rate limiter.
pub data Scope : Type 0 where
  login otp_requests : Scope

-- A value in Redis with the time, in milliseconds, from which it is gone.
pub record Timed (A : Type 0) : Type 0 where
  pub value : A
  pub expiry : ℕ

-- The tables; the keys `otp:{user}`, `otp:attempts:{user}`, `revoked:jti:{jti}` and
-- `rl:{scope}:{id}`; the time at which a request runs, the number of random values drawn, and the
-- messages that Kafka took.
pub record World : Type 0 where
  pub users : List UserRow
  pub credentials : String → Option String
  pub sessions : List SessionRecord
  pub tokens : List RefreshTokenRecord
  pub audit : List AuditEntry
  pub otp : String → Option (Timed String)
  pub attempts : String → Option (Timed ℕ)
  pub denied : String → Option (Timed (Unit {0}))
  pub rates : Scope → String → Option (Timed ℕ)
  pub now : ℕ
  pub draws : ℕ
  pub sent : List Envelope

-- Cryptography, randomness, the JavaScript runtime and Kafka, as the service uses them.
pub record Env : Type 0 where
  pub uuid : ℕ → String
  -- `randomInt(0, 1_000_000)`
  pub random_code : ℕ → ℕ
  -- SHA-256 as hexadecimal digits.
  pub sha256 : String → String
  -- bcrypt, with the draw that makes its salt.
  pub bcrypt_hash : ℕ → String → String
  pub bcrypt_compare : String → String → Bool
  -- A signed token of a user, with its id and the time at which it expires; what a token that is
  -- genuine and not expired says at a time.
  pub sign : UserRecord → String → ℕ → String
  pub verify : ℕ → String → Option AccessPayload
  pub to_lower_case : String → String
  -- Equality in a column `citext`.
  pub citext_eq : String → String → Bool
  pub access_ttl_seconds : ℕ
  pub refresh_ttl_seconds : ℕ
  pub last_active_first : List SessionRecord → List SessionRecord
  pub connected : Bool
  pub active_trace : Option String
  pub send : Envelope → Result (Unit {0})
