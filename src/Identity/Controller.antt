-- ===== src/Identity/Controller.antt =====
-- `IdentityGrpcController` (apps/identity/src/interface/grpc/identity.grpc.controller.ts). The mappings
-- of users, tokens and sessions to messages copy field by field and are the identity here.
use food_ordering_app.Prelude.{
  ℕ, String, Bool, Option, none, some, List, ◌==◌, if◌then◌else◌, nat_eq, or_else,
}
use food_ordering_app.Effect.{Error, http_status}
use food_ordering_app.Domain.{Role, customer, admin}
use food_ordering_app.Grpc.{
  GrpcStatus, invalid_argument, permission_denied, not_found, internal, unauthenticated,
  already_exists, resource_exhausted, RpcException, Reply, replied,
}
use food_ordering_app.Identity.Model.{
  UserRecord, AuthTokens, OtpType, by_email, by_phone, World, Env,
}
use food_ordering_app.Identity.Service.{
  OtpAnswer, Registration, register, login_password, request_otp, verify_otp,
}
use food_ordering_app.Identity.Account.{
  Introspection, SessionView, no_device, get_me, assign_role, refresh, logout, logout_all,
  introspect_token, list_sessions, revoke_session,
}

-- The code for an HTTP status; the last case is any other, and what is no `DomainError`.
unfoldable pub code_of : Option ℕ → GrpcStatus
code_of none = internal
code_of (some n) =
    if nat_eq n 400
    then invalid_argument
    else if nat_eq n 401
    then unauthenticated
    else if nat_eq n 403
    then permission_denied
    else if nat_eq n 404
    then not_found
    else if nat_eq n 409
    then already_exists
    else if nat_eq n 429
    then resource_exhausted
    else internal

unfoldable pub to_rpc_exception : Error → RpcException
unfolding http_status code_of food_ordering_app.Effect.message
to_rpc_exception e = record {
  code = code_of (http_status e);
  message = food_ordering_app.Effect.message e;
}

-- `IntrospectToken`'s message.
pub record IntrospectionMessage : Type 0 where
  pub active : Bool
  pub user_id : String
  pub role : String
  pub jti : String

-- The value of an enumeration `Role`.
abbrev pub role_text : Role → String
role_text customer = "customer"
role_text admin = "admin"

abbrev role_or_blank : Option Role → String
role_or_blank none = ""
role_or_blank (some r) = role_text r

abbrev pub introspection_message : Introspection → IntrospectionMessage
introspection_message i = record {
  active = i.active;
  user_id = or_else i.user_id "";
  role = role_or_blank i.role;
  jti = or_else i.jti "";
}

-- `data.type === 'phone' ? 'phone' : 'email'`
abbrev pub otp_type : String → OtpType
otp_type s = if s == "phone" then by_phone else by_email

-- `data.role === 'admin' ? Role.Admin : Role.Customer`
abbrev pub role_of : String → Role
role_of s = if s == "admin" then admin else customer

module _ (env : Env) where
  unfoldable pub register_rpc : Registration → World → Reply AuthTokens × World
  register_rpc input w = replied to_rpc_exception (λ t. t) (register env input no_device w)

  unfoldable pub login_password_rpc :
      (identifier password : String) → World → Reply AuthTokens × World
  login_password_rpc identifier password w =
      replied to_rpc_exception (λ t. t) (login_password env identifier password no_device w)

  unfoldable pub request_otp_rpc : (identifier type : String) → World → Reply OtpAnswer × World
  request_otp_rpc identifier type w =
      replied to_rpc_exception (λ a. a) (request_otp env identifier (otp_type type) no_device w)

  unfoldable pub verify_otp_rpc : (identifier code : String) → World → Reply AuthTokens × World
  verify_otp_rpc identifier code w =
      replied to_rpc_exception (λ t. t) (verify_otp env identifier code no_device w)

  unfoldable pub refresh_rpc : String → World → Reply AuthTokens × World
  refresh_rpc refresh_token w =
      replied to_rpc_exception (λ t. t) (refresh env refresh_token no_device w)

  unfoldable pub logout_rpc :
      (access_jti refresh_token : Option String) → World → Reply String × World
  logout_rpc access_jti refresh_token w =
      replied to_rpc_exception (λ m. m) (logout env access_jti refresh_token w)

  unfoldable pub logout_all_rpc : String → World → Reply String × World
  logout_all_rpc user_id w = replied to_rpc_exception (λ m. m) (logout_all env user_id w)

  unfoldable pub introspect_token_rpc : String → World → Reply IntrospectionMessage × World
  introspect_token_rpc access_token w =
      replied to_rpc_exception introspection_message (introspect_token env access_token w)

  unfoldable pub list_sessions_rpc : String → World → Reply (List SessionView) × World
  list_sessions_rpc user_id w = replied to_rpc_exception (λ s. s) (list_sessions env user_id none w)

  unfoldable pub revoke_session_rpc : (user_id session_id : String) → World → Reply String × World
  revoke_session_rpc user_id session_id w =
      replied to_rpc_exception (λ m. m) (revoke_session env user_id session_id w)

unfoldable pub assign_role_rpc : (user_id role : String) → World → Reply (String × Role) × World
assign_role_rpc user_id role w =
    replied to_rpc_exception (λ r. r) (assign_role user_id (role_of role) w)

unfoldable pub get_me_rpc : String → World → Reply UserRecord × World
get_me_rpc user_id w = replied to_rpc_exception (λ u. u) (get_me user_id w)
