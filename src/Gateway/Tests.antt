-- ===== src/Gateway/Tests.antt =====
-- Runs of the gateway on small data, and its theorems at concrete inputs.
use food_ordering_app.Prelude.{String, true, false, none, some, [], ◌==◌, is_some, ◌≡◌, refl}
use food_ordering_app.Effect.{ok, conflict, unprocessable, http_status}
use food_ordering_app.Domain.{admin}
use food_ordering_app.Grpc.{replied}
use food_ordering_app.Identity.Model.{AccessPayload, World, Env}
use food_ordering_app.Identity.Redis.{read, is_revoked}
use food_ordering_app.Identity.Account.{introspect_token, introspect_payload}
use food_ordering_app.Identity.Controller.{to_rpc_exception, introspect_token_rpc}
use food_ordering_app.Cart.Controller.{to_rpc, code_of}
use food_ordering_app.Gateway.Errors.{caught, grpc_error, grpc_to_http, identity_errors-caught}
use food_ordering_app.Gateway.Access.{
  GatewayUser, passes, bearer, after_prefix, admitted, auth_token, auth_guard, admin_guard,
  admin_route,
}
use food_ordering_app.Gateway.Admission.{admin_route-admits}

abbrev env : Env
env = record {
  uuid = λ n. "u";
  random_code = λ n. 7;
  sha256 = λ s. s;
  bcrypt_hash = λ n s. s;
  bcrypt_compare = λ s h. s == h;
  sign = λ u jti e. jti;
  verify = λ n t. some (record { user_id = "ann"; role = admin; jti = t });
  to_lower_case = λ s. s;
  citext_eq = λ a b. a == b;
  access_ttl_seconds = 900;
  refresh_ttl_seconds = 1000;
  last_active_first = λ ss. ss;
  connected = true;
  active_trace = none;
  send = λ m. ok tt;
}

abbrev start : World
start = record {
  users = [];
  credentials = λ u. none;
  sessions = [];
  tokens = [];
  audit = [];
  otp = λ u. none;
  attempts = λ u. none;
  denied = λ j. none;
  rates = λ s k. none;
  now = 0;
  draws = 0;
  sent = [];
}

abbrev ann : GatewayUser
ann = record { user_id = "ann"; role = "admin"; jti = "t" }

ann_gets_in : (admin_route (introspect_token_rpc env) (some "Bearer t") start).0 ≡ passes ann
unfolding admin_route auth_guard auth_token after_prefix admitted admin_guard introspect_token_rpc
    replied introspect_token introspect_payload is_revoked read
ann_gets_in = refl

admin_route-admits_example :
    (token : String) × (payload : AccessPayload) × (bearer (some "Bearer t") ≡ some token)
    × (env.verify start.now token ≡ some payload)
    × (payload.role ≡ admin)
    × (payload.user_id ≡ ann.user_id)
    × (is_some (read start.now (start.denied payload.jti)) ≡ false)
admin_route-admits_example = admin_route-admits env (some "Bearer t") start ann ann_gets_in

identity_errors-caught_example :
    (caught (grpc_error (to_rpc_exception (conflict "taken")))).status ≡ 409
unfolding http_status
identity_errors-caught_example = identity_errors-caught (conflict "taken") 409 refl refl

-- An error that the cart calls unprocessable reaches clients as a conflict.
unprocessable_conflicts : (caught (grpc_error (to_rpc (unprocessable "gone")))).status ≡ 409
unfolding caught to_rpc http_status code_of grpc_to_http
unprocessable_conflicts = refl
