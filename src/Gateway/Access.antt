-- ===== src/Gateway/Access.antt =====
-- The guards (apps/gateway/src/auth/auth.guards.ts) and the rate limiter
-- (apps/gateway/src/infrastructure/redis/rate-limiter.ts) of the gateway.
use Prim.Native.Char.{code}
use food_ordering_app.Prelude.{
  ℕ, String, Bool, true, not, ◌||◌, Option, none, some, ◌==◌, if◌then◌else◌, nat_eq, leb,
}
use food_ordering_app.Grpc.{Reply, reply, failure}
use food_ordering_app.Identity.Model.{Timed}
use food_ordering_app.Identity.Redis.{counted}
use food_ordering_app.Identity.Controller.{IntrospectionMessage}
use food_ordering_app.Gateway.Errors.{Exception, http_exception, grpc_error}

-- `GatewayUser`; the role is the text that identity answered.
pub record GatewayUser : Type 0 where
  pub user_id : String
  pub role : String
  pub jti : String

-- A guard lets a request through with its user, or throws.
pub data Verdict : Type 0 where
  passes : GatewayUser → Verdict
  throws : Exception → Verdict

-- What follows a text at the start of another: `s.startsWith(t)` with `s.slice(t.length)`.
unfoldable pub after_prefix : String → String → Option String
after_prefix s String.[] = some s
after_prefix String.[] (String.◌∷◌ _ _) = none
after_prefix (String.◌∷◌ c s) (String.◌∷◌ d t) =
    let rest = after_prefix s t in if nat_eq (code c) (code d) then rest else none

abbrev pub bearer : Option String → Option String
bearer none = none
bearer (some header) = after_prefix header "Bearer "

-- What `AuthGuard` makes of identity's answer.
unfoldable pub admitted : Reply IntrospectionMessage → Verdict
admitted (reply i) =
    if not i.active || i.user_id == ""
    then throws (http_exception 401 "Invalid or revoked token")
    else passes (record { user_id = i.user_id; role = i.role; jti = i.jti })
admitted (failure e) = throws (grpc_error e)

-- `AdminGuard.canActivate` after `AuthGuard`.
unfoldable pub admin_guard : Verdict → Verdict
admin_guard (throws e) = throws e
admin_guard (passes user) =
    if user.role == "admin" then passes user else throws (http_exception 403 "Admin role required")

-- `CustomerGuard.canActivate` after `AuthGuard`.
unfoldable pub customer_guard : Verdict → Verdict
customer_guard (throws e) = throws e
customer_guard (passes user) =
    if user.role == "customer"
    then passes user
    else throws (http_exception 403 "Customer role required")

module _ {W : Type 0} (introspect : String → W → Reply IntrospectionMessage × W) where
  unfoldable pub auth_token : Option String → W → Verdict × W
  auth_token none w = (throws (http_exception 401 "Missing access token"), w)
  auth_token (some token) w = let (r, v) = introspect token w in (admitted r, v)

  -- `AuthGuard.canActivate`, by the header `authorization`.
  unfoldable pub auth_guard : Option String → W → Verdict × W
  auth_guard header w = auth_token (bearer header) w

  -- `@UseGuards(AuthGuard, AdminGuard)`
  unfoldable pub admin_route : Option String → W → Verdict × W
  admin_route header w = let (r, v) = auth_guard header w in (admin_guard r, v)

-- `GatewayRateLimiter.hit` on the counter of its key, with the switch for load tests.
unfoldable pub limiter_hit : Bool → ℕ → ℕ → ℕ → Option (Timed ℕ) → Bool × Option (Timed ℕ)
unfolding counted
limiter_hit bypass now limit seconds c =
    if bypass then (true, c) else (let t = counted now seconds c in (leb t.value limit, some t))
