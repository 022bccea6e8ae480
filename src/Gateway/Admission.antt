-- ===== src/Gateway/Admission.antt =====
-- Who gets to the routes of administrators: the guards of apps/gateway/src/auth/auth.guards.ts with
-- `introspectToken` of apps/identity/src/application/identity.service.ts.
use food_ordering_app.Prelude.{
  String, true, false, Option, some, ◌==◌, is_some, ◌≡◌, refl, arith, Bool-cases, Option-cases, inl,
  inr,
}
use food_ordering_app.Domain.{Role, customer, admin}
use food_ordering_app.Grpc.{replied}
use food_ordering_app.Identity.Model.{AccessPayload, World, Env}
use food_ordering_app.Identity.Redis.{read, is_revoked}
use food_ordering_app.Identity.Account.{introspect_token, introspect_payload}
use food_ordering_app.Identity.Controller.{introspect_token_rpc, role_text}
use food_ordering_app.Gateway.Access.{
  GatewayUser, passes, bearer, admitted, auth_token, auth_guard, admin_guard, admin_route,
}

Role-cases : (r : Role) → (role_text r == "admin") ≡ true → r ≡ admin
Role-cases customer e = absurd (ground arith)
Role-cases admin e = refl

-- A request gets through to a route of administrators only with a bearer token that is genuine and
-- not expired, that is not denied, and that was issued to the user as an administrator.
pub admin_route-admits :
    (env : Env) (header : Option String) (w : World) (user : GatewayUser)
    → (admin_route (introspect_token_rpc env) header w).0 ≡ passes user
    → (token : String) × (payload : AccessPayload) × (bearer header ≡ some token)
      × (env.verify w.now token ≡ some payload)
      × (payload.role ≡ admin)
      × (payload.user_id ≡ user.user_id)
      × (is_some (read w.now (w.denied payload.jti)) ≡ false)
unfolding admin_route auth_guard auth_token admitted admin_guard introspect_token_rpc replied
    introspect_token introspect_payload is_revoked
admin_route-admits env header w user through = elim (Option-cases (bearer header)) [
  | inl e ↦ absurd (ground arith)
  | inr (token, e) ↦ elim (Option-cases (env.verify w.now token)) [
    | inl v ↦ absurd (ground arith)
    | inr (payload, v) ↦ elim (Bool-cases (is_some (read w.now (w.denied payload.jti)))) [
      | inl d ↦ absurd (ground arith)
      | inr d ↦ elim (Bool-cases (role_text payload.role == "admin")) [
        | inl r ↦ (token, payload, e, v, Role-cases payload.role r, ground arith, d)
        | inr r ↦ absurd (ground arith)
      ]
    ]
  ]
]
