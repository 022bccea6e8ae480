-- ===== src/Identity/Calls.antt =====
-- The calls of the identity service (apps/identity/src/application/identity.service.ts) and the time
-- that passes between them.
use food_ordering_app.Prelude.{ℕ, ◌+◌, String, Option, List, [], ◌∷◌}
use food_ordering_app.Domain.{Role}
use food_ordering_app.Identity.Model.{DeviceContext, OtpType, World, Env}
use food_ordering_app.Identity.Service.{
  Registration, register, login_password, request_otp, verify_otp,
}
use food_ordering_app.Identity.Account.{
  refresh, logout, logout_all, introspect_token, assign_role, get_me, list_sessions, revoke_session,
}

pub data Call : Type 0 where
  registers : Registration → DeviceContext → Call
  logs_in : (identifier password : String) → DeviceContext → Call
  asks_code : String → OtpType → DeviceContext → Call
  gives_code : (identifier code : String) → DeviceContext → Call
  refreshes : String → DeviceContext → Call
  logs_out : (access_jti refresh_token : Option String) → Call
  logs_out_all : String → Call
  introspects : String → Call
  assigns : String → Role → Call
  asks_me : String → Call
  lists : String → Option String → Call
  revokes : (user_id session_id : String) → Call
  waits : ℕ → Call

module _ (env : Env) where
  unfoldable pub step : Call → World → World
  step (registers input device) w = (register env input device w).1
  step (logs_in identifier password device) w = (login_password env identifier password device w).1
  step (asks_code identifier type device) w = (request_otp env identifier type device w).1
  step (gives_code identifier code device) w = (verify_otp env identifier code device w).1
  step (refreshes token device) w = (refresh env token device w).1
  step (logs_out jti token) w = (logout env jti token w).1
  step (logs_out_all user_id) w = (logout_all env user_id w).1
  step (introspects token) w = (introspect_token env token w).1
  step (assigns user_id role) w = (assign_role user_id role w).1
  step (asks_me user_id) w = (get_me user_id w).1
  step (lists user_id current) w = (list_sessions env user_id current w).1
  step (revokes user_id session_id) w = (revoke_session env user_id session_id w).1
  step (waits milliseconds) w = record w { now = w.now + milliseconds }

  unfoldable pub run : List Call → World → World
  unfolding step
  run [] w = w
  run (c ∷ cs) w = run cs (step c w)
