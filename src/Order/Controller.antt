-- ===== src/Order/Controller.antt =====
-- `OrderGrpcController` (apps/order/src/interface/grpc/order.grpc.controller.ts). The mappings of
-- orders and summaries to messages copy field by field and are the identity here.
use food_ordering_app.Prelude.{
  ℕ, String, Bool, true, false, ◌||◌, Option, none, some, ◌==◌, if◌then◌else◌, or_else, nat_eq,
}
use food_ordering_app.Prelude.Int.{ℤ, pos}
use food_ordering_app.Effect.{Result, ok, err, Error, http_status, message}
use food_ordering_app.Grpc.{
  GrpcStatus, invalid_argument, permission_denied, not_found, failed_precondition, internal,
  RpcException, Reply, reply, failure,
}
use food_ordering_app.Order.Model.{Order, PlaceOrderResult, PlaceOrderInput, Env, World}
use food_ordering_app.Order.Service.{place_order, get_order, cancel_order}
use food_ordering_app.Order.Settlement.{OrderPage, list_my_orders, list_all_orders}

-- The code for an HTTP status; the last case is any other.
unfoldable pub code_of : Option ℕ → GrpcStatus
code_of none = internal
code_of (some n) =
    if nat_eq n 400
    then invalid_argument
    else if nat_eq n 403
    then permission_denied
    else if nat_eq n 404
    then not_found
    else if nat_eq n 422
    then failed_precondition
    else internal

unfoldable pub to_rpc : Error → RpcException
unfolding http_status code_of message
to_rpc e = record { code = code_of (http_status e); message = food_ordering_app.Effect.message e }

-- The metadata of a call: the first values of `x-user-role` and of `role`.
pub record Metadata : Type 0 where
  pub x_user_role : Option String
  pub role : Option String

unfoldable pub is_admin : Option Metadata → Bool
is_admin none = false
is_admin (some m) = or_else m.x_user_role (or_else m.role "") == "admin"

-- `a === true` on a field that may be missing.
abbrev is_true : Option Bool → Bool
is_true (some true) = true
is_true _ = false

-- `data.asAdmin === true || isAdmin(metadata)`
unfoldable pub as_admin : Option Bool → Option Metadata → Bool
unfolding is_admin
as_admin flag metadata = is_true flag || is_admin metadata

module _ {C : Type 0} where
  -- `try { … } catch (err) { throw toRpc(err); }`
  unfoldable pub answered : {A : Type 0} → Result A × World C → Reply A × World C
  unfolding to_rpc
  answered (ok a, w) = (reply a, w)
  answered (err e, w) = (failure (to_rpc e), w)

  unfoldable pub get_order_rpc :
      String → String → Option Bool → Option Metadata → World C → Reply Order × World C
  unfolding answered as_admin
  get_order_rpc order_id user flag metadata w =
      answered (get_order order_id user (as_admin flag metadata) w)

module _ {Num C : Type 0} (env : Env Num C) where
  unfoldable pub place_order_rpc : PlaceOrderInput → World C → Reply PlaceOrderResult × World C
  unfolding answered
  place_order_rpc input w = answered (place_order env input w)

  unfoldable pub list_my_orders_rpc :
      String → Option ℤ → Option ℤ → World C → Reply OrderPage × World C
  unfolding answered
  list_my_orders_rpc user page limit w =
      answered (list_my_orders env user (or_else page (pos 1)) (or_else limit (pos 10)) w)

  unfoldable pub list_orders_rpc :
      Option ℤ → Option ℤ → Option Bool → Option Metadata → World C → Reply OrderPage × World C
  unfolding answered as_admin
  list_orders_rpc page limit flag metadata w =
      if as_admin flag metadata
      then answered (list_all_orders env (or_else page (pos 1)) (or_else limit (pos 10)) w)
      else (failure (record { code = permission_denied; message = "Admin role required" }), w)

  unfoldable pub cancel_order_rpc :
      String → String → Option Bool → Option Metadata → World C → Reply Order × World C
  unfolding answered as_admin
  cancel_order_rpc order_id user flag metadata w =
      answered (cancel_order env order_id user (as_admin flag metadata) w)
