-- ===== src/Cart/Controller.antt =====
-- `CartGrpcController` (apps/cart/src/interface/grpc/cart.grpc.controller.ts). The mapping of a cart to
-- a message copies field by field and is the identity here.
use food_ordering_app.Prelude.{ℕ, String, Option, none, some, if◌then◌else◌, nat_eq}
use food_ordering_app.Prelude.Int.{ℤ}
use food_ordering_app.Effect.{Error, http_status, message}
use food_ordering_app.Grpc.{
  GrpcStatus, invalid_argument, not_found, failed_precondition, internal, RpcException, Reply,
  replied,
}
use food_ordering_app.Cart.Model.{CartDto, World, Env}
use food_ordering_app.Cart.Service.{
  get_cart, add_item, update_item, remove_item, clear_cart, price_cart,
}

-- The code for an HTTP status; the last case is any other.
unfoldable pub code_of : Option ℕ → GrpcStatus
code_of none = internal
code_of (some n) =
    if nat_eq n 400
    then invalid_argument
    else if nat_eq n 404
    then not_found
    else if nat_eq n 422
    then failed_precondition
    else internal

unfoldable pub to_rpc : Error → RpcException
unfolding http_status code_of message
to_rpc e = record { code = code_of (http_status e); message = food_ordering_app.Effect.message e }

module _ {Num : Type 0} (env : Env Num) where
  unfoldable pub get_cart_rpc : String → World → Reply CartDto × World
  get_cart_rpc user w = replied to_rpc (λ c. c) (get_cart env user w)

  unfoldable pub add_item_rpc : String → String → String → ℤ → World → Reply CartDto × World
  add_item_rpc user product variant quantity w =
      replied to_rpc (λ c. c) (add_item env user product variant quantity w)

  unfoldable pub update_item_rpc : String → String → String → ℤ → World → Reply CartDto × World
  update_item_rpc user product variant quantity w =
      replied to_rpc (λ c. c) (update_item env user product variant quantity w)

  unfoldable pub remove_item_rpc : String → String → String → World → Reply CartDto × World
  remove_item_rpc user product variant w =
      replied to_rpc (λ c. c) (remove_item env user product variant w)

  unfoldable pub clear_cart_rpc : String → World → Reply CartDto × World
  clear_cart_rpc user w = replied to_rpc (λ c. c) (clear_cart env user w)

  unfoldable pub price_cart_rpc : String → World → Reply CartDto × World
  price_cart_rpc user w = replied to_rpc (λ c. c) (price_cart env user w)
