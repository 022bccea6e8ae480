-- ===== src/Order/Service.antt =====
-- `OrderService` (apps/order/src/application/order.service.ts), method by method.
use food_ordering_app.Prelude.{
  String, Bool, true, false, not, ◌&&◌, ◌||◌, Option, none, some, List, [], ◌∷◌, ◌++◌, ◌==◌,
  if◌then◌else◌,
}
use food_ordering_app.Effect.{
  Result, ok, err, not_found, validation, unprocessable, forbidden, Action, pure, raise, raise_if,
  lift, finally, ◌>>=◌, ◌>>◌,
}
use Prim.Native.String
use food_ordering_app.Text.{is_blank}
use food_ordering_app.Domain.{
  cancelled, PaymentType, cod, card, Topic, Payload, is_pending, is_cancelled, PricedLine,
}
use food_ordering_app.Order.Model.{
  Order, PlaceOrderResult, CartLine, ResolvedLine, Env, World, PlaceOrderInput, OrderDraft,
}
use food_ordering_app.Order.Repository.{find_idempotency, find_by_id, place_order_row, cancel}
use food_ordering_app.Order.Ports.{acquire, release, publish_event}

-- The enum's values are `COD` and `Card`, so the second test of each pair adds nothing.
unfoldable pub parse_payment_type : String → Result PaymentType
parse_payment_type value =
    if value == "COD" || value == "COD"
    then ok cod
    else if value == "Card" || value == "Card"
    then ok card
    else err (validation "paymentType must be COD or Card")

unfoldable pub unavailable : CartLine → String
unavailable item =
    String.◌++◌ "Sorry, " (String.◌++◌ item.label " is no longer available. Remove it?")

abbrev pub priced_line : CartLine → ResolvedLine → PricedLine
priced_line item r = record {
  product_id = item.product_id;
  variant_id = item.variant_id;
  product_name_snapshot = r.product_name;
  variant_label_snapshot = r.label;
  unit_price_snapshot = r.unit_price;
  quantity = item.quantity;
}

-- The variant of a cart line, if the catalog has it and it is active.
abbrev pub available : CartLine → Option ResolvedLine → Result ResolvedLine
available item none = err (unprocessable (unavailable item))
available item (some r) = if r.is_active then ok r else err (unprocessable (unavailable item))

abbrev pub has_items : List CartLine → Bool
has_items [] = false
has_items (_ ∷ _) = true

abbrev pub is_hidden : Order → Bool → Bool
is_hidden o as_admin = o.soft_deleted && not as_admin

abbrev pub is_foreign : Order → String → Bool → Bool
is_foreign o user as_admin = not as_admin && not (o.user_id == user)

module _ {C : Type 0} where
  -- The checks with which `getOrder` and `cancelOrder` begin.
  unfoldable pub readable_order : String → String → Bool → Action (World C) Order
  unfolding find_by_id
  readable_order order_id user as_admin = do
    found ← find_by_id order_id
    elim found [
      | none ↦ raise (not_found "Order not found")
      | some o ↦
          raise_if (is_hidden o as_admin) (not_found "Order not found")
          >> raise_if (is_foreign o user as_admin) (forbidden "Order not found")
          >> pure o
    ]

  unfoldable pub get_order : String → String → Bool → Action (World C) Order
  unfolding readable_order
  get_order order_id user as_admin = readable_order order_id user as_admin

module _ {Num C : Type 0} (env : Env Num C) where
  open env use {numbers, gateways, charge}

  -- The loop of `placeOrder` over the cart, with its array `lines` and its `total`.
  unfoldable pub price_lines :
      C → List CartLine → List PricedLine → Num → Result (List PricedLine × Num)
  price_lines c [] lines total = ok (lines, total)
  price_lines c (item ∷ items) lines total =
      elim (gateways.resolve_line item.product_id item.variant_id c) [
        | err e ↦ err e
        | ok found ↦ elim (available item found) [
          | err e ↦ err e
          | ok r ↦
              price_lines c items (lines ++ (priced_line item r ∷ []))
                (numbers.add total (numbers.times (numbers.number r.unit_price) item.quantity))
        ]
      ]

  abbrev pub draft : PlaceOrderInput → PaymentType → List PricedLine × Num → OrderDraft
  draft input payment_type (lines, total) = record {
    user_id = input.user_id;
    payment_type = payment_type;
    idempotency_key = input.idempotency_key;
    lines = lines;
    total = numbers.to_fixed total;
  }

  -- `placeOrder` from the insert on.
  unfoldable pub place_and_clear : OrderDraft → Action (World C) PlaceOrderResult
  unfolding place_order_row
  place_and_clear d = do
    result ← place_order_row env d
    (λ w. let (r, c) = gateways.clear_cart d.user_id w.remote in (r, record w { remote = c }))
    pure result

  -- `placeOrder` from the call of the cart service on.
  unfoldable pub order_from_cart : PlaceOrderInput → PaymentType → Action (World C) PlaceOrderResult
  unfolding price_lines place_and_clear
  order_from_cart input payment_type = do
    cart ← λ w. (gateways.get_cart input.user_id w.remote, w)
    raise_if (not (has_items cart.items)) (unprocessable "Your cart is empty.")
    priced ← λ w. (price_lines w.remote cart.items [] numbers.nothing, w)
    place_and_clear (draft input payment_type priced)

  -- The body of the `try` block.
  unfoldable pub locked_checkout : PlaceOrderInput → PaymentType → Action (World C) PlaceOrderResult
  unfolding order_from_cart find_idempotency
  locked_checkout input payment_type = do
    again ← find_idempotency input.idempotency_key
    elim again [ some r ↦ pure r | none ↦ order_from_cart input payment_type ]

  unfoldable pub checkout : PlaceOrderInput → PaymentType → Action (World C) PlaceOrderResult
  unfolding locked_checkout release
  checkout input payment_type = do
    locked ← acquire env input.user_id 5000
    raise_if (not locked) (unprocessable "Checkout already in progress")
    finally (locked_checkout input payment_type) (release input.user_id)

  unfoldable pub place_order : PlaceOrderInput → Action (World C) PlaceOrderResult
  unfolding checkout find_idempotency parse_payment_type
  place_order input = do
    raise_if (is_blank input.user_id) (validation "userId is required")
    raise_if (is_blank input.idempotency_key) (validation "idempotencyKey is required")
    payment_type ← lift (parse_payment_type input.payment_type)
    existing ← find_idempotency input.idempotency_key
    elim existing [ some r ↦ pure r | none ↦ checkout input payment_type ]

  -- `cancelOrder` from the call of the repository on.
  unfoldable pub cancel_found : String → Bool → Action (World C) Order
  cancel_found order_id as_admin = do
    updated ← cancel env order_id as_admin
    publish_event env Topic.order_status_changed updated.user_id
        (Payload.status_changed updated.id updated.user_id cancelled)
    pure updated

  unfoldable pub cancel_order : String → String → Bool → Action (World C) Order
  cancel_order order_id user as_admin = do
    order ← readable_order order_id user as_admin
    raise_if (not as_admin && not (is_pending order.status))
        (unprocessable "Order already processed")
    (if is_cancelled order.status then pure order else cancel_found order_id as_admin)
