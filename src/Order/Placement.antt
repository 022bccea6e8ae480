-- ===== src/Order/Placement.antt =====
-- Placing an order (`OrderService.placeOrder`, `TypeOrmOrderRepository.placeOrder`): what a call
-- answers, and what it leaves in the tables, in the cart and in the checkout lock.
pub mod Pricing
pub mod Effects
pub mod Atomic
use food_ordering_app.Prelude.{
  ℕ, ◌+◌, String, Bool, true, false, not, ◌&&◌, ◌||◌, Option, none, some, List, [], ◌∷◌, ◌++◌, ◌==◌,
  if◌then◌else◌, ◌≡◌, refl, ◌⊎◌, inl, inr, arith, eq_iff, eq_refl, Bool-cases, Option-cases,
}
use food_ordering_app.Effect.{
  Result, ok, err, finally, Error, validation, unprocessable, Result-cases,
}
use food_ordering_app.Text.{is_blank}
use food_ordering_app.Domain.{PaymentType, PricedLine}
use food_ordering_app.Order.Model.{
  Order, PlaceOrderResult, CartLine, CartSnapshot, ResolvedLine, Database, Env, World,
  PlaceOrderInput, OrderDraft,
}
use food_ordering_app.Order.Repository.{
  write, new_order, created_row, response_of, insert_order, place_order_row, find_idempotency,
  inserted,
}
use food_ordering_app.Order.Ports.{acquire, release, is_held}
use food_ordering_app.Order.Service.{
  parse_payment_type, priced_line, has_items, price_lines, draft, order_from_cart, locked_checkout,
  checkout, place_order, place_and_clear,
}

module _ {Num C : Type 0} (env : Env Num C) where
  open env use {numbers, gateways, clock}

  -- The repository's own check of the key.
  place_order_row-old :
      (d : OrderDraft) (w : World C) {r : PlaceOrderResult}
      → w.db.idempotency d.idempotency_key ≡ some r
      → place_order_row env d w ≡ (ok r, w)
  unfolding place_order_row
  place_order_row-old d w e = ground arith

  place_order_row-new :
      (d : OrderDraft) (w : World C)
      → w.db.idempotency d.idempotency_key ≡ none
      → place_order_row env d w ≡ (ok (response_of (new_order clock w.draws d)), inserted env d w)
  unfolding place_order_row
  place_order_row-new d w e = ground arith

  -- The state after the insert, with what the cart service made of `clearCart`.
  abbrev pub cleared : OrderDraft → World C → World C
  cleared d w = record (inserted env d w) { remote = (gateways.clear_cart d.user_id w.remote).1 }

  -- The answer for a new order: a failure of `clearCart` replaces it.
  abbrev pub answer : OrderDraft → World C → Result PlaceOrderResult
  answer d w = elim (gateways.clear_cart d.user_id w.remote).0 [
    | ok _ ↦ ok (response_of (new_order clock w.draws d))
    | err e ↦ err e
  ]

  place_and_clear-new :
      (d : OrderDraft) (w : World C)
      → w.db.idempotency d.idempotency_key ≡ none
      → place_and_clear env d w ≡ (answer d w, cleared d w)
  unfolding place_and_clear
  place_and_clear-new d w e = ground (arith, place_order_row-new d w e)

  -- From the call of the cart service on: nothing is written, or the whole order is.
  pub data FromCart (input : PlaceOrderInput) (t : PaymentType) (w : World C)
      (p : Result PlaceOrderResult × World C) : Type 0 where
    refused : (e : Error) → p ≡ (err e, w) → FromCart input t w p
    placed :
        (snap : CartSnapshot) (priced : List PricedLine × Num)
        → gateways.get_cart input.user_id w.remote ≡ ok snap
        → has_items snap.items ≡ true
        → price_lines env w.remote snap.items [] numbers.nothing ≡ ok priced
        → p ≡ (answer (draft env input t priced) w, cleared (draft env input t priced) w)
        → FromCart input t w p

  order_from_cart-FromCart :
      (input : PlaceOrderInput) (t : PaymentType) (w : World C)
      → w.db.idempotency input.idempotency_key ≡ none
      → FromCart input t w (order_from_cart env input t w)
  unfolding order_from_cart
  order_from_cart-FromCart input t w e =
      elim (Result-cases (gateways.get_cart input.user_id w.remote)) [
        | inr (x, gone) ↦ refused x (ground arith)
        | inl (snap, got) ↦ elim (Bool-cases (has_items snap.items)) [
          | inr empty ↦ refused (unprocessable "Your cart is empty.") (ground arith)
          | inl full ↦
              elim (Result-cases (price_lines env w.remote snap.items [] numbers.nothing)) [
                | inr (x, gone) ↦ refused x (ground arith)
                | inl (priced, p) ↦
                    placed snap priced got full p
                      (ground (arith, place_and_clear-new (draft env input t priced) w e))
              ]
        ]
      ]

  abbrev pub now_at : World C → ℕ
  now_at w = clock.now w.draws

  abbrev pub locked : String → World C → World C
  locked user w = record w {
    locks = write user (some (now_at w + 5000)) w.locks;
    draws = w.draws + 1;
  }

  abbrev pub unlocked : String → World C → World C
  unlocked user w = record w { locks = write user none w.locks }

  -- The ways a call of `placeOrder` may end.
  pub data Placement (input : PlaceOrderInput) (w : World C) (p : Result PlaceOrderResult × World C)
      : Type 0 where
    rejected : (e : Error) → p ≡ (err e, w) → Placement input w p
    replayed :
        (r : PlaceOrderResult)
        → w.db.idempotency input.idempotency_key ≡ some r
        → p ≡ (ok r, w)
        → Placement input w p
    busy :
        w.db.idempotency input.idempotency_key ≡ none
        → is_held (now_at w) (w.locks input.user_id) ≡ true
        → p ≡ (err (unprocessable "Checkout already in progress"), record w { draws = w.draws + 1 })
        → Placement input w p
    ran :
        (t : PaymentType) (q : Result PlaceOrderResult × World C)
        → parse_payment_type input.payment_type ≡ ok t
        → w.db.idempotency input.idempotency_key ≡ none
        → is_held (now_at w) (w.locks input.user_id) ≡ false
        → FromCart input t (locked input.user_id w) q
        → p ≡ (q.0, unlocked input.user_id q.1)
        → Placement input w p

  acquire-free :
      (user : String) (w : World C)
      → is_held (now_at w) (w.locks user) ≡ false
      → acquire env user 5000 w ≡ (ok true, locked user w)
  unfolding acquire
  acquire-free user w e = rw e

  acquire-held :
      (user : String) (w : World C)
      → is_held (now_at w) (w.locks user) ≡ true
      → acquire env user 5000 w ≡ (ok false, record w { draws = w.draws + 1 })
  unfolding acquire
  acquire-held user w e = rw e

  locked_checkout-new :
      (input : PlaceOrderInput) (t : PaymentType) (w : World C)
      → w.db.idempotency input.idempotency_key ≡ none
      → locked_checkout env input t w ≡ order_from_cart env input t w
  unfolding locked_checkout
  locked_checkout-new input t w e = ground arith

  checkout-free :
      (input : PlaceOrderInput) (t : PaymentType) (w : World C)
      → w.db.idempotency input.idempotency_key ≡ none
      → is_held (now_at w) (w.locks input.user_id) ≡ false
      → checkout env input t w ≡ (
        (order_from_cart env input t (locked input.user_id w)).0,
        unlocked input.user_id (order_from_cart env input t (locked input.user_id w)).1,
      )
  unfolding checkout
  checkout-free input t w e free = ground (
    arith,
    acquire-free input.user_id w free,
    locked_checkout-new input t (locked input.user_id w) e,
  )

  checkout-held :
      (input : PlaceOrderInput) (t : PaymentType) (w : World C)
      → is_held (now_at w) (w.locks input.user_id) ≡ true
      → checkout env input t w
        ≡ (err (unprocessable "Checkout already in progress"), record w { draws = w.draws + 1 })
  unfolding checkout
  checkout-held input t w held = ground (arith, acquire-held input.user_id w held)

  checkout-Placement :
      (input : PlaceOrderInput) (t : PaymentType) (w : World C)
      → parse_payment_type input.payment_type ≡ ok t
      → w.db.idempotency input.idempotency_key ≡ none
      → Placement input w (checkout env input t w)
  checkout-Placement input t w parsed e =
      elim (Bool-cases (is_held (now_at w) (w.locks input.user_id))) [
        | inl held ↦ busy e held (checkout-held input t w held)
        | inr free ↦
            ran t (order_from_cart env input t (locked input.user_id w)) parsed e free
              (order_from_cart-FromCart input t (locked input.user_id w) e)
              (checkout-free input t w e free)
      ]

  -- Every call of `placeOrder` ends in one of these ways.
  pub place_order-Placement :
      (input : PlaceOrderInput) (w : World C) → Placement input w (place_order env input w)
  unfolding place_order
  place_order-Placement input w = elim (Bool-cases (is_blank input.user_id)) [
    | inl e ↦ rejected (validation "userId is required") (ground arith)
    | inr u ↦ elim (Bool-cases (is_blank input.idempotency_key)) [
      | inl e ↦ rejected (validation "idempotencyKey is required") (ground arith)
      | inr k ↦ elim (Result-cases (parse_payment_type input.payment_type)) [
        | inr (x, e) ↦ rejected x (ground arith)
        | inl (t, parsed) ↦ elim (Option-cases (w.db.idempotency input.idempotency_key)) [
          | inr (r, e) ↦ replayed r e (ground arith)
          | inl e ↦
              let step : place_order env input w ≡ checkout env input t w = ground arith in
              rw step (checkout-Placement input t w parsed e)
        ]
      ]
    ]
  ]
