-- ===== src/Order/Lifecycle.antt =====
-- The life of an order under every sequence of requests and worker steps
-- (apps/order/src/application/order.service.ts, infrastructure/messaging/kafka.workers.ts). A step
-- is one method's run; `finalizeOrder` is two, since other requests may run while the payment
-- provider answers.
pub mod Steps
pub mod Evolution
pub mod Soundness
pub mod Replays
use food_ordering_app.Prelude.{ℕ, String, Bool, Option, ◌≡◌, true, false}
use food_ordering_app.Order.Model.{Env, World, PlaceOrderInput, PaymentStatus}
use food_ordering_app.Order.Service.{place_order, cancel_order}
use food_ordering_app.Order.Settlement.{charge_pending, record_payment, tick}

module _ {Num C : Type 0} (env : Env Num C) where
  -- One request, or one part of a worker's round; `elsewhere` is what the other services, Redis and
  -- the clock do on their own.
  pub data Step (w : World C) (w' : World C) : Type 0 where
    place : (input : PlaceOrderInput) → w' ≡ (place_order env input w).1 → Step w w'
    cancel_by :
        (order_id user : String) (as_admin : Bool)
        → w' ≡ (cancel_order env order_id user as_admin w).1
        → Step w w'
    charged : (order_id : String) → w' ≡ (charge_pending env order_id w).1 → Step w w'
    recorded :
        (order_id : String) (p : PaymentStatus)
        → w' ≡ (record_payment env order_id p w).1
        → Step w w'
    relayed : w' ≡ (tick env w).1 → Step w w'
    elsewhere :
        (c : C) (locks : String → Option ℕ) (n : ℕ)
        → w' ≡ record w { remote = c; locks = locks; draws = n }
        → Step w w'

  pub data Reach (w : World C) : World C → Type 0 where
    here : Reach w w
    next : {u v : World C} → Reach w u → Step u v → Reach w v
