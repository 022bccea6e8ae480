-- ===== src/Order/Settlement.antt =====
-- `listMyOrders`, `listAllOrders` and `finalizeOrder` of `OrderService`
-- (apps/order/src/application/order.service.ts), and the workers that call them
-- (apps/order/src/infrastructure/messaging/kafka.workers.ts).
use food_ordering_app.Prelude.{
  ℕ, ◌+◌, String, Option, none, some, List, [], ◌∷◌, ◌++◌, if◌then◌else◌, ◌==◌, min, max, map,
  or_else, length,
}
use food_ordering_app.Prelude.Int.{ℤ, to_nat}
use food_ordering_app.Effect.{ok, err, Action, pure, for_each, ◌>>=◌, ◌>>◌}
use food_ordering_app.Domain.{OrderStatus, Topic, Payload, Envelope, payload_order_id, is_pending}
use food_ordering_app.Order.Model.{Order, OrderSummary, PaymentStatus, OutboxRow, Env, World}
use food_ordering_app.Order.Repository.{
  find_by_id, mark_status, list_by_user, list_all, claim_outbox_batch, mark_outbox_published,
}
use food_ordering_app.Order.Ports.{publish, publish_event}

-- `Math.max(1, page)`
unfoldable pub safe_page : ℤ → ℕ
safe_page page = max 1 (to_nat page)

-- `Math.min(Math.max(1, limit), 50)`
unfoldable pub safe_limit : ℤ → ℕ
safe_limit limit = min (max 1 (to_nat limit)) 50

pub record OrderPage : Type 0 where
  pub items : List OrderSummary
  pub total : ℕ
  pub page : ℕ
  pub limit : ℕ

abbrev pub paged : ℕ → ℕ → List OrderSummary × ℕ → OrderPage
paged page limit (items, total) = record {
  items = items;
  total = total;
  page = page;
  limit = limit;
}

abbrev pub status_of : PaymentStatus → OrderStatus
status_of PaymentStatus.paid = OrderStatus.paid
status_of PaymentStatus.failed = OrderStatus.failed

abbrev pub settled_topic : PaymentStatus → Topic
settled_topic PaymentStatus.paid = Topic.order_paid
settled_topic PaymentStatus.failed = Topic.order_failed

-- The message for a row of the outbox.
unfoldable pub relay_envelope : OutboxRow → ℕ → Envelope
unfolding payload_order_id
relay_envelope row at = record {
  event_id = row.id;
  topic = row.event;
  key = or_else (payload_order_id row.payload) row.id;
  payload = row.payload;
  trace_id = none;
  occurred_at = at;
}

module _ {Num C : Type 0} (env : Env Num C) where
  open env use {clock, charge}

  unfoldable pub list_my_orders : String → ℤ → ℤ → Action (World C) OrderPage
  unfolding list_by_user safe_page safe_limit
  list_my_orders user page limit = do
    found ← list_by_user env user (safe_page page) (safe_limit limit)
    pure (paged (safe_page page) (safe_limit limit) found)

  unfoldable pub list_all_orders : ℤ → ℤ → Action (World C) OrderPage
  unfolding list_all safe_page safe_limit
  list_all_orders page limit = do
    found ← list_all env (safe_page page) (safe_limit limit)
    pure (paged (safe_page page) (safe_limit limit) found)

  -- `finalizeOrder` up to the answer of the payment provider; nothing for an order that is not
  -- pending.
  unfoldable pub charge_pending : String → Action (World C) (Option PaymentStatus)
  unfolding find_by_id
  charge_pending order_id = do
    found ← find_by_id order_id
    elim found [
      | none ↦ pure none
      | some o ↦
          if is_pending o.status
          then (λ w. elim (charge o.id o.user_id o.total o.payment_type) [
            | ok p ↦ (ok (some p), record w { charged = w.charged ++ (o.id ∷ []) })
            | err e ↦ (err e, w)
          ])
          else pure none
    ]

  -- The two events at the end of `finalizeOrder`; their status is the provider's answer, not the
  -- one of the updated order.
  unfoldable pub announce : PaymentStatus → Order → Action (World C) (Unit {0})
  announce p updated = do
    publish_event env Topic.order_status_changed updated.user_id
        (Payload.status_changed updated.id updated.user_id (status_of p))
    publish_event env (settled_topic p) updated.id
        (Payload.settled updated.id updated.user_id updated.total)

  -- The rest of `finalizeOrder`: other requests may have run in between.
  unfoldable pub record_payment : String → PaymentStatus → Action (World C) (Unit {0})
  record_payment order_id p = do
    updated ← mark_status env order_id (status_of p)
    announce p updated

  unfoldable pub finalize_order : String → Action (World C) (Unit {0})
  finalize_order order_id = do
    payment ← charge_pending order_id
    elim payment [ none ↦ pure tt | some p ↦ record_payment order_id p ]

  -- `OrderFinalizerWorker`'s `eachMessage` on the payload of a parsed message: a failure is logged
  -- and swallowed.
  unfoldable pub on_message : Payload → World C → World C
  unfolding payload_order_id
  on_message m w = elim (payload_order_id m) [
    | none ↦ w
    | some id ↦ if id == "" then w else (finalize_order id w).1
  ]

  -- The body of the loop of `OutboxRelay.tick`.
  unfoldable pub relay_row : OutboxRow → Action (World C) (Unit {0})
  relay_row row w =
      publish env (relay_envelope row (clock.now w.draws)) (record w { draws = w.draws + 1 })

  -- `OutboxRelay.tick` on the claimed rows.
  unfoldable pub relay_batch : List OutboxRow → Action (World C) ℕ
  relay_batch [] = pure 0
  relay_batch (r ∷ rows) = do
    for_each relay_row (r ∷ rows)
    mark_outbox_published env (map (λ x. x.id) (r ∷ rows))
    pure (length (r ∷ rows))

  -- `OutboxRelay.tick`
  unfoldable pub tick : Action (World C) ℕ
  tick = do batch ← claim_outbox_batch 50; relay_batch batch
