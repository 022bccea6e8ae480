-- ===== src/Order/Settling.antt =====
-- Settling an order (`OrderService.finalizeOrder`): it happens once, and what it announces.
use food_ordering_app.Prelude.{
  ◌+◌, String, true, false, none, some, List, [], ◌∷◌, ◌++◌, ◌≡◌, refl, sym, ◌∙◌, ap, inl, inr,
  arith, Option-cases,
}
use food_ordering_app.Effect.{ok}
use food_ordering_app.Domain.{is_pending, Topic, Payload, Envelope, payloads}
use food_ordering_app.Order.Model.{Order, PaymentStatus, Env, World}
use food_ordering_app.Order.Repository.{find_order, save_status}
use food_ordering_app.Order.Ports.{publish_event, traced, event_at}
use mathlib.Core.List.{map-append, append_assoc}
use food_ordering_app.Order.Settlement.{
  charge_pending, announce, record_payment, finalize_order, status_of, settled_topic,
}
use food_ordering_app.Order.Tables.{
  mark_status-pending, mark_status-settled, restatused, find_order-save_at,
}
use food_ordering_app.Order.Lifecycle.Steps.{record_payment-db}

module _ {Num C : Type 0} (env : Env Num C) where
  open env use {clock, broker, charge}

  charge_pending-idle :
      (id : String) (w : World C)
      → ((o : Order) → find_order id w.db.orders ≡ some o → is_pending o.status ≡ false)
      → charge_pending env id w ≡ (ok none, w)
  unfolding charge_pending
  charge_pending-idle id w h = elim (Option-cases (find_order id w.db.orders)) [
    | inl e ↦ ground arith
    | inr (o, e) ↦ ground (arith, h o e)
  ]

  -- An order that is missing or no longer pending is not charged, not changed and not announced.
  finalize_order-idle :
      (id : String) (w : World C)
      → ((o : Order) → find_order id w.db.orders ≡ some o → is_pending o.status ≡ false)
      → finalize_order env id w ≡ (ok tt, w)
  unfolding finalize_order
  finalize_order-idle id w h = ground (arith, charge_pending-idle id w h)

  record_payment-settles :
      (id : String) (p : PaymentStatus) (w : World C) (o : Order)
      → find_order id w.db.orders ≡ some o
      → is_pending o.status ≡ true
      → find_order id (record_payment env id p w).1.db.orders
        ≡ some (restatused env w o (status_of p) o.soft_deleted)
  unfolding save_status
  record_payment-settles id p w o e pend = rw (record_payment-db env id p w) (
      rw (mark_status-pending env id (status_of p) w e pend) (
        find_order-save_at o (restatused env w o (status_of p) o.soft_deleted) id w.db.orders e
          refl))

  charge_pending-asks :
      (id : String) (w : World C) (o : Order) (p : PaymentStatus)
      → find_order id w.db.orders ≡ some o
      → is_pending o.status ≡ true
      → charge o.id o.user_id o.total o.payment_type ≡ ok p
      → charge_pending env id w ≡ (ok (some p), record w { charged = w.charged ++ (o.id ∷ []) })
  unfolding charge_pending
  charge_pending-asks id w o p e pend k = ground arith

  finalize_order-runs :
      (id : String) (w : World C) (o : Order) (p : PaymentStatus)
      → find_order id w.db.orders ≡ some o
      → is_pending o.status ≡ true
      → charge o.id o.user_id o.total o.payment_type ≡ ok p
      → finalize_order env id w
        ≡ record_payment env id p (record w { charged = w.charged ++ (o.id ∷ []) })
  unfolding finalize_order
  finalize_order-runs id w o p e pend k = ground (arith, charge_pending-asks id w o p e pend k)

  settled_ne_pending : (p : PaymentStatus) → is_pending (status_of p) ≡ false
  settled_ne_pending PaymentStatus.paid = refl
  settled_ne_pending PaymentStatus.failed = refl

  -- A pending order that the provider answers for is left with the status of that answer, whether or
  -- not its events reach Kafka, and finalizing it again does nothing: no second charge or event.
  pub finalize_order-once :
      (id : String) (w : World C) (o : Order) (p : PaymentStatus)
      → find_order id w.db.orders ≡ some o
      → is_pending o.status ≡ true
      → charge o.id o.user_id o.total o.payment_type ≡ ok p
      → let w' = (finalize_order env id w).1 in
        (find_order id w'.db.orders ≡ some (restatused env w o (status_of p) o.soft_deleted))
        × (finalize_order env id w' ≡ (ok tt, w'))
  finalize_order-once id w o p e pend k =
      let w₁ : World C = record w { charged = w.charged ++ (o.id ∷ []) } in
      let found = record_payment-settles id p w₁ o e pend in
      let run = ap (λ z. z.1) (finalize_order-runs id w o p e pend k) in
      let found' : find_order id (finalize_order env id w).1.db.orders
          ≡ some (restatused env w o (status_of p) o.soft_deleted) =
        rw run found in
      (
        found',
        finalize_order-idle id (finalize_order env id w).1
            (λ x at. settled_again p o x (some_inj (sym at ∙ found'))),
      )
    where
      some_inj : {a b : Order} → some a ≡ some b → a ≡ b
      some_inj h = cc

      settled_again :
          (q : PaymentStatus) (a x : Order)
          → x ≡ restatused env w a (status_of q) a.soft_deleted
          → is_pending x.status ≡ false
      settled_again q a x h = ap (λ y. is_pending y.status) h ∙ settled_ne_pending q

  -- Kafka takes every message.
  abbrev pub TakesAll : Type 0
  TakesAll = (broker.connected ≡ true) × ((m : Envelope) → broker.send m ≡ ok tt)

  publish_event-sends :
      (t : Topic) (key : String) (m : Payload) (w : World C)
      → TakesAll
      → publish_event env t key m w ≡ (
        ok tt,
        record w {
          sent = w.sent ++ (traced env (event_at env w.draws t key m) ∷ []);
          draws = w.draws + 2;
        },
      )
  unfolding publish_event
  publish_event-sends t key m w (on, accepts) =
      ground (arith, accepts (traced env (event_at env w.draws t key m)))

  -- The payloads of the two events about a settled order.
  abbrev pub announced : PaymentStatus → Order → List Payload
  announced p o =
      Payload.status_changed o.id o.user_id (status_of p)
      ∷ Payload.settled o.id o.user_id o.total
      ∷ []

  announce-eq :
      (p : PaymentStatus) (o : Order) (w : World C)
      → TakesAll
      → (announce env p o w).1.sent
        ≡ (w.sent
            ++ (traced env (
                  event_at env w.draws Topic.order_status_changed o.user_id
                    (Payload.status_changed o.id o.user_id (status_of p)))
                ∷ []))
          ++ (traced env (
                event_at env
                  (w.draws + 2)
                  (settled_topic p)
                  o.id
                  (Payload.settled o.id o.user_id o.total))
              ∷ [])
  unfolding announce
  announce-eq p o w all =
      let m = Payload.status_changed o.id o.user_id (status_of p) in
      let first = publish_event-sends Topic.order_status_changed o.user_id m w all in
      let w₁ : World C = record w {
        sent =
            w.sent
            ++ (traced env (event_at env w.draws Topic.order_status_changed o.user_id m) ∷ []);
        draws = w.draws + 2;
      } in
      ground (
        arith,
        first,
        publish_event-sends (settled_topic p) o.id (Payload.settled o.id o.user_id o.total) w₁ all,
      )

  announce-sends :
      (p : PaymentStatus) (o : Order) (w : World C)
      → TakesAll
      → payloads (announce env p o w).1.sent ≡ payloads w.sent ++ announced p o
  announce-sends p o w all = rw (announce-eq p o w all) (simp (map-append, append_assoc))

  -- If the order stopped being pending while the provider answered, such as by a cancellation, and
  -- Kafka takes every message, the tables are left alone, and yet the events say that the order has
  -- the status of the answer.
  pub record_payment-late :
      (id : String) (p : PaymentStatus) (w : World C) (o : Order)
      → TakesAll
      → find_order id w.db.orders ≡ some o
      → is_pending o.status ≡ false
      → let w' = (record_payment env id p w).1 in
        (w'.db ≡ w.db) × (payloads w'.sent ≡ payloads w.sent ++ announced p o)
  unfolding record_payment
  record_payment-late id p w o all e settled =
      let same = mark_status-settled env id (status_of p) w e settled in
      (
        record_payment-db env id p w ∙ ap (λ z. z.1.db) same,
        ground (arith, same, announce-sends p o w all),
      )
