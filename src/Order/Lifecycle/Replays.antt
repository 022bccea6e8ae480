-- ===== src/Order/Lifecycle/Replays.antt =====
-- What is remembered under an idempotency key (the table of keys, written by `placeOrder` of
-- apps/order/src/infrastructure/persistence/typeorm.repositories.ts) through the life of the service.
use food_ordering_app.Prelude.{
  String, Bool, false, some, ◌≡◌, ◌∙◌, ap, inl, inr, arith, eq_iff, refl, Bool-cases, Option-cases,
}
use food_ordering_app.Effect.{ok}
use food_ordering_app.Text.{is_blank}
use food_ordering_app.Domain.{PaymentType, is_pending}
use food_ordering_app.Order.Model.{PlaceOrderResult, PaymentStatus, Env, World, PlaceOrderInput}
use food_ordering_app.Order.Repository.{find_order, save_status, cancel, mark_status}
use food_ordering_app.Order.Service.{parse_payment_type, place_order}
use food_ordering_app.Order.Settlement.{status_of}
use food_ordering_app.Order.Tables.{
  cancel-none, cancel-some, refuses_cancel, mark_status-none, mark_status-settled,
  mark_status-pending,
}
use food_ordering_app.Order.Placement.{place_order-Placement}
use food_ordering_app.Order.Placement.Atomic.{IsPlaced, place_order-atomic}
use food_ordering_app.Order.Placement.Effects.{place_order-remembers, replay}
use food_ordering_app.Order.Lifecycle.{
  Step, place, cancel_by, charged, recorded, relayed, elsewhere, Reach, here, next,
}
use food_ordering_app.Order.Lifecycle.Steps.{
  charge_pending-db, cancel-unchanged, cancel_order-db, record_payment-db, tick-view,
}

module _ {Num C : Type 0} (env : Env Num C) where
  -- The table of keys holds this answer.
  abbrev Remembers : String → PlaceOrderResult → World C → Type 0
  Remembers key r w = w.db.idempotency key ≡ some r

  cancel-keys :
      (id : String) (flag : Bool) (w : World C)
      → (cancel env id flag w).1.db.idempotency ≡ w.db.idempotency
  unfolding save_status
  cancel-keys id flag w = elim (Option-cases (find_order id w.db.orders)) [
    | inl e ↦ rw (cancel-none env id flag w e) refl
    | inr (o, e) ↦ elim (Bool-cases (refuses_cancel env o flag)) [
      | inr fine ↦ rw (cancel-some env id flag w e fine) refl
      | inl refused ↦ ap (λ d. d.idempotency) (cancel-unchanged env id flag w e refused)
    ]
  ]

  mark_status-keys :
      (id : String) (p : PaymentStatus) (w : World C)
      → (mark_status env id (status_of p) w).1.db.idempotency ≡ w.db.idempotency
  unfolding save_status
  mark_status-keys id p w = elim (Option-cases (find_order id w.db.orders)) [
    | inl e ↦ rw (mark_status-none env id (status_of p) w e) refl
    | inr (o, e) ↦ elim (Bool-cases (is_pending o.status)) [
      | inr settled ↦ rw (mark_status-settled env id (status_of p) w e settled) refl
      | inl pend ↦ rw (mark_status-pending env id (status_of p) w e pend) refl
    ]
  ]

  IsPlaced-Remembers :
      (input : PlaceOrderInput) (key : String) (r : PlaceOrderResult) (w : World C)
      → IsPlaced env input w (place_order env input w)
      → Remembers key r w
      → Remembers key r (place_order env input w).1
  IsPlaced-Remembers input key r w h known =
      ap (λ d. d.idempotency key) h.written
      ∙ ground (arith, h.key, h.unknown, eq_iff h.d.idempotency_key key)

  Step-Remembers :
      (key : String) (r : PlaceOrderResult) {w v : World C}
      → Step env w v
      → Remembers key r w
      → Remembers key r v
  Step-Remembers key r {w} (place input e) known = rw e (elim (place_order-atomic env input w) [
    | inl (same, _) ↦ ap (λ d. d.idempotency key) same ∙ known
    | inr h ↦ IsPlaced-Remembers input key r w h known
  ])
  Step-Remembers key r {w} (cancel_by id user flag e) known =
      rw e (elim (cancel_order-db env id user flag w) [
        | inl k ↦ ap (λ d. d.idempotency key) k ∙ known
        | inr k ↦ ap (λ d. d.idempotency key) k ∙ ap (λ f. f key) (cancel-keys id flag w) ∙ known
      ])
  Step-Remembers key r {w} (charged id e) known =
      rw e (ap (λ d. d.idempotency key) (charge_pending-db env id w) ∙ known)
  Step-Remembers key r {w} (recorded id p e) known = rw e (
      ap (λ d. d.idempotency key) (record_payment-db env id p w)
      ∙ ap (λ f. f key) (mark_status-keys id p w)
      ∙ known)
  Step-Remembers key r {w} (relayed e) known =
      rw e (tick-view env (λ d. d.idempotency key) (λ d o. refl) w ∙ known)
  Step-Remembers key r {w} (elsewhere c locks n e) known = rw e known

  Reach-Remembers :
      (key : String) (r : PlaceOrderResult) {w v : World C}
      → Reach env w v
      → Remembers key r w
      → Remembers key r v
  Reach-Remembers key r here known = known
  Reach-Remembers key r (next steps step) known =
      Step-Remembers key r step (Reach-Remembers key r steps known)

  -- Once a call of `placeOrder` succeeded under an idempotency key, every later well-formed call with
  -- that key, whatever steps of the service came in between, gives the same answer and changes
  -- nothing: no second order, event, lock or cart call.
  pub place_order-replays :
      (input again : PlaceOrderInput) (t : PaymentType) (w v : World C) (r : PlaceOrderResult)
      → (place_order env input w).0 ≡ ok r
      → Reach env (place_order env input w).1 v
      → again.idempotency_key ≡ input.idempotency_key
      → is_blank again.user_id ≡ false
      → is_blank again.idempotency_key ≡ false
      → parse_payment_type again.payment_type ≡ ok t
      → place_order env again v ≡ (ok r, v)
  place_order-replays input again t w v r h steps same u k p = replay env again t v u k p (
      rw same (
        Reach-Remembers input.idempotency_key r steps (
          place_order-remembers env input w (place_order env input w)
            (place_order-Placement env input w) h)))
