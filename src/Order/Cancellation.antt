-- ===== src/Order/Cancellation.antt =====
-- Who may cancel an order, and what a cancellation does (`OrderService.cancelOrder`,
-- `TypeOrmOrderRepository.cancel`).
use food_ordering_app.Prelude.{
  String, Bool, true, false, not, ◌&&◌, Option, none, some, if◌then◌else◌, ◌≡◌, refl, inl, inr,
  arith, eq_iff,
}
use food_ordering_app.Effect.{
  Result, ok, err, Error, not_found, forbidden, unprocessable, Result-cases,
}
use food_ordering_app.Domain.{cancelled, is_pending, is_cancelled}
use food_ordering_app.Order.Model.{Order, Env, World}
use food_ordering_app.Order.Repository.{find_order, save_status}
use food_ordering_app.Order.Service.{
  readable_order, cancel_found, cancel_order, is_hidden, is_foreign,
}
use food_ordering_app.Order.Tables.{cancel-some, refuses_cancel, restatused, find_order-save_at}
use food_ordering_app.Order.Lifecycle.Steps.{cancel_found-db}

module _ {Num C : Type 0} (env : Env Num C) where
  -- What `getOrder` and `cancelOrder` answer before they look at the status.
  abbrev pub access : Option Order → String → Bool → Result Order
  access none user as_admin = err (not_found "Order not found")
  access (some o) user as_admin =
      if is_hidden o as_admin
      then err (not_found "Order not found")
      else if is_foreign o user as_admin
      then err (forbidden "Order not found")
      else ok o

  readable_order-access :
      (id user : String) (as_admin : Bool) (w : World C)
      → readable_order id user as_admin w ≡ (access (find_order id w.db.orders) user as_admin, w)
  unfolding readable_order
  readable_order-access id user as_admin w = ground arith

  cancel_order-denied :
      (id user : String) (as_admin : Bool) (w : World C) {e : Error}
      → access (find_order id w.db.orders) user as_admin ≡ err e
      → cancel_order env id user as_admin w ≡ (err e, w)
  unfolding cancel_order
  cancel_order-denied id user as_admin w h =
      ground (arith, readable_order-access id user as_admin w)

  cancel_order-processed :
      (id user : String) (w : World C) {o : Order}
      → access (find_order id w.db.orders) user false ≡ ok o
      → is_pending o.status ≡ false
      → cancel_order env id user false w ≡ (err (unprocessable "Order already processed"), w)
  unfolding cancel_order
  cancel_order-processed id user w h p = ground (arith, readable_order-access id user false w)

  cancel_order-goes_on :
      (id user : String) (as_admin : Bool) (w : World C) {o : Order}
      → access (find_order id w.db.orders) user as_admin ≡ ok o
      → not as_admin && not (is_pending o.status) ≡ false
      → is_cancelled o.status ≡ false
      → cancel_order env id user as_admin w ≡ cancel_found env id as_admin w
  unfolding cancel_order
  cancel_order-goes_on id user as_admin w h p c =
      ground (arith, readable_order-access id user as_admin w)

  access-ok :
      (found : Option Order) (user : String) (o : Order)
      → access found user false ≡ ok o
      → (found ≡ some o) × (o.user_id ≡ user) × (o.soft_deleted ≡ false)
  access-ok none user o h = cc
  access-ok (some x) user o h = ground (arith, eq_iff x.user_id user)

  -- A customer who names an order that is missing, deleted, somebody else's or no longer pending is
  -- refused, and nothing happens.
  pub cancel_order-refuses :
      (id user : String) (w : World C)
      → ((o : Order)
          → find_order id w.db.orders ≡ some o
          → o.user_id ≡ user
          → o.soft_deleted ≡ false
          → is_pending o.status ≡ false)
      → (e : Error) × (cancel_order env id user false w ≡ (err e, w))
  cancel_order-refuses id user w h =
      elim (Result-cases (access (find_order id w.db.orders) user false)) [
        | inr (e, denied) ↦ (e, cancel_order-denied id user false w denied)
        | inl (o, fine) ↦
            let (found, own, kept) = access-ok (find_order id w.db.orders) user o fine in
            (
              unprocessable "Order already processed",
              cancel_order-processed id user w fine (h o found own kept),
            )
      ]

  cancel_found-some :
      (id : String) (as_admin : Bool) (w : World C) (o : Order)
      → find_order id w.db.orders ≡ some o
      → refuses_cancel env o as_admin ≡ false
      → find_order id (cancel_found env id as_admin w).1.db.orders
        ≡ some (restatused env w o cancelled (if as_admin then true else o.soft_deleted))
  unfolding save_status
  cancel_found-some id as_admin w o e p = rw (cancel_found-db env id as_admin w) (
      rw (cancel-some env id as_admin w e p) (
        find_order-save_at o
          (restatused env w o cancelled (if as_admin then true else o.soft_deleted)) id w.db.orders
          e refl))

  -- Who may cancel an order in this state.
  abbrev pub MayCancel : Order → String → Bool → Type 0
  MayCancel o user true = Unit
  MayCancel o user false =
      (o.user_id ≡ user) × (o.soft_deleted ≡ false) × (is_pending o.status ≡ true)

  may_access :
      (o : Order) (user : String) (as_admin : Bool) (found : Option Order)
      → found ≡ some o
      → MayCancel o user as_admin
      → (access found user as_admin ≡ ok o)
        × (not as_admin && not (is_pending o.status) ≡ false)
        × (refuses_cancel env o as_admin ≡ false)
  may_access o user true found e h = (ground arith, ground arith, ground arith)
  may_access o user false found e h =
      (ground (arith, eq_iff o.user_id user), ground arith, ground arith)

  -- The owner of a pending order, or an admin, cancels it: whether or not the event reaches Kafka,
  -- the stored order is cancelled, with a history entry more, and deleted exactly if an admin asked
  -- or it was deleted before.
  pub cancel_order-cancels :
      (id user : String) (as_admin : Bool) (w : World C) (o : Order)
      → find_order id w.db.orders ≡ some o
      → MayCancel o user as_admin
      → is_cancelled o.status ≡ false
      → find_order id (cancel_order env id user as_admin w).1.db.orders
        ≡ some (restatused env w o cancelled (if as_admin then true else o.soft_deleted))
  cancel_order-cancels id user as_admin w o e may c =
      let (fine, p, q) = may_access o user as_admin (find_order id w.db.orders) e may in
      rw (cancel_order-goes_on id user as_admin w fine p c) (cancel_found-some id as_admin w o e q)
