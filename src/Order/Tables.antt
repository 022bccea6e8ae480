-- ===== src/Order/Tables.antt =====
-- Looking up, adding and saving rows of ORDERS (`findOne`, `save` as
-- apps/order/src/infrastructure/persistence/typeorm.repositories.ts calls them), and what the
-- repository's and the publisher's operations do to the tables.
use food_ordering_app.Prelude.{
  ◌+◌, String, Bool, true, false, not, ◌&&◌, none, some, List, [], ◌∷◌, ◌++◌, ◌==◌, if◌then◌else◌,
  ◌≡◌, ◌≢◌, refl, sym, ◌∙◌, inl, inr, arith, eq_iff, eq_refl, All, Bool-cases,
}
use food_ordering_app.Effect.{ok, err, not_found, unprocessable}
use food_ordering_app.Domain.{
  OrderStatus, cancelled, is_pending, is_cancelled, Topic, Payload, Envelope,
}
use food_ordering_app.Order.Model.{Order, Env, World}
use food_ordering_app.Order.Repository.{
  find_order, save_order, save_status, cancel, mark_status, history_entry,
}
use food_ordering_app.Order.Ports.{publish, publish_event}

pub find_order-id :
    (id : String) (rows : List Order) (o : Order) → find_order id rows ≡ some o → o.id ≡ id
unfolding find_order
find_order-id id [] o h = cc
find_order-id id (r ∷ rows) o h = ground (arith, eq_iff r.id id, find_order-id id rows o)

pub find_order-append :
    (id : String) (rows more : List Order) (o : Order)
    → find_order id rows ≡ some o
    → find_order id (rows ++ more) ≡ some o
unfolding find_order
find_order-append id [] more o h = cc
find_order-append id (r ∷ rows) more o h = ground (arith, find_order-append id rows more o)

pub find_order-save_self :
    (o : Order) (rows : List Order) (old : Order)
    → find_order o.id rows ≡ some old
    → find_order o.id (save_order o rows) ≡ some o
unfolding find_order save_order
find_order-save_self o [] old h = cc
find_order-save_self o (r ∷ rows) old h =
    ground (arith, eq_refl o.id, find_order-save_self o rows old)

pub find_order-save_ne :
    (o : Order) (id : String) (rows : List Order)
    → id ≢ o.id
    → find_order id (save_order o rows) ≡ find_order id rows
unfolding find_order save_order
find_order-save_ne o id [] h = refl
find_order-save_ne o id (r ∷ rows) h =
    ground (arith, eq_iff r.id o.id, eq_iff r.id id, eq_iff o.id id, find_order-save_ne o id rows h)

pub find_order-save_at :
    (o o' : Order) (id : String) (rows : List Order)
    → find_order id rows ≡ some o
    → o'.id ≡ o.id
    → find_order id (save_order o' rows) ≡ some o'
find_order-save_at o o' id rows e same =
    let i : id ≡ o'.id = sym (same ∙ find_order-id id rows o e) in
    rw i (find_order-save_self o' rows o (rw (← i) e))

module _ (P : Order → Type 0) where
  pub All-find :
      (id : String) (rows : List Order) {o : Order} → All P rows → find_order id rows ≡ some o → P o
  unfolding find_order
  All-find id [] h e = cc
  All-find id (r ∷ rows) h e = elim (Bool-cases (r.id == id)) [
    | inl t ↦ let q : r ≡ _ = ground arith in rw q at h.0
    | inr t ↦ All-find id rows h.1 (ground arith)
  ]

  pub All-append : (rows more : List Order) → All P rows → All P more → All P (rows ++ more)
  All-append [] more h k = k
  All-append (r ∷ rows) more h k = (h.0, All-append rows more h.1 k)

  pub All-save : (o : Order) (rows : List Order) → All P rows → P o → All P (save_order o rows)
  unfolding save_order
  All-save o [] h k = tt
  All-save o (r ∷ rows) h k = elim (Bool-cases (r.id == o.id)) [
    | inl t ↦ rw t (k, All-save o rows h.1 k)
    | inr t ↦ rw t (h.0, All-save o rows h.1 k)
  ]

module _ {Num C : Type 0} (env : Env Num C) where
  open env use {clock}

  -- The row that `save_status` saves.
  abbrev pub restatused : World C → Order → OrderStatus → Bool → Order
  restatused w o status deleted = record o {
    status = status;
    soft_deleted = deleted;
    status_history =
        o.status_history ++ (history_entry clock w.draws status (clock.now (w.draws + 1)) ∷ []);
  }

  pub cancel-none :
      (id : String) (flag : Bool) (w : World C)
      → find_order id w.db.orders ≡ none
      → cancel env id flag w ≡ (err (not_found "Order not found"), w)
  unfolding cancel
  cancel-none id flag w e = ground arith

  pub cancel-refused :
      (id : String) (w : World C) {o : Order}
      → find_order id w.db.orders ≡ some o
      → is_pending o.status ≡ false
      → is_cancelled o.status ≡ false
      → cancel env id false w ≡ (err (unprocessable "Order already processed"), w)
  unfolding cancel
  cancel-refused id w e p c = ground arith

  abbrev pub refuses_cancel : Order → Bool → Bool
  refuses_cancel o flag = not (is_pending o.status) && not (is_cancelled o.status) && not flag

  pub cancel-some :
      (id : String) (flag : Bool) (w : World C) {o : Order}
      → find_order id w.db.orders ≡ some o
      → refuses_cancel o flag ≡ false
      → cancel env id flag w ≡ save_status env o cancelled (if flag then true else o.soft_deleted) w
  unfolding cancel
  cancel-some id flag w e p = ground arith

  pub mark_status-none :
      (id : String) (status : OrderStatus) (w : World C)
      → find_order id w.db.orders ≡ none
      → mark_status env id status w ≡ (err (not_found "Order not found"), w)
  unfolding mark_status
  mark_status-none id status w e = ground arith

  pub mark_status-settled :
      (id : String) (status : OrderStatus) (w : World C) {o : Order}
      → find_order id w.db.orders ≡ some o
      → is_pending o.status ≡ false
      → mark_status env id status w ≡ (ok o, w)
  unfolding mark_status
  mark_status-settled id status w e p = ground arith

  pub mark_status-pending :
      (id : String) (status : OrderStatus) (w : World C) {o : Order}
      → find_order id w.db.orders ≡ some o
      → is_pending o.status ≡ true
      → mark_status env id status w ≡ save_status env o status o.soft_deleted w
  unfolding mark_status
  mark_status-pending id status w e p = ground arith

  -- Publishing leaves the tables alone.
  pub publish-db : (m : Envelope) (w : World C) → (publish env m w).1.db ≡ w.db
  unfolding publish
  publish-db m w = ground arith

  pub publish_event-db :
      (t : Topic) (key : String) (m : Payload) (w : World C)
      → (publish_event env t key m w).1.db ≡ w.db
  unfolding publish_event
  publish_event-db t key m w = ground arith
