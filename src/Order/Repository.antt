-- ===== src/Order/Repository.antt =====
-- `TypeOrmOrderRepository`
-- (apps/order/src/infrastructure/persistence/typeorm.repositories.ts). A transaction that throws
-- leaves the tables as they were.
pub use food_ordering_app.Keyed.{write}
use food_ordering_app.Prelude.{
  ℕ, suc, ◌+◌, ◌-◌, ◌*◌, String, Bool, true, false, not, ◌&&◌, Option, none, some, List, [], ◌∷◌,
  ◌++◌, map, ◌==◌, if◌then◌else◌, find, select, any, is_some, take, drop, length, update_where, leb,
  order_by,
}
use food_ordering_app.Effect.{
  ok, err, not_found, unprocessable, Action, pure, raise, raise_if, gets, modify, ◌>>=◌, ◌>>◌,
}
use food_ordering_app.Domain.{
  OrderStatus, pending, cancelled, is_pending, is_cancelled, Topic, Payload, PricedLine,
}
use food_ordering_app.Runtime.{Clock}
use food_ordering_app.Order.Model.{
  OrderItem, StatusChange, Order, OrderSummary, PlaceOrderResult, OutboxRow, Database, Env, World,
  OrderDraft,
}

-- `findOne({ where: { id } })`
unfoldable pub find_order : String → List Order → Option Order
find_order id rows = find (λ o. o.id == id) rows

-- `save(order)` of a row that is there.
unfoldable pub save_order : Order → List Order → List Order
save_order o rows = update_where (λ r. r.id == o.id) (λ _. o) rows

module _ {C : Type 0} where
  -- `dataSource.transaction(…)`
  abbrev pub transaction : {A : Type 0} → Action (World C) A → Action (World C) A
  transaction m w =
      let (r, w') = m w in elim r [ ok a ↦ (ok a, w') | err e ↦ (err e, record w' { db = w.db }) ]

  -- A table write.
  abbrev set_db : (Database → Database) → Action (World C) (Unit {0})
  set_db f = modify (λ w. record w { db = f w.db })

  unfoldable pub find_idempotency : String → Action (World C) (Option PlaceOrderResult)
  find_idempotency key = gets (λ w. w.db.idempotency key)

  unfoldable pub find_by_id : String → Action (World C) (Option Order)
  unfolding find_order
  find_by_id id = gets (λ w. find_order id w.db.orders)

module _ (clock : Clock) where
  -- The rows that `save` inserts for the items; each takes a UUID.
  unfoldable pub make_items : ℕ → List PricedLine → List OrderItem
  make_items n [] = []
  make_items n (l ∷ ls) =
      record {
        id = clock.uuid n;
        variant_id = l.variant_id;
        product_name_snapshot = l.product_name_snapshot;
        variant_label_snapshot = l.variant_label_snapshot;
        unit_price_snapshot = l.unit_price_snapshot;
        quantity = l.quantity;
      }
      ∷ make_items (suc n) ls

  abbrev pub history_entry : ℕ → OrderStatus → ℕ → StatusChange
  history_entry n status at = record { id = clock.uuid n; status = status; at = at }

  -- The row of a new order. The draws from `n` on: its id, its time, the history's id, the items'.
  unfoldable pub new_order : ℕ → OrderDraft → Order
  unfolding make_items
  new_order n d = record {
    id = clock.uuid n;
    user_id = d.user_id;
    total = d.total;
    payment_type = d.payment_type;
    status = pending;
    created_at = clock.now (n + 1);
    soft_deleted = false;
    items = make_items (n + 3) d.lines;
    status_history = history_entry (n + 2) pending (clock.now (n + 1)) ∷ [];
  }

  unfoldable pub created_row : ℕ → Order → OrderDraft → OutboxRow
  created_row n o d = record {
    id = clock.uuid n;
    event = Topic.order_created;
    payload = Payload.created o.id d.user_id d.total d.payment_type d.lines;
    created_at = clock.now n;
    published_at = none;
  }

abbrev pub is_newer : Order → Order → Bool
is_newer a b = leb b.created_at a.created_at

-- `ORDER BY created_at DESC`
unfoldable pub newest_first : List Order → List Order
unfolding order_by
newest_first rows = order_by is_newer rows

abbrev pub is_older : OutboxRow → OutboxRow → Bool
is_older a b = leb a.created_at b.created_at

-- `ORDER BY created_at ASC`
unfoldable pub oldest_first : List OutboxRow → List OutboxRow
unfolding order_by
oldest_first rows = order_by is_older rows

abbrev pub response_of : Order → PlaceOrderResult
response_of o = record { order_id = o.id; status = pending; total = o.total }

unfoldable pub item_count : List OrderItem → ℕ
item_count [] = 0
item_count (i ∷ is) = i.quantity + item_count is

unfoldable pub summary : Order → OrderSummary
unfolding item_count
summary o = record {
  id = o.id;
  user_id = o.user_id;
  total = o.total;
  status = o.status;
  payment_type = o.payment_type;
  created_at = o.created_at;
  item_count = item_count o.items;
}

module _ {Num C : Type 0} (env : Env Num C) where
  open env use {clock}

  -- The state after the three inserts of `placeOrder`.
  unfoldable pub inserted : OrderDraft → World C → World C
  unfolding new_order created_row
  inserted d w =
      let o = new_order clock w.draws d in
      let n = w.draws + 3 + length d.lines in
      record w {
        db = record w.db {
          orders = w.db.orders ++ (o ∷ []);
          outbox = w.db.outbox ++ (created_row clock n o d ∷ []);
          idempotency = write d.idempotency_key (some (response_of o)) w.db.idempotency;
        };
        draws = n + 1;
      }

  unfoldable pub insert_order : OrderDraft → Action (World C) PlaceOrderResult
  unfolding inserted
  insert_order d w = (ok (response_of (new_order clock w.draws d)), inserted d w)

  unfoldable pub place_order_row : OrderDraft → Action (World C) PlaceOrderResult
  unfolding insert_order find_idempotency
  place_order_row d = transaction (do
    existing ← find_idempotency d.idempotency_key
    elim existing [ some r ↦ pure r | none ↦ insert_order d ])

  -- The end of `cancel` and of `markStatus`: the new status, its history row, and `save`.
  unfoldable pub save_status : Order → OrderStatus → Bool → Action (World C) Order
  unfolding save_order
  save_status o status deleted w =
      let entry = history_entry clock w.draws status (clock.now (w.draws + 1)) in
      let o' = record o {
        status = status;
        soft_deleted = deleted;
        status_history = o.status_history ++ (entry ∷ []);
      } in
      (
        ok o',
        record w { db = record w.db { orders = save_order o' w.db.orders }; draws = w.draws + 2 },
      )

  unfoldable pub cancel : String → Bool → Action (World C) Order
  unfolding save_status find_by_id
  cancel id soft_delete = transaction (do
    found ← find_by_id id
    elim found [
      | none ↦ raise (not_found "Order not found")
      | some o ↦
          raise_if (not (is_pending o.status) && not (is_cancelled o.status) && not soft_delete)
            (unprocessable "Order already processed")
          >> save_status o cancelled (if soft_delete then true else o.soft_deleted)
    ])

  unfoldable pub mark_status : String → OrderStatus → Action (World C) Order
  unfolding save_status find_by_id
  mark_status id status = transaction (do
    found ← find_by_id id
    elim found [
      | none ↦ raise (not_found "Order not found")
      | some o ↦ if is_pending o.status then save_status o status o.soft_deleted else pure o
    ])

  -- `findAndCount` with `order: { createdAt: 'DESC' }`, `skip: (page - 1) * limit` and
  -- `take: limit`; pages count from 1.
  unfoldable pub page_of : ℕ → ℕ → List Order → List OrderSummary × ℕ
  unfolding summary newest_first
  page_of page limit rows =
      (map summary (take limit (drop ((page - 1) * limit) (newest_first rows))), length rows)

  unfoldable pub list_by_user : String → ℕ → ℕ → Action (World C) (List OrderSummary × ℕ)
  unfolding page_of
  list_by_user user page limit =
      gets (λ w.
        page_of page limit (select (λ o. o.user_id == user && not o.soft_deleted) w.db.orders))

  unfoldable pub list_all : ℕ → ℕ → Action (World C) (List OrderSummary × ℕ)
  unfolding page_of
  list_all page limit =
      gets (λ w. page_of page limit (select (λ o. not o.soft_deleted) w.db.orders))

abbrev pub is_unpublished : OutboxRow → Bool
is_unpublished r = not (is_some r.published_at)

module _ {C : Type 0} where
  unfoldable pub claim_outbox_batch : ℕ → Action (World C) (List OutboxRow)
  unfolding oldest_first
  claim_outbox_batch limit =
      gets (λ w. take limit (oldest_first (select is_unpublished w.db.outbox)))

-- `UPDATE … SET published_at = now WHERE id IN (ids)`
unfoldable pub mark_published : ℕ → List String → List OutboxRow → List OutboxRow
mark_published at ids rows =
    update_where (λ r. any (λ i. i == r.id) ids) (λ r. record r { published_at = some at }) rows

module _ {Num C : Type 0} (env : Env Num C) where
  open env use {clock}

  unfoldable pub mark_outbox_published : List String → Action (World C) (Unit {0})
  unfolding mark_published
  mark_outbox_published [] w = (ok tt, w)
  mark_outbox_published (i ∷ is) w = (
    ok tt,
    record w {
      db = record w.db { outbox = mark_published (clock.now w.draws) (i ∷ is) w.db.outbox };
      draws = w.draws + 1;
    },
  )
