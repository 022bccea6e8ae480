-- ===== src/Order/Lifecycle/Steps.antt =====
-- What each step does to the table ORDERS: nothing, one row more, or one row with another status.
use food_ordering_app.Prelude.{
  ℕ, ◌+◌, String, Bool, true, some, List, [], ◌∷◌, ◌++◌, if◌then◌else◌, ◌≡◌, refl, ◌∙◌, ap, ◌⊎◌,
  inl, inr, arith, Bool-cases, Option-cases, map, length,
}
use food_ordering_app.Effect.{pure, Action, ◌>>=◌, ◌>>◌, for_each, Result-cases}
use food_ordering_app.Domain.{cancelled, is_pending, Payload, Topic}
use food_ordering_app.Order.Model.{
  Order, Database, PaymentStatus, OutboxRow, Env, World, PlaceOrderInput, OrderDraft,
}
use food_ordering_app.Order.Repository.{
  find_order, save_order, save_status, cancel, mark_status, new_order, mark_outbox_published,
  mark_published, claim_outbox_batch,
}
use food_ordering_app.Order.Ports.{publish_event}
use food_ordering_app.Order.Service.{place_order, cancel_order, cancel_found, readable_order}
use food_ordering_app.Order.Settlement.{
  charge_pending, record_payment, relay_row, relay_envelope, relay_batch, tick, status_of,
  settled_topic, announce,
}
use food_ordering_app.Order.Tables.{
  cancel-none, cancel-some, refuses_cancel, mark_status-none, mark_status-settled,
  mark_status-pending, restatused, publish-db, publish_event-db,
}
use food_ordering_app.Order.Placement.Atomic.{place_order-atomic}
use food_ordering_app.Order.Lifecycle.{
  Step, place, cancel_by, charged, recorded, relayed, elsewhere,
}

-- A call that goes on with one that leaves a part of the state alone.
bind-keeps :
    {C A B X : Type 0} (view : World C → X) (m : Action (World C) A) (f : A → Action (World C) B)
    (w : World C)
    → ((a : A) (v : World C) → view (f a v).1 ≡ view v)
    → view ((m >>= f) w).1 ≡ view (m w).1
bind-keeps view m f w keeps = elim (Result-cases (m w).0) [
  | inl (a, e) ↦ ground (arith, keeps a (m w).1)
  | inr (x, e) ↦ ground arith
]

bind-db :
    {C A B : Type 0} (m : Action (World C) A) (f : A → Action (World C) B) (w : World C)
    → ((a : A) (v : World C) → (f a v).1.db ≡ v.db)
    → ((m >>= f) w).1.db ≡ (m w).1.db
bind-db = bind-keeps (λ w. w.db)

module _ {Num C : Type 0} (env : Env Num C) where
  open env use {clock}

  -- The change of the table ORDERS from `rows` to `rows'`.
  pub data Change (rows rows' : List Order) : Type 0 where
    same : rows' ≡ rows → Change rows rows'
    added :
        (n : ℕ) (d : OrderDraft) → rows' ≡ rows ++ (new_order clock n d ∷ []) → Change rows rows'
    cancelled_row :
        (w : World C) (id : String) (o : Order) (flag : Bool)
        → find_order id rows ≡ some o
        → rows'
          ≡ save_order (restatused env w o cancelled (if flag then true else o.soft_deleted)) rows
        → Change rows rows'
    settled_row :
        (w : World C) (id : String) (o : Order) (p : PaymentStatus)
        → find_order id rows ≡ some o
        → is_pending o.status ≡ true
        → rows' ≡ save_order (restatused env w o (status_of p) o.soft_deleted) rows
        → Change rows rows'

  place_order-Change :
      (input : PlaceOrderInput) (w : World C)
      → Change w.db.orders (place_order env input w).1.db.orders
  place_order-Change input w = elim (place_order-atomic env input w) [
    | inl (e, _) ↦ same (ap (λ d. d.orders) e)
    | inr h ↦ added (w.draws + 1) h.d (ap (λ d. d.orders) h.written)
  ]

  pub cancel-unchanged :
      (id : String) (flag : Bool) (w : World C) {o : Order}
      → find_order id w.db.orders ≡ some o
      → refuses_cancel env o flag ≡ true
      → (cancel env id flag w).1.db ≡ w.db
  unfolding cancel
  cancel-unchanged id flag w e refused = ground arith

  cancel-Change :
      (id : String) (flag : Bool) (w : World C)
      → Change w.db.orders (cancel env id flag w).1.db.orders
  unfolding save_status
  cancel-Change id flag w = elim (Option-cases (find_order id w.db.orders)) [
    | inl e ↦ rw (cancel-none env id flag w e) (same refl)
    | inr (o, e) ↦ elim (Bool-cases (refuses_cancel env o flag)) [
      | inr fine ↦ rw (cancel-some env id flag w e fine) (cancelled_row w id o flag e refl)
      | inl refused ↦ same (ap (λ d. d.orders) (cancel-unchanged id flag w e refused))
    ]
  ]

  mark_status-Change :
      (id : String) (p : PaymentStatus) (w : World C)
      → Change w.db.orders (mark_status env id (status_of p) w).1.db.orders
  unfolding save_status
  mark_status-Change id p w = elim (Option-cases (find_order id w.db.orders)) [
    | inl e ↦ rw (mark_status-none env id (status_of p) w e) (same refl)
    | inr (o, e) ↦ elim (Bool-cases (is_pending o.status)) [
      | inr settled ↦ rw (mark_status-settled env id (status_of p) w e settled) (same refl)
      | inl pend ↦
          rw (mark_status-pending env id (status_of p) w e pend) (settled_row w id o p e pend refl)
    ]
  ]

  pub charge_pending-db : (id : String) (w : World C) → (charge_pending env id w).1.db ≡ w.db
  unfolding charge_pending
  charge_pending-db id w = ground arith

  announce-db : (p : PaymentStatus) (o : Order) (w : World C) → (announce env p o w).1.db ≡ w.db
  unfolding announce
  announce-db p o w =
      bind-db
        (publish_event env Topic.order_status_changed o.user_id
          (Payload.status_changed o.id o.user_id (status_of p)))
        (λ _. publish_event env (settled_topic p) o.id (Payload.settled o.id o.user_id o.total)) w
        (λ _ v.
          publish_event-db env (settled_topic p) o.id (Payload.settled o.id o.user_id o.total) v)
      ∙ publish_event-db env Topic.order_status_changed o.user_id
          (Payload.status_changed o.id o.user_id (status_of p)) w

  -- A run that began with a change of the table and then published.
  pub record_payment-db :
      (id : String) (p : PaymentStatus) (w : World C)
      → (record_payment env id p w).1.db ≡ (mark_status env id (status_of p) w).1.db
  unfolding record_payment
  record_payment-db id p w =
      bind-db (mark_status env id (status_of p)) (announce env p) w (announce-db p)

  readable_order-world :
      (id user : String) (as_admin : Bool) (w : World C) → (readable_order id user as_admin w).1 ≡ w
  unfolding readable_order
  readable_order-world id user as_admin w = ground arith

  pub cancel_found-db :
      (id : String) (as_admin : Bool) (w : World C)
      → (cancel_found env id as_admin w).1.db ≡ (cancel env id as_admin w).1.db
  unfolding cancel_found
  cancel_found-db id as_admin w =
      bind-db (cancel env id as_admin)
        (λ o.
          publish_event env Topic.order_status_changed o.user_id
            (Payload.status_changed o.id o.user_id cancelled)
          >> pure o)
        w (λ o v. told o v)
    where
      told :
          (o : Order) (v : World C)
          → ((publish_event env Topic.order_status_changed o.user_id
                  (Payload.status_changed o.id o.user_id cancelled)
                >> pure o)
              v).1.db
            ≡ v.db
      told o v =
          bind-db
            (publish_event env Topic.order_status_changed o.user_id
              (Payload.status_changed o.id o.user_id cancelled))
            (λ _. pure o) v (λ _ u. refl)
          ∙ publish_event-db env Topic.order_status_changed o.user_id
              (Payload.status_changed o.id o.user_id cancelled) v

  pub cancel_order-db :
      (id user : String) (as_admin : Bool) (w : World C)
      → ((cancel_order env id user as_admin w).1.db ≡ w.db)
        ⊎ ((cancel_order env id user as_admin w).1.db ≡ (cancel env id as_admin w).1.db)
  unfolding cancel_order
  cancel_order-db id user as_admin w =
      ground (arith, readable_order-world id user as_admin w, cancel_found-db id as_admin w)

  relay_row-db : (r : OutboxRow) (w : World C) → (relay_row env r w).1.db ≡ w.db
  unfolding relay_row
  relay_row-db r w =
      publish-db env (relay_envelope r (clock.now w.draws)) (record w { draws = w.draws + 1 })

  pub relay_rows-db :
      (rows : List OutboxRow) (w : World C) → (for_each (relay_row env) rows w).1.db ≡ w.db
  unfolding for_each
  relay_rows-db [] w = refl
  relay_rows-db (r ∷ rows) w =
      bind-db (relay_row env r) (λ _. for_each (relay_row env) rows) w (λ _ v. relay_rows-db rows v)
      ∙ relay_row-db r w

  -- A tick changes nothing of the tables but the outbox.
  module _ {X : Type 0} (view : Database → X)
      (fixed : (d : Database) (o : List OutboxRow) → view (record d { outbox = o }) ≡ view d) where
    mark-view :
        (ids : List String) (w : World C) → view (mark_outbox_published env ids w).1.db ≡ view w.db
    unfolding mark_outbox_published mark_published
    mark-view [] w = refl
    mark-view (i ∷ is) w = fixed w.db (mark_published (clock.now w.draws) (i ∷ is) w.db.outbox)

    relay_batch-view :
        (rows : List OutboxRow) (w : World C) → view (relay_batch env rows w).1.db ≡ view w.db
    unfolding relay_batch
    relay_batch-view [] w = refl
    relay_batch-view (r ∷ rows) w =
        bind-keeps (λ u. view u.db) (for_each (relay_row env) (r ∷ rows))
          (λ _. mark_outbox_published env (map (λ x. x.id) (r ∷ rows)) >> pure (length (r ∷ rows)))
          w marked
        ∙ ap view (relay_rows-db (r ∷ rows) w)
      where
        marked :
            (a : Unit {0}) (v : World C)
            → view
                ((mark_outbox_published env (map (λ x. x.id) (r ∷ rows))
                    >> pure (length (r ∷ rows)))
                  v).1.db
              ≡ view v.db
        marked a v =
            bind-keeps (λ u. view u.db) (mark_outbox_published env (map (λ x. x.id) (r ∷ rows)))
              (λ _. pure (length (r ∷ rows))) v (λ _ u. refl)
            ∙ mark-view (map (λ x. x.id) (r ∷ rows)) v

    pub tick-view : (w : World C) → view (tick env w).1.db ≡ view w.db
    unfolding tick claim_outbox_batch
    tick-view w =
        bind-keeps (λ v. view v.db) (claim_outbox_batch 50) (relay_batch env) w (relay_batch-view)

  -- Every step of the service makes one of these changes.
  pub Step-Change : {w w' : World C} → Step env w w' → Change w.db.orders w'.db.orders
  Step-Change {w} (place input e) = rw e (place_order-Change input w)
  Step-Change {w} (cancel_by id user flag e) = rw e (elim (cancel_order-db id user flag w) [
    | inl k ↦ same (ap (λ d. d.orders) k)
    | inr k ↦ rw (ap (λ d. d.orders) k) (cancel-Change id flag w)
  ])
  Step-Change {w} (charged id e) = rw e (same (ap (λ d. d.orders) (charge_pending-db id w)))
  Step-Change {w} (recorded id p e) =
      rw e (rw (ap (λ d. d.orders) (record_payment-db id p w)) (mark_status-Change id p w))
  Step-Change {w} (relayed e) = rw e (same (tick-view (λ d. d.orders) (λ d o. refl) w))
  Step-Change {w} (elsewhere c locks n e) = rw e (same refl)
