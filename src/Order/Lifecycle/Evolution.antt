-- ===== src/Order/Lifecycle/Evolution.antt =====
-- What never changes about an order, and how its status may move
-- (apps/order/src/application/order.service.ts).
use food_ordering_app.Prelude.{
  String, Bool, true, false, some, List, [], ◌∷◌, ◌++◌, ◌==◌, if◌then◌else◌, ◌≡◌, ◌≢◌, refl, sym,
  ◌∙◌, ap, inl, inr, arith, Bool-cases, eq_iff,
}
use food_ordering_app.Domain.{OrderStatus, pending, paid, failed, cancelled, is_pending}
use food_ordering_app.Order.Model.{Order, StatusChange, Env, World}
use food_ordering_app.Order.Repository.{find_order, save_order, new_order}
use food_ordering_app.Order.Settlement.{status_of}
use food_ordering_app.Order.Tables.{
  find_order-id, find_order-append, find_order-save_self, find_order-save_ne, restatused,
}
use food_ordering_app.Order.Lifecycle.{Reach, here, next}
use food_ordering_app.Order.Lifecycle.Steps.{
  Change, same, added, cancelled_row, settled_row, Step-Change,
}
use mathlib.Core.List.{append-nil, append_assoc}

-- A pending order may become anything, a settled one may be cancelled, a cancelled one stays.
abbrev pub Follows : OrderStatus → OrderStatus → Type 0
Follows pending t = Unit
Follows paid paid = Unit
Follows failed failed = Unit
Follows _ cancelled = Unit
Follows _ _ = ⊥

Follows-refl : (s : OrderStatus) → Follows s s
Follows-refl pending = tt
Follows-refl paid = tt
Follows-refl failed = tt
Follows-refl cancelled = tt

Follows-cancelled : (s : OrderStatus) → Follows s cancelled
Follows-cancelled pending = tt
Follows-cancelled paid = tt
Follows-cancelled failed = tt
Follows-cancelled cancelled = tt

Follows-trans : (a b c : OrderStatus) → Follows a b → Follows b c → Follows a c
Follows-trans pending b c h k = tt
Follows-trans paid paid c h k = k
Follows-trans failed failed c h k = k
Follows-trans paid cancelled cancelled h k = tt
Follows-trans failed cancelled cancelled h k = tt
Follows-trans cancelled cancelled c h k = k
Follows-trans paid pending c h k = absurd h
Follows-trans paid failed c h k = absurd h
Follows-trans failed pending c h k = absurd h
Follows-trans failed paid c h k = absurd h
Follows-trans cancelled pending c h k = absurd h
Follows-trans cancelled paid c h k = absurd h
Follows-trans cancelled failed c h k = absurd h
Follows-trans paid cancelled pending h k = absurd k
Follows-trans paid cancelled paid h k = absurd k
Follows-trans paid cancelled failed h k = absurd k
Follows-trans failed cancelled pending h k = absurd k
Follows-trans failed cancelled paid h k = absurd k
Follows-trans failed cancelled failed h k = absurd k

-- The customer, the items with their prices, the total and the payment type are fixed; the history
-- only grows at its end; a deleted order stays deleted.
pub record Evolves (o o' : Order) : Type 0 where
  pub id : o'.id ≡ o.id
  pub user : o'.user_id ≡ o.user_id
  pub items : o'.items ≡ o.items
  pub total : o'.total ≡ o.total
  pub payment : o'.payment_type ≡ o.payment_type
  pub created : o'.created_at ≡ o.created_at
  pub status : Follows o.status o'.status
  pub deleted : o.soft_deleted ≡ true → o'.soft_deleted ≡ true
  pub more : List StatusChange
  pub history : o'.status_history ≡ o.status_history ++ more

Evolves-refl : (o : Order) → Evolves o o
Evolves-refl o = record {
  id = refl;
  user = refl;
  items = refl;
  total = refl;
  payment = refl;
  created = refl;
  status = Follows-refl o.status;
  deleted = λ h. h;
  more = [];
  history = sym (append-nil o.status_history);
}

Evolves-trans : {a b c : Order} → Evolves a b → Evolves b c → Evolves a c
Evolves-trans {a} {b} {c} h k = record {
  id = k.id ∙ h.id;
  user = k.user ∙ h.user;
  items = k.items ∙ h.items;
  total = k.total ∙ h.total;
  payment = k.payment ∙ h.payment;
  created = k.created ∙ h.created;
  status = Follows-trans a.status b.status c.status h.status k.status;
  deleted = λ d. k.deleted (h.deleted d);
  more = h.more ++ k.more;
  history =
      k.history ∙ ap (λ l. l ++ k.more) h.history ∙ append_assoc a.status_history h.more k.more;
}

-- Every row that is found is still found, and has evolved.
abbrev pub TableEvolves : List Order → List Order → Type 0
TableEvolves rows rows' =
    (id : String) (o : Order)
    → find_order id rows ≡ some o
    → (o' : Order) × (find_order id rows' ≡ some o') × Evolves o o'

save-TableEvolves :
    (rows : List Order) (id : String) (o o' : Order)
    → find_order id rows ≡ some o
    → Evolves o o'
    → TableEvolves rows (save_order o' rows)
save-TableEvolves rows id o o' e h key x found = elim (Bool-cases (key == id)) [
  | inl t ↦
      let k : key ≡ o'.id = (eq_iff key id).0 t ∙ sym (find_order-id id rows o e) ∙ sym h.id in
      let i : o'.id ≡ id = h.id ∙ find_order-id id rows o e in
      let s : x ≡ o = cc (found, e, k, i) in
      (o', rw k (find_order-save_self o' rows o (rw i e)), rw s h)
  | inr t ↦
      let k : key ≢ o'.id =
        λ q. absurd (ground (arith, (eq_iff key id).1 (q ∙ h.id ∙ find_order-id id rows o e))) in
      (x, find_order-save_ne o' key rows k ∙ found, Evolves-refl x)
]

module _ {Num C : Type 0} (env : Env Num C) where
  open env use {clock}

  restatused-Evolves :
      (w : World C) (o : Order) (s : OrderStatus) (deleted : Bool)
      → Follows o.status s
      → (o.soft_deleted ≡ true → deleted ≡ true)
      → Evolves o (restatused env w o s deleted)
  restatused-Evolves w o s deleted f d = record {
    id = refl;
    user = refl;
    items = refl;
    total = refl;
    payment = refl;
    created = refl;
    status = f;
    deleted = d;
    more = _;
    history = refl;
  }

  deleted_stays : (flag deleted : Bool) → deleted ≡ true → (if flag then true else deleted) ≡ true
  deleted_stays true deleted h = refl
  deleted_stays false deleted h = h

  Follows-pending : (s t : OrderStatus) → is_pending s ≡ true → Follows s t
  Follows-pending pending t h = tt
  Follows-pending paid t h = cc
  Follows-pending failed t h = cc
  Follows-pending cancelled t h = cc

  Change-TableEvolves : (rows rows' : List Order) → Change env rows rows' → TableEvolves rows rows'
  Change-TableEvolves rows rows' (same e) id o found = (o, rw e found, Evolves-refl o)
  Change-TableEvolves rows rows' (added n d e) id o found =
      (o, rw e (find_order-append id rows (new_order clock n d ∷ []) o found), Evolves-refl o)
  Change-TableEvolves rows rows' (cancelled_row w id o flag e q) key x found = rw q (
      save-TableEvolves rows id o _ e
        (restatused-Evolves w o cancelled _ (Follows-cancelled o.status)
          (deleted_stays flag o.soft_deleted))
        key x found)
  Change-TableEvolves rows rows' (settled_row w id o p e pend q) key x found = rw q (
      save-TableEvolves rows id o _ e
        (restatused-Evolves w o (status_of p) _ (Follows-pending o.status (status_of p) pend)
          (λ h. h))
        key x found)

  -- After any sequence of steps an order that was there is still there, with its customer, items,
  -- prices and total unchanged, its history extended at the end, its deletion kept, and a status
  -- that its old one may lead to; a cancelled order is never paid.
  pub Reach-TableEvolves : {w w' : World C} → Reach env w w' → TableEvolves w.db.orders w'.db.orders
  Reach-TableEvolves here id o found = (o, found, Evolves-refl o)
  Reach-TableEvolves {w} (next {u} {v} r s) id o found =
      let (o₁, found₁, h) = Reach-TableEvolves r id o found in
      let (o₂, found₂, k) =
        Change-TableEvolves u.db.orders v.db.orders (Step-Change env s) id o₁ found₁ in
      (o₂, found₂, Evolves-trans h k)
