-- ===== src/Order/Placement/Atomic.antt =====
-- An order is placed whole or not at all (`OrderService.placeOrder`,
-- `TypeOrmOrderRepository.placeOrder`).
use food_ordering_app.Prelude.{
  ℕ, ◌+◌, true, none, some, [], ◌∷◌, ◌++◌, ◌≡◌, ◌≢◌, refl, sym, ◌∙◌, ap, ◌⊎◌, inl, inr, arith,
  length,
}
use food_ordering_app.Effect.{Result, ok, err}
use food_ordering_app.Domain.{PaymentType}
use food_ordering_app.Order.Model.{
  PlaceOrderResult, CartSnapshot, Database, Env, World, PlaceOrderInput, OrderDraft,
}
use food_ordering_app.Order.Repository.{write, new_order, created_row, response_of, inserted}
use food_ordering_app.Order.Service.{parse_payment_type, has_items, draft, place_order}
use food_ordering_app.Order.Placement.{
  FromCart, refused, placed, Placement, rejected, replayed, busy, ran, locked, unlocked,
  place_order-Placement,
}
use food_ordering_app.Order.Placement.Pricing.{Snapshots, total_from, price_lines-Snapshots}

module _ {Num C : Type 0} (env : Env Num C) where
  open env use {numbers, gateways, clock}

  -- The tables with one more order, one more outbox row and one more remembered answer.
  abbrev pub with_order : ℕ → OrderDraft → Database → Database
  with_order n d db =
      let o = new_order clock n d in
      record {
        orders = db.orders ++ (o ∷ []);
        outbox = db.outbox ++ (created_row clock (n + 3 + length d.lines) o d ∷ []);
        idempotency = write d.idempotency_key (some (response_of o)) db.idempotency;
      }

  -- A whole new order, from the customer's cart at the catalog's prices.
  pub record IsPlaced (input : PlaceOrderInput) (w : World C)
      (p : Result PlaceOrderResult × World C) : Type 0 where
    pub snap : CartSnapshot
    pub d : OrderDraft
    pub unknown : w.db.idempotency input.idempotency_key ≡ none
    pub carted : gateways.get_cart input.user_id w.remote ≡ ok snap
    pub full : has_items snap.items ≡ true
    pub owner : d.user_id ≡ input.user_id
    pub key : d.idempotency_key ≡ input.idempotency_key
    pub method : parse_payment_type input.payment_type ≡ ok d.payment_type
    pub priced : Snapshots env w.remote snap.items d.lines
    pub summed : d.total ≡ numbers.to_fixed (total_from env numbers.nothing d.lines)
    pub written : p.1.db ≡ with_order (w.draws + 1) d w.db
    pub emptied : p.1.remote ≡ (gateways.clear_cart input.user_id w.remote).1
    pub replied : p.0 ≡ elim (gateways.clear_cart input.user_id w.remote).0 [
      | ok _ ↦ ok (response_of (new_order clock (w.draws + 1) d))
      | err e ↦ err e
    ]

  FromCart-IsPlaced :
      (input : PlaceOrderInput) (t : PaymentType) (w : World C)
      (q : Result PlaceOrderResult × World C)
      → parse_payment_type input.payment_type ≡ ok t
      → w.db.idempotency input.idempotency_key ≡ none
      → FromCart env input t (locked env input.user_id w) q
      → ((q.1.db ≡ w.db) × ((r : PlaceOrderResult) → q.0 ≢ ok r))
        ⊎ IsPlaced input w (q.0, unlocked env input.user_id q.1)
  unfolding inserted
  FromCart-IsPlaced input t w q parsed e (refused x p) = inl (ground arith, λ r k. cc)
  FromCart-IsPlaced input t w q parsed e (placed snap priced got full loop p) =
      let (snaps, total) = price_lines-Snapshots env w.remote snap.items loop in
      inr (record {
        snap = snap;
        d = draft env input t priced;
        unknown = e;
        carted = got;
        full = full;
        owner = refl;
        key = refl;
        method = parsed;
        priced = snaps;
        summed = ap numbers.to_fixed total;
        written = ap (λ z. z.1.db) p;
        emptied = ap (λ z. z.1.remote) p;
        replied = ap (λ z. z.0) p;
      })

  Placement-IsPlaced :
      (input : PlaceOrderInput) (w : World C) (p : Result PlaceOrderResult × World C)
      → Placement env input w p
      → ((p.1.db ≡ w.db)
          × ((r : PlaceOrderResult) → p.0 ≡ ok r → w.db.idempotency input.idempotency_key ≡ some r))
        ⊎ IsPlaced input w p
  Placement-IsPlaced input w p (rejected e h) = inl (ap (λ z. z.1.db) h, λ r k. cc)
  Placement-IsPlaced input w p (replayed r known h) = inl (ap (λ z. z.1.db) h, λ r' k. ground arith)
  Placement-IsPlaced input w p (busy _ _ h) = inl (ap (λ z. z.1.db) h, λ r k. cc)
  Placement-IsPlaced input w p (ran t q parsed e _ f h) =
      elim (FromCart-IsPlaced input t w q parsed e f) [
        | inl (same, failed) ↦
            inl (ap (λ z. z.1.db) h ∙ same, λ r k. absurd (failed r (ap (λ z. z.0) (sym h) ∙ k)))
        | inr done ↦ inr (rw h done)
      ]

  -- `placeOrder` is all or nothing: either it leaves the tables as they were, and then it can answer only
  -- what was remembered under the key, or it writes one whole new order.
  pub place_order-atomic :
      (input : PlaceOrderInput) (w : World C)
      → let p = place_order env input w in
        ((p.1.db ≡ w.db)
          × ((r : PlaceOrderResult) → p.0 ≡ ok r → w.db.idempotency input.idempotency_key ≡ some r))
        ⊎ IsPlaced input w p
  place_order-atomic input w =
      Placement-IsPlaced input w (place_order env input w) (place_order-Placement env input w)
