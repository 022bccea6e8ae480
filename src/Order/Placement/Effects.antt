-- ===== src/Order/Placement/Effects.antt =====
-- What the customer may rely on when an order is placed (`OrderService.placeOrder`).
use food_ordering_app.Prelude.{
  ℕ, String, false, Option, none, some, ◌≡◌, sym, ◌∙◌, ap, ◌⊎◌, inl, arith, eq_iff,
}
use food_ordering_app.Effect.{Result, ok}
use food_ordering_app.Text.{is_blank}
use food_ordering_app.Domain.{PaymentType}
use food_ordering_app.Order.Model.{PlaceOrderResult, Env, World, PlaceOrderInput}
use food_ordering_app.Order.Repository.{write, new_order, response_of, inserted}
use food_ordering_app.Keyed.{write_self}
use food_ordering_app.Order.Ports.{is_held}
use food_ordering_app.Order.Service.{parse_payment_type, draft, place_order}
use food_ordering_app.Order.Placement.{
  FromCart, refused, placed, Placement, rejected, replayed, busy, ran, locked, unlocked, now_at,
  place_order-Placement,
}

module _ {Num C : Type 0} (env : Env Num C) where
  open env use {numbers, gateways, clock}

  FromCart-remembers :
      (input : PlaceOrderInput) (t : PaymentType) (w : World C)
      (q : Result PlaceOrderResult × World C) {r : PlaceOrderResult}
      → FromCart env input t w q
      → q.0 ≡ ok r
      → q.1.db.idempotency input.idempotency_key ≡ some r
  unfolding inserted
  FromCart-remembers input t w q (refused e p) h = cc
  FromCart-remembers input t w q (placed snap priced _ _ _ p) h = ground (
    arith,
    write_self input.idempotency_key
        (some (response_of (new_order clock w.draws (draft env input t priced)))) w.db.idempotency,
  )

  -- A successful answer is remembered under its idempotency key.
  pub place_order-remembers :
      (input : PlaceOrderInput) (w : World C) (p : Result PlaceOrderResult × World C)
      {r : PlaceOrderResult}
      → Placement env input w p
      → p.0 ≡ ok r
      → p.1.db.idempotency input.idempotency_key ≡ some r
  place_order-remembers input w p (rejected e h) k = cc
  place_order-remembers input w p (replayed r known h) k = ground arith
  place_order-remembers input w p (busy _ _ h) k = cc
  place_order-remembers input w p (ran t q _ _ _ f h) k =
      rw h (FromCart-remembers input t (locked env input.user_id w) q f (ap (λ z. z.0) (sym h) ∙ k))

  -- A call under a remembered key changes nothing and gives the remembered answer.
  pub replay :
      (input : PlaceOrderInput) (t : PaymentType) (w : World C) {r : PlaceOrderResult}
      → is_blank input.user_id ≡ false
      → is_blank input.idempotency_key ≡ false
      → parse_payment_type input.payment_type ≡ ok t
      → w.db.idempotency input.idempotency_key ≡ some r
      → place_order env input w ≡ (ok r, w)
  unfolding place_order
  replay input t w u k p e = ground arith

  FromCart-locks :
      (input : PlaceOrderInput) (t : PaymentType) (w : World C)
      (q : Result PlaceOrderResult × World C)
      → FromCart env input t w q
      → q.1.locks ≡ w.locks
  unfolding inserted
  FromCart-locks input t w q (refused e p) = ground arith
  FromCart-locks input t w q (placed _ _ _ _ _ p) = ground arith

  -- The checkout lock afterwards: untouched, or, for the customer of the call and only if nobody
  -- held it, free.
  abbrev pub LockKept : PlaceOrderInput → World C → (String → Option ℕ) → String → Type 0
  LockKept input w locks u =
      (locks u ≡ w.locks u)
      ⊎ ((u ≡ input.user_id) × (locks u ≡ none) × (is_held (now_at env w) (w.locks u) ≡ false))

  unlocked-LockKept :
      (input : PlaceOrderInput) (w : World C) (u : String)
      → is_held (now_at env w) (w.locks input.user_id) ≡ false
      → LockKept input w (unlocked env input.user_id (locked env input.user_id w)).locks u
  unlocked-LockKept input w u free = ground (arith, eq_iff input.user_id u)

  place_order-LockKept :
      (input : PlaceOrderInput) (w : World C) (p : Result PlaceOrderResult × World C) (u : String)
      → Placement env input w p
      → LockKept input w p.1.locks u
  place_order-LockKept input w p u (rejected e h) = inl (rw h)
  place_order-LockKept input w p u (replayed r known h) = inl (rw h)
  place_order-LockKept input w p u (busy _ _ h) = inl (rw h)
  place_order-LockKept input w p u (ran t q _ _ free f h) =
      let e : p.1.locks ≡ (unlocked env input.user_id (locked env input.user_id w)).locks =
        ap (λ z. z.1.locks) h
        ∙ ap (write input.user_id none) (FromCart-locks input t (locked env input.user_id w) q f) in
      rw e (unlocked-LockKept input w u free)

  -- However a call of `placeOrder` ends, by an answer or by an exception, it leaves every checkout
  -- lock as it was, except that the customer's own lock, if nobody held it, may be left free.
  pub place_order-keeps_locks :
      (input : PlaceOrderInput) (w : World C) (u : String)
      → LockKept input w (place_order env input w).1.locks u
  place_order-keeps_locks input w u =
      place_order-LockKept input w (place_order env input w) u (place_order-Placement env input w)
