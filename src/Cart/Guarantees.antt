-- ===== src/Cart/Guarantees.antt =====
-- What the cart service (apps/cart/src/application/cart.service.ts) guarantees over any sequence of
-- requests: carts stay readable, users do not disturb each other, what errors leave behind.
use food_ordering_app.Prelude.{
  String, false, Option, none, some, List, ◌==◌, ◌≡◌, refl, arith, Bool-cases, inl, inr, ltb,
}
use food_ordering_app.Effect.{Error, ok, err}
use food_ordering_app.Keyed.{write, write_self}
use food_ordering_app.Cart.Model.{CartItem, CartHash, World, Env, compute_total}
use food_ordering_app.Cart.Store.{get_items, saved_hash}
use food_ordering_app.Cart.Service.{
  Price, put_item, resolve_active_variant, add_item, assert_user_id, assert_quantity,
}
use food_ordering_app.Text.{is_blank}
use food_ordering_app.Prelude.Int.{ℤ, to_nat}
use food_ordering_app.Cart.Shuffle.{GivesAll}
use food_ordering_app.Cart.RoundTrip.{saved_hash-fields}
use food_ordering_app.Cart.Requests.{
  Request, handle, HashIsValid, IsStored, refused, answered, saved, deleted, unsaved, undeleted,
  cached, persist-err, handle-Outcome,
}

module _ {Num : Type 0} (env : Env Num) where
  open env use {numbers, stringify, parse, upsert_answer, delete_answer}

  write-IsStored :
      (user : String) (h : Option CartHash) (w : World)
      → HashIsValid env h
      → IsStored env w
      → (u : String) → HashIsValid env (write user h w.carts u)
  write-IsStored user h w v s u = elim (Bool-cases (user == u)) [
    | inl e ↦ rw e v
    | inr e ↦ rw e (s u)
  ]

  -- If JSON texts of items read back as the items, `HGETALL` gives each field of a hash once, in
  -- whatever order, and every stored cart is readable, every stored
  -- cart is readable after a request, whatever it answers: its fields other than the total parse,
  -- to distinct variants with positive quantities.
  pub handle-IsStored :
      ((i : CartItem) → parse (stringify i) ≡ ok i)
      → (user : String) (r : Request) (w : World) → GivesAll env
      → IsStored env w
      → IsStored env (handle env user r w).1
  handle-IsStored json user r w gives s = elim (handle-Outcome env user r w gives s) [
    | refused e p ↦ rw p s
    | answered items b g p ↦ rw p s
    | saved items b v p ↦ rw p (
        write-IsStored user (some (saved_hash env w.now items)) w
          (items, saved_hash-fields env json w.now items v, v) s)
    | unsaved items e v a p ↦ rw p (
        write-IsStored user (some (saved_hash env w.now items)) w
          (items, saved_hash-fields env json w.now items v, v) s)
    | undeleted e a p ↦ rw p (write-IsStored user none w tt s)
    | deleted b p ↦ rw p (write-IsStored user none w tt s)
  ]

  -- Over readable carts, and if `HGETALL` gives each field of a hash once, no request changes the cart or the snapshot of another user, and a request
  -- that answers an error changes no snapshot.
  pub handle-isolates :
      (user other : String) (r : Request) (w : World)
      → GivesAll env
      → IsStored env w
      → (((user == other) ≡ false
            → ((handle env user r w).1.carts other ≡ w.carts other)
              × ((handle env user r w).1.snapshots other ≡ w.snapshots other))
          × ((e : Error)
              → (handle env user r w).0 ≡ err e
              → (handle env user r w).1.snapshots ≡ w.snapshots))
  handle-isolates user other r w gives s = elim (handle-Outcome env user r w gives s) [
    | refused e p ↦ rw p ((λ n. (refl, refl)), λ x q. refl)
    | answered items b g p ↦ rw p ((λ n. (refl, refl)), λ x q. refl)
    | saved items b v p ↦ rw p ((λ n. rw n (refl, refl)), λ x q. absurd (ground arith))
    | unsaved items e v a p ↦ rw p ((λ n. rw n (refl, refl)), λ x q. refl)
    | undeleted e a p ↦ rw p ((λ n. rw n (refl, refl)), λ x q. refl)
    | deleted b p ↦ rw p ((λ n. rw n (refl, refl)), λ x q. absurd (ground arith))
  ]

  -- If PostgreSQL takes every snapshot and every deletion and `HGETALL` gives each field of a hash
  -- once, a request over readable carts that answers
  -- an error changes nothing.
  pub handle-refuses :
      (user : String) (r : Request) (w : World) (e : Error)
      → ((u total : String) → upsert_answer u total ≡ ok tt)
      → ((u : String) → delete_answer u ≡ ok tt)
      → GivesAll env
      → IsStored env w
      → (handle env user r w).0 ≡ err e
      → (handle env user r w).1 ≡ w
  handle-refuses user r w e takes deletes gives s h = elim (handle-Outcome env user r w gives s) [
    | refused x p ↦ rw p refl
    | answered items b g p ↦ rw p refl
    | saved items b v p ↦ absurd (ground arith)
    | unsaved items x v a p ↦ absurd (ground (arith, takes user (compute_total numbers items)))
    | undeleted x a p ↦ absurd (ground (arith, deletes user))
    | deleted b p ↦ absurd (ground arith)
  ]

  -- If the cart of a user reads as `items`, an active variant is added in a positive quantity and
  -- PostgreSQL refuses the new total, `addItem` answers that error and the snapshots stay, and yet
  -- Redis holds the cart with the addition.
  pub add_item-unsaved :
      (user product variant : String) (q : ℤ) (w : World) (items : List CartItem) (price : Price)
      (e : Error)
      → is_blank user ≡ false
      → ltb (to_nat q) 1 ≡ false
      → resolve_active_variant env product variant ≡ ok price
      → get_items env user w ≡ (ok items, w)
      → upsert_answer user (compute_total numbers (put_item product variant price (to_nat q) items))
        ≡ err e
      → let (a, v) = add_item env user product variant q w in
        let new = put_item product variant price (to_nat q) items in
        (a ≡ err e) × (v.snapshots ≡ w.snapshots) × (v.carts user ≡ some (saved_hash env w.now new))
  unfolding add_item assert_user_id assert_quantity
  add_item-unsaved user product variant q w items price e b n found reads a =
      let new = put_item product variant price (to_nat q) items in
      let run : add_item env user product variant q w ≡ (err e, cached env user new w) =
        ground (arith, persist-err env user new w e a) in
      rw run (refl, refl, write_self user (some (saved_hash env w.now new)) w.carts)
