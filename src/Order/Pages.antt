-- ===== src/Order/Pages.antt =====
-- The pages of `listMyOrders` and `listAllOrders`
-- (apps/order/src/application/order.service.ts, infrastructure/persistence/typeorm.repositories.ts).
use food_ordering_app.Prelude.{
  ℕ, zero, suc, ◌-◌, ◌*◌, ◌≤◌, String, not, ◌&&◌, List, [], ◌++◌, ◌==◌, ◌≡◌, arith, map, take, drop,
  select, length, ◌∷◌, refl,
}
use food_ordering_app.Prelude.Int.{ℤ, pos, negsuc}
use food_ordering_app.Effect.{Result, ok, err}
use food_ordering_app.Order.Model.{Order, OrderSummary, Env, World}
use food_ordering_app.Order.Repository.{summary, page_of, list_by_user, newest_first}
use food_ordering_app.Order.Settlement.{OrderPage, safe_page, safe_limit, list_my_orders}

map-take-length : {A B : Type 0} (f : A → B) (n : ℕ) (xs : List A) → length (map f (take n xs)) ≤ n
map-take-length f zero xs = omega arith
map-take-length f (suc n) [] = omega arith
map-take-length f (suc n) (x ∷ xs) = omega (arith, map-take-length f n xs)

limit_bounds : (limit : ℤ) → (1 ≤ safe_limit limit) × (safe_limit limit ≤ 50)
unfolding safe_limit
limit_bounds (pos l) = omega arith
limit_bounds (negsuc l) = omega arith

page_bound : (page : ℤ) → 1 ≤ safe_page page
unfolding safe_page
page_bound (pos l) = omega arith
page_bound (negsuc l) = omega arith

module _ {Num C : Type 0} (env : Env Num C) where
  -- The orders that a customer sees.
  abbrev pub visible : String → World C → List Order
  visible user w = select (λ o. o.user_id == user && not o.soft_deleted) w.db.orders

  -- The items of an answered page.
  abbrev items_of : Result OrderPage → List OrderSummary
  items_of (ok p) = p.items
  items_of (err _) = []

  -- The items of the first `k` pages of a customer's orders, one page after the other.
  abbrev pub first_pages : String → ℕ → ℤ → World C → List OrderSummary
  first_pages user zero limit w = []
  first_pages user (suc k) limit w =
      first_pages user k limit w ++ items_of (list_my_orders env user (pos (suc k)) limit w).0

  -- Whatever page and page size a customer asks for, `listMyOrders` answers: with a page number of
  -- at least 1, a page size of 1 to 50, no more orders than that, and the number of all orders of
  -- the customer that are not deleted; and it changes nothing.
  pub list_my_orders-bounds :
      (user : String) (page limit : ℤ) (w : World C)
      → (p : OrderPage) × (list_my_orders env user page limit w ≡ (ok p, w))
        × (1 ≤ p.page)
        × (1 ≤ p.limit)
        × (p.limit ≤ 50)
        × (length p.items ≤ p.limit)
        × (p.total ≡ length (visible user w))
  unfolding list_my_orders list_by_user page_of
  list_my_orders-bounds user page limit w =
      let rows = drop ((safe_page page - 1) * safe_limit limit) (newest_first (visible user w)) in
      let (low, high) = limit_bounds limit in
      (
        record {
          items = map summary (take (safe_limit limit) rows);
          total = length (visible user w);
          page = safe_page page;
          limit = safe_limit limit;
        },
        refl,
        page_bound page,
        low,
        high,
        map-take-length summary (safe_limit limit) rows,
        refl,
      )
