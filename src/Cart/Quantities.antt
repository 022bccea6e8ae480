-- ===== src/Cart/Quantities.antt =====
-- The cart as a multiset of variants: what the requests of the cart service
-- (apps/cart/src/application/cart.service.ts) mean for the quantities.
use food_ordering_app.Prelude.{
  ℕ, ◌+◌, String, List, [], ◌==◌, if◌then◌else◌, ltb, nat_eq, length, ◌≡◌, ◌∙◌, ap, arith,
  Bool-cases, inl, inr, eq_iff,
}
use food_ordering_app.Prelude.Int.{ℤ, to_nat}
use food_ordering_app.Effect.{ok, Result-cases}
use food_ordering_app.Text.{is_blank}
use food_ordering_app.Cart.Model.{
  CartItem, CartDto, World, Env, item_key, to_cart_dto, compute_total,
}
use food_ordering_app.Cart.Service.{
  update_first, repriced, put_item, without, resolve_active_variant, persist, assert_user_id,
  assert_quantity, get_cart, add_item, update_item, remove_item, clear_cart, price_items,
  price_cart,
}
use food_ordering_app.Cart.Store.{clear, delete}
use food_ordering_app.Cart.Items.{
  quantity_of, holds, put_item-quantity, without-quantity, set_quantity-quantity,
  price_items-quantity,
}
use food_ordering_app.Cart.Requests.{
  Request, get, add, update, remove, empty, reprice, handle, Reads, get_cart-reads, persist-ok,
  persist-err,
}

-- What a request means for the quantity of each variant.
unfoldable pub meant : Request → (String → ℕ) → String → ℕ
meant get f k = f k
meant (add p v q) f k = if item_key p v == k then f k + to_nat q else f k
meant (update p v q) f k = if item_key p v == k then to_nat q else f k
meant (remove p v) f k = if item_key p v == k then 0 else f k
meant empty f k = 0
meant reprice f k = f k

module _ {Num : Type 0} (env : Env Num) where
  open env use {numbers, upsert_answer, delete_answer}

  pub persisted :
      (user : String) (items : List CartItem) (w : World) (dto : CartDto)
      → (persist env user items w).0 ≡ ok dto
      → dto.items ≡ items
  unfolding to_cart_dto
  persisted user items w dto e =
      elim (Result-cases (upsert_answer user (compute_total numbers items))) [
        | inl (_, a) ↦ ground (arith, persist-ok env user items w a)
        | inr (x, a) ↦ absurd (ground (arith, persist-err env user items w x a))
      ]

  add_item-quantity :
      (user p v : String) (q : ℤ) (w : World) {items : List CartItem} {dto : CartDto}
      → Reads env user w items
      → (add_item env user p v q w).0 ≡ ok dto
      → (k : String) → quantity_of k dto.items ≡ meant (add p v q) (λ j. quantity_of j items) k
  unfolding add_item assert_user_id assert_quantity meant
  add_item-quantity user p v q w {items} {dto} (g, h) e k = elim (Bool-cases (is_blank user)) [
    | inl b ↦ absurd (ground arith)
    | inr b ↦ elim (Bool-cases (ltb (to_nat q) 1)) [
      | inl n ↦ absurd (ground arith)
      | inr n ↦ elim (Result-cases (resolve_active_variant env p v)) [
        | inr (x, r) ↦ absurd (ground arith)
        | inl (price, r) ↦
            ap (quantity_of k)
              (persisted user (put_item p v price (to_nat q) items) w dto (ground arith))
            ∙ ground
                (arith, put_item-quantity p v price (to_nat q) items k, eq_iff (item_key p v) k)
      ]
    ]
  ]

  update_item-quantity :
      (user p v : String) (q : ℤ) (w : World) {items : List CartItem} {dto : CartDto}
      → Reads env user w items
      → (update_item env user p v q w).0 ≡ ok dto
      → (k : String) → quantity_of k dto.items ≡ meant (update p v q) (λ j. quantity_of j items) k
  unfolding update_item assert_user_id assert_quantity meant
  update_item-quantity user p v q w {items} {dto} (g, h) e k = elim (Bool-cases (is_blank user)) [
    | inl b ↦ absurd (ground arith)
    | inr b ↦ elim (Bool-cases (ltb (to_nat q) 1)) [
      | inl n ↦ absurd (ground arith)
      | inr n ↦ elim (Bool-cases (holds (item_key p v) items)) [
        | inr f ↦ absurd (ground arith)
        | inl f ↦ elim (Result-cases (resolve_active_variant env p v)) [
          | inr (x, r) ↦ absurd (ground arith)
          | inl (price, r) ↦
              ap (quantity_of k) (
                persisted user (update_first (item_key p v) (repriced price (to_nat q)) items) w dto
                  (ground arith))
              ∙ set_quantity-quantity (item_key p v) k price (to_nat q) items f
        ]
      ]
    ]
  ]

  remove_item-quantity :
      (user p v : String) (w : World) {items : List CartItem} {dto : CartDto}
      → Reads env user w items
      → (remove_item env user p v w).0 ≡ ok dto
      → (k : String) → quantity_of k dto.items ≡ meant (remove p v) (λ j. quantity_of j items) k
  unfolding remove_item assert_user_id meant
  remove_item-quantity user p v w {items} {dto} (g, h) e k = elim (Bool-cases (is_blank user)) [
    | inl b ↦ absurd (ground arith)
    | inr b ↦ elim (Bool-cases (nat_eq (length (without (item_key p v) items)) (length items))) [
      | inl n ↦ absurd (ground arith)
      | inr n ↦
          ap (quantity_of k) (persisted user (without (item_key p v) items) w dto (ground arith))
          ∙ without-quantity (item_key p v) k items
    ]
  ]

  get_cart-quantity :
      (user : String) (w : World) {items : List CartItem} {dto : CartDto}
      → Reads env user w items
      → (get_cart env user w).0 ≡ ok dto
      → dto.items ≡ items
  unfolding get_cart assert_user_id to_cart_dto
  get_cart-quantity user w {items} {dto} (g, h) e = elim (Bool-cases (is_blank user)) [
    | inl b ↦ absurd (ground arith)
    | inr b ↦ ground (arith, get_cart-reads env user w items b g)
  ]

  price_cart-quantity :
      (user : String) (w : World) {items : List CartItem} {dto : CartDto}
      → Reads env user w items
      → (price_cart env user w).0 ≡ ok dto
      → (k : String) → quantity_of k dto.items ≡ quantity_of k items
  unfolding price_cart assert_user_id
  price_cart-quantity user w {items} {dto} (g, h) e k = elim (Bool-cases (is_blank user)) [
    | inl b ↦ absurd (ground arith)
    | inr b ↦ elim (Result-cases (price_items env items)) [
      | inr (x, r) ↦ absurd (ground arith)
      | inl (ps, r) ↦
          ap (quantity_of k) (persisted user ps w dto (ground arith))
          ∙ (price_items-quantity env items ps k r).0
    ]
  ]

  clear_cart-quantity :
      (user : String) (w : World) {dto : CartDto}
      → (clear_cart env user w).0 ≡ ok dto
      → dto.items ≡ []
  unfolding clear_cart assert_user_id clear delete to_cart_dto
  clear_cart-quantity user w {dto} e = elim (Bool-cases (is_blank user)) [
    | inl b ↦ absurd (ground arith)
    | inr b ↦ elim (Result-cases (delete_answer user)) [
      | inl (_, a) ↦ ground arith
      | inr (x, a) ↦ absurd (ground arith)
    ]
  ]

  -- Over a readable cart, what a successful request answers holds each variant in the quantity that
  -- the request means: an addition adds to its variant, an update sets it, a removal takes it all,
  -- clearing takes everything, and no other quantity changes.
  pub handle-meant :
      (user : String) (r : Request) (w : World) (items : List CartItem) {dto : CartDto}
      → Reads env user w items
      → (handle env user r w).0 ≡ ok dto
      → (k : String) → quantity_of k dto.items ≡ meant r (λ j. quantity_of j items) k
  unfolding handle meant
  handle-meant user get w items s e k = ap (quantity_of k) (get_cart-quantity user w s e)
  handle-meant user (add p v q) w items s e k = add_item-quantity user p v q w s e k
  handle-meant user (update p v q) w items s e k = update_item-quantity user p v q w s e k
  handle-meant user (remove p v) w items s e k = remove_item-quantity user p v w s e k
  handle-meant user empty w items s e k = ap (quantity_of k) (clear_cart-quantity user w e)
  handle-meant user reprice w items s e k = price_cart-quantity user w s e k
