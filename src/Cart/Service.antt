-- ===== src/Cart/Service.antt =====
-- `CartService` (apps/cart/src/application/cart.service.ts), method by method.
use Prim.Native.String
use food_ordering_app.Prelude.{
  ℕ, ◌+◌, String, Bool, not, none, some, List, [], ◌∷◌, ◌++◌, ◌==◌, ltb, nat_eq, if◌then◌else◌,
  find, select, length, is_some,
}
use food_ordering_app.Prelude.Int.{ℤ, to_nat}
use food_ordering_app.Effect.{
  Result, ok, err, not_found, validation, unprocessable, Action, pure, raise_if, lift, ◌>>=◌, ◌>>◌,
}
use food_ordering_app.Text.{is_blank}
use food_ordering_app.Cart.Model.{CartItem, CartDto, World, Env, item_key, key_of, to_cart_dto}
use food_ordering_app.Cart.Store.{get_items, exists, save_items, clear, upsert, delete}

-- The label and the price that `resolveActiveVariant` returns.
pub record Price : Type 0 where
  pub label : String
  pub unit_price : String

unfoldable pub gone : String → String
gone variant_id =
    String.◌++◌ "Sorry, variant " (String.◌++◌ variant_id " is no longer available. Remove it?")

unfoldable pub assert_user_id : String → Action World (Unit {0})
assert_user_id user = raise_if (is_blank user) (validation "userId is required")

-- The wire carries integers, so the test `Number.isInteger` always passes.
unfoldable pub assert_quantity : ℤ → Action World (Unit {0})
assert_quantity q = raise_if (ltb (to_nat q) 1) (validation "quantity must be a positive integer")

abbrev pub has_key : String → CartItem → Bool
has_key key i = key_of i == key

-- `items.find(…)` and an assignment to the fields of what it found.
unfoldable pub update_first : String → (CartItem → CartItem) → List CartItem → List CartItem
update_first key f [] = []
update_first key f (i ∷ is) = if has_key key i then f i ∷ is else i ∷ update_first key f is

abbrev pub repriced : Price → ℕ → CartItem → CartItem
repriced p q i = record i { label = p.label; unit_price = p.unit_price; quantity = q }

abbrev pub new_item : String → String → Price → ℕ → CartItem
new_item product_id variant_id p q = record {
  product_id = product_id;
  variant_id = variant_id;
  label = p.label;
  unit_price = p.unit_price;
  quantity = q;
}

-- What `addItem` makes of the items: a larger quantity at the new price, or a new item.
unfoldable pub put_item : String → String → Price → ℕ → List CartItem → List CartItem
unfolding update_first
put_item product_id variant_id p q items =
    let key = item_key product_id variant_id in
    if is_some (find (has_key key) items)
    then update_first key (λ i. repriced p (i.quantity + q) i) items
    else items ++ (new_item product_id variant_id p q ∷ [])

-- What `removeItem` keeps.
unfoldable pub without : String → List CartItem → List CartItem
without key items = select (λ i. not (has_key key i)) items

module _ {Num : Type 0} (env : Env Num) where
  open env use {numbers, get_variant_price}

  unfoldable pub resolve_active_variant : String → String → Result Price
  resolve_active_variant product_id variant_id = elim (get_variant_price product_id variant_id) [
    | err e ↦ err e
    | ok none ↦ err (unprocessable (gone variant_id))
    | ok (some v) ↦
        if v.is_active
        then ok (record { label = v.label; unit_price = v.unit_price })
        else err (unprocessable (gone variant_id))
  ]

  unfoldable pub persist : String → List CartItem → Action World CartDto
  persist user items = do
    save_items env user items
    (let cart = to_cart_dto numbers user items in do upsert env user items cart.total; pure cart)

  unfoldable pub get_cart : String → Action World CartDto
  get_cart user = do
    assert_user_id user
    there ← exists env user
    (if there then (do items ← get_items env user; pure (to_cart_dto numbers user items)) else (do
      items ← get_items env user
      if nat_eq (length items) 0
          then pure (to_cart_dto numbers user [])
          else (do again ← get_items env user; pure (to_cart_dto numbers user again))))

  unfoldable pub add_item : String → String → String → ℤ → Action World CartDto
  add_item user product_id variant_id quantity = do
    assert_user_id user
    assert_quantity quantity
    price ← lift (resolve_active_variant product_id variant_id)
    items ← get_items env user
    persist user (put_item product_id variant_id price (to_nat quantity) items)

  unfoldable pub update_item : String → String → String → ℤ → Action World CartDto
  update_item user product_id variant_id quantity = do
    assert_user_id user
    assert_quantity quantity
    items ← get_items env user
    raise_if (not (is_some (find (has_key (item_key product_id variant_id)) items)))
        (not_found "Cart item not found")
    price ← lift (resolve_active_variant product_id variant_id)
    persist user
        (update_first (item_key product_id variant_id) (repriced price (to_nat quantity)) items)

  unfoldable pub remove_item : String → String → String → Action World CartDto
  remove_item user product_id variant_id = do
    assert_user_id user
    items ← get_items env user
    raise_if (nat_eq (length (without (item_key product_id variant_id) items)) (length items))
        (not_found "Cart item not found")
    persist user (without (item_key product_id variant_id) items)

  unfoldable pub clear_cart : String → Action World CartDto
  clear_cart user = do
    assert_user_id user
    clear user
    delete env user
    pure (to_cart_dto numbers user [])

  -- The loop of `priceCart`.
  unfoldable pub price_items : List CartItem → Result (List CartItem)
  price_items [] = ok []
  price_items (i ∷ is) =
      let more = price_items is in
      elim (resolve_active_variant i.product_id i.variant_id) [
        | err e ↦ err e
        | ok p ↦ elim more [ err e ↦ err e | ok ps ↦ ok (repriced p i.quantity i ∷ ps) ]
      ]

  unfoldable pub price_cart : String → Action World CartDto
  price_cart user = do
    assert_user_id user
    items ← get_items env user
    priced ← lift (price_items items)
    persist user priced
