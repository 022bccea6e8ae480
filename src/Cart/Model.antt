-- ===== src/Cart/Model.antt =====
-- The data of the cart service (apps/cart/src/domain/cart.ts, application/ports.ts) and its state.
use Prim.Native.String
use food_ordering_app.Prelude.{ℕ, ◌+◌, String, Bool, Option, List, [], ◌∷◌}
use food_ordering_app.Effect.{Result}
use food_ordering_app.Runtime.{Numbers}

pub record CartItem : Type 0 where
  pub product_id : String
  pub variant_id : String
  pub label : String
  pub unit_price : String
  pub quantity : ℕ

pub record CartDto : Type 0 where
  pub user_id : String
  pub items : List CartItem
  pub total : String
  pub item_count : ℕ

pub record VariantPrice : Type 0 where
  pub product_id : String
  pub variant_id : String
  pub label : String
  pub unit_price : String
  pub is_active : Bool

-- The Redis hash of a cart: its fields, of which none has the name of another, and its expiry. The
-- order of the list is that of their first `HSET`; `HGETALL` gives them in an order of its own.
pub record CartHash : Type 0 where
  pub fields : List (String × String)
  pub expiry : ℕ

-- A row of the table of snapshots.
pub record SnapshotRow : Type 0 where
  pub items : List CartItem
  pub total : String
  pub updated_at : ℕ

-- `carts u` is the hash `cart:u`; `now` is the time at which a request runs, in milliseconds.
pub record World : Type 0 where
  pub carts : String → Option CartHash
  pub snapshots : String → Option SnapshotRow
  pub now : ℕ

-- Numbers, JSON and the catalog service, as the cart service uses them.
pub record Env (Num : Type 0) : Type 0 where
  pub numbers : Numbers Num
  -- `JSON.stringify` and `JSON.parse` on items; a parse may throw.
  pub stringify : CartItem → String
  pub parse : String → Result CartItem
  -- The order in which Redis gives the fields of a hash to `HGETALL`.
  pub hgetall : List (String × String) → List (String × String)
  -- `CatalogPriceLookup.getVariantPrice`
  pub get_variant_price : String → String → Result (Option VariantPrice)
  -- What PostgreSQL answers to the row of a snapshot with this user and total, and to a deletion for
  -- this user. The columns are `uuid` and `numeric(12,2)`: it refuses other values.
  pub upsert_answer : String → String → Result (Unit {0})
  pub delete_answer : String → Result (Unit {0})

-- `${productId}:${variantId}`
unfoldable pub item_key : String → String → String
item_key product_id variant_id = String.◌++◌ product_id (String.◌++◌ ":" variant_id)

abbrev pub key_of : CartItem → String
key_of i = item_key i.product_id i.variant_id

module _ {Num : Type 0} (numbers : Numbers Num) where
  -- The `reduce` of `computeTotal`.
  unfoldable pub total_from : Num → List CartItem → Num
  total_from acc [] = acc
  total_from acc (i ∷ is) =
      total_from (numbers.add acc (numbers.times (numbers.number i.unit_price) i.quantity)) is

  unfoldable pub compute_total : List CartItem → String
  unfolding total_from
  compute_total items = numbers.to_fixed (total_from numbers.nothing items)

unfoldable pub count_from : ℕ → List CartItem → ℕ
count_from acc [] = acc
count_from acc (i ∷ is) = count_from (acc + i.quantity) is

unfoldable pub compute_item_count : List CartItem → ℕ
unfolding count_from
compute_item_count items = count_from 0 items

unfoldable pub to_cart_dto : {Num : Type 0} → Numbers Num → String → List CartItem → CartDto
to_cart_dto numbers user items = record {
  user_id = user;
  items = items;
  total = compute_total numbers items;
  item_count = compute_item_count items;
}
