-- ===== src/Catalog/Tests.antt =====
-- Runs of the catalog on small data, and its theorems at concrete inputs.
use food_ordering_app.Prelude.{
  ℕ, zero, suc, String, true, none, some, [], ◌∷◌, ◌==◌, find, if◌then◌else◌, ◌≡◌, refl, arith,
}
use food_ordering_app.Prelude.Int.{ℤ}
use food_ordering_app.Effect.{ok, err, fault}
use food_ordering_app.Text.{is_blank, trim}
use food_ordering_app.Domain.{admin, customer}
use food_ordering_app.Catalog.Model.{
  VariantDto, ProductDto, CreateProductInput, UpdateProductInput, UpsertVariantInput, PresignInput,
  World, Env,
}
use food_ordering_app.Catalog.Repository.{
  has_id, create, delete_variant, find_by_id, product_at, page_at, map_product, variants_of,
  new_variants, new_row,
}
use food_ordering_app.Catalog.Cache
use food_ordering_app.Catalog.Service.{
  assert_admin, assert_price, assert_variants, create_product, get_product, list_products,
  remove_variant, update_product, delete_product, put_variant, presign_product_image, cleaned,
  publish_change, after_mutation, page_from, limit_from, answered,
}
use food_ordering_app.Catalog.Controller.{
  UpdateProductMessage, RoleMetadata, role_name, role_of, role_from_metadata, update_product_rpc,
}
use food_ordering_app.Catalog.Model.{ProductRow}
use food_ordering_app.Catalog.Overwrites.{overwritten, update_product_rpc-overwrites}
use food_ordering_app.Catalog.Access.{refusal, changes_need_admin}
use food_ordering_app.Catalog.Reads.{looked_up}
use food_ordering_app.Catalog.Freshness.{
  Reach, here, next, created, read, Reach-reads_current, remove_variant-stale,
}

-- Distinct texts.
abbrev uuid : ℕ → String
uuid zero = "a"
uuid (suc n) = String.◌∷◌ "a" (uuid n)

abbrev env : Env
env = record {
  uuid = uuid;
  is_price = λ s. s == "5";
  to_numeric = λ s. if s == "5" then "5.00" else s;
  newest_first = λ rows. rows;
  connected = true;
  send = λ m. ok tt;
  presign_upload = λ i. err (fault "unreachable");
}

abbrev start : World
start = record {
  products = [];
  variants = [];
  product_cache = λ id. none;
  list_cache = λ p l. none;
  now = 0;
  draws = 0;
  sent = [];
}

abbrev pizza : CreateProductInput
pizza = record {
  name = " Pizza ";
  description = "";
  is_active = none;
  image_url = none;
  variants = record { label = "L"; price = "5"; is_active = none } ∷ [];
}

abbrev made : World
made = (create_product env pizza (some admin) start).1

abbrev seen : World
seen = (get_product "a" made).1

-- What the runs below compute with.
service : Unit {0}
unfolding is_blank trim assert_admin assert_price assert_variants create_product create cleaned
    new_row new_variants map_product variants_of after_mutation publish_change get_product
    Cache.get_product Cache.fresh Cache.set_product Cache.invalidate_product Cache.invalidate_lists
    find_by_id product_at remove_variant delete_variant looked_up
service = tt

abbrev large : VariantDto
large = record { id = "aa"; product_id = "a"; label = "L"; price = "5.00"; is_active = true }

abbrev pizza_dto : ProductDto
pizza_dto = record {
  id = "a";
  name = "Pizza";
  description = "";
  is_active = true;
  image_url = none;
  variants = large ∷ [];
}

get_product_run : (get_product "a" made).0 ≡ ok pizza_dto
unfolding service
get_product_run = refl

remove_variant-stale_example :
    ((get_product "a" (remove_variant env "aa" (some admin) seen).1).0 ≡ ok pizza_dto)
    × (find (λ v. v.id == "aa") (remove_variant env "aa" (some admin) seen).1.variants ≡ none)
unfolding service
remove_variant-stale_example =
    remove_variant-stale env "a" "aa" (some admin) seen pizza_dto refl refl refl

abbrev calls : Reach env start seen
calls = next (next here (created pizza (some admin) refl)) (read "a" refl)

Reach-reads_current_example :
    ((id : String) → (get_product id seen).0 ≡ looked_up (product_at id seen))
    × ((page limit : ℤ)
        → (list_products env page limit seen).0
          ≡ ok (
              answered
                (page_from page)
                (limit_from limit)
                (page_at env (page_from page) (limit_from limit) seen)))
Reach-reads_current_example =
    Reach-reads_current env calls (λ id c e. absurd (ground arith))
      (λ p l c e. absurd (ground arith))

changes_need_admin_example :
    ((input : CreateProductInput)
      → create_product env input (some customer) made ≡ (err refusal, made))
    × ((input : UpdateProductInput)
        → update_product env input (some customer) made ≡ (err refusal, made))
    × ((id : String) → delete_product env id (some customer) made ≡ (err refusal, made))
    × ((input : UpsertVariantInput)
        → put_variant env input (some customer) made ≡ (err refusal, made))
    × ((id : String) → remove_variant env id (some customer) made ≡ (err refusal, made))
    × ((input : PresignInput)
        → presign_product_image env input (some customer) made ≡ (err refusal, made))
changes_need_admin_example = changes_need_admin env (some customer) made refl

-- An update that says nothing of the image.
abbrev renamed : UpdateProductMessage
renamed = record {
  id = "a";
  name = "Pizza Margherita";
  description = "";
  is_active = true;
  image_url = "";
}

abbrev as_admin : RoleMetadata
as_admin = record { x_user_role = some "admin"; role = none; user_role = none }

abbrev pictured : ProductRow
pictured = record {
  id = "a";
  name = "Pizza";
  description = "";
  is_active = true;
  image_url = some "http://localhost/pizza.jpg";
}

update_product_rpc-overwrites_example :
    find
      (has_id "a")
      (update_product_rpc env renamed as_admin
        (record start { products = pictured ∷ [] })).1.products
    ≡ some (overwritten renamed pictured)
unfolding role_from_metadata role_name role_of
update_product_rpc-overwrites_example =
    update_product_rpc-overwrites env renamed as_admin (record start { products = pictured ∷ [] })
      pictured refl refl
