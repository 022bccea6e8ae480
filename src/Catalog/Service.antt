-- ===== src/Catalog/Service.antt =====
-- `CatalogService` (apps/catalog/src/application/catalog.service.ts), method by method, and the
-- publisher that it uses (infrastructure/messaging/kafka.publisher.ts).
use Prim.Native.Nat.{max, min}
use food_ordering_app.Prelude.{
  ℕ, suc, String, true, not, Option, none, some, List, [], ◌∷◌, ◌++◌, if◌then◌else◌, or_else,
  length, nat_eq,
}
use food_ordering_app.Prelude.Int.{ℤ, to_nat}
use food_ordering_app.Effect.{
  ok, err, forbidden, not_found, validation, Action, pure, raise, raise_if, lift, ◌>>=◌, ◌>>◌,
}
use food_ordering_app.Text.{is_blank, trim, starts_with}
use food_ordering_app.Domain.{
  Role, is_admin_role, Topic, Payload, product_changed, variant_changed, Envelope,
}
use food_ordering_app.Catalog.Model.{
  VariantDto, ProductDto, VariantInput, CreateProductInput, UpdateProductInput, UpsertVariantInput,
  ProductPage, ListAnswer, PresignInput, Upload, World, Env,
}
use food_ordering_app.Catalog.Repository.{
  find_by_id, list, create, update, delete, upsert_variant, delete_variant,
}
use food_ordering_app.Catalog.Cache

unfoldable pub assert_admin : Option Role → Action World (Unit {0})
assert_admin role = raise_if (not (is_admin_role role)) (forbidden "Admin role required")

-- `Math.max(1, page)`
unfoldable pub page_from : ℤ → ℕ
page_from page = max 1 (to_nat page)

-- `Math.min(Math.max(1, limit), 100)`
unfoldable pub limit_from : ℤ → ℕ
limit_from limit = min (max 1 (to_nat limit)) 100

abbrev pub answered : ℕ → ℕ → ProductPage → ListAnswer
answered page limit d = record { items = d.items; total = d.total; page = page; limit = limit }

-- `{ ...input, name, description, isActive }`
unfoldable pub cleaned : CreateProductInput → CreateProductInput
cleaned input = record input {
  name = trim input.name;
  description = trim input.description;
  is_active = some (or_else input.is_active true);
}

unfoldable pub get_product : String → Action World ProductDto
get_product id = do
  cached ← Cache.get_product id
  elim cached [
    | some p ↦ pure p
    | none ↦ do
      found ← find_by_id id
      elim found [
        | none ↦ raise (not_found "Product not found")
        | some p ↦ Cache.set_product p >> pure p
      ]
  ]

-- `findById`, and the `NotFoundError` if there is none.
unfoldable pub existing : String → Action World ProductDto
existing id = do
  found ← find_by_id id
  elim found [ none ↦ raise (not_found "Product not found") | some p ↦ pure p ]

module _ (env : Env) where
  open env use {uuid, is_price, connected, send, presign_upload}

  abbrev pub message_of : String → Payload → World → Envelope
  message_of key payload w = record {
    event_id = uuid w.draws;
    topic = Topic.catalog_product_changed;
    key = key;
    payload = payload;
    trace_id = none;
    occurred_at = w.now;
  }

  -- `publish` with the next UUID: without a producer the event is dropped.
  unfoldable pub publish_change : String → Payload → Action World (Unit {0})
  publish_change key payload w =
      let m = message_of key payload w in
      let drawn : World = record w { draws = suc w.draws } in
      if connected
      then elim (send m) [
        | ok _ ↦ (ok tt, record drawn { sent = w.sent ++ (m ∷ []) })
        | err e ↦ (err e, drawn)
      ]
      else (ok tt, drawn)

  unfoldable pub after_mutation : String → String → Action World (Unit {0})
  after_mutation product_id action = do
    Cache.invalidate_product product_id
    Cache.invalidate_lists
    publish_change product_id (product_changed product_id action)

  unfoldable pub assert_price : String → Action World (Unit {0})
  assert_price price = raise_if (not (is_price price)) (validation "Invalid price")

  -- The loop of `createProduct` over the variants.
  unfoldable pub assert_variants : List VariantInput → Action World (Unit {0})
  assert_variants [] = pure tt
  assert_variants (v ∷ vs) = do
    assert_price v.price
    raise_if (is_blank v.label) (validation "variant label is required")
    assert_variants vs

  unfoldable pub list_products : ℤ → ℤ → Action World ListAnswer
  list_products page limit = do
    cached ← Cache.get_list (page_from page) (limit_from limit)
    elim cached [
      | some d ↦ pure (answered (page_from page) (limit_from limit) d)
      | none ↦ do
        d ← list env (page_from page) (limit_from limit)
        Cache.set_list (page_from page) (limit_from limit) d
        pure (answered (page_from page) (limit_from limit) d)
    ]

  unfoldable pub create_product : CreateProductInput → Option Role → Action World ProductDto
  create_product input role = do
    assert_admin role
    raise_if (is_blank input.name) (validation "name is required")
    raise_if (nat_eq (length input.variants) 0) (validation "at least one variant is required")
    assert_variants input.variants
    product ← create env (cleaned input)
    after_mutation product.id "created"
    pure product

  unfoldable pub update_product : UpdateProductInput → Option Role → Action World ProductDto
  update_product input role = do
    assert_admin role
    existing input.id
    product ← update input
    after_mutation product.id "updated"
    pure product

  unfoldable pub delete_product : String → Option Role → Action World String
  delete_product id role = do
    assert_admin role
    deleted ← delete id
    after_mutation deleted "deleted"
    pure deleted

  unfoldable pub put_variant : UpsertVariantInput → Option Role → Action World VariantDto
  put_variant input role = do
    assert_admin role
    assert_price input.price
    raise_if (is_blank input.label) (validation "variant label is required")
    existing input.product_id
    variant ← upsert_variant env input
    after_mutation input.product_id "variant_upserted"
    pure variant

  unfoldable pub remove_variant : String → Option Role → Action World String
  remove_variant id role = do
    assert_admin role
    deleted ← delete_variant id
    Cache.invalidate_lists
    publish_change deleted (variant_changed deleted "variant_deleted")
    pure deleted

  unfoldable pub presign_product_image : PresignInput → Option Role → Action World Upload
  presign_product_image input role = do
    assert_admin role
    existing input.product_id
    raise_if (not (starts_with input.content_type "image/"))
        (validation "contentType must be an image/* type")
    lift (presign_upload input)
