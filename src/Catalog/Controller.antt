-- ===== src/Catalog/Controller.antt =====
-- `CatalogGrpcController` (apps/catalog/src/interface/grpc/catalog.grpc.controller.ts). The loader of
-- apps/catalog/src/main.ts fills in defaults, so every field of a message is there.
use food_ordering_app.Prelude.{
  ℕ, String, Bool, Option, none, some, List, map, ◌==◌, if◌then◌else◌, or_else, nat_eq,
}
use food_ordering_app.Prelude.Int.{ℤ}
use food_ordering_app.Effect.{Error, http_status, message}
use food_ordering_app.Domain.{Role, customer, admin}
use food_ordering_app.Grpc.{
  GrpcStatus, invalid_argument, permission_denied, not_found, internal, RpcException, Reply,
  replied,
}
use food_ordering_app.Catalog.Model.{
  VariantDto, ProductDto, CreateProductInput, UpdateProductInput, UpsertVariantInput, ListAnswer,
  PresignInput, Upload, World, Env,
}
use food_ordering_app.Catalog.Service.{
  list_products, get_product, create_product, update_product, delete_product, put_variant,
  remove_variant, presign_product_image,
}

-- A product in a message: without an image the field is empty.
pub record ProductMessage : Type 0 where
  pub id : String
  pub name : String
  pub description : String
  pub is_active : Bool
  pub image_url : String
  pub variants : List VariantDto

unfoldable pub product_message : ProductDto → ProductMessage
product_message p = record {
  id = p.id;
  name = p.name;
  description = p.description;
  is_active = p.is_active;
  image_url = or_else p.image_url "";
  variants = p.variants;
}

pub record ListMessage : Type 0 where
  pub products : List ProductMessage
  pub page : ℕ
  pub limit : ℕ
  pub total : ℕ

unfoldable pub list_message : ListAnswer → ListMessage
list_message a = record {
  products = map product_message a.items;
  page = a.page;
  limit = a.limit;
  total = a.total;
}

pub record VariantFields : Type 0 where
  pub label : String
  pub price : String
  pub is_active : Bool

pub record CreateProductMessage : Type 0 where
  pub name : String
  pub description : String
  pub is_active : Bool
  pub image_url : String
  pub variants : List VariantFields

pub record UpdateProductMessage : Type 0 where
  pub id : String
  pub name : String
  pub description : String
  pub is_active : Bool
  pub image_url : String

pub record UpsertVariantMessage : Type 0 where
  pub id : String
  pub product_id : String
  pub label : String
  pub price : String
  pub is_active : Bool

-- The first values of the three keys that are looked at.
pub record RoleMetadata : Type 0 where
  pub x_user_role : Option String
  pub role : Option String
  pub user_role : Option String

unfoldable pub role_name : RoleMetadata → Option String
role_name m = elim m.x_user_role [
  | some r ↦ some r
  | none ↦ elim m.role [ some r ↦ some r | none ↦ m.user_role ]
]

-- A name that is no role has no rights.
unfoldable pub role_of : String → Option Role
role_of s = if s == "admin" then some admin else if s == "customer" then some customer else none

unfoldable pub role_from_metadata : RoleMetadata → Option Role
role_from_metadata m = elim (role_name m) [ none ↦ none | some s ↦ role_of s ]

unfoldable pub code_of : Option ℕ → GrpcStatus
code_of none = internal
code_of (some n) =
    if nat_eq n 400
    then invalid_argument
    else if nat_eq n 403
    then permission_denied
    else if nat_eq n 404
    then not_found
    else internal

unfoldable pub to_rpc : Error → RpcException
unfolding http_status code_of message
to_rpc e = record { code = code_of (http_status e); message = food_ordering_app.Effect.message e }

-- `data.imageUrl || null`, `data.id || undefined`
unfoldable pub unless_empty : String → Option String
unless_empty s = if s == "" then none else some s

unfoldable pub create_input : CreateProductMessage → CreateProductInput
create_input m = record {
  name = m.name;
  description = m.description;
  is_active = some m.is_active;
  image_url = unless_empty m.image_url;
  variants =
      map (λ v. record { label = v.label; price = v.price; is_active = some v.is_active })
        m.variants;
}

unfoldable pub update_input : UpdateProductMessage → UpdateProductInput
update_input m = record {
  id = m.id;
  name = some m.name;
  description = some m.description;
  is_active = some m.is_active;
  image_url = some (some m.image_url);
}

unfoldable pub upsert_input : UpsertVariantMessage → UpsertVariantInput
upsert_input m = record {
  id = unless_empty m.id;
  product_id = m.product_id;
  label = m.label;
  price = m.price;
  is_active = some m.is_active;
}

unfoldable pub get_product_rpc : String → World → Reply ProductMessage × World
get_product_rpc id w = replied to_rpc product_message (get_product id w)

module _ (env : Env) where
  unfoldable pub list_products_rpc : ℤ → ℤ → World → Reply ListMessage × World
  list_products_rpc page limit w = replied to_rpc list_message (list_products env page limit w)

  unfoldable pub create_product_rpc :
      CreateProductMessage → RoleMetadata → World → Reply ProductMessage × World
  unfolding create_input role_from_metadata
  create_product_rpc m meta w =
      replied to_rpc product_message
        (create_product env (create_input m) (role_from_metadata meta) w)

  unfoldable pub update_product_rpc :
      UpdateProductMessage → RoleMetadata → World → Reply ProductMessage × World
  unfolding update_input role_from_metadata
  update_product_rpc m meta w =
      replied to_rpc product_message
        (update_product env (update_input m) (role_from_metadata meta) w)

  unfoldable pub delete_product_rpc : String → RoleMetadata → World → Reply String × World
  delete_product_rpc id meta w =
      replied to_rpc (λ i. i) (delete_product env id (role_from_metadata meta) w)

  unfoldable pub upsert_variant_rpc :
      UpsertVariantMessage → RoleMetadata → World → Reply VariantDto × World
  unfolding upsert_input role_from_metadata
  upsert_variant_rpc m meta w =
      replied to_rpc (λ v. v) (put_variant env (upsert_input m) (role_from_metadata meta) w)

  unfoldable pub delete_variant_rpc : String → RoleMetadata → World → Reply String × World
  delete_variant_rpc id meta w =
      replied to_rpc (λ i. i) (remove_variant env id (role_from_metadata meta) w)

  unfoldable pub presign_product_image_rpc :
      PresignInput → RoleMetadata → World → Reply Upload × World
  presign_product_image_rpc input meta w =
      replied to_rpc (λ u. u) (presign_product_image env input (role_from_metadata meta) w)
