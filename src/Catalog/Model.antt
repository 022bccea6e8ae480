-- ===== src/Catalog/Model.antt =====
-- The data of the catalog service (apps/catalog/src/domain/types.ts, application/ports.ts), its
-- tables and its cache.
use food_ordering_app.Prelude.{ℕ, String, Bool, Option, List}
use food_ordering_app.Effect.{Result}
use food_ordering_app.Domain.{Envelope}

pub record VariantDto : Type 0 where
  pub id : String
  pub product_id : String
  pub label : String
  pub price : String
  pub is_active : Bool

pub record ProductDto : Type 0 where
  pub id : String
  pub name : String
  pub description : String
  pub is_active : Bool
  pub image_url : Option String
  pub variants : List VariantDto

pub record VariantInput : Type 0 where
  pub label : String
  pub price : String
  pub is_active : Option Bool

pub record CreateProductInput : Type 0 where
  pub name : String
  pub description : String
  pub is_active : Option Bool
  pub image_url : Option String
  pub variants : List VariantInput

-- A field is `none` if it is undefined; an image may be set to null.
pub record UpdateProductInput : Type 0 where
  pub id : String
  pub name : Option String
  pub description : Option String
  pub is_active : Option Bool
  pub image_url : Option (Option String)

pub record UpsertVariantInput : Type 0 where
  pub id : Option String
  pub product_id : String
  pub label : String
  pub price : String
  pub is_active : Option Bool

-- What a list of products answers, also from the cache.
pub record ProductPage : Type 0 where
  pub items : List ProductDto
  pub total : ℕ

pub record ListAnswer : Type 0 where
  pub items : List ProductDto
  pub total : ℕ
  pub page : ℕ
  pub limit : ℕ

pub record PresignInput : Type 0 where
  pub product_id : String
  pub content_type : String
  pub file_extension : String

pub record Upload : Type 0 where
  pub upload_url : String
  pub public_url : String
  pub object_key : String
  pub expires_in : ℕ

-- A row of the table of products; those of the table of variants are `VariantDto`s.
pub record ProductRow : Type 0 where
  pub id : String
  pub name : String
  pub description : String
  pub is_active : Bool
  pub image_url : Option String

-- A value in Redis with the time, in milliseconds, from which it is gone.
pub record Cached (A : Type 0) : Type 0 where
  pub value : A
  pub expiry : ℕ

-- The tables, the keys `product:{id}` and `catalog:list:{page}:{limit}`, the time at which a request
-- runs, the number of UUIDs drawn, and the messages that Kafka took.
pub record World : Type 0 where
  pub products : List ProductRow
  pub variants : List VariantDto
  pub product_cache : String → Option (Cached ProductDto)
  pub list_cache : ℕ → ℕ → Option (Cached ProductPage)
  pub now : ℕ
  pub draws : ℕ
  pub sent : List Envelope

pub record Env : Type 0 where
  pub uuid : ℕ → String
  -- `Number.isFinite(Number(price)) && Number(price) >= 0`
  pub is_price : String → Bool
  -- The text that a column `numeric(12, 2)` gives back for a price.
  pub to_numeric : String → String
  -- The order of rows by their time of creation, the newest first.
  pub newest_first : List ProductRow → List ProductRow
  -- Whether the Kafka producer is connected, and what it answers to a message.
  pub connected : Bool
  pub send : Envelope → Result (Unit {0})
  pub presign_upload : PresignInput → Result Upload
