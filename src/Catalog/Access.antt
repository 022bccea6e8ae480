-- ===== src/Catalog/Access.antt =====
-- Who may change the catalog (`assertAdmin` in apps/catalog/src/application/catalog.service.ts).
use food_ordering_app.Prelude.{String, false, Option, ◌≡◌, arith}
use food_ordering_app.Effect.{err, forbidden, Error}
use food_ordering_app.Domain.{Role, is_admin_role}
use food_ordering_app.Catalog.Model.{
  CreateProductInput, UpdateProductInput, UpsertVariantInput, PresignInput, World, Env,
}
use food_ordering_app.Catalog.Service.{
  assert_admin, create_product, update_product, delete_product, put_variant, remove_variant,
  presign_product_image,
}

abbrev pub refusal : Error
refusal = forbidden "Admin role required"

-- Without the role of an administrator every call that would change the catalog, and the upload of
-- an image, answers `ForbiddenError`, whatever else is wrong with it, and changes nothing.
pub changes_need_admin :
    (env : Env) (role : Option Role) (w : World)
    → is_admin_role role ≡ false
    → ((input : CreateProductInput) → create_product env input role w ≡ (err refusal, w))
      × ((input : UpdateProductInput) → update_product env input role w ≡ (err refusal, w))
      × ((id : String) → delete_product env id role w ≡ (err refusal, w))
      × ((input : UpsertVariantInput) → put_variant env input role w ≡ (err refusal, w))
      × ((id : String) → remove_variant env id role w ≡ (err refusal, w))
      × ((input : PresignInput) → presign_product_image env input role w ≡ (err refusal, w))
unfolding assert_admin create_product update_product delete_product put_variant remove_variant
    presign_product_image
changes_need_admin env role w r = (
  λ input. ground arith,
  λ input. ground arith,
  λ id. ground arith,
  λ input. ground arith,
  λ id. ground arith,
  λ input. ground arith,
)
