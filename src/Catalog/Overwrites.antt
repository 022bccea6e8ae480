-- ===== src/Catalog/Overwrites.antt =====
-- What an update of a product over gRPC does to its columns
-- (apps/catalog/src/interface/grpc/catalog.grpc.controller.ts, `updateProduct`).
use food_ordering_app.Prelude.{
  String, some, List, [], ◌∷◌, find, update_where, ◌≡◌, refl, ◌∙◌, ap, arith,
}
use food_ordering_app.Effect.{Error, Result, ok, err}
use food_ordering_app.Domain.{admin, product_changed}
use food_ordering_app.Grpc.{RpcException, replied}
use food_ordering_app.Catalog.Model.{UpdateProductInput, ProductRow, World, Env}
use food_ordering_app.Catalog.Repository.{
  has_id, dto_of, map_product, updated_row, find_by_id, update,
}
use food_ordering_app.Catalog.Cache.{invalidate_product, invalidate_lists}
use food_ordering_app.Catalog.Service.{assert_admin, existing, update_product, after_mutation}
use food_ordering_app.Catalog.Controller.{
  UpdateProductMessage, RoleMetadata, role_from_metadata, update_input, update_product_rpc, to_rpc,
  product_message,
}
use food_ordering_app.Catalog.Frames.{product_at-some}
use food_ordering_app.Catalog.Coherence.{after_mutation-pure, publish_change-keeps, invalidated}

find-updated :
    (id : String) (input : UpdateProductInput) (ps : List ProductRow) (p : ProductRow)
    → find (has_id id) ps ≡ some p
    → find (has_id id) (update_where (has_id id) (updated_row input) ps)
      ≡ some (updated_row input p)
unfolding updated_row
find-updated id input [] p f = absurd (ground arith)
find-updated id input (q ∷ qs) p f = ground (arith, find-updated id input qs p)

replied-state :
    {W A B : Type 0} (to_rpc : Error → RpcException) (f : A → B) (p : Result A × W)
    → (replied to_rpc f p).1 ≡ p.1
unfolding replied
replied-state to_rpc f (ok a, w) = refl
replied-state to_rpc f (err e, w) = refl

-- The columns that a message sets.
abbrev pub overwritten : UpdateProductMessage → ProductRow → ProductRow
overwritten m p = record p {
  name = m.name;
  description = m.description;
  is_active = m.is_active;
  image_url = some m.image_url;
}

module _ (env : Env) where
  after_mutation-products :
      (id action : String) (u : World) → (after_mutation env id action u).1.products ≡ u.products
  unfolding after_mutation invalidate_product invalidate_lists
  after_mutation-products id action u =
      let (messages, e) =
        publish_change-keeps env id (product_changed id action) (invalidated env id u) in
      ap (λ v. v.products) e

  update_product-products :
      (input : UpdateProductInput) (w : World) {p : ProductRow}
      → find (has_id input.id) w.products ≡ some p
      → (update_product env input (some admin) w).1.products
        ≡ update_where (has_id input.id) (updated_row input) w.products
  unfolding update_product assert_admin existing find_by_id update map_product updated_row
  update_product-products input w {p} f =
      let u : World = record w {
        products = update_where (has_id input.id) (updated_row input) w.products;
      } in
      ground (
        arith,
        product_at-some input.id w p f,
        after_mutation-pure env p.id "updated" (dto_of w (updated_row input p)) u,
        after_mutation-products p.id "updated" u,
      )

  -- An administrator's update over gRPC of a product that is there replaces its name, description,
  -- activity and image by the message's, also by an empty image, whether or not the event reaches
  -- Kafka.
  pub update_product_rpc-overwrites :
      (m : UpdateProductMessage) (meta : RoleMetadata) (w : World) (p : ProductRow)
      → role_from_metadata meta ≡ some admin
      → find (has_id m.id) w.products ≡ some p
      → find (has_id m.id) (update_product_rpc env m meta w).1.products ≡ some (overwritten m p)
  unfolding update_product_rpc update_input updated_row
  update_product_rpc-overwrites m meta w p r f =
      let input = update_input m in
      ap (λ v. find (has_id m.id) v.products)
        (replied-state to_rpc product_message
          (update_product env input (role_from_metadata meta) w))
      ∙ ap (λ role. find (has_id m.id) (update_product env input role w).1.products) r
      ∙ ap (find (has_id m.id)) (update_product-products input w f)
      ∙ find-updated m.id input w.products p f
