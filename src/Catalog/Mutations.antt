-- ===== src/Catalog/Mutations.antt =====
-- The calls of an administrator that change one product
-- (apps/catalog/src/application/catalog.service.ts): what each leaves in the tables and the cache.
use food_ordering_app.Prelude.{
  suc, String, ◌⊎◌, update_where, select, map, true, false, not, Option, some, List, [], ◌∷◌, ◌==◌,
  find, nat_eq, length, is_some, ◌≡◌, refl, ◌∙◌, arith, eq_iff, eq_refl, Bool-cases, Option-cases,
  inl, inr,
}
use food_ordering_app.Effect.{Error, Result, ok, err, not_found, validation}
use food_ordering_app.Text.{is_blank}
use food_ordering_app.Domain.{Role, is_admin_role}
use food_ordering_app.Catalog.Model.{
  VariantDto, VariantInput, CreateProductInput, UpdateProductInput, UpsertVariantInput, World, Env,
}
use food_ordering_app.Catalog.Repository.{
  has_id, dto_of, map_product, updated_row, product_at, find_by_id, create, update, delete,
  upsert_variant, update_variant, insert_variant, new_variant, changed_variant, stored, new_row,
  new_variants,
}
use food_ordering_app.Catalog.Service.{
  assert_admin, assert_price, assert_variants, create_product, existing, update_product,
  delete_product, put_variant, cleaned,
}
use food_ordering_app.Catalog.Frames.{
  found-id, product_at-some, product_at-none, Keeps, Owns, Keeps-rows, find-append, find-select,
  find-update, variants_of-select, variants_of-append, new_variants-owned, variants_of-update,
}
use food_ordering_app.Catalog.Coherence.{IsSettled, settled}

-- What the tables are without a product.
abbrev without_product : String → World → World
without_product id w = record w {
  products = select (λ p. not (has_id id p)) w.products;
  variants = select (λ v. not (v.product_id == id)) w.variants;
}

module _ (env : Env) where
  pub update_product-IsSettled :
      (input : UpdateProductInput) (role : Option Role) (w : World)
      → IsSettled env w (update_product env input role w).1
  unfolding update_product assert_admin existing find_by_id update map_product updated_row
  update_product-IsSettled input role w = elim (Bool-cases (is_admin_role role)) [
    | inr r ↦ inl (ground arith)
    | inl r ↦ elim (Option-cases (find (has_id input.id) w.products)) [
      | inl f ↦ inl (ground (arith, product_at-none input.id w f))
      | inr (p, f) ↦
          settled env p.id "updated" (dto_of w (updated_row input p)) w
            (record w { products = update_where (has_id input.id) (updated_row input) w.products })
            (update_product env input role w).1
            (Keeps-rows p.id w
              (record w {
                products = update_where (has_id input.id) (updated_row input) w.products;
              })
              (λ j q n e.
                find-update input.id j input w.products
                  (ground (arith, found-id input.id w.products p f, eq_iff p.id input.id))
                ∙ e)
              (λ j n. refl))
            refl (ground (arith, product_at-some input.id w p f))
    ]
  ]

  pub delete_product-IsSettled :
      (id : String) (role : Option Role) (w : World)
      → IsSettled env w (delete_product env id role w).1
  unfolding delete_product assert_admin delete
  delete_product-IsSettled id role w = elim (Bool-cases (is_admin_role role)) [
    | inr r ↦ inl (ground arith)
    | inl r ↦ elim (Bool-cases (is_some (find (has_id id) w.products))) [
      | inr f ↦ inl (ground arith)
      | inl f ↦
          settled env id "deleted" id w (without_product id w) (delete_product env id role w).1
            (Keeps-rows id w (without_product id w) (λ j q n e. find-select id j w.products n ∙ e)
              (λ j n. variants_of-select id j w.variants n))
            refl (ground arith)
    ]
  ]

  insert_variant-Keeps :
      (input : UpsertVariantInput) (w : World)
      → Keeps input.product_id w (insert_variant env input w).1
  unfolding insert_variant new_variant
  insert_variant-Keeps input w =
      Keeps-rows input.product_id w (insert_variant env input w).1 (λ j q n e. e)
        (λ j n.
          variants_of-append input.product_id j w.variants
            (stored env (new_variant env w.draws input) ∷ []) n
            (ground (arith, eq_refl input.product_id), tt))

  -- The tables with a variant changed.
  abbrev with_variant : String → UpsertVariantInput → World → World
  with_variant id input w = record w {
    variants =
        update_where (λ v. v.id == id) (λ v. stored env (changed_variant env input v)) w.variants;
  }

  with_variant-Keeps :
      (id : String) (input : UpsertVariantInput) (w : World)
      → Owns id input.product_id w.variants
      → Keeps input.product_id w (with_variant id input w)
  with_variant-Keeps id input w o =
      Keeps-rows input.product_id w (with_variant id input w) (λ j q n e. e)
        (λ j n. variants_of-update env id j input w.variants n o)

  -- What the repository makes of a variant: nothing, or a change of the product that is named.
  upsert_variant-cases :
      (input : UpsertVariantInput) (w : World)
      → ((id : String) → input.id ≡ some id → Owns id input.product_id w.variants)
      → ((e : Error) × (upsert_variant env input w ≡ (err e, w)))
        ⊎ ((v : VariantDto) × (u : World) × (upsert_variant env input w ≡ (ok v, u))
            × Keeps input.product_id w u
            × (u.product_cache ≡ w.product_cache))
  unfolding upsert_variant insert_variant update_variant
  upsert_variant-cases input w o = elim (Option-cases input.id) [
    | inl i ↦ inr (
      new_variant env w.draws input,
      (insert_variant env input w).1,
      ground arith,
      insert_variant-Keeps input w,
      refl,
    )
    | inr (id, i) ↦ elim (Bool-cases (id == "")) [
      | inl b ↦ inr (
        new_variant env w.draws input,
        (insert_variant env input w).1,
        ground arith,
        insert_variant-Keeps input w,
        refl,
      )
      | inr b ↦ elim (Option-cases (find (λ v. v.id == id) w.variants)) [
        | inl f ↦ inl (not_found "Variant not found", ground arith)
        | inr (v, f) ↦ inr (
          changed_variant env input v,
          with_variant id input w,
          ground arith,
          with_variant-Keeps id input w (o id i),
          refl,
        )
      ]
    ]
  ]

  pub put_variant-IsSettled :
      (input : UpsertVariantInput) (role : Option Role) (w : World)
      → ((id : String) → input.id ≡ some id → Owns id input.product_id w.variants)
      → IsSettled env w (put_variant env input role w).1
  unfolding put_variant assert_admin assert_price existing find_by_id
  put_variant-IsSettled input role w o = elim (Bool-cases (is_admin_role role)) [
    | inr r ↦ inl (ground arith)
    | inl r ↦ elim (Bool-cases (env.is_price input.price)) [
      | inr p ↦ inl (ground arith)
      | inl p ↦ elim (Bool-cases (is_blank input.label)) [
        | inl b ↦ inl (ground arith)
        | inr b ↦ elim (Option-cases (product_at input.product_id w)) [
          | inl f ↦ inl (ground arith)
          | inr (d, f) ↦ elim (upsert_variant-cases input w o) [
            | inl (e, u) ↦ inl (ground arith)
            | inr (v, u, at, k, same) ↦
                settled env input.product_id "variant_upserted" v w u
                  (put_variant env input role w).1 k same (ground arith)
          ]
        ]
      ]
    ]
  ]

  assert_variants-keeps :
      (vs : List VariantInput) (w : World)
      → (r : Result (Unit {0})) × (assert_variants env vs w ≡ (r, w))
  unfolding assert_variants assert_price
  assert_variants-keeps [] w = (ok tt, refl)
  assert_variants-keeps (v ∷ vs) w =
      let (r, e) = assert_variants-keeps vs w in
      elim (Bool-cases (env.is_price v.price)) [
        | inr p ↦ (err (validation "Invalid price"), ground arith)
        | inl p ↦ elim (Bool-cases (is_blank v.label)) [
          | inl b ↦ (err (validation "variant label is required"), ground arith)
          | inr b ↦ (r, ground arith)
        ]
      ]

  create-Keeps :
      (input : CreateProductInput) (w : World) → Keeps (env.uuid w.draws) w (create env input w).1
  unfolding create new_row
  create-Keeps input w =
      Keeps-rows (env.uuid w.draws) w (create env input w).1
        (λ j q n e. find-append j w.products (new_row env w.draws input ∷ []) q e)
        (λ j n.
          variants_of-append (env.uuid w.draws) j w.variants
            (map (stored env) (new_variants env (suc w.draws) (env.uuid w.draws) input.variants)) n
            (new_variants-owned env (suc w.draws) (env.uuid w.draws) input.variants))

  pub create_product-IsSettled :
      (input : CreateProductInput) (role : Option Role) (w : World)
      → IsSettled env w (create_product env input role w).1
  unfolding create_product assert_admin create map_product new_row
  create_product-IsSettled input role w = elim (Bool-cases (is_admin_role role)) [
    | inr r ↦ inl (ground arith)
    | inl r ↦ elim (Bool-cases (is_blank input.name)) [
      | inl b ↦ inl (ground arith)
      | inr b ↦ elim (Bool-cases (nat_eq (length input.variants) 0)) [
        | inl z ↦ inl (ground arith)
        | inr z ↦ accepted r b z (assert_variants-keeps input.variants w)
      ]
    ]
  ]
    where
      accepted :
          is_admin_role role ≡ true
          → is_blank input.name ≡ false
          → nat_eq (length input.variants) 0 ≡ false
          → (p : Result (Unit {0})) × (assert_variants env input.variants w ≡ (p, w))
          → IsSettled env w (create_product env input role w).1
      accepted r b z (err e, a) = inl (ground arith)
      accepted r b z (ok t, a) =
          settled env (env.uuid w.draws) "created"
            (map_product (new_row env w.draws (cleaned input))
              (new_variants env (suc w.draws) (env.uuid w.draws) (cleaned input).variants))
            w (create env (cleaned input) w).1 (create_product env input role w).1
            (create-Keeps (cleaned input) w) refl (ground arith)
