-- ===== src/Catalog/Repository.antt =====
-- `TypeOrmProductRepository` (apps/catalog/src/infrastructure/persistence/typeorm.repositories.ts).
use food_ordering_app.Prelude.{
  ℕ, ◌+◌, ◌-◌, ◌*◌, suc, String, Bool, true, not, Option, none, some, List, [], ◌∷◌, ◌++◌, ◌==◌,
  if◌then◌else◌, find, select, update_where, map, length, take, drop, or_else, is_some,
}
use food_ordering_app.Effect.{ok, err, not_found, Action, gets}
use food_ordering_app.Catalog.Model.{
  VariantDto, ProductDto, VariantInput, CreateProductInput, UpdateProductInput, UpsertVariantInput,
  ProductPage, ProductRow, World, Env,
}

abbrev pub has_id : String → ProductRow → Bool
has_id id p = p.id == id

-- The relation `variants` of a product.
unfoldable pub variants_of : String → List VariantDto → List VariantDto
variants_of id vs = select (λ v. v.product_id == id) vs

-- `mapProduct` on a row with its variants.
unfoldable pub map_product : ProductRow → List VariantDto → ProductDto
map_product p vs = record {
  id = p.id;
  name = p.name;
  description = p.description;
  is_active = p.is_active;
  image_url = p.image_url;
  variants = vs;
}

abbrev pub dto_of : World → ProductRow → ProductDto
dto_of w p = map_product p (variants_of p.id w.variants)

-- What `findOne` by the id answers.
unfoldable pub product_at : String → World → Option ProductDto
product_at id w = elim (find (has_id id) w.products) [ none ↦ none | some p ↦ some (dto_of w p) ]

unfoldable pub find_by_id : String → Action World (Option ProductDto)
find_by_id id = gets (product_at id)

-- The columns that an update sets.
unfoldable pub updated_row : UpdateProductInput → ProductRow → ProductRow
updated_row input p = record p {
  name = or_else input.name p.name;
  description = or_else input.description p.description;
  is_active = or_else input.is_active p.is_active;
  image_url = or_else input.image_url p.image_url;
}

unfoldable pub update : UpdateProductInput → Action World ProductDto
unfolding updated_row
update input w = elim (find (has_id input.id) w.products) [
  | none ↦ (err (not_found "Product not found"), w)
  | some p ↦ (
    ok (dto_of w (updated_row input p)),
    record w { products = update_where (has_id input.id) (updated_row input) w.products },
  )
]

-- The variants of a product go with it (`onDelete: 'CASCADE'`).
unfoldable pub delete : String → Action World String
delete id w =
    if is_some (find (has_id id) w.products)
    then (
      ok id,
      record w {
        products = select (λ p. not (has_id id p)) w.products;
        variants = select (λ v. not (v.product_id == id)) w.variants;
      },
    )
    else (err (not_found "Product not found"), w)

unfoldable pub delete_variant : String → Action World String
delete_variant id w =
    if is_some (find (λ v. v.id == id) w.variants)
    then (ok id, record w { variants = select (λ v. not (v.id == id)) w.variants })
    else (err (not_found "Variant not found"), w)

module _ (env : Env) where
  open env use {uuid, to_numeric, newest_first}

  -- `findAndCount` with `where: { isActive: true }`, `skip: (page - 1) * limit` and `take: limit`;
  -- pages count from 1.
  unfoldable pub page_at : ℕ → ℕ → World → ProductPage
  page_at page limit w =
      let rows = select (λ p. p.is_active) w.products in
      record {
        items = map (dto_of w) (take limit (drop ((page - 1) * limit) (newest_first rows)));
        total = length rows;
      }

  unfoldable pub list : ℕ → ℕ → Action World ProductPage
  list page limit = gets (page_at page limit)

  -- The variants of a new product, whose ids are the draws from `n` on.
  unfoldable pub new_variants : ℕ → String → List VariantInput → List VariantDto
  new_variants n product_id [] = []
  new_variants n product_id (v ∷ vs) =
      record {
        id = uuid n;
        product_id = product_id;
        label = v.label;
        price = v.price;
        is_active = or_else v.is_active true;
      }
      ∷ new_variants (suc n) product_id vs

  abbrev pub stored : VariantDto → VariantDto
  stored v = record v { price = to_numeric v.price }

  unfoldable pub new_row : ℕ → CreateProductInput → ProductRow
  new_row n input = record {
    id = uuid n;
    name = input.name;
    description = input.description;
    is_active = or_else input.is_active true;
    image_url = input.image_url;
  }

  -- What is saved is answered with the prices as they came.
  unfoldable pub create : CreateProductInput → Action World ProductDto
  unfolding new_variants new_row
  create input w =
      let p = new_row w.draws input in
      let vs = new_variants (suc w.draws) p.id input.variants in
      (
        ok (map_product p vs),
        record w {
          products = w.products ++ (p ∷ []);
          variants = w.variants ++ map stored vs;
          draws = suc w.draws + length vs;
        },
      )

  unfoldable pub changed_variant : UpsertVariantInput → VariantDto → VariantDto
  changed_variant input v = record v {
    label = input.label;
    price = input.price;
    is_active = or_else input.is_active v.is_active;
  }

  unfoldable pub update_variant : String → UpsertVariantInput → Action World VariantDto
  unfolding changed_variant
  update_variant id input w = elim (find (λ v. v.id == id) w.variants) [
    | none ↦ (err (not_found "Variant not found"), w)
    | some v ↦ (
      ok (changed_variant input v),
      record w {
        variants =
            update_where (λ v. v.id == id) (λ v. stored (changed_variant input v)) w.variants;
      },
    )
  ]

  unfoldable pub new_variant : ℕ → UpsertVariantInput → VariantDto
  new_variant n input = record {
    id = uuid n;
    product_id = input.product_id;
    label = input.label;
    price = input.price;
    is_active = or_else input.is_active true;
  }

  unfoldable pub insert_variant : UpsertVariantInput → Action World VariantDto
  unfolding new_variant
  insert_variant input w = (
    ok (new_variant w.draws input),
    record w {
      variants = w.variants ++ (stored (new_variant w.draws input) ∷ []);
      draws = suc w.draws;
    },
  )

  -- An empty id counts as none.
  unfoldable pub upsert_variant : UpsertVariantInput → Action World VariantDto
  unfolding update_variant insert_variant
  upsert_variant input = elim input.id [
    | none ↦ insert_variant input
    | some id ↦ if id == "" then insert_variant input else update_variant id input
  ]
