-- ===== src/Catalog/Freshness.antt =====
-- Over sequences of calls of the catalog (apps/catalog/src/application/catalog.service.ts): its cache
-- never answers what the tables no longer hold, except after `deleteVariant`.
use food_ordering_app.Prelude.{
  ℕ, suc, ◌∷◌, String, true, Option, none, some, List, [], ◌==◌, is_some, find, select, not, ◌≡◌,
  refl, ◌∙◌, ap, arith, inl, inr,
}
use food_ordering_app.Prelude.Int.{ℤ}
use food_ordering_app.Effect.{ok, Result-cases, pure, ◌>>◌}
use food_ordering_app.Domain.{Role, is_admin_role, Payload, variant_changed}
use food_ordering_app.Catalog.Model.{
  VariantDto, ProductDto, CreateProductInput, UpdateProductInput, UpsertVariantInput, World, Env,
}
use food_ordering_app.Catalog.Repository.{product_at, page_at, delete_variant}
use food_ordering_app.Catalog.Cache
use food_ordering_app.Catalog.Service.{
  assert_admin, list_products, get_product, create_product, update_product, delete_product,
  put_variant, remove_variant, page_from, limit_from, answered, publish_change,
}
use food_ordering_app.Catalog.Frames.{Owns}
use food_ordering_app.Catalog.Coherence.{
  IsCurrent, ListsAreCurrent, IsMutation-IsCurrent, IsMutation-lists, IsSettled,
  publish_change-keeps,
}
use food_ordering_app.Catalog.Mutations.{
  create_product-IsSettled, update_product-IsSettled, delete_product-IsSettled,
  put_variant-IsSettled,
}
use food_ordering_app.Catalog.Reads.{
  looked_up, get_product-IsCurrent, get_product-hit, list_products-ListsAreCurrent,
}

module _ (env : Env) where
  -- A call other than `deleteVariant`, or time that passes. An update of a variant names the product
  -- that the variant belongs to.
  pub data Step (w : World) (v : World) : Type 0 where
    listed : (page limit : ℤ) → v ≡ (list_products env page limit w).1 → Step w v
    read : (id : String) → v ≡ (get_product id w).1 → Step w v
    created :
        (input : CreateProductInput) (role : Option Role)
        → v ≡ (create_product env input role w).1
        → Step w v
    updated :
        (input : UpdateProductInput) (role : Option Role)
        → v ≡ (update_product env input role w).1
        → Step w v
    deleted : (id : String) (role : Option Role) → v ≡ (delete_product env id role w).1 → Step w v
    put :
        (input : UpsertVariantInput) (role : Option Role)
        → ((id : String) → input.id ≡ some id → Owns id input.product_id w.variants)
        → v ≡ (put_variant env input role w).1
        → Step w v
    waited : (time : ℕ) → v ≡ record w { now = time } → Step w v

  pub data Reach (w : World) : World → Type 0 where
    here : Reach w w
    next : {u v : World} → Reach w u → Step u v → Reach w v

  abbrev BothCurrent : World → Type 0
  BothCurrent w = IsCurrent w × ListsAreCurrent env w

  settled-current : (w v : World) → IsSettled env w v → BothCurrent w → BothCurrent v
  settled-current w v (inl e) c = rw e c
  settled-current w v (inr (id, m)) c = (IsMutation-IsCurrent env m c.0, IsMutation-lists env m)

  -- A step from a current cache leaves a current cache.
  Step-current : (w v : World) → Step w v → BothCurrent w → BothCurrent v
  unfolding product_at page_at
  Step-current w v (listed page limit e) c =
      let (a, lists, same) = list_products-ListsAreCurrent env page limit w c.1 in
      rw e (rw same c.0, lists)
  Step-current w v (read id e) c =
      let (a, products, same) = get_product-IsCurrent id w c.0 in rw e (products, rw same c.1)
  Step-current w v (created input role e) c =
      rw e (settled-current w _ (create_product-IsSettled env input role w) c)
  Step-current w v (updated input role e) c =
      rw e (settled-current w _ (update_product-IsSettled env input role w) c)
  Step-current w v (deleted id role e) c =
      rw e (settled-current w _ (delete_product-IsSettled env id role w) c)
  Step-current w v (put input role o e) c =
      rw e (settled-current w _ (put_variant-IsSettled env input role w o) c)
  Step-current w v (waited time e) c = rw e c

  Reach-current : {w v : World} → Reach w v → BothCurrent w → BothCurrent v
  Reach-current here c = c
  Reach-current {w} {v} (next {u} r s) c = Step-current u v s (Reach-current r c)

  -- After any calls other than `deleteVariant`, from a state whose cache is current, `getProduct`
  -- answers what the tables hold and `listProducts` the page that the tables give, whether they
  -- read the cache or not; an update of a variant must have named the variant's own product.
  pub Reach-reads_current :
      {w v : World}
      → Reach w v
      → IsCurrent w
      → ListsAreCurrent env w
      → ((id : String) → (get_product id v).0 ≡ looked_up (product_at id v))
        × ((page limit : ℤ)
            → (list_products env page limit v).0
              ≡ ok (
                  answered
                    (page_from page)
                    (limit_from limit)
                    (page_at env (page_from page) (limit_from limit) v)))
  Reach-reads_current {w} {v} r c d =
      let (products, lists) = Reach-current r (c, d) in
      (
        λ id. (get_product-IsCurrent id v products).0,
        λ page limit. (list_products-ListsAreCurrent env page limit v lists).0,
      )

  publish_change-pure :
      {A : Type 0} (key : String) (payload : Payload) (a : A) (u : World)
      → ((publish_change env key payload >> pure a) u).1 ≡ (publish_change env key payload u).1
  publish_change-pure key payload a u = elim (Result-cases (publish_change env key payload u).0) [
    | inl (x, e) ↦ ground arith
    | inr (x, e) ↦ ground arith
  ]

  -- The tables and the cache without a variant.
  abbrev without_variant : String → World → World
  without_variant variant w = record w {
    variants = select (λ v. not (v.id == variant)) w.variants;
    list_cache = λ p l. none;
  }

  remove_variant-state :
      (variant : String) (role : Option Role) (w : World)
      → is_admin_role role ≡ true
      → is_some (find (λ v. v.id == variant) w.variants) ≡ true
      → (remove_variant env variant role w).1
        ≡ (publish_change env variant
            (variant_changed variant "variant_deleted")
            (without_variant variant w)).1
  unfolding remove_variant assert_admin delete_variant Cache.invalidate_lists
  remove_variant-state variant role w r f = ground (
    arith,
    publish_change-pure variant (variant_changed variant "variant_deleted") variant
        (without_variant variant w),
  )

  find-without :
      (variant : String) (vs : List VariantDto)
      → find (λ v. v.id == variant) (select (λ v. not (v.id == variant)) vs) ≡ none
  find-without variant [] = refl
  find-without variant (v ∷ vs) = ground (arith, find-without variant vs)

  -- After an administrator deleted a variant, `getProduct` still answers a product as it was cached,
  -- although the variant is in no table any more.
  pub remove_variant-stale :
      (id variant : String) (role : Option Role) (w : World) (d : ProductDto)
      → is_admin_role role ≡ true
      → is_some (find (λ v. v.id == variant) w.variants) ≡ true
      → Cache.fresh w.now (w.product_cache id) ≡ some d
      → ((get_product id (remove_variant env variant role w).1).0 ≡ ok d)
        × (find (λ v. v.id == variant) (remove_variant env variant role w).1.variants ≡ none)
  remove_variant-stale id variant role w d r f h =
      let (messages, e) =
        publish_change-keeps env variant (variant_changed variant "variant_deleted")
          (without_variant variant w) in
      rw (remove_variant-state variant role w r f ∙ e) (
        ap (λ p. p.0)
            (get_product-hit id
              (record (without_variant variant w) { draws = suc w.draws; sent = messages }) d h),
        find-without variant w.variants,
      )
