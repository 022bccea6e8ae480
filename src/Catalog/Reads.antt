-- ===== src/Catalog/Reads.antt =====
-- What `getProduct` and `listProducts` (apps/catalog/src/application/catalog.service.ts) answer from
-- the cache, compared with the tables.
use food_ordering_app.Prelude.{
  ℕ, ◌+◌, String, ◌⊎◌, true, Option, none, some, ◌==◌, if◌then◌else◌, nat_eq, ltb, find, ◌≡◌, refl,
  ◌∙◌, ap, arith, eq_iff, Bool-cases, Option-cases, inl, inr, ◌&&◌,
}
use food_ordering_app.Prelude.Int.{ℤ}
use food_ordering_app.Effect.{Result, ok, err, not_found}
use food_ordering_app.Keyed.{write}
use food_ordering_app.Catalog.Model.{ProductDto, ProductPage, Cached, World, Env}
use food_ordering_app.Catalog.Repository.{
  has_id, product_at, map_product, page_at, find_by_id, list,
}
use food_ordering_app.Catalog.Cache
use food_ordering_app.Catalog.Service.{list_products, get_product, page_from, limit_from, answered}
use food_ordering_app.Catalog.Frames.{found-id}
use food_ordering_app.Catalog.Coherence.{IsCurrent, ListsAreCurrent}

-- What the tables say of a product.
unfoldable pub looked_up : Option ProductDto → Result ProductDto
looked_up none = err (not_found "Product not found")
looked_up (some p) = ok p

product_at-id : (id : String) (w : World) (d : ProductDto) → product_at id w ≡ some d → d.id ≡ id
unfolding product_at map_product
product_at-id id w d e = elim (Option-cases (find (has_id id) w.products)) [
  | inl f ↦ absurd (ground arith)
  | inr (p, f) ↦ ground (arith, found-id id w.products p f, eq_iff p.id id)
]

fresh-cached :
    {A : Type 0} (now : ℕ) (c : Option (Cached A)) (a : A)
    → Cache.fresh now c ≡ some a
    → (e : Cached A) × (c ≡ some e) × (e.value ≡ a)
unfolding Cache.fresh
fresh-cached now none a e = absurd (ground arith)
fresh-cached now (some c) a e = elim (Bool-cases (ltb now c.expiry)) [
  | inl l ↦ (c, refl, ground arith)
  | inr l ↦ absurd (ground arith)
]

-- The cache with a product in it.
abbrev pub remembered : ProductDto → World → World
remembered p w = record w {
  product_cache = write p.id (some (record { value = p; expiry = w.now + 300000 })) w.product_cache;
}

remembered-IsCurrent :
    (p : ProductDto) (w : World)
    → product_at p.id w ≡ some p
    → IsCurrent w
    → IsCurrent (remembered p w)
unfolding product_at
remembered-IsCurrent p w held c j e at = elim (Bool-cases (p.id == j)) [
  | inl s ↦ ground (arith, eq_iff p.id j)
  | inr s ↦ c j e (ground arith)
]

pub get_product-hit :
    (id : String) (w : World) (p : ProductDto)
    → Cache.fresh w.now (w.product_cache id) ≡ some p
    → get_product id w ≡ (ok p, w)
unfolding get_product Cache.get_product
get_product-hit id w p h = ground arith

get_product-miss :
    (id : String) (w : World)
    → Cache.fresh w.now (w.product_cache id) ≡ none
    → ((product_at id w ≡ none) × (get_product id w ≡ (err (not_found "Product not found"), w)))
      ⊎ ((p : ProductDto) × (product_at id w ≡ some p)
          × (get_product id w ≡ (ok p, remembered p w)))
unfolding get_product Cache.get_product find_by_id Cache.set_product
get_product-miss id w h = elim (Option-cases (product_at id w)) [
  | inl f ↦ inl (f, ground arith)
  | inr (p, f) ↦ inr (p, f, ground arith)
]

-- Over a current cache, `getProduct` answers what the table holds, and leaves the cache current and
-- the tables and the lists as they were.
pub get_product-IsCurrent :
    (id : String) (w : World)
    → IsCurrent w
    → ((get_product id w).0 ≡ looked_up (product_at id w))
      × IsCurrent (get_product id w).1
      × ((get_product id w).1 ≡ record w { product_cache = (get_product id w).1.product_cache })
unfolding looked_up
get_product-IsCurrent id w c = elim (Option-cases (Cache.fresh w.now (w.product_cache id))) [
  | inr (p, h) ↦
      let (e, at, v) = fresh-cached w.now (w.product_cache id) p h in
      rw (get_product-hit id w p h) (ground (arith, c id e at), c, refl)
  | inl h ↦ elim (get_product-miss id w h) [
    | inl (f, g) ↦ rw g (rw f refl, c, refl)
    | inr (p, f, g) ↦ rw g (
      rw f refl,
      remembered-IsCurrent p w (ap (λ j. product_at j w) (product_at-id id w p f) ∙ f) c,
      refl,
    )
  ]
]

nat_eq-path : (m n : ℕ) → nat_eq m n ≡ true → m ≡ n
nat_eq-path m n e = ground arith

module _ (env : Env) where
  -- The cache with a page in it.
  abbrev listed : ℕ → ℕ → ProductPage → World → World
  listed page limit d w = record w {
    list_cache = λ p l.
        if nat_eq p page && nat_eq l limit
        then some (record { value = d; expiry = w.now + 60000 })
        else w.list_cache p l;
  }

  -- A page does not depend on the cache.
  page_at-listed :
      (p l page limit : ℕ) (d : ProductPage) (w : World)
      → page_at env p l (listed page limit d w) ≡ page_at env p l w
  unfolding page_at
  page_at-listed p l page limit d w = refl

  page_at-same :
      (p l page limit : ℕ) (w : World)
      → (nat_eq p page && nat_eq l limit) ≡ true
      → page_at env p l w ≡ page_at env page limit w
  page_at-same p l page limit w s =
      let first : p ≡ page = nat_eq-path p page (ground arith) in
      let second : l ≡ limit = nat_eq-path l limit (ground arith) in
      ap (λ n. page_at env n l w) first ∙ ap (λ n. page_at env page n w) second

  listed-current :
      (page limit : ℕ) (w : World)
      → ListsAreCurrent env w
      → ListsAreCurrent env (listed page limit (page_at env page limit w) w)
  listed-current page limit w c p l e at =
      page_at-listed p l page limit (page_at env page limit w) w
      ∙ elim (Bool-cases (nat_eq p page && nat_eq l limit)) [
        | inl s ↦ page_at-same p l page limit w s ∙ ground arith
        | inr s ↦ c p l e (ground arith)
      ]

  list_products-hit :
      (page limit : ℤ) (w : World) (d : ProductPage)
      → Cache.fresh w.now (w.list_cache (page_from page) (limit_from limit)) ≡ some d
      → list_products env page limit w ≡ (ok (answered (page_from page) (limit_from limit) d), w)
  unfolding list_products Cache.get_list
  list_products-hit page limit w d h = ground arith

  list_products-miss :
      (page limit : ℤ) (w : World)
      → Cache.fresh w.now (w.list_cache (page_from page) (limit_from limit)) ≡ none
      → list_products env page limit w ≡ (
        ok (
            answered
              (page_from page)
              (limit_from limit)
              (page_at env (page_from page) (limit_from limit) w)),
        listed
            (page_from page)
            (limit_from limit)
            (page_at env (page_from page) (limit_from limit) w)
            w,
      )
  unfolding list_products Cache.get_list list Cache.set_list
  list_products-miss page limit w h = ground arith

  -- If the cached lists are current, `listProducts` answers the page that the tables give, and leaves
  -- the lists current and everything else as it was.
  pub list_products-ListsAreCurrent :
      (page limit : ℤ) (w : World)
      → ListsAreCurrent env w
      → ((list_products env page limit w).0
          ≡ ok (
              answered
                (page_from page)
                (limit_from limit)
                (page_at env (page_from page) (limit_from limit) w)))
        × ListsAreCurrent env (list_products env page limit w).1
        × ((list_products env page limit w).1
            ≡ record w { list_cache = (list_products env page limit w).1.list_cache })
  list_products-ListsAreCurrent page limit w c =
      elim (Option-cases (Cache.fresh w.now (w.list_cache (page_from page) (limit_from limit)))) [
        | inr (d, h) ↦
            let (e, at, v) =
              fresh-cached w.now (w.list_cache (page_from page) (limit_from limit)) d h in
            rw (list_products-hit page limit w d h)
              (ground (arith, c (page_from page) (limit_from limit) e at), c, refl)
        | inl h ↦
            rw (list_products-miss page limit w h)
              (refl, listed-current (page_from page) (limit_from limit) w c, refl)
      ]
