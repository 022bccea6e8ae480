-- ===== src/Catalog/Cache.antt =====
-- `RedisCatalogCache` (apps/catalog/src/infrastructure/redis/catalog.cache.ts). The texts in Redis are
-- JSON of plain data, which reads back as it was, so the cache holds the data.
use food_ordering_app.Prelude.{ℕ, ◌+◌, String, Option, none, some, ltb, if◌then◌else◌, nat_eq, ◌&&◌}
use food_ordering_app.Effect.{Action, gets, modify}
use food_ordering_app.Keyed.{write}
use food_ordering_app.Catalog.Model.{ProductDto, ProductPage, Cached, World}

-- `GET`
unfoldable pub fresh : {A : Type 0} → ℕ → Option (Cached A) → Option A
fresh now none = none
fresh now (some c) = if ltb now c.expiry then some c.value else none

unfoldable pub get_product : String → Action World (Option ProductDto)
unfolding fresh
get_product id = gets (λ w. fresh w.now (w.product_cache id))

unfoldable pub set_product : ProductDto → Action World (Unit {0})
set_product p = modify (λ w. record w {
  product_cache = write p.id (some (record { value = p; expiry = w.now + 300000 })) w.product_cache;
})

unfoldable pub get_list : ℕ → ℕ → Action World (Option ProductPage)
unfolding fresh
get_list page limit = gets (λ w. fresh w.now (w.list_cache page limit))

unfoldable pub set_list : ℕ → ℕ → ProductPage → Action World (Unit {0})
set_list page limit d = modify (λ w. record w {
  list_cache = λ p l.
      if nat_eq p page && nat_eq l limit
      then some (record { value = d; expiry = w.now + 60000 })
      else w.list_cache p l;
})

unfoldable pub invalidate_product : String → Action World (Unit {0})
invalidate_product id = modify (λ w. record w { product_cache = write id none w.product_cache })

-- `KEYS catalog:list:*` and `DEL` of what there is.
unfoldable pub invalidate_lists : Action World (Unit {0})
invalidate_lists = modify (λ w. record w { list_cache = λ p l. none })
