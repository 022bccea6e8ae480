-- ===== src/Catalog/Coherence.antt =====
-- The cache of the catalog (apps/catalog/src/application/catalog.service.ts) against its tables: what
-- each call leaves in both.
use food_ordering_app.Prelude.{
  ℕ, suc, String, ◌⊎◌, none, some, List, [], ◌∷◌, ◌++◌, ◌==◌, if◌then◌else◌, ◌≡◌, refl, ◌∙◌, ap,
  arith, Bool-cases, inl, inr,
}
use food_ordering_app.Effect.{Result-cases, pure, ◌>>◌}
use food_ordering_app.Keyed.{write}
use food_ordering_app.Domain.{Payload, product_changed, Envelope}
use food_ordering_app.Catalog.Model.{ProductDto, ProductPage, Cached, World, Env}
use food_ordering_app.Catalog.Repository.{product_at, page_at}
use food_ordering_app.Catalog.Cache.{invalidate_product, invalidate_lists}
use food_ordering_app.Catalog.Service.{publish_change, message_of, after_mutation}
use food_ordering_app.Catalog.Frames.{Keeps}

-- What is cached of a product is what the tables hold of it.
abbrev pub IsCurrent : World → Type 0
IsCurrent w =
    (id : String) (c : Cached ProductDto)
    → w.product_cache id ≡ some c
    → product_at id w ≡ some c.value

module _ (env : Env) where
  -- What is cached of a list is what the tables give for it.
  abbrev pub ListsAreCurrent : World → Type 0
  ListsAreCurrent w =
      (page limit : ℕ) (c : Cached ProductPage)
      → w.list_cache page limit ≡ some c
      → page_at env page limit w ≡ c.value

  -- A call that changed at most one product, and dropped it and the lists from the cache.
  pub record IsMutation (id : String) (w v : World) : Type 0 where
    pub keeps : Keeps id w v
    pub dropped : (j : String) → v.product_cache j ≡ (if id == j then none else w.product_cache j)
    pub no_lists : (page limit : ℕ) → v.list_cache page limit ≡ none

  pub IsMutation-IsCurrent :
      {id : String} {w v : World} → IsMutation id w v → IsCurrent w → IsCurrent v
  IsMutation-IsCurrent {id} {w} {v} m c j e at = elim (Bool-cases (id == j)) [
    | inl s ↦ absurd (ground (arith, m.dropped j))
    | inr s ↦ m.keeps j e.value s (c j e (ground (arith, m.dropped j)))
  ]

  pub IsMutation-lists : {id : String} {w v : World} → IsMutation id w v → ListsAreCurrent v
  IsMutation-lists m page limit c at = absurd (ground (arith, m.no_lists page limit))

  -- Publishing draws a UUID and may reach Kafka, and that is all.
  pub publish_change-keeps :
      (key : String) (payload : Payload) (w : World)
      → (messages : List Envelope) × ((publish_change env key payload w).1
          ≡ record w { draws = suc w.draws; sent = messages })
  unfolding publish_change
  publish_change-keeps key payload w = elim (Bool-cases env.connected) [
    | inr n ↦ (w.sent, rw n refl)
    | inl c ↦ elim (Result-cases (env.send (message_of env key payload w))) [
      | inl (a, s) ↦ (w.sent ++ (message_of env key payload w ∷ []), rw (c, s) refl)
      | inr (x, s) ↦ (w.sent, rw (c, s) refl)
    ]
  ]

  abbrev pub invalidated : String → World → World
  invalidated id u = record u {
    product_cache = write id none u.product_cache;
    list_cache = λ p l. none;
  }

  after_mutation-IsMutation :
      (id action : String) (w u : World)
      → Keeps id w u
      → u.product_cache ≡ w.product_cache
      → IsMutation id w (after_mutation env id action u).1
  unfolding after_mutation invalidate_product invalidate_lists product_at
  after_mutation-IsMutation id action w u k same =
      let (messages, e) = publish_change-keeps id (product_changed id action) (invalidated id u) in
      rw e (record {
        keeps = k;
        dropped = λ j. ap (λ cache. if id == j then none else cache j) same;
        no_lists = λ p l. refl;
      })

  -- What a call of an administrator leaves: nothing new, or one changed product and a cache without it.
  abbrev pub IsSettled : World → World → Type 0
  IsSettled w v = (v ≡ w) ⊎ ((id : String) × IsMutation id w v)

  pub after_mutation-pure :
      {A : Type 0} (id action : String) (a : A) (u : World)
      → ((after_mutation env id action >> pure a) u).1 ≡ (after_mutation env id action u).1
  after_mutation-pure id action a u = elim (Result-cases (after_mutation env id action u).0) [
    | inl (x, e) ↦ ground arith
    | inr (x, e) ↦ ground arith
  ]

  pub settled :
      {A : Type 0} (id action : String) (a : A) (w u v : World)
      → Keeps id w u
      → u.product_cache ≡ w.product_cache
      → v ≡ ((after_mutation env id action >> pure a) u).1
      → IsSettled w v
  settled id action a w u v k same e = inr (
    id,
    rw (e ∙ after_mutation-pure id action a u) (after_mutation-IsMutation id action w u k same),
  )
