-- ===== src/Cart/Store.antt =====
-- `RedisCartStore` (apps/cart/src/infrastructure/redis/redis-cart.store.ts) and
-- `TypeOrmCartSnapshotRepository` (apps/cart/src/infrastructure/persistence/typeorm.repositories.ts).
pub use food_ordering_app.Keyed.{write}
use food_ordering_app.Prelude.{
  ℕ, ◌+◌, ◌*◌, String, Bool, false, ◌||◌, Option, none, some, List, [], ◌∷◌, ◌==◌, ltb,
  if◌then◌else◌,
}
use food_ordering_app.Effect.{Result, ok, err, Action, gets, modify}
use food_ordering_app.Cart.Model.{CartItem, CartHash, World, Env, key_of, compute_total}

-- `HSET`: a field that is there gets the new value.
unfoldable pub hset : String → String → List (String × String) → List (String × String)
hset k v [] = (k, v) ∷ []
hset k v ((j, u) ∷ h) = if j == k then (k, v) ∷ h else (j, u) ∷ hset k v h

-- The fields of a key, none once it has expired.
unfoldable pub alive : ℕ → Option CartHash → List (String × String)
alive now none = []
alive now (some h) = if ltb now h.expiry then h.fields else []

unfoldable pub is_alive : ℕ → Option CartHash → Bool
is_alive now none = false
is_alive now (some h) = ltb now h.expiry

-- The fields that hold no item.
abbrev pub is_meta : String → Bool
is_meta field = field == "total" || field == "itemCount"

-- The default of `ttlSeconds`.
abbrev pub ttl_seconds : ℕ
ttl_seconds = 86400

module _ {Num : Type 0} (env : Env Num) where
  open env use {numbers, stringify, parse, hgetall}

  -- The loop of `getItems` over the entries of the hash.
  unfoldable pub parse_entries : List (String × String) → Result (List CartItem)
  parse_entries [] = ok []
  parse_entries ((field, value) ∷ rest) =
      let more = parse_entries rest in
      if is_meta field then more else elim (parse value) [
        | err e ↦ err e
        | ok i ↦ elim more [ err e ↦ err e | ok is ↦ ok (i ∷ is) ]
      ]

  unfoldable pub get_items : String → Action World (List CartItem)
  unfolding parse_entries alive
  get_items user w = (parse_entries (hgetall (alive w.now (w.carts user))), w)

  unfoldable pub exists : String → Action World Bool
  unfolding is_alive
  exists user = gets (λ w. is_alive w.now (w.carts user))

  -- The `HSET`s of the items, in turn.
  unfoldable pub set_items : List CartItem → List (String × String) → List (String × String)
  unfolding hset
  set_items [] h = h
  set_items (i ∷ is) h = set_items is (hset (key_of i) (stringify i) h)

  -- The pipeline of `saveItems`, from `DEL` to `EXPIRE`.
  unfoldable pub saved_hash : ℕ → List CartItem → CartHash
  unfolding set_items compute_total
  saved_hash now items = record {
    fields = hset "total" (compute_total numbers items) (set_items items []);
    expiry = now + ttl_seconds * 1000;
  }

  unfoldable pub save_items : String → List CartItem → Action World (Unit {0})
  unfolding saved_hash
  save_items user items =
      modify (λ w. record w { carts = write user (some (saved_hash w.now items)) w.carts })

unfoldable pub clear : String → Action World (Unit {0})
clear user = modify (λ w. record w { carts = write user none w.carts })

module _ {Num : Type 0} (env : Env Num) where
  open env use {upsert_answer, delete_answer}

  -- `TypeOrmCartSnapshotRepository.upsert`
  unfoldable pub upsert : String → List CartItem → String → Action World (Unit {0})
  upsert user items total w = elim (upsert_answer user total) [
    | err e ↦ (err e, w)
    | ok _ ↦ (
      ok tt,
      record w {
        snapshots =
            write user (some (record { items = items; total = total; updated_at = w.now }))
              w.snapshots;
      },
    )
  ]

  -- `TypeOrmCartSnapshotRepository.delete`
  unfoldable pub delete : String → Action World (Unit {0})
  delete user w = elim (delete_answer user) [
    | err e ↦ (err e, w)
    | ok _ ↦ (ok tt, record w { snapshots = write user none w.snapshots })
  ]
