-- ===== src/Cart/RoundTrip.antt =====
-- What `RedisCartStore.saveItems` writes, `getItems` reads back
-- (apps/cart/src/infrastructure/redis/redis-cart.store.ts).
use Prim.Native.String
use Prim.Native.Char.{code}
use text.Mathlib.TextLemmas.{cons-append, nil-append}
use food_ordering_app.Prelude.{
  ℕ, ◌+◌, ◌*◌, ◌<◌, any, String, Bool, true, false, ◌||◌, some, List, [], ◌∷◌, ◌++◌, ◌==◌, ◌≡◌,
  refl, sym, ◌∙◌, ap, arith, eq_iff, map, nat_eq,
}
use food_ordering_app.Keyed.{write_self}
use food_ordering_app.Effect.{ok}
use food_ordering_app.Cart.Model.{World, CartItem, Env, item_key, key_of, compute_total}
use food_ordering_app.Cart.Store.{
  get_items, save_items, hset, alive, is_meta, ttl_seconds, parse_entries, set_items, saved_hash,
}
use food_ordering_app.Cart.Items.{IsValid, holds}
use mathlib.Core.List.{append_assoc, append-nil, Permᴰ}
use food_ordering_app.Cart.Shuffle.{GivesAll, shuffled-ReadsAs}

has_colon : String → Bool
has_colon String.[] = false
has_colon (String.◌∷◌ c s) = nat_eq (code c) b':' || has_colon s

has_colon-append : (s t : String) → has_colon t ≡ true → has_colon (String.◌++◌ s t) ≡ true
unfolding has_colon
has_colon-append String.[] t h = rw (nil-append t) h
has_colon-append (String.◌∷◌ c s) t h =
    rw (cons-append c s t) (ground (arith, has_colon-append s t h))

item_key-has_colon : (p v : String) → has_colon (item_key p v) ≡ true
unfolding item_key has_colon
item_key-has_colon p v = has_colon-append p (String.◌++◌ ":" v) (rw (cons-append ":" "" v) refl)

total-has_colon : has_colon "total" ≡ false
unfolding has_colon
total-has_colon = refl

count-has_colon : has_colon "itemCount" ≡ false
unfolding has_colon
count-has_colon = refl

differs : (k s : String) → has_colon k ≡ true → has_colon s ≡ false → (k == s) ≡ false
differs k s h g = ground (arith, eq_iff k s)

-- No item is stored under `total` or `itemCount`.
key-is_meta : (p v : String) → is_meta (item_key p v) ≡ false
key-is_meta p v =
    rw
      (
        differs (item_key p v) "total" (item_key-has_colon p v) total-has_colon,
        differs (item_key p v) "itemCount" (item_key-has_colon p v) count-has_colon,
      )
      refl

abbrev has_field : String → List (String × String) → Bool
has_field k h = any (λ e. e.0 == k) h

hset-absent :
    (k v : String) (h : List (String × String))
    → has_field k h ≡ false
    → hset k v h ≡ h ++ ((k, v) ∷ [])
unfolding hset
hset-absent k v [] a = refl
hset-absent k v ((j, u) ∷ h) a = ground (arith, hset-absent k v h)

has_field-append :
    (k j v : String) (h : List (String × String))
    → has_field k h ≡ false
    → (j == k) ≡ false
    → has_field k (h ++ ((j, v) ∷ [])) ≡ false
has_field-append k j v [] a b = ground arith
has_field-append k j v ((i, u) ∷ h) a b = ground (arith, has_field-append k j v h)

-- No field of the hash is a key of the items.
abbrev Apart : List CartItem → List (String × String) → Type 0
Apart [] h = Unit
Apart (i ∷ is) h = (has_field (key_of i) h ≡ false) × Apart is h

Apart-append :
    (k v : String) (is : List CartItem) (h : List (String × String))
    → Apart is h
    → holds k is ≡ false
    → Apart is (h ++ ((k, v) ∷ []))
Apart-append k v [] h a n = tt
Apart-append k v (i ∷ is) h a n = (
  has_field-append (key_of i) k v h a.0 (ground (arith, eq_iff k (key_of i), eq_iff (key_of i) k)),
  Apart-append k v is h a.1 (ground arith),
)

Apart-nil : (is : List CartItem) → Apart is []
Apart-nil [] = tt
Apart-nil (i ∷ is) = (refl, Apart-nil is)

module _ {Num : Type 0} (env : Env Num) where
  open env use {numbers, stringify, parse}

  abbrev entries : List CartItem → List (String × String)
  entries items = map (λ i. (key_of i, stringify i)) items

  set_items-entries :
      (items : List CartItem) (h : List (String × String))
      → IsValid items
      → Apart items h
      → set_items env items h ≡ h ++ entries items
  unfolding set_items
  set_items-entries [] h v a = sym (append-nil h)
  set_items-entries (i ∷ is) h v a =
      ap (set_items env is) (hset-absent (key_of i) (stringify i) h a.0)
      ∙ set_items-entries is (h ++ ((key_of i, stringify i) ∷ [])) v.2
          (Apart-append (key_of i) (stringify i) is h a.1 v.0)
      ∙ append_assoc h ((key_of i, stringify i) ∷ []) (entries is)

  entries-total : (items : List CartItem) → has_field "total" (entries items) ≡ false
  entries-total [] = refl
  entries-total (i ∷ is) = ground (arith, key-is_meta i.product_id i.variant_id, entries-total is)

  parse_entries-entries :
      ((i : CartItem) → parse (stringify i) ≡ ok i)
      → (t : String) (items : List CartItem)
      → parse_entries env (entries items ++ (("total", t) ∷ [])) ≡ ok items
  unfolding parse_entries
  parse_entries-entries json t [] = refl
  parse_entries-entries json t (i ∷ is) =
      rw (key-is_meta i.product_id i.variant_id, json i, parse_entries-entries json t is) refl

  pub saved_hash-fields :
      ((i : CartItem) → parse (stringify i) ≡ ok i)
      → (now : ℕ) (items : List CartItem) → IsValid items
      → parse_entries env ((saved_hash env now items).fields) ≡ ok items
  unfolding saved_hash
  saved_hash-fields json now items v =
      rw
        (
          set_items-entries items [] v (Apart-nil items),
          hset-absent "total" (compute_total numbers items) (entries items) (entries-total items),
        )
        (parse_entries-entries json (compute_total numbers items) items)

  pub alive-saved_hash :
      (now later : ℕ) (items : List CartItem)
      → later < now + ttl_seconds * 1000
      → alive later (some (saved_hash env now items)) ≡ (saved_hash env now items).fields
  unfolding saved_hash alive
  alive-saved_hash now later items soon = ground (arith)

  -- If JSON texts of items read back as the items and `HGETALL` gives each field of a hash once, in
  -- whatever order, what `saveItems` stored for a user, if it was distinct variants with positive
  -- quantities, is what `getItems` answers, in some order, at every time before the 86,400 seconds
  -- are over, as long as the user's hash is not written again.
  pub get_items-save_items :
      ((i : CartItem) → parse (stringify i) ≡ ok i)
      → GivesAll env
      → (user : String) (items : List CartItem) (w w' : World) → IsValid items
      → w'.carts user ≡ (save_items env user items w).1.carts user
      → w'.now < w.now + ttl_seconds * 1000
      → (read : List CartItem) × (get_items env user w' ≡ (ok read, w')) × Permᴰ items read
  unfolding get_items save_items
  get_items-save_items json gives user items w w' v same soon =
      let h = saved_hash env w.now items in
      let (read, e, p) =
        shuffled-ReadsAs env items (gives h.fields) (saved_hash-fields json w.now items v) in
      let there : alive w'.now (w'.carts user) ≡ h.fields =
        ap (alive w'.now) (same ∙ write_self user (some h) w.carts)
        ∙ alive-saved_hash w.now w'.now items soon in
      (read, rw (there, e) refl, p)
