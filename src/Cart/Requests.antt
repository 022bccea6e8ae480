-- ===== src/Cart/Requests.antt =====
-- The requests of a cart (`CartService`, apps/cart/src/application/cart.service.ts) over the state of
-- Redis and of the table of snapshots: what each answers, what it stores and what it leaves alone.
use food_ordering_app.Prelude.{
  ℕ, String, true, false, Option, none, some, List, [], ◌∷◌, ltb, nat_eq, ◌≡◌, refl, arith,
  Bool-cases, inl, inr, length,
}
use food_ordering_app.Prelude.Int.{ℤ, to_nat}
use food_ordering_app.Effect.{Error, Result, ok, err, Action, Result-cases, validation, not_found}
use food_ordering_app.Text.{is_blank}
use food_ordering_app.Keyed.{write}
use food_ordering_app.Cart.Model.{
  CartItem, CartDto, CartHash, World, Env, item_key, compute_total, to_cart_dto,
}
use food_ordering_app.Cart.Store.{
  get_items, save_items, saved_hash, parse_entries, alive, upsert, clear, delete, exists, is_alive,
}
use food_ordering_app.Cart.Service.{
  update_first, repriced, put_item, without, resolve_active_variant, persist, assert_user_id,
  assert_quantity, get_cart, add_item, update_item, remove_item, clear_cart, price_items,
  price_cart,
}
use food_ordering_app.Cart.Shuffle.{GivesAll, shuffled-ReadsAs, shuffled-IsValid}
use food_ordering_app.Cart.Items.{
  IsValid, holds, put_item-IsValid, without-IsValid, set_quantity-IsValid, price_items-IsValid,
}

-- A call of one of the methods of the service.
pub data Request : Type 0 where
  get : Request
  add : String → String → ℤ → Request
  update : String → String → ℤ → Request
  remove : String → String → Request
  empty : Request
  reprice : Request

module _ {Num : Type 0} (env : Env Num) where
  open env use {numbers, stringify, parse, hgetall, upsert_answer, delete_answer}

  unfoldable pub handle : String → Request → Action World CartDto
  handle user get = get_cart env user
  handle user (add p v q) = add_item env user p v q
  handle user (update p v q) = update_item env user p v q
  handle user (remove p v) = remove_item env user p v
  handle user empty = clear_cart env user
  handle user reprice = price_cart env user

  -- The fields of a hash are those of a well-formed cart.
  abbrev pub HashIsValid : Option CartHash → Type 0
  HashIsValid none = Unit
  HashIsValid (some h) =
      (items : List CartItem) × (parse_entries env h.fields ≡ ok items) × IsValid items

  -- Every cart that is stored can be read.
  abbrev pub IsStored : World → Type 0
  IsStored w = (u : String) → HashIsValid (w.carts u)

  -- Redis has the new items, the table of snapshots does not yet.
  abbrev pub cached : String → List CartItem → World → World
  cached user items w = record w { carts = write user (some (saved_hash env w.now items)) w.carts }

  abbrev pub stored : String → List CartItem → World → World
  stored user items w = record (cached user items w) {
    snapshots =
        write user
          (some (record { items = items; total = compute_total numbers items; updated_at = w.now }))
          w.snapshots;
  }

  -- Redis has no cart any more, the table of snapshots still does.
  abbrev pub dropped : String → World → World
  dropped user w = record w { carts = write user none w.carts }

  abbrev pub emptied : String → World → World
  emptied user w = record (dropped user w) { snapshots = write user none w.snapshots }

  pub persist-ok :
      (user : String) (items : List CartItem) (w : World)
      → upsert_answer user (compute_total numbers items) ≡ ok tt
      → persist env user items w ≡ (ok (to_cart_dto numbers user items), stored user items w)
  unfolding persist save_items upsert to_cart_dto
  persist-ok user items w a = ground arith

  pub persist-err :
      (user : String) (items : List CartItem) (w : World) (e : Error)
      → upsert_answer user (compute_total numbers items) ≡ err e
      → persist env user items w ≡ (err e, cached user items w)
  unfolding persist save_items upsert to_cart_dto
  persist-err user items w e a = ground arith

  -- What the store holds for a user, read at the time of the world.
  abbrev pub Reads : String → World → List CartItem → Type 0
  Reads user w items = (get_items env user w ≡ (ok items, w)) × IsValid items

  pub hash-Reads :
      (now : ℕ) (c : Option CartHash)
      → GivesAll env
      → HashIsValid c
      → (items : List CartItem) × (parse_entries env (hgetall (alive now c)) ≡ ok items)
        × IsValid items
  unfolding alive parse_entries
  hash-Reads now none gives h =
      let (js, e, p) = shuffled-ReadsAs env [] (gives []) refl in (js, e, shuffled-IsValid p tt)
  hash-Reads now (some c) gives h = elim (Bool-cases (ltb now c.expiry)) [
    | inl b ↦
        let (js, e, p) = shuffled-ReadsAs env h.0 (gives c.fields) h.1 in
        (js, rw b e, shuffled-IsValid p h.2)
    | inr b ↦
        let (js, e, p) = shuffled-ReadsAs env [] (gives []) refl in
        (js, rw b e, shuffled-IsValid p tt)
  ]

  pub IsStored-Reads :
      (user : String) (w : World)
      → GivesAll env
      → IsStored w
      → (items : List CartItem) × Reads user w items
  unfolding get_items
  IsStored-Reads user w gives s =
      let (items, e, v) = hash-Reads w.now (w.carts user) gives (s user) in (items, (rw e refl, v))

  -- What a request of a user does: it refuses and changes nothing, it reads, it stores new items,
  -- or it empties the cart; the last two may stop after Redis, if PostgreSQL refuses.
  pub data Outcome (user : String) (w : World) (p : Result CartDto × World) : Type 0 where
    refused : (e : Error) → p ≡ (err e, w) → Outcome user w p
    answered :
        (items : List CartItem)
        → is_blank user ≡ false
        → Reads user w items
        → p ≡ (ok (to_cart_dto numbers user items), w)
        → Outcome user w p
    saved :
        (items : List CartItem)
        → is_blank user ≡ false
        → IsValid items
        → p ≡ (ok (to_cart_dto numbers user items), stored user items w)
        → Outcome user w p
    unsaved :
        (items : List CartItem) (e : Error)
        → IsValid items
        → upsert_answer user (compute_total numbers items) ≡ err e
        → p ≡ (err e, cached user items w)
        → Outcome user w p
    undeleted :
        (e : Error) → delete_answer user ≡ err e → p ≡ (err e, dropped user w) → Outcome user w p
    deleted :
        is_blank user ≡ false
        → p ≡ (ok (to_cart_dto numbers user []), emptied user w)
        → Outcome user w p

  -- Storing well-formed items succeeds, or stops after Redis.
  persist-Outcome :
      (user : String) (items : List CartItem) (w : World)
      → is_blank user ≡ false
      → IsValid items
      → Outcome user w (persist env user items w)
  persist-Outcome user items w b v =
      elim (Result-cases (upsert_answer user (compute_total numbers items))) [
        | inl (_, a) ↦ saved items b v (persist-ok user items w a)
        | inr (e, a) ↦ unsaved items e v a (persist-err user items w e a)
      ]

  nat_eq-nil : (items : List CartItem) → nat_eq (length items) 0 ≡ true → items ≡ []
  nat_eq-nil [] e = refl
  nat_eq-nil (i ∷ is) e = ground arith

  pub get_cart-reads :
      (user : String) (w : World) (items : List CartItem)
      → is_blank user ≡ false
      → get_items env user w ≡ (ok items, w)
      → get_cart env user w ≡ (ok (to_cart_dto numbers user items), w)
  unfolding get_cart assert_user_id exists
  get_cart-reads user w items b g = elim (Bool-cases (is_alive w.now (w.carts user))) [
    | inl e ↦ ground arith
    | inr e ↦ elim (Bool-cases (nat_eq (length items) 0)) [
      | inl n ↦ ground (arith, nat_eq-nil items n)
      | inr n ↦ ground arith
    ]
  ]

  get_cart-Outcome :
      (user : String) (w : World)
      → {items : List CartItem} → Reads user w items
      → Outcome user w (get_cart env user w)
  unfolding get_cart assert_user_id
  get_cart-Outcome user w {items} (g, h) = elim (Bool-cases (is_blank user)) [
    | inl b ↦ refused (validation "userId is required") (ground arith)
    | inr b ↦ answered items b (g, h) (get_cart-reads user w items b g)
  ]

  add_item-Outcome :
      (user p v : String) (q : ℤ) (w : World)
      → {items : List CartItem} → Reads user w items
      → Outcome user w (add_item env user p v q w)
  unfolding add_item assert_user_id assert_quantity
  add_item-Outcome user p v q w {items} (g, h) = elim (Bool-cases (is_blank user)) [
    | inl b ↦ refused (validation "userId is required") (ground arith)
    | inr b ↦ elim (Bool-cases (ltb (to_nat q) 1)) [
      | inl n ↦ refused (validation "quantity must be a positive integer") (ground arith)
      | inr n ↦ elim (Result-cases (resolve_active_variant env p v)) [
        | inr (e, r) ↦ refused e (ground arith)
        | inl (price, r) ↦
            let same : add_item env user p v q w
                ≡ persist env user (put_item p v price (to_nat q) items) w =
              ground arith in
            rw same (
              persist-Outcome user (put_item p v price (to_nat q) items) w b
                (put_item-IsValid p v price (to_nat q) items (ground arith) h))
      ]
    ]
  ]

  update_item-Outcome :
      (user p v : String) (q : ℤ) (w : World)
      → {items : List CartItem} → Reads user w items
      → Outcome user w (update_item env user p v q w)
  unfolding update_item assert_user_id assert_quantity
  update_item-Outcome user p v q w {items} (g, h) = elim (Bool-cases (is_blank user)) [
    | inl b ↦ refused (validation "userId is required") (ground arith)
    | inr b ↦ elim (Bool-cases (ltb (to_nat q) 1)) [
      | inl n ↦ refused (validation "quantity must be a positive integer") (ground arith)
      | inr n ↦ elim (Bool-cases (holds (item_key p v) items)) [
        | inr f ↦ refused (not_found "Cart item not found") (ground arith)
        | inl f ↦ elim (Result-cases (resolve_active_variant env p v)) [
          | inr (e, r) ↦ refused e (ground arith)
          | inl (price, r) ↦
              let new = update_first (item_key p v) (repriced price (to_nat q)) items in
              let same : update_item env user p v q w ≡ persist env user new w = ground arith in
              rw same (
                persist-Outcome user new w b
                  (set_quantity-IsValid (item_key p v) price (to_nat q) items (ground arith) h))
        ]
      ]
    ]
  ]

  remove_item-Outcome :
      (user p v : String) (w : World)
      → {items : List CartItem} → Reads user w items
      → Outcome user w (remove_item env user p v w)
  unfolding remove_item assert_user_id
  remove_item-Outcome user p v w {items} (g, h) = elim (Bool-cases (is_blank user)) [
    | inl b ↦ refused (validation "userId is required") (ground arith)
    | inr b ↦ elim (Bool-cases (nat_eq (length (without (item_key p v) items)) (length items))) [
      | inl n ↦ refused (not_found "Cart item not found") (ground arith)
      | inr n ↦
          let same : remove_item env user p v w
              ≡ persist env user (without (item_key p v) items) w =
            ground arith in
          rw same (
            persist-Outcome user (without (item_key p v) items) w b
              (without-IsValid (item_key p v) items h))
    ]
  ]

  clear_cart-Outcome : (user : String) (w : World) → Outcome user w (clear_cart env user w)
  unfolding clear_cart assert_user_id clear delete
  clear_cart-Outcome user w = elim (Bool-cases (is_blank user)) [
    | inl b ↦ refused (validation "userId is required") (ground arith)
    | inr b ↦ elim (Result-cases (delete_answer user)) [
      | inl (_, a) ↦ deleted b (ground arith)
      | inr (e, a) ↦ undeleted e a (ground arith)
    ]
  ]

  price_cart-Outcome :
      (user : String) (w : World)
      → {items : List CartItem} → Reads user w items
      → Outcome user w (price_cart env user w)
  unfolding price_cart assert_user_id
  price_cart-Outcome user w {items} (g, h) = elim (Bool-cases (is_blank user)) [
    | inl b ↦ refused (validation "userId is required") (ground arith)
    | inr b ↦ elim (Result-cases (price_items env items)) [
      | inr (e, r) ↦ refused e (ground arith)
      | inl (ps, r) ↦
          let same : price_cart env user w ≡ persist env user ps w = ground arith in
          rw same (persist-Outcome user ps w b (price_items-IsValid env items ps r h))
    ]
  ]

  -- What a request over readable carts does, case by case.
  pub handle-Outcome :
      (user : String) (r : Request) (w : World)
      → GivesAll env
      → IsStored w
      → Outcome user w (handle user r w)
  unfolding handle
  handle-Outcome user get w gives s = get_cart-Outcome user w (IsStored-Reads user w gives s).1
  handle-Outcome user (add p v q) w gives s =
      add_item-Outcome user p v q w (IsStored-Reads user w gives s).1
  handle-Outcome user (update p v q) w gives s =
      update_item-Outcome user p v q w (IsStored-Reads user w gives s).1
  handle-Outcome user (remove p v) w gives s =
      remove_item-Outcome user p v w (IsStored-Reads user w gives s).1
  handle-Outcome user empty w gives s = clear_cart-Outcome user w
  handle-Outcome user reprice w gives s =
      price_cart-Outcome user w (IsStored-Reads user w gives s).1
