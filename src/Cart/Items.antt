-- ===== src/Cart/Items.antt =====
-- The items of a cart as a multiset of variants: what `addItem`, `updateItem` and `removeItem`
-- (apps/cart/src/application/cart.service.ts) do to the quantity of each.
use food_ordering_app.Prelude.{
  ℕ, ◌+◌, ◌<◌, String, Bool, true, false, none, some, List, [], ◌∷◌, ◌++◌, ◌==◌, if◌then◌else◌, ◌≡◌,
  refl, sym, ◌∙◌, arith, eq_iff, eq_refl, find, is_some, Bool-cases, inl, inr,
}
use food_ordering_app.Effect.{ok, Result-cases}
use food_ordering_app.Cart.Model.{CartItem, Env, item_key, key_of}
use food_ordering_app.Cart.Service.{
  Price, has_key, update_first, repriced, new_item, put_item, without, price_items,
  resolve_active_variant,
}

-- How many of a variant the cart holds.
abbrev pub quantity_of : String → List CartItem → ℕ
quantity_of key items = elim (find (has_key key) items) [ none ↦ 0 | some i ↦ i.quantity ]

abbrev pub holds : String → List CartItem → Bool
holds key items = is_some (find (has_key key) items)

-- Each variant is listed once, with a positive quantity.
abbrev pub IsValid : List CartItem → Type 0
IsValid [] = Unit
IsValid (i ∷ is) = (holds (key_of i) is ≡ false) × (0 < i.quantity) × IsValid is

-- The quantities after an update of the first item under a key.
update_first-quantity :
    (key k : String) (p : Price) (g : ℕ → ℕ) (items : List CartItem)
    → holds key items ≡ true
    → quantity_of k (update_first key (λ i. repriced p (g i.quantity) i) items)
      ≡ (if key == k then g (quantity_of key items) else quantity_of k items)
unfolding update_first
update_first-quantity key k p g [] h = cc
update_first-quantity key k p g (i ∷ is) h = ground (
  arith,
  eq_iff (key_of i) key,
  eq_iff (key_of i) k,
  eq_iff key k,
  update_first-quantity key k p g is,
)

update_first-holds :
    (key k : String) (p : Price) (g : ℕ → ℕ) (items : List CartItem)
    → holds k (update_first key (λ i. repriced p (g i.quantity) i) items) ≡ holds k items
unfolding update_first
update_first-holds key k p g [] = refl
update_first-holds key k p g (i ∷ is) = ground (arith, update_first-holds key k p g is)

append-quantity :
    (k : String) (items : List CartItem) (i : CartItem)
    → holds (key_of i) items ≡ false
    → quantity_of k (items ++ (i ∷ []))
      ≡ (if key_of i == k then i.quantity else quantity_of k items)
append-quantity k [] i h = ground arith
append-quantity k (j ∷ js) i h = ground (
  arith,
  eq_iff (key_of j) (key_of i),
  eq_iff (key_of j) k,
  eq_iff (key_of i) k,
  append-quantity k js i,
)

append-holds :
    (k : String) (items : List CartItem) (i : CartItem)
    → holds k (items ++ (i ∷ [])) ≡ (if key_of i == k then true else holds k items)
append-holds k [] i = ground arith
append-holds k (j ∷ js) i = ground (arith, append-holds k js i)

absent-quantity :
    (key : String) (items : List CartItem) → holds key items ≡ false → quantity_of key items ≡ 0
absent-quantity key items h = ground arith

-- Adding a variant raises its quantity by the amount and no other one's.
pub put_item-quantity :
    (product variant : String) (p : Price) (q : ℕ) (items : List CartItem) (k : String)
    → quantity_of k (put_item product variant p q items) ≡ (
        if item_key product variant == k
        then quantity_of (item_key product variant) items + q
        else quantity_of k items)
unfolding put_item
put_item-quantity product variant p q items k =
    elim (Bool-cases (holds (item_key product variant) items)) [
      | inl h ↦ rw h (update_first-quantity (item_key product variant) k p (λ n. n + q) items h)
      | inr h ↦ ground (
        arith,
        append-quantity k items (new_item product variant p q) h,
        absent-quantity (item_key product variant) items h,
      )
    ]

-- Removing a variant takes all of it and nothing else.
pub without-quantity :
    (key k : String) (items : List CartItem)
    → quantity_of k (without key items) ≡ (if key == k then 0 else quantity_of k items)
unfolding without
without-quantity key k [] = ground arith
without-quantity key k (i ∷ is) =
    ground
      (arith, eq_iff (key_of i) key, eq_iff (key_of i) k, eq_iff key k, without-quantity key k is)

update_first-IsValid :
    (key : String) (p : Price) (g : ℕ → ℕ) (items : List CartItem)
    → ((n : ℕ) → 0 < n → 0 < g n)
    → IsValid items
    → IsValid (update_first key (λ i. repriced p (g i.quantity) i) items)
unfolding update_first
update_first-IsValid key p g [] grow h = tt
update_first-IsValid key p g (i ∷ is) grow h = elim (Bool-cases (has_key key i)) [
  | inl e ↦ rw e (h.0, grow i.quantity h.1, h.2)
  | inr e ↦ rw e (
    update_first-holds key (key_of i) p g is ∙ h.0,
    h.1,
    update_first-IsValid key p g is grow h.2,
  )
]

append-IsValid :
    (items : List CartItem) (i : CartItem)
    → IsValid items
    → holds (key_of i) items ≡ false
    → 0 < i.quantity
    → IsValid (items ++ (i ∷ []))
append-IsValid [] i h new pos = (refl, pos, tt)
append-IsValid (j ∷ js) i h new pos = (
  ground (arith, append-holds (key_of j) js i, eq_iff (key_of i) (key_of j), eq_refl (key_of i)),
  h.1,
  append-IsValid js i h.2 (ground arith) pos,
)

pub put_item-IsValid :
    (product variant : String) (p : Price) (q : ℕ) (items : List CartItem)
    → 0 < q
    → IsValid items
    → IsValid (put_item product variant p q items)
unfolding put_item
put_item-IsValid product variant p q items pos h =
    elim (Bool-cases (holds (item_key product variant) items)) [
      | inl e ↦ rw e (
          update_first-IsValid (item_key product variant) p (λ n. n + q) items (λ n m. omega arith)
            h)
      | inr e ↦ rw e (append-IsValid items (new_item product variant p q) h e pos)
    ]

without-holds :
    (key k : String) (items : List CartItem)
    → holds k items ≡ false
    → holds k (without key items) ≡ false
unfolding without
without-holds key k [] h = refl
without-holds key k (i ∷ is) h = ground (arith, without-holds key k is)

pub without-IsValid :
    (key : String) (items : List CartItem) → IsValid items → IsValid (without key items)
unfolding without
without-IsValid key [] h = tt
without-IsValid key (i ∷ is) h = elim (Bool-cases (has_key key i)) [
  | inl e ↦ rw e (without-IsValid key is h.2)
  | inr e ↦ rw e (without-holds key (key_of i) is h.0, h.1, without-IsValid key is h.2)
]

pub set_quantity-IsValid :
    (key : String) (p : Price) (q : ℕ) (items : List CartItem)
    → 0 < q
    → IsValid items
    → IsValid (update_first key (repriced p q) items)
set_quantity-IsValid key p q items pos h = update_first-IsValid key p (λ _. q) items (λ n m. pos) h

module _ {Num : Type 0} (env : Env Num) where
  pub price_items-cons :
      (i : CartItem) (is ps : List CartItem)
      → price_items env (i ∷ is) ≡ ok ps
      → (p : Price) × (rest : List CartItem) × (resolve_active_variant env i.product_id i.variant_id
          ≡ ok p)
        × (price_items env is ≡ ok rest)
        × (ps ≡ repriced p i.quantity i ∷ rest)
  unfolding price_items
  price_items-cons i is ps e =
      elim (Result-cases (resolve_active_variant env i.product_id i.variant_id)) [
        | inr (x, r) ↦ absurd (ground arith)
        | inl (p, r) ↦ elim (Result-cases (price_items env is)) [
          | inr (x, m) ↦ absurd (ground arith)
          | inl (rest, m) ↦ (p, rest, r, m, ground arith)
        ]
      ]

  -- New prices keep the variants and their quantities.
  pub price_items-quantity :
      (items ps : List CartItem) (k : String)
      → price_items env items ≡ ok ps
      → (quantity_of k ps ≡ quantity_of k items) × (holds k ps ≡ holds k items)
  unfolding price_items
  price_items-quantity [] ps k e = (ground arith, ground arith)
  price_items-quantity (i ∷ is) ps k e =
      let (p, rest, r, m, at) = price_items-cons i is ps e in
      let (q, h) = price_items-quantity is rest k m in
      (rw at (ground (arith, q)), rw at (ground (arith, h)))

  pub price_items-IsValid :
      (items ps : List CartItem) → price_items env items ≡ ok ps → IsValid items → IsValid ps
  unfolding price_items
  price_items-IsValid [] ps e h = rw (sym (ok_inj e)) tt
    where
      ok_inj : {a b : List CartItem} → ok a ≡ ok b → a ≡ b
      ok_inj x = cc
  price_items-IsValid (i ∷ is) ps e h =
      let (p, rest, r, m, at) = price_items-cons i is ps e in
      rw at (
        (price_items-quantity is rest (key_of i) m).1 ∙ h.0,
        h.1,
        price_items-IsValid is rest m h.2,
      )

pub set_quantity-quantity :
    (key k : String) (p : Price) (q : ℕ) (items : List CartItem)
    → holds key items ≡ true
    → quantity_of k (update_first key (repriced p q) items)
      ≡ (if key == k then q else quantity_of k items)
set_quantity-quantity key k p q items h = update_first-quantity key k p (λ _. q) items h
