-- ===== src/Cart/Prices.antt =====
-- The prices in a cart after `priceCart` (apps/cart/src/application/cart.service.ts).
use food_ordering_app.Prelude.{
  String, true, some, List, [], ◌∷◌, ◌≡◌, subst, arith, All, Bool-cases, Option-cases, inl, inr,
}
use food_ordering_app.Effect.{ok, Result-cases}
use food_ordering_app.Text.{is_blank}
use food_ordering_app.Cart.Model.{CartItem, CartDto, VariantPrice, World, Env}
use food_ordering_app.Cart.Service.{
  Price, repriced, resolve_active_variant, price_items, price_cart, assert_user_id,
}
use food_ordering_app.Cart.Items.{price_items-cons}
use food_ordering_app.Cart.Requests.{Reads}
use food_ordering_app.Cart.Quantities.{persisted}

module _ {Num : Type 0} (env : Env Num) where
  open env use {get_variant_price}

  -- The catalog has the variant of an item, active, with the item's label and price.
  pub record IsCurrent (i : CartItem) : Type 0 where
    pub price : VariantPrice
    pub listed : get_variant_price i.product_id i.variant_id ≡ ok (some price)
    pub active : price.is_active ≡ true
    pub label : i.label ≡ price.label
    pub unit_price : i.unit_price ≡ price.unit_price

  resolved-IsCurrent :
      (i : CartItem) (p : Price)
      → resolve_active_variant env i.product_id i.variant_id ≡ ok p
      → IsCurrent (repriced p i.quantity i)
  unfolding resolve_active_variant
  resolved-IsCurrent i p h = elim (Result-cases (get_variant_price i.product_id i.variant_id)) [
    | inr (x, e) ↦ absurd (ground arith)
    | inl (found, e) ↦ elim (Option-cases found) [
      | inl o ↦ absurd (ground arith)
      | inr (v, o) ↦ elim (Bool-cases v.is_active) [
        | inr b ↦ absurd (ground arith)
        | inl b ↦ record {
          price = v;
          listed = ground arith;
          active = b;
          label = ground arith;
          unit_price = ground arith;
        }
      ]
    ]
  ]

  price_items-IsCurrent :
      (items ps : List CartItem) → price_items env items ≡ ok ps → All IsCurrent ps
  unfolding price_items
  price_items-IsCurrent [] ps e = subst (All IsCurrent) (ok_inj e) tt
    where
      ok_inj : {a b : List CartItem} → ok a ≡ ok b → a ≡ b
      ok_inj x = cc
  price_items-IsCurrent (i ∷ is) ps e =
      let (p, rest, r, m, at) = price_items-cons env i is ps e in
      rw at (resolved-IsCurrent i p r, price_items-IsCurrent is rest m)

  -- Over a readable cart, each item that a successful `priceCart` answers has the label and the price
  -- that the catalog has for its variant, and the catalog has it as active.
  pub price_cart-IsCurrent :
      (user : String) (w : World) (items : List CartItem) {dto : CartDto}
      → Reads env user w items
      → (price_cart env user w).0 ≡ ok dto
      → All IsCurrent dto.items
  unfolding price_cart assert_user_id
  price_cart-IsCurrent user w items {dto} (g, h) e = elim (Bool-cases (is_blank user)) [
    | inl b ↦ absurd (ground arith)
    | inr b ↦ elim (Result-cases (price_items env items)) [
      | inr (x, r) ↦ absurd (ground arith)
      | inl (ps, r) ↦
          rw (persisted env user ps w dto (ground arith)) (price_items-IsCurrent items ps r)
    ]
  ]
