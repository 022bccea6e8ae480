-- ===== src/Order/Placement/Pricing.antt =====
-- The lines and the total of an order: the loop of `OrderService.placeOrder` over the cart
-- against a description that does not loop.
use food_ordering_app.Prelude.{
  true, some, List, [], ◌∷◌, ◌++◌, ◌≡◌, refl, inl, inr, arith, ◌∙◌, ap, Bool-cases, Option-cases,
}
use food_ordering_app.Effect.{ok, Result-cases}
use food_ordering_app.Domain.{PricedLine}
use food_ordering_app.Order.Model.{CartLine, ResolvedLine, Env}
use food_ordering_app.Order.Service.{priced_line, price_lines}
use mathlib.Core.List.{append_assoc, append-nil}

module _ {Num C : Type 0} (env : Env Num C) where
  open env use {numbers, gateways}

  -- The catalog has the item's variant, active, and the line carries its name, label and price and
  -- the item's ids and quantity.
  pub record IsSnapshot (c : C) (item : CartLine) (line : PricedLine) : Type 0 where
    pub variant : ResolvedLine
    pub resolved : gateways.resolve_line item.product_id item.variant_id c ≡ ok (some variant)
    pub active : variant.is_active ≡ true
    pub copied : line ≡ priced_line item variant

  -- One line for each item, in their order.
  abbrev pub Snapshots : C → List CartLine → List PricedLine → Type 0
  Snapshots c [] [] = Unit
  Snapshots c [] (_ ∷ _) = ⊥
  Snapshots c (_ ∷ _) [] = ⊥
  Snapshots c (i ∷ is) (l ∷ ls) = IsSnapshot c i l × Snapshots c is ls

  -- The price of each line times its quantity, added to `n` from the left.
  abbrev pub total_from : Num → List PricedLine → Num
  total_from n [] = n
  total_from n (l ∷ ls) =
      total_from (numbers.add n (numbers.times (numbers.number l.unit_price_snapshot) l.quantity))
        ls

  -- The item is priced, or the loop stops at it.
  price_lines-cons :
      (c : C) (item : CartLine) (items : List CartLine) (lines : List PricedLine) (n : Num)
      {p : List PricedLine × Num}
      → price_lines env c (item ∷ items) lines n ≡ ok p
      → (r : ResolvedLine) × IsSnapshot c item (priced_line item r)
        × (price_lines env c items
              (lines ++ (priced_line item r ∷ []))
              (numbers.add n (numbers.times (numbers.number r.unit_price) item.quantity))
            ≡ ok p)
  unfolding price_lines
  price_lines-cons c item items lines n h =
      elim (Result-cases (gateways.resolve_line item.product_id item.variant_id c)) [
        | inr (x, e) ↦ absurd (ground arith)
        | inl (found, e) ↦ elim (Option-cases found) [
          | inl f ↦ absurd (ground arith)
          | inr (r, f) ↦ elim (Bool-cases r.is_active) [
            | inl a ↦ (
              r,
              record { variant = r; resolved = e ∙ ap ok f; active = a; copied = refl },
              ground arith,
            )
            | inr a ↦ absurd (ground arith)
          ]
        ]
      ]

  price_lines_sound :
      (c : C) (items : List CartLine) (lines : List PricedLine) (n : Num)
      {p : List PricedLine × Num}
      → price_lines env c items lines n ≡ ok p
      → (new : List PricedLine) × Snapshots c items new
        × (p.0 ≡ lines ++ new)
        × (p.1 ≡ total_from n new)
  unfolding price_lines
  price_lines_sound c [] lines n h = ([], tt, ground (arith, append-nil lines), ground arith)
  price_lines_sound c (item ∷ items) lines n {p} h =
      let (r, snap, rest) = price_lines-cons c item items lines n h in
      let (new, snaps, e, t) = price_lines_sound c items _ _ rest in
      (
        priced_line item r ∷ new,
        (snap, snaps),
        e ∙ append_assoc lines (priced_line item r ∷ []) new,
        t,
      )

  -- The loop as `placeOrder` starts it.
  pub price_lines-Snapshots :
      (c : C) (items : List CartLine) {p : List PricedLine × Num}
      → price_lines env c items [] numbers.nothing ≡ ok p
      → Snapshots c items p.0 × (p.1 ≡ total_from numbers.nothing p.0)
  price_lines-Snapshots c items {p} h =
      let (new, snaps, e, t) = price_lines_sound c items [] numbers.nothing h in
      (rw e snaps, rw e t)
