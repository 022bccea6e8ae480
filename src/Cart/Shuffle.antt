-- ===== src/Cart/Shuffle.antt =====
-- `HGETALL` gives the fields of a hash in an order of its own: what that does to the items that
-- `getItems` of apps/cart/src/infrastructure/redis/redis-cart.store.ts reads.
use food_ordering_app.Prelude.{
  String, true, false, List, [], ◌∷◌, ◌≡◌, refl, sym, ◌∙◌, ap, subst, arith, eq_iff, ◌⊎◌, inl, inr,
  Bool-cases,
}
use mathlib.Core.List.{Permᴰ}
use food_ordering_app.Effect.{ok, Result-cases}
use food_ordering_app.Cart.Model.{CartItem, Env, key_of}
use food_ordering_app.Cart.Store.{is_meta, parse_entries}
use food_ordering_app.Cart.Service.{has_key}
use food_ordering_app.Cart.Items.{holds, IsValid}

module _ {Num : Type 0} (env : Env Num) where
  open env use {parse, hgetall}

  -- `HGETALL` gives each field of a hash once, in whatever order.
  abbrev pub GivesAll : Type 0
  GivesAll = (h : List (String × String)) → Permᴰ h (hgetall h)

  -- How a hash with one more field was parsed.
  parsed-cons :
      (a : String × String) (l : List (String × String)) (is : List CartItem)
      → parse_entries env (a ∷ l) ≡ ok is
      → ((is_meta a.0 ≡ true) × (parse_entries env l ≡ ok is))
        ⊎ ((i : CartItem) × (rest : List CartItem) × (is_meta a.0 ≡ false)
            × (parse a.1 ≡ ok i)
            × (parse_entries env l ≡ ok rest)
            × (is ≡ i ∷ rest))
  unfolding parse_entries
  parsed-cons a l is h = elim (Bool-cases (is_meta a.0)) [
    | inl m ↦ inl (m, ground arith)
    | inr m ↦ elim (Result-cases (parse a.1)) [
      | inr (x, p) ↦ absurd (ground arith)
      | inl (i, p) ↦ elim (Result-cases (parse_entries env l)) [
        | inr (x, r) ↦ absurd (ground arith)
        | inl (rest, r) ↦ inr (i, rest, m, p, r, ground arith)
      ]
    ]
  ]

  parse_meta :
      (a : String × String) (l : List (String × String))
      → is_meta a.0 ≡ true
      → parse_entries env (a ∷ l) ≡ parse_entries env l
  unfolding parse_entries
  parse_meta a l m = ground arith

  parse_item :
      (a : String × String) (l : List (String × String)) (i : CartItem) (rest : List CartItem)
      → is_meta a.0 ≡ false
      → parse a.1 ≡ ok i
      → parse_entries env l ≡ ok rest
      → parse_entries env (a ∷ l) ≡ ok (i ∷ rest)
  unfolding parse_entries
  parse_item a l i rest m p r = ground arith

  -- A hash reads as these items, in some order.
  abbrev pub ReadsAs : List (String × String) → List CartItem → Type 0
  ReadsAs h is = (js : List CartItem) × (parse_entries env h ≡ ok js) × Permᴰ is js

  ReadsAs-cons :
      (a : String × String) (l l' : List (String × String)) (is : List CartItem)
      → parse_entries env (a ∷ l) ≡ ok is
      → ((rest : List CartItem) → parse_entries env l ≡ ok rest → ReadsAs l' rest)
      → ReadsAs (a ∷ l') is
  ReadsAs-cons a l l' is h step = elim (parsed-cons a l is h) [
    | inl (m, r) ↦ let (js, e, p) = step is r in (js, parse_meta a l' m ∙ e, p)
    | inr (i, rest, m, pi, r, at) ↦
        let (js, e, p) = step rest r in
        (
          i ∷ js,
          parse_item a l' i js m pi e,
          subst (λ z. Permᴰ z (i ∷ js)) (sym at) (Permᴰ.cons refl p),
        )
  ]

  -- The first two fields in the other order.
  ReadsAs-swap :
      (a b : String × String) (l : List (String × String)) (is : List CartItem)
      → parse_entries env (a ∷ b ∷ l) ≡ ok is
      → ReadsAs (b ∷ a ∷ l) is
  ReadsAs-swap a b l is h = elim (parsed-cons a (b ∷ l) is h) [
    | inl (m, r) ↦
        ReadsAs-cons b l (a ∷ l) is r (λ rest e. (rest, parse_meta a l m ∙ e, Permᴰ-refl rest))
    | inr (i, rest, m, pi, r, at) ↦ elim (parsed-cons b l rest r) [
      | inl (n, s) ↦ (
        is,
        parse_meta b (a ∷ l) n ∙ parse_item a l i rest m pi s ∙ ap ok (sym at),
        Permᴰ-refl is,
      )
      | inr (j, more, n, pj, s, at') ↦ (
        j ∷ i ∷ more,
        parse_item b (a ∷ l) j (i ∷ more) n pj (parse_item a l i more m pi s),
        subst (λ z. Permᴰ z (j ∷ i ∷ more)) (sym (at ∙ ap (λ z. i ∷ z) at')) (Permᴰ.swap refl refl),
      )
    ]
  ]
    where
      Permᴰ-refl : (xs : List CartItem) → Permᴰ xs xs
      Permᴰ-refl [] = Permᴰ.nil
      Permᴰ-refl (x ∷ xs) = Permᴰ.cons refl (Permᴰ-refl xs)

  pub shuffled-ReadsAs :
      {h h' : List (String × String)} (is : List CartItem)
      → Permᴰ h h'
      → parse_entries env h ≡ ok is
      → ReadsAs h' is
  unfolding parse_entries
  shuffled-ReadsAs is Permᴰ.nil r = ([], refl, subst (λ z. Permᴰ z []) (ok_inj r) Permᴰ.nil)
    where
      ok_inj : {a b : List CartItem} → ok a ≡ ok b → a ≡ b
      ok_inj x = cc
  shuffled-ReadsAs is (Permᴰ.cons {a} {b} {l₁} {l₂} e d) r =
      subst (λ z. ReadsAs (z ∷ l₂) is) e
        (ReadsAs-cons a l₁ l₂ is r (λ rest s. shuffled-ReadsAs rest d s))
  shuffled-ReadsAs is (Permᴰ.swap {a} {b} {a'} {b'} {l} e₁ e₂) r =
      subst (λ z. ReadsAs (z ∷ b' ∷ l) is) e₂
        (subst (λ z. ReadsAs (b ∷ z ∷ l) is) e₁ (ReadsAs-swap a b l is r))
  shuffled-ReadsAs is (Permᴰ.trans d₁ d₂) r =
      let (js, e, p) = shuffled-ReadsAs is d₁ r in
      let (ks, f, q) = shuffled-ReadsAs js d₂ e in (ks, f, Permᴰ.trans p q)

-- A shuffled cart lists the same variants.
shuffled-holds : (k : String) {is js : List CartItem} → Permᴰ is js → holds k js ≡ holds k is
shuffled-holds k Permᴰ.nil = refl
shuffled-holds k (Permᴰ.cons {a} {b} {l₁} {l₂} e d) =
    ground (arith, shuffled-holds k d, ap (λ z. has_key k z) e)
shuffled-holds k (Permᴰ.swap {a} {b} {a'} {b'} {l} e₁ e₂) =
    ground (arith, ap (λ z. has_key k z) e₁, ap (λ z. has_key k z) e₂)
shuffled-holds k (Permᴰ.trans d₁ d₂) = shuffled-holds k d₂ ∙ shuffled-holds k d₁

swapped-IsValid : (a b : CartItem) (l : List CartItem) → IsValid (a ∷ b ∷ l) → IsValid (b ∷ a ∷ l)
swapped-IsValid a b l h = (
  ground (arith, eq_iff (key_of a) (key_of b), eq_iff (key_of b) (key_of a)),
  h.2.1,
  (ground arith, h.1, h.2.2),
)

pub shuffled-IsValid : {is js : List CartItem} → Permᴰ is js → IsValid is → IsValid js
shuffled-IsValid Permᴰ.nil v = v
shuffled-IsValid (Permᴰ.cons {a} {b} {l₁} {l₂} e d) v =
    subst (λ z. IsValid (z ∷ l₂)) e (shuffled-holds (key_of a) d ∙ v.0, v.1, shuffled-IsValid d v.2)
shuffled-IsValid (Permᴰ.swap {a} {b} {a'} {b'} {l} e₁ e₂) v =
    subst (λ z. IsValid (z ∷ b' ∷ l)) e₂
      (subst (λ z. IsValid (b ∷ z ∷ l)) e₁ (swapped-IsValid a b l v))
shuffled-IsValid (Permᴰ.trans d₁ d₂) v = shuffled-IsValid d₂ (shuffled-IsValid d₁ v)
