-- ===== src/Prelude/Sorting.antt =====
-- Rows in an order: SQL's ORDER BY on a column of times. Rows that tie keep the order in which they
-- stand.
use Prim.Native.Nat.{ℕ, zero, suc}
use mathlib.Core.Path.{◌≡◌, refl, subst}
use mathlib.Core.Bool.{Bool, true, false}
use mathlib.Core.Logic.{inl, inr}
use mathlib.Core.List.{List, [], ◌∷◌}
use native.Mathlib.Omega.{arith}
use food_ordering_app.Prelude.Tests.{if◌then◌else◌, Bool-cases}
use food_ordering_app.Prelude.Lists.{length, take, drop, select, All}

module _ {A : Type 0} (before : A → A → Bool) where
  unfoldable pub insert_by : A → List A → List A
  insert_by x [] = x ∷ []
  insert_by x (y ∷ ys) = if before x y then x ∷ y ∷ ys else y ∷ insert_by x ys

  unfoldable pub order_by : List A → List A
  unfolding insert_by
  order_by [] = []
  order_by (x ∷ xs) = insert_by x (order_by xs)

  -- No row stands before one that it should follow.
  abbrev pub IsOrdered : List A → Type 0
  IsOrdered [] = Unit
  IsOrdered (x ∷ xs) = All (λ (y : A). before x y ≡ true) xs × IsOrdered xs

  insert_by-All : (P : A → Type 0) (x : A) (ys : List A) → P x → All P ys → All P (insert_by x ys)
  unfolding insert_by
  insert_by-All P x [] p h = (p, tt)
  insert_by-All P x (y ∷ ys) p h = elim (Bool-cases (before x y)) [
    | inl e ↦ rw e (p, h)
    | inr e ↦ rw e (h.0, insert_by-All P x ys p h.1)
  ]

  -- However rows are counted, there are as many: none is lost and none comes twice.
  insert_by-count :
      (p : A → Bool) (x : A) (ys : List A)
      → length (select p (insert_by x ys)) ≡ length (select p (x ∷ ys))
  unfolding insert_by
  insert_by-count p x [] = refl
  insert_by-count p x (y ∷ ys) = ground (arith, insert_by-count p x ys)

  pub order_by-count :
      (p : A → Bool) (xs : List A) → length (select p (order_by xs)) ≡ length (select p xs)
  unfolding order_by
  order_by-count p [] = refl
  order_by-count p (x ∷ xs) = ground (arith, insert_by-count p x (order_by xs), order_by-count p xs)

  insert_by-All_back :
      (P : A → Type 0) (x : A) (ys : List A) → All P (insert_by x ys) → P x × All P ys
  unfolding insert_by
  insert_by-All_back P x [] h = h
  insert_by-All_back P x (y ∷ ys) h = elim (Bool-cases (before x y)) [
    | inl e ↦
        let k : All P (if true then x ∷ y ∷ ys else y ∷ insert_by x ys) =
          subst (λ b. All P (if b then x ∷ y ∷ ys else y ∷ insert_by x ys)) e h in
        k
    | inr e ↦
        let k : All P (if false then x ∷ y ∷ ys else y ∷ insert_by x ys) =
          subst (λ b. All P (if b then x ∷ y ∷ ys else y ∷ insert_by x ys)) e h in
        let (p, r) = insert_by-All_back P x ys k.1 in (p, (k.0, r))
  ]

  -- What holds of the ordered rows holds of the rows.
  pub order_by-All_back : (P : A → Type 0) (xs : List A) → All P (order_by xs) → All P xs
  unfolding order_by
  order_by-All_back P [] h = tt
  order_by-All_back P (x ∷ xs) h =
      let (p, r) = insert_by-All_back P x (order_by xs) h in (p, order_by-All_back P xs r)

  All-take : (P : A → Type 0) (n : ℕ) (xs : List A) → All P xs → All P (take n xs)
  All-take P zero xs h = tt
  All-take P (suc n) [] h = tt
  All-take P (suc n) (x ∷ xs) h = (h.0, All-take P n xs h.1)

  All-drop : (P : A → Type 0) (n : ℕ) (xs : List A) → All P xs → All P (drop n xs)
  All-drop P zero xs h = h
  All-drop P (suc n) [] h = tt
  All-drop P (suc n) (x ∷ xs) h = All-drop P n xs h.1

  pub All-take-drop :
      (P : A → Type 0) (n : ℕ) (xs : List A) → All P (take n xs) → All P (drop n xs) → All P xs
  All-take-drop P zero xs h k = k
  All-take-drop P (suc n) [] h k = tt
  All-take-drop P (suc n) (x ∷ xs) h k = (h.0, All-take-drop P n xs h.1 k)

  pub take-IsOrdered : (n : ℕ) (xs : List A) → IsOrdered xs → IsOrdered (take n xs)
  take-IsOrdered zero xs h = tt
  take-IsOrdered (suc n) [] h = tt
  take-IsOrdered (suc n) (x ∷ xs) h =
      (All-take (λ y. before x y ≡ true) n xs h.0, take-IsOrdered n xs h.1)

  -- The first rows stand before the rest.
  pub IsOrdered-split :
      (n : ℕ) (xs : List A)
      → IsOrdered xs
      → All (λ (x : A). All (λ (y : A). before x y ≡ true) (drop n xs)) (take n xs)
  IsOrdered-split zero xs h = tt
  IsOrdered-split (suc n) [] h = tt
  IsOrdered-split (suc n) (x ∷ xs) h =
      (All-drop (λ y. before x y ≡ true) n xs h.0, IsOrdered-split n xs h.1)

  module _ (total : (x y : A) → before x y ≡ false → before y x ≡ true)
      (trans : (x y z : A) → before x y ≡ true → before y z ≡ true → before x z ≡ true) where
    All-trans :
        (x y : A) (zs : List A)
        → before x y ≡ true
        → All (λ (z : A). before y z ≡ true) zs
        → All (λ (z : A). before x z ≡ true) zs
    All-trans x y [] e h = tt
    All-trans x y (z ∷ zs) e h = (trans x y z e h.0, All-trans x y zs e h.1)

    insert_by-IsOrdered : (x : A) (ys : List A) → IsOrdered ys → IsOrdered (insert_by x ys)
    unfolding insert_by
    insert_by-IsOrdered x [] h = (tt, tt)
    insert_by-IsOrdered x (y ∷ ys) h = elim (Bool-cases (before x y)) [
      | inl e ↦ rw e ((e, All-trans x y ys e h.0), h)
      | inr e ↦ rw e (
        insert_by-All (λ z. before y z ≡ true) x ys (total x y e) h.0,
        insert_by-IsOrdered x ys h.1,
      )
    ]

    pub order_by-IsOrdered : (xs : List A) → IsOrdered (order_by xs)
    unfolding order_by
    order_by-IsOrdered [] = tt
    order_by-IsOrdered (x ∷ xs) = insert_by-IsOrdered x (order_by xs) (order_by-IsOrdered xs)
