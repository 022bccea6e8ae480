-- ===== src/Catalog/Frames.antt =====
-- What a change of one product does to the others (TypeOrmProductRepository,
-- apps/catalog/src/infrastructure/persistence/typeorm.repositories.ts).
use food_ordering_app.Prelude.{
  ℕ, suc, String, true, false, not, none, some, List, [], ◌∷◌, ◌++◌, ◌==◌, find, select,
  update_where, map, ◌≡◌, refl, sym, ◌∙◌, ap, arith, eq_iff, eq_refl, Bool-cases, Option-cases, inl,
  inr, All,
}
use food_ordering_app.Catalog.Model.{
  VariantDto, ProductDto, VariantInput, UpdateProductInput, UpsertVariantInput, ProductRow, World,
  Env,
}
use food_ordering_app.Catalog.Repository.{
  has_id, variants_of, map_product, dto_of, product_at, updated_row, new_variants, stored,
  changed_variant,
}

-- The products other than one that a world has, another has as well.
abbrev pub Keeps : String → World → World → Type 0
Keeps id w u =
    (j : String) (d : ProductDto)
    → (id == j) ≡ false
    → product_at j w ≡ some d
    → product_at j u ≡ some d

pub found-id :
    (j : String) (ps : List ProductRow) (p : ProductRow)
    → find (has_id j) ps ≡ some p
    → (p.id == j) ≡ true
found-id j [] p e = absurd (ground arith)
found-id j (q ∷ qs) p e = ground (arith, found-id j qs p)

pub product_at-some :
    (j : String) (w : World) (p : ProductRow)
    → find (has_id j) w.products ≡ some p
    → product_at j w ≡ some (dto_of w p)
unfolding product_at
product_at-some j w p f = rw (product_at, f) refl

pub product_at-none :
    (j : String) (w : World) → find (has_id j) w.products ≡ none → product_at j w ≡ none
unfolding product_at
product_at-none j w f = rw (product_at, f) refl

-- It is enough that the row of a product and its variants are kept.
pub Keeps-rows :
    (id : String) (w u : World)
    → ((j : String) (p : ProductRow)
        → (id == j) ≡ false
        → find (has_id j) w.products ≡ some p
        → find (has_id j) u.products ≡ some p)
    → ((j : String) → (id == j) ≡ false → variants_of j u.variants ≡ variants_of j w.variants)
    → Keeps id w u
unfolding product_at
Keeps-rows id w u rows vars j d n e = elim (Option-cases (find (has_id j) w.products)) [
  | inl f ↦ absurd (ground arith)
  | inr (p, f) ↦
      let same : (id == p.id) ≡ false = ground (arith, eq_iff p.id j, found-id j w.products p f) in
      product_at-some j u p (rows j p n f)
      ∙ ap (λ vs. some (map_product p vs)) (vars p.id same)
      ∙ sym (product_at-some j w p f)
      ∙ e
]

pub find-append :
    (j : String) (ps qs : List ProductRow) (p : ProductRow)
    → find (has_id j) ps ≡ some p
    → find (has_id j) (ps ++ qs) ≡ some p
find-append j [] qs p e = absurd (ground arith)
find-append j (r ∷ rs) qs p e = ground (arith, find-append j rs qs p)

pub find-select :
    (id j : String) (ps : List ProductRow)
    → (id == j) ≡ false
    → find (has_id j) (select (λ p. not (has_id id p)) ps) ≡ find (has_id j) ps
find-select id j [] n = refl
find-select id j (p ∷ ps) n =
    ground (arith, eq_iff p.id id, eq_iff p.id j, eq_iff id j, find-select id j ps)

pub find-update :
    (id j : String) (input : UpdateProductInput) (ps : List ProductRow)
    → (id == j) ≡ false
    → find (has_id j) (update_where (has_id id) (updated_row input) ps) ≡ find (has_id j) ps
unfolding updated_row
find-update id j input [] n = refl
find-update id j input (p ∷ ps) n =
    ground (arith, eq_iff p.id id, eq_iff p.id j, eq_iff id j, find-update id j input ps)

pub variants_of-select :
    (id j : String) (vs : List VariantDto)
    → (id == j) ≡ false
    → variants_of j (select (λ v. not (v.product_id == id)) vs) ≡ variants_of j vs
unfolding variants_of
variants_of-select id j [] n = refl
variants_of-select id j (v ∷ vs) n =
    ground (
      arith,
      eq_iff v.product_id id,
      eq_iff v.product_id j,
      eq_iff id j,
      variants_of-select id j vs,
    )

pub variants_of-append :
    (id j : String) (vs new : List VariantDto)
    → (id == j) ≡ false
    → All (λ v. (v.product_id == id) ≡ true) new
    → variants_of j (vs ++ new) ≡ variants_of j vs
unfolding variants_of
variants_of-append id j [] [] n a = refl
variants_of-append id j [] (v ∷ new) n a = ground (
  arith,
  eq_iff v.product_id id,
  eq_iff v.product_id j,
  eq_iff id j,
  variants_of-append id j [] new n a.1,
  a.0,
)
variants_of-append id j (v ∷ vs) new n a = ground (arith, variants_of-append id j vs new n a)

-- Every variant under an id belongs to a product.
abbrev pub Owns : String → String → List VariantDto → Type 0
Owns id product_id vs = All (λ v. (v.id == id) ≡ true → (v.product_id == product_id) ≡ true) vs

module _ (env : Env) where
  pub new_variants-owned :
      (n : ℕ) (id : String) (vs : List VariantInput)
      → All (λ v. (v.product_id == id) ≡ true) (map (stored env) (new_variants env n id vs))
  unfolding new_variants
  new_variants-owned n id [] = tt
  new_variants-owned n id (v ∷ vs) = (ground (arith, eq_refl id), new_variants-owned (suc n) id vs)

  pub variants_of-update :
      (id j : String) (input : UpsertVariantInput) (vs : List VariantDto)
      → (input.product_id == j) ≡ false
      → Owns id input.product_id vs
      → variants_of j
          (update_where (λ v. v.id == id) (λ v. stored env (changed_variant env input v)) vs)
        ≡ variants_of j vs
  unfolding variants_of changed_variant
  variants_of-update id j input [] n o = refl
  variants_of-update id j input (v ∷ vs) n o = elim (Bool-cases (v.id == id)) [
    | inr e ↦ rw e (ground (arith, variants_of-update id j input vs n o.1))
    | inl e ↦
        let other : (v.product_id == j) ≡ false = ground (
          arith,
          o.0 e,
          eq_iff v.product_id input.product_id,
          eq_iff v.product_id j,
          eq_iff input.product_id j,
        ) in
        rw (e, other) (variants_of-update id j input vs n o.1)
  ]
