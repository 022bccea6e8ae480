-- ===== src/Effect/Keeps.antt =====
-- Invariants of actions: one rule for each way to build an action, whether it answers or rejects.
use mathlib.Core.Path.{subst}
use food_ordering_app.Prelude.{
  sym, Bool, true, false, List, [], ◌∷◌, if◌then◌else◌, ◌≡◌, inl, inr, arith, Option, none, some,
}
use food_ordering_app.Effect.{
  Error, ok, err, Action, pure, raise, gets, raise_if, for_each, ◌>>=◌, ◌>>◌, Result-cases,
}

pub record Keeps {W A : Type 0} (P : W → Type 0) (m : Action W A) : Type 0 where
  pub at : (w : W) → P w → P (m w).1

module _ {W A : Type 0} {P : W → Type 0} where
  pub Keeps-pure : (a : A) → Keeps P (pure {W = W} a)
  Keeps-pure a = record { at = λ w h. h }

  pub Keeps-raise : (e : Error) → Keeps P (raise {W = W} {A = A} e)
  Keeps-raise e = record { at = λ w h. h }

  pub Keeps-gets : (f : W → A) → Keeps P (gets f)
  Keeps-gets f = record { at = λ w h. h }

  pub Keeps-if :
      (b : Bool) (m n : Action W A) → Keeps P m → Keeps P n → Keeps P (if b then m else n)
  Keeps-if true m n km kn = km
  Keeps-if false m n km kn = kn

  pub Keeps-option :
      {B : Type 0} (o : Option B) (m : Action W A) (f : B → Action W A)
      → Keeps P m
      → ((b : B) → Keeps P (f b))
      → Keeps P (elim o [ none ↦ m | some b ↦ f b ])
  Keeps-option none m f km kf = km
  Keeps-option (some b) m f km kf = kf b

module _ {W : Type 0} {P : W → Type 0} where
  pub Keeps-raise_if : (b : Bool) (e : Error) → Keeps P (raise_if {W = W} b e)
  Keeps-raise_if true e = record { at = λ w h. h }
  Keeps-raise_if false e = record { at = λ w h. h }

module _ {W A B : Type 0} where
  bind-answered :
      (m : Action W A) (f : A → Action W B) (w : W) (a : A)
      → (m w).0 ≡ ok a
      → ((m >>= f) w).1 ≡ (f a (m w).1).1
  bind-answered m f w a e = ground arith

  bind-rejected :
      (m : Action W A) (f : A → Action W B) (w : W) (x : Error)
      → (m w).0 ≡ err x
      → ((m >>= f) w).1 ≡ (m w).1
  bind-rejected m f w x e = ground arith

module _ {W A B : Type 0} {P : W → Type 0} where
  pub Keeps-bind :
      (m : Action W A) (f : A → Action W B)
      → Keeps P m
      → ((a : A) → Keeps P (f a))
      → Keeps P (m >>= f)
  Keeps-bind m f km kf = record {
    at = λ w h. elim (Result-cases (m w).0) [
      | inl (a, e) ↦ subst P (sym (bind-answered m f w a e)) ((kf a).at (m w).1 (km.at w h))
      | inr (x, e) ↦ subst P (sym (bind-rejected m f w x e)) (km.at w h)
    ];
  }

  pub Keeps-then : (m : Action W A) (n : Action W B) → Keeps P m → Keeps P n → Keeps P (m >> n)
  Keeps-then m n km kn = Keeps-bind m (λ _. n) km (λ _. kn)

module _ {W A : Type 0} {P : W → Type 0} where
  pub Keeps-for_each :
      (f : A → Action W (Unit {0})) (xs : List A)
      → ((a : A) → Keeps P (f a))
      → Keeps P (for_each f xs)
  unfolding for_each
  Keeps-for_each f [] k = Keeps-pure tt
  Keeps-for_each f (x ∷ xs) k = Keeps-then (f x) (for_each f xs) (k x) (Keeps-for_each f xs k)

pub ruleset keeps_rules = (
  Keeps-pure, Keeps-raise, Keeps-gets, Keeps-if, Keeps-option, Keeps-raise_if, Keeps-then,
  Keeps-bind,
)
