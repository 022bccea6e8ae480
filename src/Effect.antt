-- ===== src/Effect.antt =====
-- Promises that may reject, over an explicit state, and the error classes of the services.
-- A service's methods are asynchronous functions that throw; what they wrote before they threw
-- stays written, so the state comes back with an error too.
pub mod Keeps
use food_ordering_app.Prelude.{◌≡◌, refl, ◌⊎◌, inl, inr}
use food_ordering_app.Prelude.{ℕ, String, Bool, true, false, Option, none, some, List, [], ◌∷◌}

-- The classes of `domain/errors.ts`; `fault` is any other exception, such as one of a gRPC call.
pub data Error : Type 0 where
  not_found : String → Error
  validation : String → Error
  unprocessable : String → Error
  forbidden : String → Error
  conflict : String → Error
  unauthorized : String → Error
  rate_limit : String → Error
  fault : String → Error

-- The field `httpStatus`; what is no `DomainError` has none.
unfoldable pub http_status : Error → Option ℕ
http_status (not_found _) = some 404
http_status (validation _) = some 400
http_status (unprocessable _) = some 422
http_status (forbidden _) = some 403
http_status (conflict _) = some 409
http_status (unauthorized _) = some 401
http_status (rate_limit _) = some 429
http_status (fault _) = none

-- The field `message`.
unfoldable pub message : Error → String
message (not_found m) = m
message (validation m) = m
message (unprocessable m) = m
message (forbidden m) = m
message (conflict m) = m
message (unauthorized m) = m
message (rate_limit m) = m
message (fault m) = m

pub data Result (A : Type 0) : Type 0 where
  ok : A → Result A
  err : Error → Result A

abbrev pub Action : Type 0 → Type 0 → Type 0
Action W A = W → Result A × W

module _ {W A : Type 0} where
  abbrev pub pure : A → Action W A
  pure a w = (ok a, w)

  -- `throw e`
  abbrev pub raise : Error → Action W A
  raise e w = (err e, w)

  abbrev pub gets : (W → A) → Action W A
  gets f w = (ok (f w), w)

  -- A call that answers or rejects and leaves the state alone.
  abbrev pub lift : Result A → Action W A
  lift r w = (r, w)

infixl 5 ◌>>=◌ ◌>>◌
abbrev pub ◌>>=◌ : {W A B : Type 0} → Action W A → (A → Action W B) → Action W B
◌>>=◌ m f w = let (r, w') = m w in elim r [ ok a ↦ f a w' | err e ↦ (err e, w') ]

abbrev pub ◌>>◌ : {W A B : Type 0} → Action W A → Action W B → Action W B
m >> k = m >>= λ _. k

module _ {W : Type 0} where
  abbrev pub modify : (W → W) → Action W (Unit {0})
  modify f w = (ok tt, f w)

  -- `if (c) throw e;`
  abbrev pub raise_if : Bool → Error → Action W (Unit {0})
  raise_if true e w = (err e, w)
  raise_if false e w = (ok tt, w)

  -- `try { m } finally { cleanup }`: an exception of `cleanup` replaces the result.
  abbrev pub finally : {A : Type 0} → Action W A → Action W (Unit {0}) → Action W A
  finally m cleanup w =
      let (r, w') = m w in
      let (c, w'') = cleanup w' in elim c [ ok _ ↦ (r, w'') | err e ↦ (err e, w'') ]

  -- `for (const x of xs) await f(x);`
  unfoldable pub for_each : {A : Type 0} → (A → Action W (Unit {0})) → List A → Action W (Unit {0})
  for_each f [] = pure tt
  for_each f (x ∷ xs) = f x >> for_each f xs

pub Result-cases :
    {A : Type 0} (r : Result A) → ((a : A) × (r ≡ ok a)) ⊎ ((e : Error) × (r ≡ err e))
Result-cases (ok a) = inl (a, refl)
Result-cases (err e) = inr (e, refl)
