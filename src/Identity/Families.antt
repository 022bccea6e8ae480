-- ===== src/Identity/Families.antt =====
-- Families of refresh tokens (apps/identity/src/application/identity.service.ts): of each, one token
-- at most is live.
use food_ordering_app.Prelude.{
  ℕ, ◌+◌, ◌≤◌, ◌<◌, String, Bool, true, ◌&&◌, some, List, [], ◌∷◌, ◌++◌, ◌==◌, if◌then◌else◌, ◌≡◌,
  refl, ap, arith, eq_iff, eq_refl, inl, inr, Bool-cases, find, All,
}
use food_ordering_app.Effect.Keeps.{Keeps}
use food_ordering_app.Identity.Model.{RefreshTokenRecord, World, Env}
use food_ordering_app.Identity.RefreshTokens.{is_live, revoke_in, revoke_where}

-- How many tokens of a family are live.
abbrev pub live_in : String → List RefreshTokenRecord → ℕ
live_in family [] = 0
live_in family (t ∷ ts) = (if t.family_id == family && is_live t then 1 else 0) + live_in family ts

pub revoke_in-live_in :
    (test : RefreshTokenRecord → Bool) (now : ℕ) (family : String) (ts : List RefreshTokenRecord)
    → live_in family (revoke_in test now ts) ≤ live_in family ts
unfolding revoke_in
revoke_in-live_in test now family [] = omega arith
revoke_in-live_in test now family (t ∷ ts) = ground (arith, revoke_in-live_in test now family ts)

-- A live token that is revoked is one live token less of its family.
pub revoke_in-found :
    (hash : String) (now : ℕ) (ts : List RefreshTokenRecord) (t : RefreshTokenRecord)
    → find (λ r. r.token_hash == hash) ts ≡ some t
    → is_live t ≡ true
    → live_in t.family_id (revoke_in (λ r. r.id == t.id) now ts) + 1 ≤ live_in t.family_id ts
unfolding revoke_in
revoke_in-found hash now [] t f l = absurd (ground arith)
revoke_in-found hash now (r ∷ rs) t f l = elim (Bool-cases (r.token_hash == hash)) [
  | inl e ↦ ground (
    arith,
    eq_refl t.id,
    eq_refl t.family_id,
    revoke_in-live_in (λ r. r.id == t.id) now t.family_id rs,
  )
  | inr e ↦ ground (
    arith,
    revoke_in-found hash now rs t,
    revoke_in-live_in (λ r. r.id == t.id) now t.family_id rs,
  )
]

live_in-append :
    (family : String) (ts us : List RefreshTokenRecord)
    → live_in family (ts ++ us) ≡ live_in family ts + live_in family us
live_in-append family [] us = omega arith
live_in-append family (t ∷ ts) us = omega (arith, live_in-append family ts us)

module _ (env : Env) where
  -- Every family's id was drawn.
  abbrev pub AreDrawn : ℕ → List RefreshTokenRecord → Type 0
  AreDrawn n ts = All (λ t. (k : ℕ) × (k < n) × (t.family_id ≡ env.uuid k)) ts

  pub record IsSingle (w : World) : Type 0 where
    pub single : (family : String) → live_in family w.tokens ≤ 1
    pub drawn : AreDrawn w.draws w.tokens

  pub AreDrawn-le : (m n : ℕ) (ts : List RefreshTokenRecord) → m ≤ n → AreDrawn m ts → AreDrawn n ts
  AreDrawn-le m n [] le a = tt
  AreDrawn-le m n (t ∷ ts) le ((k, lt, e), a) = ((k, omega arith, e), AreDrawn-le m n ts le a)

  pub AreDrawn-revoke_in :
      (test : RefreshTokenRecord → Bool) (now n : ℕ) (ts : List RefreshTokenRecord)
      → AreDrawn n ts
      → AreDrawn n (revoke_in test now ts)
  unfolding revoke_in
  AreDrawn-revoke_in test now n [] a = tt
  AreDrawn-revoke_in test now n (t ∷ ts) ((k, lt, e), a) =
      ((k, lt, ground arith), AreDrawn-revoke_in test now n ts a)

  AreDrawn-append :
      (n : ℕ) (ts : List RefreshTokenRecord) (t : RefreshTokenRecord)
      → AreDrawn n ts
      → (k : ℕ) × (k < n) × (t.family_id ≡ env.uuid k)
      → AreDrawn n (ts ++ (t ∷ []))
  AreDrawn-append n [] t a d = (d, tt)
  AreDrawn-append n (r ∷ rs) t (e, a) d = (e, AreDrawn-append n rs t a d)

  pub AreDrawn-found :
      (n : ℕ) (hash : String) (ts : List RefreshTokenRecord) (t : RefreshTokenRecord)
      → AreDrawn n ts
      → find (λ r. r.token_hash == hash) ts ≡ some t
      → (k : ℕ) × (k < n) × (t.family_id ≡ env.uuid k)
  AreDrawn-found n hash [] t a f = absurd (ground arith)
  AreDrawn-found n hash (r ∷ rs) t ((k, lt, e), a) f = elim (Bool-cases (r.token_hash == hash)) [
    | inl h ↦ (k, lt, ground arith)
    | inr h ↦ AreDrawn-found n hash rs t a (ground arith)
  ]

  -- A family that is not drawn yet has no token.
  pub live_in-undrawn :
      ((m n : ℕ) → env.uuid m ≡ env.uuid n → m ≡ n)
      → (n : ℕ) (ts : List RefreshTokenRecord) → AreDrawn n ts
      → (k : ℕ) → n ≤ k
      → live_in (env.uuid k) ts ≡ 0
  live_in-undrawn fresh n [] a k le = refl
  live_in-undrawn fresh n (t ∷ ts) ((j, lt, e), a) k le =
      ground (arith, eq_iff t.family_id (env.uuid k), fresh j k, live_in-undrawn fresh n ts a k le)

  pub revoke_where-IsSingle :
      (test : RefreshTokenRecord → Bool) → Keeps IsSingle (revoke_where test)
  unfolding revoke_where
  revoke_where-IsSingle test = record {
    at = λ w h. record {
      single =
          λ family. omega (arith, revoke_in-live_in test w.now family w.tokens, h.single family);
      drawn = AreDrawn-revoke_in test w.now w.draws w.tokens h.drawn;
    };
  }

  -- A new token of a family without live tokens.
  pub IsSingle-append :
      (w : World) (t : RefreshTokenRecord) (v : World)
      → ((family : String) → live_in family w.tokens + live_in family (t ∷ []) ≤ 1)
      → AreDrawn w.draws w.tokens
      → (k : ℕ) × (k < v.draws) × (t.family_id ≡ env.uuid k)
      → v.tokens ≡ w.tokens ++ (t ∷ [])
      → w.draws ≤ v.draws
      → IsSingle v
  IsSingle-append w t v s a d e le = record {
    single = λ family.
        omega (arith, ap (live_in family) e, live_in-append family w.tokens (t ∷ []), s family);
    drawn = rw e (AreDrawn-append v.draws w.tokens t (AreDrawn-le w.draws v.draws w.tokens le a) d);
  }
