-- ===== src/Identity/Rotation.antt =====
-- Every call of the identity service (apps/identity/src/application/identity.service.ts) leaves at
-- most one live refresh token in each family.
use food_ordering_app.Prelude.{
  ℕ, suc, ◌+◌, ◌*◌, ◌≤◌, String, true, some, List, ◌==◌, find, ◌≡◌, refl, arith, eq_iff,
  Option-cases, inl, inr,
}
use food_ordering_app.Effect.Keeps.{Keeps}
use food_ordering_app.Identity.Model.{
  UserRecord, RefreshTokenRecord, DeviceContext, AuditAction, World, Env,
}
use food_ordering_app.Identity.Users
use food_ordering_app.Identity.Sessions
use food_ordering_app.Identity.RefreshTokens
use food_ordering_app.Identity.RefreshTokens.{is_live, revoke_where}
use food_ordering_app.Identity.Audit.{append}
use food_ordering_app.Identity.Service.{issue_session, issue_access_token, draw, refresh_expiry}
use food_ordering_app.Identity.Account.{rotate}
use food_ordering_app.Identity.Kept.{Kept, run-kept}
use food_ordering_app.Identity.Calls.{Call, run}
use food_ordering_app.Identity.Tokens.{tokens-Kept}
use food_ordering_app.Identity.Families.{
  IsSingle, IsSingle-append, AreDrawn-le, AreDrawn-found, live_in-undrawn, revoke_in-found,
  revoke_where-IsSingle,
}

module _ (env : Env) where
  -- A state with the same tokens and as many draws or more.
  IsSingle-same :
      (w v : World) → v.tokens ≡ w.tokens → w.draws ≤ v.draws → IsSingle env w → IsSingle env v
  IsSingle-same w v e le h = record {
    single = rw e h.single;
    drawn = rw e (AreDrawn-le env w.draws v.draws w.tokens le h.drawn);
  }

  issue_session-IsSingle :
      ((m n : ℕ) → env.uuid m ≡ env.uuid n → m ≡ n)
      → (user : UserRecord) (device : DeviceContext) (action : AuditAction)
      → Keeps (IsSingle env) (issue_session env user device action)
  unfolding issue_session issue_access_token draw Sessions.create refresh_expiry
      RefreshTokens.create append
  issue_session-IsSingle fresh user device action = record {
    at = λ w h.
        IsSingle-append env w _ (issue_session env user device action w).1
          (λ family. ground (
            arith,
            h.single family,
            eq_iff (env.uuid (suc (suc w.draws))) family,
            live_in-undrawn env fresh w.draws w.tokens h.drawn (suc (suc w.draws)) (omega arith),
          ))
          h.drawn (suc (suc w.draws), omega arith, refl) refl (omega arith);
  }

  -- The live token of a family is revoked, and another one takes its place.
  rotate-IsSingle :
      (hash : String) (w : World) (existing : RefreshTokenRecord) (device : DeviceContext)
      → find (λ t. t.token_hash == hash) w.tokens ≡ some existing
      → is_live existing ≡ true
      → IsSingle env w
      → IsSingle env (rotate env existing device w).1
  unfolding rotate RefreshTokens.revoke revoke_where Users.find_by_id issue_access_token draw
      refresh_expiry RefreshTokens.create Sessions.touch append
  rotate-IsSingle hash w existing device f l h =
      let revoked : World = (RefreshTokens.revoke existing.id w).1 in
      let kept : IsSingle env revoked =
        (revoke_where-IsSingle env (λ t. t.id == existing.id)).at w h in
      elim (Option-cases (Users.map_found (find (Users.is_user existing.user_id) w.users))) [
        | inl e ↦
            IsSingle-same revoked (rotate env existing device w).1 (ground arith) (ground arith)
              kept
        | inr (user, e) ↦
            IsSingle-append env revoked
              (RefreshTokens.new_token env (record w { draws = w.draws + 2 }) user.id
                existing.session_id (env.sha256 (env.uuid (suc w.draws))) existing.family_id
                (w.now + env.refresh_ttl_seconds * 1000))
              (rotate env existing device w).1
              (λ family. ground (
                arith,
                eq_iff existing.family_id family,
                kept.single family,
                h.single family,
                revoke_in-found hash w.now w.tokens existing f l,
              ))
              kept.drawn
              (let (k, lt, e2) = AreDrawn-found env w.draws hash w.tokens existing h.drawn f in
                (k, ground arith, e2))
              (ground arith) (ground arith)
      ]

module _ (env : Env) where
  IsSingle-kept : ((m n : ℕ) → env.uuid m ≡ env.uuid n → m ≡ n) → Kept env (IsSingle env)
  IsSingle-kept fresh =
      tokens-Kept env (IsSingle-same env) (revoke_where-IsSingle env)
        (issue_session-IsSingle env fresh) (rotate-IsSingle env)

  -- Whatever calls the identity service serves, one after another, a family of refresh tokens never
  -- has more than one live token, if random ids are never drawn twice and no family had more before.
  pub run-IsSingle :
      ((m n : ℕ) → env.uuid m ≡ env.uuid n → m ≡ n)
      → (calls : List Call) (w : World) → IsSingle env w
      → IsSingle env (run env calls w)
  run-IsSingle fresh = run-kept env (IsSingle-kept fresh)
