-- ===== src/Identity/RefreshTokens.antt =====
-- `TypeOrmRefreshTokenRepository`
-- (apps/identity/src/infrastructure/persistence/typeorm.repositories.ts).
use food_ordering_app.Prelude.{
  ℕ, ◌+◌, String, Bool, not, ◌&&◌, Option, none, some, List, [], ◌∷◌, ◌++◌, ◌==◌, find,
  update_where, is_some,
}
use food_ordering_app.Effect.{Action, gets, modify}
use food_ordering_app.Identity.Model.{RefreshTokenRecord, World, Env}

abbrev pub is_live : RefreshTokenRecord → Bool
is_live t = not (is_some t.revoked_at)

unfoldable pub find_by_hash : String → Action World (Option RefreshTokenRecord)
find_by_hash token_hash = gets (λ w. find (λ t. t.token_hash == token_hash) w.tokens)

-- `UPDATE … SET revoked_at = now WHERE … AND revoked_at IS NULL`
unfoldable pub revoke_in :
    (RefreshTokenRecord → Bool) → ℕ → List RefreshTokenRecord → List RefreshTokenRecord
revoke_in test now rows =
    update_where (λ t. test t && is_live t) (λ t. record t { revoked_at = some now }) rows

unfoldable pub revoke_where : (RefreshTokenRecord → Bool) → Action World (Unit {0})
revoke_where test = modify (λ w. record w { tokens = revoke_in test w.now w.tokens })

unfoldable pub revoke : String → Action World (Unit {0})
revoke id = revoke_where (λ t. t.id == id)

unfoldable pub revoke_family : String → Action World (Unit {0})
revoke_family family_id = revoke_where (λ t. t.family_id == family_id)

unfoldable pub revoke_by_session : String → Action World (Unit {0})
revoke_by_session session_id = revoke_where (λ t. t.session_id == session_id)

unfoldable pub revoke_all_for_user : String → Action World (Unit {0})
revoke_all_for_user user_id = revoke_where (λ t. t.user_id == user_id)

module _ (env : Env) where
  abbrev pub new_token :
      World → (user_id session_id token_hash family_id : String) → ℕ → RefreshTokenRecord
  new_token w user_id session_id token_hash family_id expires_at = record {
    id = env.uuid w.draws;
    user_id = user_id;
    session_id = session_id;
    token_hash = token_hash;
    family_id = family_id;
    expires_at = expires_at;
    revoked_at = none;
    created_at = w.now;
  }

  unfoldable pub create :
      (user_id session_id token_hash family_id : String) → ℕ → Action World (Unit {0})
  create user_id session_id token_hash family_id expires_at = modify (λ w. record w {
    tokens = w.tokens ++ (new_token w user_id session_id token_hash family_id expires_at ∷ []);
    draws = w.draws + 1;
  })
