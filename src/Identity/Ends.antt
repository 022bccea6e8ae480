-- ===== src/Identity/Ends.antt =====
-- Ending a session (`revokeSession` of apps/identity/src/application/identity.service.ts).
use food_ordering_app.Prelude.{
  ℕ, ◌+◌, ◌*◌, String, true, false, ◌&&◌, some, List, [], ◌∷◌, ◌==◌, find, is_some, any, ◌≡◌, refl,
  sym, ap, ◌∙◌, arith, eq_iff, eq_refl, Option-cases, inl, inr, update_where, ◌<◌, max,
}
use food_ordering_app.Effect.{ok, err, unauthorized}
use food_ordering_app.Identity.Model.{
  SessionRecord, RefreshTokenRecord, DeviceContext, AccessPayload, World, Env,
}
use food_ordering_app.Identity.Sessions
use food_ordering_app.Identity.Sessions.{is_live_session}
use food_ordering_app.Identity.RefreshTokens
use food_ordering_app.Identity.RefreshTokens.{is_live, revoke_in, revoke_where}
use food_ordering_app.Identity.Audit.{append}
use food_ordering_app.Identity.Redis.{deny, read, is_revoked}
use food_ordering_app.Identity.Service.{publish_event}
use food_ordering_app.Identity.Account.{
  refresh, deny_given, deny_some, session_expired, given, revoke_session, revoke_given,
  revoke_found, introspect_token, introspect_payload, inactive,
}
use food_ordering_app.Identity.Reuse.{live-revoke, IsSpent, IsSpent-kept, refresh-IsSpent}
use food_ordering_app.Identity.Calls.{Call, run}
use food_ordering_app.Identity.Kept.{run-kept}

-- A row of a session is revoked with it.
revoke_by_session-found :
    (session hash : String) (now : ℕ) (ts : List RefreshTokenRecord) (t : RefreshTokenRecord)
    → find (λ r. r.token_hash == hash) (revoke_in (λ r. r.session_id == session) now ts) ≡ some t
    → t.session_id ≡ session
    → is_some t.revoked_at ≡ true
unfolding revoke_in
revoke_by_session-found session hash now [] t f e = absurd (ground arith)
revoke_by_session-found session hash now (r ∷ rs) t f e =
    ground (arith, eq_iff r.session_id session, revoke_by_session-found session hash now rs t)

module _ (env : Env) where
  -- Whatever Kafka does, `revokeSession` did this to the tables.
  revoke_found-state :
      (user_id : String) (s : SessionRecord) (w : World)
      → ((revoke_found env user_id s w).1.tokens
          ≡ revoke_in (λ t. t.session_id == s.id) w.now w.tokens)
        × ((revoke_found env user_id s w).1.sessions
            ≡ update_where
                (λ r. r.id == s.id && is_live_session r)
                (Sessions.revoked_at_time w.now)
                w.sessions)
        × ((revoke_found env user_id s w).1.denied ≡ (deny_given env s.access_jti w).1.denied)
        × ((revoke_found env user_id s w).1.now ≡ w.now)
  unfolding revoke_found RefreshTokens.revoke_by_session revoke_where Sessions.revoke deny_given
      append publish_event deny_some deny
  revoke_found-state user_id s w = elim (Option-cases (given s.access_jti)) [
    | inl e ↦ (ground arith, ground arith, ground arith, ground arith)
    | inr (j, e) ↦ (ground arith, ground arith, ground arith, ground arith)
  ]

  deny_given-denied :
      (jti : String) (w : World) (t : ℕ)
      → (jti == "") ≡ false
      → t < max env.access_ttl_seconds 1 * 1000
      → is_some (read (w.now + t) ((deny_given env (some jti) w).1.denied jti)) ≡ true
  unfolding deny_given deny_some deny read
  deny_given-denied jti w t e lt = ground (arith, eq_refl jti)

  -- A token that is denied is not active.
  introspect-denied :
      (token : String) (payload : AccessPayload) (v : World)
      → env.verify v.now token ≡ some payload
      → is_some (read v.now (v.denied payload.jti)) ≡ true
      → (introspect_token env token v).0 ≡ ok inactive
  unfolding introspect_token introspect_payload is_revoked
  introspect-denied token payload v genuine denied = ground arith

  revoke_session-found :
      (user_id : String) (s : SessionRecord) (w : World)
      → find (λ r. r.id == s.id) w.sessions ≡ some s
      → s.user_id ≡ user_id
      → (revoke_session env user_id s.id w).1 ≡ (revoke_found env user_id s w).1
  unfolding revoke_session revoke_given Sessions.find_by_id
  revoke_session-found user_id s w found owner = ground (arith, eq_iff s.user_id user_id)

  -- When a user ends a session of theirs, it is not live any more, whatever Kafka answers.
  pub revoke_session-ends :
      (user_id : String) (s : SessionRecord) (w : World)
      → find (λ r. r.id == s.id) w.sessions ≡ some s
      → s.user_id ≡ user_id
      → any (λ r. r.id == s.id && is_live_session r) (revoke_session env user_id s.id w).1.sessions
        ≡ false
  revoke_session-ends user_id s w found owner =
      let (tokens, sessions, denied, now) = revoke_found-state user_id s w in
      rw (ap (λ u. u.sessions) (revoke_session-found user_id s w found owner) ∙ sessions)
        (live-revoke s.id w.now w.sessions)

  -- When a user has ended a session of theirs, a refresh token of it, whose row is in the table, is
  -- refused after whatever calls come next, whatever Kafka answered.
  pub revoke_session-refuses :
      (user_id : String) (s : SessionRecord) (w v : World) (calls : List Call) (token : String)
      (device : DeviceContext) (row : RefreshTokenRecord)
      → find (λ r. r.id == s.id) w.sessions ≡ some s
      → s.user_id ≡ user_id
      → (revoke_session env user_id s.id w).1 ≡ v
      → find (λ r. r.token_hash == env.sha256 token) v.tokens ≡ some row
      → row.session_id ≡ s.id
      → (refresh env token device (run env calls v)).0 ≡ err (unauthorized session_expired)
  revoke_session-refuses user_id s w v calls token device row found owner is f of_session =
      let (tokens, sessions, denied, now) = revoke_found-state user_id s w in
      let rows : v.tokens ≡ revoke_in (λ r. r.session_id == s.id) w.now w.tokens =
        ap (λ u. u.tokens) (sym is ∙ revoke_session-found user_id s w found owner) ∙ tokens in
      let spent : IsSpent (env.sha256 token) row.family_id s.id v.tokens = record {
        row = row;
        found = f;
        spent =
            revoke_by_session-found s.id (env.sha256 token) w.now w.tokens row (ground arith)
              of_session;
        of_family = refl;
        of_session = of_session;
      } in
      (refresh-IsSpent env token row.family_id s.id device (run env calls v)
        (run-kept env (IsSpent-kept env (env.sha256 token) row.family_id s.id) calls v spent)).0

  -- When a user has ended a session of theirs, whatever Kafka answered, the access token that was
  -- issued for it last, if it has an id, is not active while it could still be genuine: for the time
  -- that access tokens last, or a second.
  pub revoke_session-denies :
      (user_id : String) (s : SessionRecord) (w v : World) (access : String)
      (payload : AccessPayload) (t : ℕ)
      → find (λ r. r.id == s.id) w.sessions ≡ some s
      → s.user_id ≡ user_id
      → (revoke_session env user_id s.id w).1 ≡ v
      → t < max env.access_ttl_seconds 1 * 1000
      → env.verify (v.now + t) access ≡ some payload
      → s.access_jti ≡ some payload.jti
      → (payload.jti == "") ≡ false
      → (introspect_token env access (record v { now = v.now + t })).0 ≡ ok inactive
  revoke_session-denies user_id s w v access payload t found owner is lt genuine jti given_jti =
      let (tokens, sessions, denied, now) = revoke_found-state user_id s w in
      let same : v ≡ (revoke_found env user_id s w).1 =
        sym is ∙ revoke_session-found user_id s w found owner in
      introspect-denied access payload (record v { now = v.now + t }) genuine
        (rw (ap (λ u. u.now) same ∙ now, ap (λ u. u.denied) same ∙ denied, jti)
          (deny_given-denied payload.jti w t given_jti lt))
