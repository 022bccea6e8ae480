-- ===== src/Identity/Tokens.antt =====
-- Invariants of the table of refresh tokens: what the calls of the identity service do to it
-- (apps/identity/src/application/identity.service.ts).
use food_ordering_app.Prelude.{
  ℕ, ◌+◌, ◌≤◌, String, Bool, true, Option, some, ◌==◌, find, ◌≡◌, refl, arith,
}
use food_ordering_app.Effect.{Action}
use food_ordering_app.Effect.Keeps.{Keeps}
use food_ordering_app.Domain.{Role, Topic, Payload}
use food_ordering_app.Identity.Model.{
  UserRecord, RefreshTokenRecord, DeviceContext, AuditAction, AuditMetadata, Scope, World, Env,
}
use food_ordering_app.Identity.Users
use food_ordering_app.Identity.Sessions
use food_ordering_app.Identity.RefreshTokens.{is_live, revoke_where}
use food_ordering_app.Identity.Audit.{append, with_transaction}
use food_ordering_app.Identity.Redis.{
  set_otp, get_otp, del_otp, incr_attempts, clear_attempts, deny, is_revoked, hit,
}
use food_ordering_app.Identity.Service.{
  issue_session, publish_event, hash_password, create_customer, generate_otp_code, window_seconds,
}
use food_ordering_app.Identity.Account.{rotate}
use food_ordering_app.Identity.Kept.{Kept}

-- An invariant that depends on the tokens, and that more draws keep.
module _ (env : Env) {P : World → Type 0}
    (same : (w v : World) → v.tokens ≡ w.tokens → w.draws ≤ v.draws → P w → P v) where
  -- An action that leaves the tokens alone.
  same_tokens :
      {A : Type 0} (m : Action World A)
      → ((w : World) → ((m w).1.tokens ≡ w.tokens) × (w.draws ≤ (m w).1.draws))
      → Keeps P m
  same_tokens m alone = record { at = λ w h. same w (m w).1 (alone w).0 (alone w).1 h }

  append-same :
      (action : AuditAction) (user session : Option String) (device : DeviceContext)
      (about : AuditMetadata)
      → Keeps P (append action user session device about)
  unfolding append
  append-same action user session device about = same_tokens _ (λ w. (refl, omega arith))

  publish_event-same :
      (topic : Topic) (key : String) (payload : Payload)
      → Keeps P (publish_event env topic key payload)
  unfolding publish_event
  publish_event-same topic key payload = same_tokens _ (λ w. (ground arith, ground arith))

  set_otp-same : (u h : String) (s : ℕ) → Keeps P (set_otp u h s)
  unfolding set_otp
  set_otp-same u h s = same_tokens _ (λ w. (refl, omega arith))

  del_otp-same : (u : String) → Keeps P (del_otp u)
  unfolding del_otp
  del_otp-same u = same_tokens _ (λ w. (refl, omega arith))

  get_otp-same : (u : String) → Keeps P (get_otp u)
  unfolding get_otp
  get_otp-same u = same_tokens _ (λ w. (refl, omega arith))

  incr_attempts-same : (u : String) (s : ℕ) → Keeps P (incr_attempts u s)
  unfolding incr_attempts
  incr_attempts-same u s = same_tokens _ (λ w. (refl, omega arith))

  clear_attempts-same : (u : String) → Keeps P (clear_attempts u)
  unfolding clear_attempts
  clear_attempts-same u = same_tokens _ (λ w. (refl, omega arith))

  deny-same : (j : String) (s : ℕ) → Keeps P (deny j s)
  unfolding deny
  deny-same j s = same_tokens _ (λ w. (refl, omega arith))

  is_revoked-same : (j : String) → Keeps P (is_revoked j)
  unfolding is_revoked
  is_revoked-same j = same_tokens _ (λ w. (refl, omega arith))

  hit-same : (c : Scope) (i : String) (l s : ℕ) → Keeps P (hit c i l s)
  unfolding hit
  hit-same c i l s = same_tokens _ (λ w. (refl, omega arith))

  generate_otp_code-same : Keeps P (generate_otp_code env)
  unfolding generate_otp_code
  generate_otp_code-same = same_tokens _ (λ w. (refl, omega arith))

  hash_password-same : (p : String) → Keeps P (hash_password env p)
  unfolding hash_password
  hash_password-same p = same_tokens _ (λ w. (refl, omega arith))

  revoke-same : (id : String) → Keeps P (Sessions.revoke id)
  unfolding Sessions.revoke
  revoke-same id = same_tokens _ (λ w. (refl, omega arith))

  revoke_all-same : (u : String) → Keeps P (Sessions.revoke_all_for_user u)
  unfolding Sessions.revoke_all_for_user
  revoke_all-same u = same_tokens _ (λ w. (refl, omega arith))

  assign_role-same : (u : String) (r : Role) → Keeps P (Users.assign_role u r)
  unfolding Users.assign_role
  assign_role-same u r = same_tokens _ (λ w. (ground arith, ground arith))

  create_customer-same :
      (name email phone hash : String) → Keeps P (create_customer env name email phone hash)
  unfolding create_customer with_transaction Users.find_by_email Users.find_by_phone
      Users.create_user
  create_customer-same name email phone hash = same_tokens _ (λ w. (ground arith, ground arith))

  -- What is left to show of such an invariant.
  pub tokens-Kept :
      ((test : RefreshTokenRecord → Bool) → Keeps P (revoke_where test))
      → ((user : UserRecord) (device : DeviceContext) (action : AuditAction)
          → Keeps P (issue_session env user device action))
      → ((hash : String) (w : World) (existing : RefreshTokenRecord) (device : DeviceContext)
          → find (λ t. t.token_hash == hash) w.tokens ≡ some existing
          → is_live existing ≡ true
          → P w
          → P (rotate env existing device w).1)
      → Kept env P
  tokens-Kept revokes issues rotates = record {
    appends = append-same;
    publishes = publish_event-same;
    sets_otp = set_otp-same;
    dels_otp = del_otp-same;
    incrs = incr_attempts-same;
    clears = clear_attempts-same;
    denies = deny-same;
    hits = λ scope id limit. hit-same scope id limit window_seconds;
    generates = generate_otp_code-same;
    hashes = hash_password-same;
    revokes_session = revoke-same;
    revokes_sessions = revoke_all-same;
    revokes_tokens = revokes;
    assigns_role = assign_role-same;
    creates = create_customer-same;
    issues = issues;
    rotates = rotates;
    waits = λ w milliseconds. same w (record w { now = w.now + milliseconds }) refl (omega arith);
  }
