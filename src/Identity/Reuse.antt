-- ===== src/Identity/Reuse.antt =====
-- Reuse of a refresh token (`refresh` of apps/identity/src/application/identity.service.ts).
use mathlib.Core.Path.{subst}
use mathlib.Core.List.{append-nil}
use food_ordering_app.Prelude.{
  ℕ, suc, ◌+◌, ◌*◌, String, Bool, true, false, ◌&&◌, Option, none, some, List, [], ◌∷◌, ◌++◌, ◌==◌,
  find, is_some, ltb, any, ◌≡◌, refl, sym, ap, ◌∙◌, arith, eq_refl, Bool-cases, Option-cases, inl,
  inr, update_where,
}
use food_ordering_app.Effect.{ok, err, unauthorized}
use food_ordering_app.Effect.Keeps.{Keeps}
use food_ordering_app.Identity.Model.{
  UserRecord, SessionRecord, RefreshTokenRecord, DeviceContext, AuthTokens, AuditAction, World, Env,
}
use food_ordering_app.Identity.Users
use food_ordering_app.Identity.Sessions
use food_ordering_app.Identity.Sessions.{is_live_session}
use food_ordering_app.Identity.RefreshTokens
use food_ordering_app.Identity.RefreshTokens.{is_live, revoke_in, revoke_where}
use food_ordering_app.Identity.Audit.{append}
use food_ordering_app.Identity.Redis.{deny}
use food_ordering_app.Identity.Service.{issue_session, issue_access_token, draw, refresh_expiry}
use food_ordering_app.Identity.Account.{
  refresh, refresh_found, rotate, reuse_detected, deny_given, deny_some, session_expired, jti_of,
  given,
}
use food_ordering_app.Identity.Calls.{Call, run}
use food_ordering_app.Identity.Kept.{Kept, run-kept}
use food_ordering_app.Identity.Tokens.{tokens-Kept}
use food_ordering_app.Identity.Families.{live_in}

-- The first row with a hash is a revoked token of a family and a session.
pub record IsSpent (hash family session : String) (ts : List RefreshTokenRecord) : Type 0 where
  pub row : RefreshTokenRecord
  pub found : find (λ t. t.token_hash == hash) ts ≡ some row
  pub spent : is_some row.revoked_at ≡ true
  pub of_family : row.family_id ≡ family
  pub of_session : row.session_id ≡ session

find-append :
    (hash : String) (ts us : List RefreshTokenRecord) (t : RefreshTokenRecord)
    → find (λ r. r.token_hash == hash) ts ≡ some t
    → find (λ r. r.token_hash == hash) (ts ++ us) ≡ some t
find-append hash [] us t f = absurd (ground arith)
find-append hash (r ∷ rs) us t f = ground (arith, find-append hash rs us t)

-- A revoked row stays as it is.
find-revoke_in :
    (test : RefreshTokenRecord → Bool) (now : ℕ) (hash : String) (ts : List RefreshTokenRecord)
    (t : RefreshTokenRecord)
    → find (λ r. r.token_hash == hash) ts ≡ some t
    → is_some t.revoked_at ≡ true
    → find (λ r. r.token_hash == hash) (revoke_in test now ts) ≡ some t
unfolding revoke_in
find-revoke_in test now hash [] t f s = absurd (ground arith)
find-revoke_in test now hash (r ∷ rs) t f s = ground (arith, find-revoke_in test now hash rs t)

-- The row that is revoked by its id is spent.
revoke_in-IsSpent :
    (now : ℕ) (hash : String) (ts : List RefreshTokenRecord) (t : RefreshTokenRecord)
    → find (λ r. r.token_hash == hash) ts ≡ some t
    → is_live t ≡ true
    → find (λ r. r.token_hash == hash) (revoke_in (λ r. r.id == t.id) now ts)
      ≡ some (record t { revoked_at = some now })
unfolding revoke_in
revoke_in-IsSpent now hash [] t f l = absurd (ground arith)
revoke_in-IsSpent now hash (r ∷ rs) t f l = elim (Bool-cases (r.token_hash == hash)) [
  | inl e ↦ ground (arith, eq_refl t.id)
  | inr e ↦ ground (arith, revoke_in-IsSpent now hash rs t)
]

live_in-revoke_family :
    (family : String) (now : ℕ) (ts : List RefreshTokenRecord)
    → live_in family (revoke_in (λ t. t.family_id == family) now ts) ≡ 0
unfolding revoke_in
live_in-revoke_family family now [] = refl
live_in-revoke_family family now (t ∷ ts) = ground (arith, live_in-revoke_family family now ts)

pub live-revoke :
    (id : String) (now : ℕ) (ss : List SessionRecord)
    → any
        (λ s. s.id == id && is_live_session s)
        (update_where (λ s. s.id == id && is_live_session s) (Sessions.revoked_at_time now) ss)
      ≡ false
live-revoke id now [] = refl
live-revoke id now (s ∷ ss) = ground (arith, live-revoke id now ss)

module _ (env : Env) (hash family session : String) where
  IsSpent-revoke_where :
      (test : RefreshTokenRecord → Bool)
      → Keeps (λ w. IsSpent hash family session w.tokens) (revoke_where test)
  unfolding revoke_where
  IsSpent-revoke_where test = record {
    at = λ w h. record {
      row = h.row;
      found = find-revoke_in test w.now hash w.tokens h.row h.found h.spent;
      spent = h.spent;
      of_family = h.of_family;
      of_session = h.of_session;
    };
  }

  IsSpent-append :
      (ts us vs : List RefreshTokenRecord)
      → vs ≡ ts ++ us
      → IsSpent hash family session ts
      → IsSpent hash family session vs
  IsSpent-append ts us vs e h = record {
    row = h.row;
    found = rw e (find-append hash ts us h.row h.found);
    spent = h.spent;
    of_family = h.of_family;
    of_session = h.of_session;
  }

  IsSpent-issue_session :
      (user : UserRecord) (device : DeviceContext) (action : AuditAction)
      → Keeps (λ w. IsSpent hash family session w.tokens) (issue_session env user device action)
  unfolding issue_session issue_access_token draw Sessions.create refresh_expiry
      RefreshTokens.create append
  IsSpent-issue_session user device action = record {
    at = λ w h. IsSpent-append w.tokens _ (issue_session env user device action w).1.tokens refl h;
  }

  -- Rotation revokes a row and adds one at most.
  rotate-tokens :
      (w : World) (existing : RefreshTokenRecord) (device : DeviceContext)
      → (us : List RefreshTokenRecord) × ((rotate env existing device w).1.tokens
          ≡ revoke_in (λ t. t.id == existing.id) w.now w.tokens ++ us)
  unfolding rotate RefreshTokens.revoke revoke_where Users.find_by_id issue_access_token draw
      refresh_expiry RefreshTokens.create Sessions.touch append
  rotate-tokens w existing device =
      elim (Option-cases (Users.map_found (find (Users.is_user existing.user_id) w.users))) [
        | inl e ↦
            ([], ground (arith, append-nil (revoke_in (λ t. t.id == existing.id) w.now w.tokens)))
        | inr (user, e) ↦ (
          RefreshTokens.new_token env (record w { draws = w.draws + 2 }) user.id existing.session_id
                (env.sha256 (env.uuid (suc w.draws))) existing.family_id
                (w.now + env.refresh_ttl_seconds * 1000)
              ∷ [],
          ground arith,
        )
      ]

  IsSpent-rotate :
      (h : String) (w : World) (existing : RefreshTokenRecord) (device : DeviceContext)
      → find (λ t. t.token_hash == h) w.tokens ≡ some existing
      → is_live existing ≡ true
      → IsSpent hash family session w.tokens
      → IsSpent hash family session (rotate env existing device w).1.tokens
  unfolding revoke_where
  IsSpent-rotate h w existing device f l spent =
      let (us, e) = rotate-tokens w existing device in
      IsSpent-append (revoke_in (λ t. t.id == existing.id) w.now w.tokens) us
        (rotate env existing device w).1.tokens e
        ((IsSpent-revoke_where (λ t. t.id == existing.id)).at w spent)

  pub IsSpent-kept : Kept env (λ w. IsSpent hash family session w.tokens)
  IsSpent-kept =
      tokens-Kept env (λ w v e le h. subst (IsSpent hash family session) (sym e) h)
        IsSpent-revoke_where IsSpent-issue_session IsSpent-rotate

module _ (env : Env) where
  deny_some-rest :
      (jti : Option String) (w : World)
      → ((deny_some env jti w).0 ≡ ok tt)
        × ((deny_some env jti w).1.tokens ≡ w.tokens)
        × ((deny_some env jti w).1.sessions ≡ w.sessions)
        × ((deny_some env jti w).1.now ≡ w.now)
  unfolding deny_some deny
  deny_some-rest none w = (refl, refl, refl, refl)
  deny_some-rest (some jti) w = (refl, refl, refl, refl)

  reuse_detected-revokes :
      (row : RefreshTokenRecord) (device : DeviceContext) (w : World)
      → ((reuse_detected env row device w).0 ≡ err (unauthorized session_expired))
        × (live_in row.family_id (reuse_detected env row device w).1.tokens ≡ 0)
        × (any
              (λ s. s.id == row.session_id && is_live_session s)
              (reuse_detected env row device w).1.sessions
            ≡ false)
  unfolding reuse_detected RefreshTokens.revoke_family revoke_where Sessions.find_by_id deny_given
      Sessions.revoke append
  reuse_detected-revokes row device w =
      let v : World = (RefreshTokens.revoke_family row.family_id w).1 in
      let jti = given (jti_of env (find (λ s. s.id == row.session_id) w.sessions)) in
      let (o, t, s, n) = deny_some-rest jti v in
      (
        ground arith,
        ground (arith, live_in-revoke_family row.family_id w.now w.tokens),
        ground (arith, live-revoke row.session_id w.now w.sessions),
      )

  -- A spent token is refused, and its family and session go.
  pub refresh-IsSpent :
      (token family session : String) (device : DeviceContext) (w : World)
      → IsSpent (env.sha256 token) family session w.tokens
      → ((refresh env token device w).0 ≡ err (unauthorized session_expired))
        × (live_in family (refresh env token device w).1.tokens ≡ 0)
        × (any (λ s. s.id == session && is_live_session s) (refresh env token device w).1.sessions
            ≡ false)
  unfolding refresh RefreshTokens.find_by_hash refresh_found
  refresh-IsSpent token family session device w h =
      let same : refresh env token device w ≡ reuse_detected env h.row device w =
        ground (arith, h.found, h.spent) in
      let (e, t, s) = reuse_detected-revokes h.row device w in
      (ap (λ r. r.0) same ∙ e, ground (arith, h.of_family), ground (arith, h.of_session))

  rotate-IsSpent :
      (hash : String) (w : World) (row : RefreshTokenRecord) (device : DeviceContext)
      → find (λ t. t.token_hash == hash) w.tokens ≡ some row
      → is_live row ≡ true
      → IsSpent hash row.family_id row.session_id (rotate env row device w).1.tokens
  rotate-IsSpent hash w row device f l =
      let (us, e) = rotate-tokens env hash row.family_id row.session_id w row device in
      record {
        row = record row { revoked_at = some w.now };
        found = rw e (find-append hash _ us _ (revoke_in-IsSpent w.now hash w.tokens row f l));
        spent = refl;
        of_family = refl;
        of_session = refl;
      }

  refresh-spends :
      (token : String) (device : DeviceContext) (w : World) (row : RefreshTokenRecord)
      (tokens : AuthTokens)
      → find (λ t. t.token_hash == env.sha256 token) w.tokens ≡ some row
      → (refresh env token device w).0 ≡ ok tokens
      → IsSpent
          (env.sha256 token)
          row.family_id
          row.session_id
          (refresh env token device w).1.tokens
  unfolding refresh RefreshTokens.find_by_hash refresh_found
  refresh-spends token device w row tokens f answered =
      let (e, t, s) = reuse_detected-revokes row device w in
      elim (Bool-cases (is_some row.revoked_at)) [
        | inl r ↦ absurd (ground arith)
        | inr r ↦ elim (Bool-cases (ltb row.expires_at w.now)) [
          | inl x ↦ absurd (ground arith)
          | inr x ↦
              subst (IsSpent (env.sha256 token) row.family_id row.session_id) (ground arith)
                (rotate-IsSpent (env.sha256 token) w row device f (ground arith))
        ]
      ]

  -- A refresh token that was exchanged once is refused ever after, whatever calls came between, and
  -- whoever gives it again ends its session: no token of its family and no session with its
  -- session's id is live then.
  pub refresh-reused :
      (token : String) (first second : DeviceContext) (w : World) (row : RefreshTokenRecord)
      (tokens : AuthTokens) (calls : List Call)
      → find (λ t. t.token_hash == env.sha256 token) w.tokens ≡ some row
      → (refresh env token first w).0 ≡ ok tokens
      → let v = refresh env token second (run env calls (refresh env token first w).1) in
        (v.0 ≡ err (unauthorized session_expired))
        × (live_in row.family_id v.1.tokens ≡ 0)
        × (any (λ s. s.id == row.session_id && is_live_session s) v.1.sessions ≡ false)
  refresh-reused token first second w row tokens calls f answered =
      refresh-IsSpent token row.family_id row.session_id second
        (run env calls (refresh env token first w).1)
        (run-kept env (IsSpent-kept env (env.sha256 token) row.family_id row.session_id) calls
          (refresh env token first w).1 (refresh-spends token first w row tokens f answered))
