-- ===== src/Identity/Distinct.antt =====
-- The table of users (`register` of apps/identity/src/application/identity.service.ts): no two users
-- have the same email or the same phone.
use mathlib.Core.Path.{subst}
use food_ordering_app.Prelude.{
  String, false, Option, none, some, List, [], ◌∷◌, ◌++◌, ◌==◌, find, update_where, is_some, All,
  ◌≡◌, refl, sym, arith, Bool-cases, Option-cases, inl, inr,
}
use food_ordering_app.Effect.{Action}
use food_ordering_app.Effect.Keeps.{Keeps}
use food_ordering_app.Text.{trim}
use food_ordering_app.Domain.{Role, customer}
use food_ordering_app.Identity.Model.{UserRow, RefreshTokenRecord, DeviceContext, World, Env}
use food_ordering_app.Identity.Users
use food_ordering_app.Identity.Users.{map_found, new_user, is_user}
use food_ordering_app.Identity.Sessions
use food_ordering_app.Identity.RefreshTokens
use food_ordering_app.Identity.RefreshTokens.{is_live, revoke_where}
use food_ordering_app.Identity.Audit.{append, with_transaction}
use food_ordering_app.Identity.Redis.{set_otp, del_otp, incr_attempts, clear_attempts, deny, hit}
use food_ordering_app.Identity.Service.{
  issue_session, issue_access_token, draw, refresh_expiry, publish_event, hash_password,
  create_customer, generate_otp_code,
}
use food_ordering_app.Identity.Account.{rotate}
use food_ordering_app.Identity.Calls.{Call, run}
use food_ordering_app.Identity.Kept.{Kept, run-kept}

module _ (env : Env) where
  abbrev pub Differ : UserRow → UserRow → Type 0
  Differ u v = (env.citext_eq u.email v.email ≡ false) × ((u.phone == v.phone) ≡ false)

  -- No user has the email or the phone of an earlier one.
  abbrev pub AreDistinct : List UserRow → Type 0
  AreDistinct [] = Unit {0}
  AreDistinct (u ∷ us) = All (Differ u) us × AreDistinct us

  All-append :
      (u v : UserRow) (us : List UserRow)
      → All (Differ u) us
      → Differ u v
      → All (Differ u) (us ++ (v ∷ []))
  All-append u v [] a d = (d, tt)
  All-append u v (w ∷ us) (e, a) d = (e, All-append u v us a d)

  AreDistinct-append :
      (us : List UserRow) (v : UserRow)
      → AreDistinct us
      → find (λ u. env.citext_eq u.email v.email) us ≡ none
      → find (λ u. u.phone == v.phone) us ≡ none
      → AreDistinct (us ++ (v ∷ []))
  AreDistinct-append [] v a e p = (tt, tt)
  AreDistinct-append (u ∷ us) v (d, a) e p = (
    All-append u v us d (ground arith, ground arith),
    AreDistinct-append us v a (ground arith) (ground arith),
  )

  All-update :
      (u : UserRow) (id : String) (role : Role) (us : List UserRow)
      → All (Differ u) us
      → All (Differ u) (update_where (is_user id) (λ v. record v { roles = role ∷ [] }) us)
  All-update u id role [] a = tt
  All-update u id role (v ∷ us) ((e, p), a) =
      ((ground arith, ground arith), All-update u id role us a)

  AreDistinct-update :
      (id : String) (role : Role) (us : List UserRow)
      → AreDistinct us
      → AreDistinct (update_where (is_user id) (λ v. record v { roles = role ∷ [] }) us)
  AreDistinct-update id role [] a = tt
  AreDistinct-update id role (u ∷ us) (d, a) = elim (Bool-cases (is_user id u)) [
    | inl e ↦ rw e (All-update u id role us d, AreDistinct-update id role us a)
    | inr e ↦ rw e (All-update u id role us d, AreDistinct-update id role us a)
  ]

  abbrev HasDistinct : World → Type 0
  HasDistinct w = AreDistinct w.users

  alone :
      {A : Type 0} (m : Action World A)
      → ((w : World) → (m w).1.users ≡ w.users)
      → Keeps HasDistinct m
  alone m same = record { at = λ w h. subst AreDistinct (sym (same w)) h }

  assign_role-HasDistinct :
      (id : String) (role : Role) → Keeps HasDistinct (Users.assign_role id role)
  unfolding Users.assign_role
  assign_role-HasDistinct id role = record {
    at = λ w h. elim (Bool-cases (is_some (find (is_user id) w.users))) [
      | inl e ↦ rw e (AreDistinct-update id role w.users h)
      | inr e ↦ rw e h
    ];
  }

  map_found-none : (o : Option UserRow) → map_found o ≡ none → o ≡ none
  unfolding map_found
  map_found-none none e = refl
  map_found-none (some u) e = absurd (ground arith)

  create_customer-HasDistinct :
      (name email phone hash : String)
      → Keeps HasDistinct (create_customer env name email phone hash)
  unfolding create_customer with_transaction Users.find_by_email Users.find_by_phone
      Users.create_user
  create_customer-HasDistinct name email phone hash = record {
    at = λ w h.
        let after = (create_customer env name email phone hash w).1 in
        let v = new_user env w (trim name) email phone customer in
        elim (Option-cases (map_found (find (λ u. env.citext_eq u.email email) w.users))) [
          | inl e ↦ elim (Option-cases (map_found (find (λ u. u.phone == phone) w.users))) [
            | inl p ↦
                let is : after.users ≡ w.users ++ (v ∷ []) = ground arith in
                subst AreDistinct (sym is)
                  (AreDistinct-append w.users v h (map_found-none _ e) (map_found-none _ p))
            | inr (u, p) ↦
                let is : after.users ≡ w.users = ground arith in subst AreDistinct (sym is) h
          ]
          | inr (u, e) ↦
              let is : after.users ≡ w.users = ground arith in subst AreDistinct (sym is) h
        ];
  }

  rotate-users :
      (existing : RefreshTokenRecord) (device : DeviceContext) (w : World)
      → (rotate env existing device w).1.users ≡ w.users
  unfolding rotate issue_access_token draw refresh_expiry RefreshTokens.create RefreshTokens.revoke
      revoke_where Users.find_by_id Sessions.touch append
  rotate-users existing device w =
      elim (Option-cases (map_found (find (is_user existing.user_id) w.users))) [
        | inl e ↦ ground arith
        | inr (user, e) ↦ ground arith
      ]

  HasDistinct-kept : Kept env HasDistinct
  unfolding append publish_event set_otp del_otp incr_attempts clear_attempts deny hit
      generate_otp_code hash_password Sessions.revoke Sessions.revoke_all_for_user revoke_where
      issue_session issue_access_token draw Sessions.create refresh_expiry RefreshTokens.create
  HasDistinct-kept = record {
    appends = λ a b c d e. alone _ (λ w. refl);
    publishes = λ a b c. alone _ (λ w. ground arith);
    sets_otp = λ a b c. alone _ (λ w. refl);
    dels_otp = λ a. alone _ (λ w. refl);
    incrs = λ a b. alone _ (λ w. refl);
    clears = λ a. alone _ (λ w. refl);
    denies = λ a b. alone _ (λ w. refl);
    hits = λ a b c. alone _ (λ w. refl);
    generates = alone _ (λ w. refl);
    hashes = λ a. alone _ (λ w. refl);
    revokes_session = λ a. alone _ (λ w. refl);
    revokes_sessions = λ a. alone _ (λ w. refl);
    revokes_tokens = λ a. alone _ (λ w. refl);
    assigns_role = assign_role-HasDistinct;
    creates = create_customer-HasDistinct;
    issues = λ a b c. alone _ (λ w. refl);
    rotates = λ hash w existing device f l h.
        (alone (rotate env existing device) (rotate-users existing device)).at w h;
    waits = λ w t h. h;
  }

  -- If no two users had the same email or phone, it is so after whatever calls the service gets.
  pub run-AreDistinct :
      (calls : List Call) (w : World) → AreDistinct w.users → AreDistinct (run env calls w).users
  run-AreDistinct = run-kept env HasDistinct-kept
