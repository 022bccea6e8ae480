-- ===== src/Identity/Sessions.antt =====
-- `TypeOrmSessionRepository`
-- (apps/identity/src/infrastructure/persistence/typeorm.repositories.ts).
use food_ordering_app.Prelude.{
  ℕ, ◌+◌, String, Bool, not, ◌&&◌, Option, none, some, List, [], ◌∷◌, ◌++◌, ◌==◌, if◌then◌else◌,
  find, select, any, update_where, map, is_some,
}
use food_ordering_app.Effect.{ok, Action, gets, modify}
use food_ordering_app.Identity.Model.{SessionRecord, DeviceContext, World, Env}

abbrev pub is_live_session : SessionRecord → Bool
is_live_session s = not (is_some s.revoked_at)

unfoldable pub find_by_id : String → Action World (Option SessionRecord)
find_by_id id = gets (λ w. find (λ s. s.id == id) w.sessions)

abbrev pub revoked_at_time : ℕ → SessionRecord → SessionRecord
revoked_at_time now s = record s { revoked_at = some now }

unfoldable pub touch : String → String → Action World (Unit {0})
touch id access_jti = modify (λ w. record w {
  sessions =
      update_where (λ s. s.id == id)
        (λ s. record s {
          last_active = w.now;
          access_jti = if access_jti == "" then s.access_jti else some access_jti;
        })
        w.sessions;
})

unfoldable pub revoke : String → Action World (Unit {0})
revoke id = modify (λ w. record w {
  sessions = update_where (λ s. s.id == id && is_live_session s) (revoked_at_time w.now) w.sessions;
})

-- The sessions that were live, as they are revoked.
unfoldable pub revoke_all_for_user : String → Action World (List SessionRecord)
revoke_all_for_user user_id w =
    let active = select (λ s. s.user_id == user_id && is_live_session s) w.sessions in
    (
      ok (map (revoked_at_time w.now) active),
      record w {
        sessions =
            update_where (λ s. any (λ a. a.id == s.id) active) (revoked_at_time w.now) w.sessions;
      },
    )

module _ (env : Env) where
  open env use {uuid, last_active_first}

  abbrev pub new_session : World → String → DeviceContext → String → SessionRecord
  new_session w user_id device access_jti = record {
    id = uuid w.draws;
    user_id = user_id;
    device_ua = device.user_agent;
    ip = device.ip;
    access_jti = some access_jti;
    created_at = w.now;
    last_active = w.now;
    revoked_at = none;
  }

  unfoldable pub create : String → DeviceContext → String → Action World SessionRecord
  create user_id device access_jti w = (
    ok (new_session w user_id device access_jti),
    record w {
      sessions = w.sessions ++ (new_session w user_id device access_jti ∷ []);
      draws = w.draws + 1;
    },
  )

  unfoldable pub list_by_user : String → Action World (List SessionRecord)
  list_by_user user_id =
      gets (λ w. last_active_first (select (λ s. s.user_id == user_id) w.sessions))
