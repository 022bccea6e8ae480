-- ===== src/Identity/Users.antt =====
-- `TypeOrmUserRepository`
-- (apps/identity/src/infrastructure/persistence/typeorm.repositories.ts).
use food_ordering_app.Prelude.{
  ◌+◌, String, Bool, true, false, ◌||◌, Option, none, some, List, [], ◌∷◌, ◌++◌, ◌==◌,
  if◌then◌else◌, find, update_where, is_some,
}
use food_ordering_app.Effect.{ok, err, fault, Action, pure, gets, ◌>>=◌}
use food_ordering_app.Keyed.{write}
use food_ordering_app.Text.{trim}
use food_ordering_app.Domain.{Role, customer, admin}
use food_ordering_app.Identity.Model.{UserRecord, UserRow, World, Env}
use food_ordering_app.Identity.Security.{normalize_phone}

-- The first of the user's roles, or `customer`.
abbrev first_role : List Role → Role
first_role [] = customer
first_role (r ∷ _) = r

unfoldable pub map_user : UserRow → UserRecord
map_user u = record {
  id = u.id;
  name = u.name;
  email = u.email;
  phone = u.phone;
  created_at = u.created_at;
  role = first_role u.roles;
}

unfoldable pub map_found : Option UserRow → Option UserRecord
map_found none = none
map_found (some u) = some (map_user u)

abbrev pub is_user : String → UserRow → Bool
is_user id u = u.id == id

unfoldable pub find_by_id : String → Action World (Option UserRecord)
find_by_id id = gets (λ w. map_found (find (is_user id) w.users))

unfoldable pub find_by_phone : String → Action World (Option UserRecord)
find_by_phone phone = gets (λ w. map_found (find (λ u. u.phone == phone) w.users))

unfoldable pub get_password_hash : String → Action World (Option String)
get_password_hash user_id = gets (λ w. w.credentials user_id)

-- `user.roles = [roleRow]`; the two roles are in the table of roles from the first migration on.
unfoldable pub assign_role : String → Role → Action World Role
assign_role user_id role w =
    if is_some (find (is_user user_id) w.users)
    then (
      ok role,
      record w {
        users = update_where (is_user user_id) (λ u. record u { roles = role ∷ [] }) w.users;
      },
    )
    else (err (fault "EntityNotFoundError"), w)

module _ (env : Env) where
  open env use {uuid, to_lower_case, citext_eq}

  unfoldable pub find_by_email : String → Action World (Option UserRecord)
  find_by_email email = gets (λ w. map_found (find (λ u. citext_eq u.email email) w.users))

  -- `u.email = :email OR u.phone = :phone`
  abbrev pub matches : String → UserRow → Bool
  matches identifier u =
      let id = trim identifier in
      citext_eq u.email (to_lower_case id) || u.phone == normalize_phone id

  unfoldable pub find_by_email_or_phone : String → Action World (Option UserRecord)
  find_by_email_or_phone identifier = gets (λ w. map_found (find (matches identifier) w.users))

  abbrev pub new_user : World → (name email phone : String) → Role → UserRow
  new_user w name email phone role = record {
    id = uuid w.draws;
    name = name;
    email = email;
    phone = phone;
    created_at = w.now;
    roles = role ∷ [];
  }

  -- The user with its credential.
  unfoldable pub create_user :
      (name email phone password_hash : String) → Role → Action World UserRecord
  create_user name email phone password_hash role w =
      let u = new_user w name email phone role in
      (
        ok (map_user u),
        record w {
          users = w.users ++ (u ∷ []);
          credentials = write u.id (some password_hash) w.credentials;
          draws = w.draws + 1;
        },
      )

  -- `ensureAdminSeed`, whether a user was created with it.
  unfoldable pub ensure_admin_seed :
      (name email phone password_hash : String) → Action World (UserRecord × Bool)
  ensure_admin_seed name email phone password_hash = do
    existing ← find_by_email email
    elim existing [
      | some u ↦ pure (u, false)
      | none ↦ do u ← create_user name email phone password_hash admin; pure (u, true)
    ]
