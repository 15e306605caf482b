-- ===== src/Tests/Users.antt =====
-- The management of accounts on concrete inputs.
use wow_dashboard_api.Prelude.{
  ℕ, ◌≡◌, ◌≢◌, refl, inl, inr, String, Bool, true, false, Option, some, none, List, [], ◌∷◌, str_eq,
  if◌then◌else◌, arith,
}
use wow_dashboard_api.Store.Schema.{User, disabled}
use wow_dashboard_api.Store.Effect.{Env, World, err, insufficient_privilege, self_modification}
use wow_dashboard_api.Users.Service.{UserService, UpdateUserInput, update_user}
use wow_dashboard_api.Users.Guards.Safety.{IsUntouched, update_user-IsUntouched}
use wow_dashboard_api.Tests.{env, ada}
use wow_dashboard_api.Tests.Roles.{role_world}

abbrev pub bob : User
bob = record ada { id = 2; email = "bob@example.com"; display_name = "Bob" }

abbrev pub user_world : World
user_world = record role_world { db = record role_world.db { users = ada ∷ bob ∷ [] } }

-- "ada" is the account 1, "bob" the account 2 and "editor" the role 1.
abbrev pub user_env : Env
user_env = record env {
  parse_uuid = λ text.
      if str_eq text "ada"
      then some 1
      else if str_eq text "bob"
      then some 2
      else if str_eq text "editor"
      then some 1
      else if str_eq text "admin"
      then some 655_361
      else none;
}

abbrev pub users : UserService
users = record { unit_of_work = true; audit_recorder = true }

-- Bob, who is no administrator, disables Ada, who is.
abbrev attack : UpdateUserInput
attack = record {
  actor_user_id = "bob";
  actor_roles = "editor" ∷ [];
  actor_permissions = "users:manage" ∷ [];
  target_user_id = "ada";
  status = some "disabled";
  role_ids = none;
  avatar_url = none;
  phone = none;
  job_title = none;
  company = none;
}

-- Ada gives Bob a role and disables him.
abbrev demotion : UpdateUserInput
demotion = record attack {
  actor_user_id = "ada";
  actor_roles = "admin" ∷ [];
  actor_permissions = "*" ∷ [];
  target_user_id = "bob";
  role_ids = some ("editor" ∷ " editor" ∷ []);
}

update_user-IsUntouched_example :
    IsUntouched 1 user_world.db (update_user users demotion user_env user_world).1.db
unfolding wow_dashboard_api.Prelude.Text.trim_space
update_user-IsUntouched_example =
    update_user-IsUntouched users demotion user_env user_world 1 (inr refl)

attack_refused : (update_user users attack user_env user_world).0 ≡ err insufficient_privilege
unfolding update_user
attack_refused = refl

self_refused :
    (update_user users (record demotion { target_user_id = "ada" }) user_env user_world).0
    ≡ err self_modification
unfolding update_user
self_refused = refl

bob_disabled :
    (update_user users demotion user_env user_world).1.db.users
    ≡ ada ∷ record bob { status = disabled; updated_at = 100 } ∷ []
unfolding update_user
bob_disabled = refl
