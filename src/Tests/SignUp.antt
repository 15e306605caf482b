-- ===== src/Tests/SignUp.antt =====
-- Registration on concrete inputs.
use wow_dashboard_api.Prelude.{ℕ, ◌≡◌, refl, Bool, true, none, List, [], ◌∷◌}
use wow_dashboard_api.Prelude.Text.{to_lower}
use wow_dashboard_api.Store.Schema.{Role}
use wow_dashboard_api.Store.Effect.{World, ok, err, email_already_exists}
use wow_dashboard_api.Auth.Service.{Session, public_user_from_domain}
use wow_dashboard_api.Auth.Sessions.{session_of}
use wow_dashboard_api.Auth.SignUp.{SignUpInput, sign_up}
use wow_dashboard_api.Auth.SignUp.Atomic.{IsUnregistered, sign_up-err}
use wow_dashboard_api.Tests.{service, env, ada, world as auth_world}

abbrev user_role : Role
user_role = record {
  id = 20;
  name = "user";
  description = "";
  is_system = true;
  created_at = 1;
  updated_at = 1;
}

abbrev world : World
world = record auth_world { db = record auth_world.db { roles = user_role ∷ [] } }

abbrev input : SignUpInput
input = record {
  email = "Bob@example.com ";
  password = "a long password";
  first_name = "Bob";
  last_name = "B";
}

session : Session
unfolding sign_up
session = elim (sign_up service input env world).0 [
  | ok s ↦ s
  | err e ↦ session_of (public_user_from_domain env ada) "" ""
]

abbrev taken : SignUpInput
taken = record input { email = "ada@example.com" }

sign_up-taken : (sign_up service taken env world).0 ≡ err email_already_exists
unfolding sign_up to_lower wow_dashboard_api.Prelude.Text.trim_space
sign_up-taken = refl

sign_up-err_example : IsUnregistered world (sign_up service taken env world).1
sign_up-err_example =
    sign_up-err service taken env world email_already_exists refl refl sign_up-taken
