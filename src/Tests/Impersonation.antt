-- ===== src/Tests/Impersonation.antt =====
-- Impersonation and the listing of permissions on concrete inputs.
use wow_dashboard_api.Prelude.{ℕ, ◌≡◌, ◌≢◌, refl, false, some, [], find_where}
use wow_dashboard_api.Prelude.Text.{trim_space}
use wow_dashboard_api.Store.Schema.{User}
use wow_dashboard_api.Store.Effect.{World, ok}
use wow_dashboard_api.Auth.Users.{has_id, role_names, permissions_of}
use wow_dashboard_api.Auth.Service.{Service, PublicUser, Session, is_disabled}
use wow_dashboard_api.Auth.Impersonation.{impersonate, is_admin, impersonation_session, profile}
use wow_dashboard_api.Auth.Impersonation.Guards.{impersonate-ok}
use wow_dashboard_api.Tests.{service, env, ada, world}

abbrev root : PublicUser
root = record (profile env ada [] []) { id = "root" }

abbrev acting : Session
acting = impersonation_session root (profile env ada [] []) "impersonation"

abbrev impersonated : World
impersonated = (impersonate service (some root) "ada" env world).1

impersonate-impersonated :
    impersonate service (some root) "ada" env world ≡ (ok acting, impersonated)
unfolding impersonate
impersonate-impersonated = refl

impersonate-ok_example :
    (id : ℕ) × (target : User) × (env.parse_uuid (trim_space "ada") ≡ some id)
    × (find_where (has_id id) world.db.users ≡ some target)
    × (env.uuid_string id ≢ root.id)
    × (is_disabled target ≡ false)
    × (is_admin (role_names id world.db) (permissions_of id world.db) ≡ false)
    × (acting.refresh_token ≡ "")
    × (acting.user.impersonator_id ≡ root.id)
    × (acting.user.permissions ≡ permissions_of id world.db)
    × (impersonated.db.users ≡ world.db.users)
    × (impersonated.db.refresh_tokens ≡ world.db.refresh_tokens)
impersonate-ok_example =
    impersonate-ok service root "ada" env world impersonated acting impersonate-impersonated

-- A service whose access tokens name an actor.
abbrev acting_service : Service
acting_service = record service {
  token_manager = record service.token_manager {
    parse_claims_allow_expired = λ raw. some (record { subject = "ada"; act = "root" });
  };
}
