-- ===== src/Tests/Profile.antt =====
-- Profile updates on concrete inputs.
use wow_dashboard_api.Prelude.{◌≡◌, refl, arith, none, some, [], ◌∷◌}
use wow_dashboard_api.Store.Schema.{User}
use wow_dashboard_api.Store.Effect.{World, err, invalid_input}
use wow_dashboard_api.Auth.Profile.{UpdateMyProfileInput, update_my_profile}
use wow_dashboard_api.Auth.Profile.Safety.{IsProfileEdit, update_my_profile-IsProfileEdit}
use wow_dashboard_api.Tests.{service, env, ada, world}

abbrev eve : User
eve = record ada { id = 2; email = "eve@example.com"; display_name = "Eve" }

abbrev two_accounts : World
two_accounts = record world { db = record world.db { users = ada ∷ eve ∷ [] } }

abbrev renaming : UpdateMyProfileInput
renaming = record {
  display_name = some " Ada L. ";
  avatar_url = none;
  phone = some "";
  job_title = none;
  company = none;
}

update_my_profile-IsProfileEdit_example :
    IsProfileEdit 2 two_accounts.db
      (update_my_profile service "access" renaming env two_accounts).1.db
update_my_profile-IsProfileEdit_example =
    update_my_profile-IsProfileEdit service "access" renaming 2 env two_accounts
      (λ e. absurd (ground arith))

renamed :
    (update_my_profile service "access" renaming env two_accounts).1.db.users
    ≡ record ada { display_name = "Ada L."; updated_at = 101 } ∷ eve ∷ []
unfolding update_my_profile
renamed = refl

nameless :
    (update_my_profile service "access"
      (record renaming { display_name = some " " })
      env
      two_accounts).0
    ≡ err invalid_input
unfolding update_my_profile
nameless = refl
