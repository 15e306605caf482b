-- ===== src/Auth/Profile.antt =====
-- The profile of the account behind an access token: UpdateMyProfile of
-- internal/auth/service/service.go and UpdateUserProfile of internal/store/authrepo/users.go.
pub mod Safety
use wow_dashboard_api.Prelude.{
  ℕ, String, Bool, true, false, Option, none, some, ◌&&◌, ltb, if◌then◌else◌,
}
use wow_dashboard_api.Prelude.Text.{trim_space, is_empty, byte_length}
use wow_dashboard_api.Store.Schema.{User}
use wow_dashboard_api.Store.Effect.{
  Action, Result, ok, err, invalid_input, invalid_token, asks, external, or_raise, or_else, checked,
  ◌>>=◌, ◌>>◌,
}
use wow_dashboard_api.Auth.Users.{set_user}
use wow_dashboard_api.Auth.Service.{Service, PublicUser, now}
use wow_dashboard_api.Auth.Impersonation.{current_user}

pub record UpdateMyProfileInput : Type 0 where
  pub display_name : Option String
  pub avatar_url : Option String
  pub phone : Option String
  pub job_title : Option String
  pub company : Option String

-- domain.UpdateProfileInput
pub record UpdateProfileInput : Type 0 where
  pub display_name : Option String
  pub avatar_url : Option String
  pub phone : Option String
  pub job_title : Option String
  pub company : Option String

abbrev pub max_profile_field_len : ℕ
max_profile_field_len = 256

abbrev pub max_avatar_field_len : ℕ
max_avatar_field_len = 262_144

abbrev and_then : {A B : Type 0} → Result A → (A → Result B) → Result B
and_then (ok a) f = f a
and_then (err e) f = err e

-- One turn of the loop, where `required` says that the field may not be empty.
unfoldable pub profile_field : ℕ → Bool → Option String → Result (Option String)
unfolding trim_space byte_length
profile_field limit required none = ok none
profile_field limit required (some value) =
    if ltb limit (byte_length (trim_space value))
    then err invalid_input
    else (if required && is_empty (trim_space value)
        then err invalid_input
        else ok (some (trim_space value)))

unfoldable pub normalize_profile_input : UpdateMyProfileInput → Result UpdateProfileInput
unfolding profile_field
normalize_profile_input input =
    and_then (profile_field max_profile_field_len true input.display_name) λ display_name.
      and_then (profile_field max_avatar_field_len false input.avatar_url) λ avatar_url.
        and_then (profile_field max_profile_field_len false input.phone) λ phone.
          and_then (profile_field max_profile_field_len false input.job_title) λ job_title.
            and_then (profile_field max_profile_field_len false input.company) λ company.
              ok record {
                display_name = display_name;
                avatar_url = avatar_url;
                phone = phone;
                job_title = job_title;
                company = company;
              }

abbrev coalesce : Option String → String → String
coalesce none old = old
coalesce (some new) old = new

-- The columns of UpdateUserFields without a status.
abbrev pub with_profile : UpdateProfileInput → ℕ → User → User
with_profile input at u = record u {
  display_name = coalesce input.display_name u.display_name;
  avatar_url = coalesce input.avatar_url u.avatar_url;
  phone = coalesce input.phone u.phone;
  job_title = coalesce input.job_title u.job_title;
  company = coalesce input.company u.company;
  updated_at = at;
}

unfoldable pub update_user_profile : ℕ → UpdateProfileInput → ℕ → Action (Unit {0})
update_user_profile user input at = set_user user (with_profile input at)

unfoldable pub update_my_profile : Service → String → UpdateMyProfileInput → Action PublicUser
unfolding normalize_profile_input update_user_profile current_user
update_my_profile s raw_access_token input = do
  claims ←
      or_else (λ _. invalid_token)
        (external λ env n. s.token_manager.verify_access_token raw_access_token n)
  parse ← asks (λ env. env.parse_uuid)
  user_id ← or_raise (parse claims.subject) invalid_token
  normalized ← checked (normalize_profile_input input)
  at ← now
  update_user_profile user_id normalized at
  current_user s raw_access_token
