-- ===== src/Auth/Profile/Safety.antt =====
-- Whom a profile update can reach: UpdateMyProfile of internal/auth/service/service.go.
use mathlib.Core.Path.{subst}
use wow_dashboard_api.Prelude.{
  ℕ, ◌≡◌, ◌≢◌, refl, sym, String, false, some, List, [], ◌∷◌, map, arith, find_where, update_where,
  Bool, count_where, Bool-cases, ◌≤◌, inl, inr, Option-cases, find_where-update_where_ne,
}
use wow_dashboard_api.Prelude.Text.{is_empty}
use wow_dashboard_api.Store.Schema.{User, Db}
use wow_dashboard_api.Store.Effect.{
  Action, Env, World, ok, called, checked, statement-holds, bind-holds, checked-holds, ◌>>=◌,
}
use wow_dashboard_api.Auth.Users.{has_id}
use wow_dashboard_api.Auth.Service.{Service, PublicUser, now}
use wow_dashboard_api.Auth.Impersonation.{current_user}
use wow_dashboard_api.Auth.Impersonation.Identity.{token_owner, current_user-reads}
use wow_dashboard_api.Auth.Profile.{
  UpdateMyProfileInput, UpdateProfileInput, profile_field, normalize_profile_input, with_profile,
  update_user_profile, update_my_profile,
}

-- An account less its profile.
abbrev pub without_profile : User → User
without_profile u = record u {
  display_name = "";
  avatar_url = "";
  phone = "";
  job_title = "";
  company = "";
  updated_at = 0;
}

abbrev pub is_nameless : User → Bool
is_nameless u = is_empty u.display_name

map-without_profile :
    (id : ℕ) (input : UpdateProfileInput) (at : ℕ) (us : List User)
    → map without_profile (update_where (has_id id) (with_profile input at) us)
      ≡ map without_profile us
map-without_profile id input at [] = refl
map-without_profile id input at (u ∷ us) = ground (arith, map-without_profile id input at us)

-- A display name that is accepted is not empty.
normalize_profile_input-named :
    (input : UpdateMyProfileInput) (out : UpdateProfileInput) (name : String)
    → normalize_profile_input input ≡ ok out
    → out.display_name ≡ some name
    → is_empty name ≡ false
unfolding normalize_profile_input profile_field
normalize_profile_input-named input out name e given = ground arith

-- What an update may change: nothing but profiles, and not that of the account of identifier `id`.
abbrev pub IsProfileEdit : ℕ → Db → Db → Type 0
IsProfileEdit id d₀ d =
    (map without_profile d.users ≡ map without_profile d₀.users)
    × (record d { users = [] } ≡ record d₀ { users = [] })
    × (find_where (has_id id) d.users ≡ find_where (has_id id) d₀.users)
    × (count_where is_nameless d.users ≤ count_where is_nameless d₀.users)

with_profile-is_nameless :
    (input : UpdateMyProfileInput) (out : UpdateProfileInput) (at : ℕ) (u : User)
    → normalize_profile_input input ≡ ok out
    → is_nameless u ≡ false
    → is_nameless (with_profile out at u) ≡ false
with_profile-is_nameless input out at u e h = elim (Option-cases out.display_name) [
  | inl none_given ↦ ground arith
  | inr (name, given) ↦
      let named = normalize_profile_input-named input out name e given in ground arith
]

count_where-update_where_le :
    (p q : User → Bool) (f : User → User) (us : List User)
    → ((u : User) → p u ≡ false → p (f u) ≡ false)
    → count_where p (update_where q f us) ≤ count_where p us
count_where-update_where_le p q f [] keeps = omega arith
count_where-update_where_le p q f (u ∷ us) keeps =
    let rest = count_where-update_where_le p q f us keeps in
    let kept = keeps u in
    elim (Bool-cases (q u)) [
      | inr other ↦ ground arith
      | inl chosen ↦ elim (Bool-cases (p u)) [
        | inl e ↦ elim (Bool-cases (p (f u))) [ inl e' ↦ ground arith | inr e' ↦ ground arith ]
        | inr e ↦ let e' = kept e in ground arith
      ]
    ]

-- The write of a profile that was accepted, to another account.
update_user_profile-IsProfileEdit :
    (id owner : ℕ) (input : UpdateMyProfileInput) (out : UpdateProfileInput) (at : ℕ) (env : Env)
    (w : World)
    → id ≢ owner
    → normalize_profile_input input ≡ ok out
    → IsProfileEdit id w.db (update_user_profile owner out at env w).1.db
unfolding update_user_profile
update_user_profile-IsProfileEdit id owner input out at env w ne e =
    statement-holds (IsProfileEdit id w.db)
      (λ d. (ok tt, record d { users = update_where (has_id owner) (with_profile out at) d.users }))
      env w (refl, refl, refl, omega arith)
      (
        map-without_profile owner out at w.db.users,
        refl,
        find_where-update_where_ne (has_id id) (has_id owner) (λ u mine. ground arith)
            (with_profile out at) (λ u. refl) w.db.users,
        count_where-update_where_le is_nameless (has_id owner) (with_profile out at) w.db.users
            (λ u h. with_profile-is_nameless input out at u e h),
      )

-- What follows the reading of the token's account.
write_profile : Service → String → UpdateMyProfileInput → ℕ → Action PublicUser
write_profile s raw input owner = checked (normalize_profile_input input) >>= λ out.
    now >>= λ at. update_user_profile owner out at >>= λ _. current_user s raw

write_profile-IsProfileEdit :
    (s : Service) (raw : String) (input : UpdateMyProfileInput) (id owner : ℕ) (env : Env)
    (w : World)
    → id ≢ owner
    → IsProfileEdit id w.db (write_profile s raw input owner env w).1.db
unfolding write_profile
write_profile-IsProfileEdit s raw input id owner env w ne =
    checked-holds (λ v. IsProfileEdit id w.db v.db) (normalize_profile_input input)
      (λ out. now >>= λ at. update_user_profile owner out at >>= λ _. current_user s raw) env w
      (refl, refl, refl, omega arith)
      (λ out e.
        bind-holds (λ v. IsProfileEdit id w.db v.db)
          (update_user_profile owner out (env.clock w.calls)) (λ _. current_user s raw) env
          (called w)
          (update_user_profile-IsProfileEdit id owner input out (env.clock w.calls) env (called w)
            ne e)
          (λ _ v h. subst (IsProfileEdit id w.db) (sym (current_user-reads s raw env v)) h))

-- Whatever the request, its answer and what fails on the way: a profile update changes nothing but
-- profiles with the time of their update (so no status, role, password or second factor), and of no
-- account but the token's. Accounts without a display name do not become more.
pub update_my_profile-IsProfileEdit :
    (s : Service) (raw : String) (input : UpdateMyProfileInput) (id : ℕ) (env : Env) (w : World)
    → token_owner s raw env w.calls ≢ some id
    → IsProfileEdit id w.db (update_my_profile s raw input env w).1.db
unfolding update_my_profile write_profile
update_my_profile-IsProfileEdit s raw input id env w other =
    elim (Option-cases (s.token_manager.verify_access_token raw w.calls)) [
      | inl refused ↦
          let same : (update_my_profile s raw input env w).1.db ≡ w.db = ground arith in
          subst (IsProfileEdit id w.db) (sym same) (refl, refl, refl, omega arith)
      | inr (claims, verified) ↦ elim (Option-cases (env.parse_uuid claims.subject)) [
        | inl no_owner ↦
            let same : (update_my_profile s raw input env w).1.db ≡ w.db = ground arith in
            subst (IsProfileEdit id w.db) (sym same) (refl, refl, refl, omega arith)
        | inr (owner, found) ↦
            let goes_on : update_my_profile s raw input env w
                ≡ write_profile s raw input owner env (called w) =
              ground arith in
            subst (λ r. IsProfileEdit id w.db r.1.db) (sym goes_on)
              (write_profile-IsProfileEdit s raw input id owner env (called w)
                (λ is_owner. ground arith))
      ]
    ]
