-- ===== src/Http/Guards.antt =====
-- What the guards of the handlers have established when they let a request through.
pub mod Protected
pub mod Admins
pub mod Personal
use mathlib.Core.Path.{subst}
use wow_dashboard_api.Prelude.{
  ℕ, ◌≡◌, refl, ap, sym, ◌∙◌, inl, inr, arith, String, Bool, true, false, not, Option, none, some,
  Bool-cases, Option-cases,
}
use wow_dashboard_api.Prelude.Text.{trim_space, is_empty}
use wow_dashboard_api.Store.Schema.{User, Db}
use wow_dashboard_api.Store.Effect.{Action, Env, World, Error, Result, ok, err, Result-cases}
use wow_dashboard_api.Rbac.{has_permission}
use wow_dashboard_api.Auth.Users.{role_names, permissions_of}
use wow_dashboard_api.Auth.Service.{Service, PublicUser}
use wow_dashboard_api.Auth.Impersonation.{current_user}
use wow_dashboard_api.Auth.Impersonation.Identity.{
  token_owner, claims_of, act_of, IsProfileOf, current_user-ok, current_user-reads,
}
use wow_dashboard_api.Http.Errors.{ApiError, map_auth_error, for_context}
use wow_dashboard_api.Http.Endpoint.{
  Endpoint, Response, reply, refusal, Response-cases, call, as_impersonator, ◌>>=◌,
}
use wow_dashboard_api.Http.Tokens.{parse_bearer_token}
use wow_dashboard_api.Http.Authorize.{
  authenticate, require_permission, authorize_with_permission, authenticate_in_person,
  token_missing,
}

abbrev pub owner_of : Service → Env → ℕ → Option String → Option ℕ
owner_of s env n none = none
owner_of s env n (some raw) = token_owner s raw env n

-- The account that a request's header names.
abbrev pub header_owner : Service → String → Env → ℕ → Option ℕ
header_owner s header env n = owner_of s env n (parse_bearer_token header)

abbrev pub act_among : Service → ℕ → Option String → String
act_among s n none = ""
act_among s n (some raw) = act_of (claims_of s raw n)

-- The text of its token's claim on who acts.
abbrev pub header_act : Service → String → ℕ → String
header_act s header n = act_among s n (parse_bearer_token header)

abbrev pub IsRefused : {A : Type 0} → World → Response A × World → Type 0
IsRefused w (r, w') = ((e : ApiError) × (r ≡ refusal e)) × (w'.db ≡ w.db)

-- What holds after a sequence of handlers, by how its first part ends.
pub bind-cases {κ} :
    {A B : Type 0} (P : Response B × World → Type κ) (m : Endpoint A) (f : A → Endpoint B)
    (env : Env) (w : World)
    → ((e : ApiError) → (m env w).0 ≡ refusal e → P (refusal e, (m env w).1))
    → ((a : A) → (m env w).0 ≡ reply a → P (f a env (m env w).1))
    → P ((m >>= f) env w)
bind-cases P m f env w stop go_on = elim (Response-cases (m env w).0) [
  | inr (e, failed) ↦
      let stops : (m >>= f) env w ≡ (refusal e, (m env w).1) = ground arith in
      subst P (sym stops) (stop e failed)
  | inl (a, done) ↦
      let goes_on : (m >>= f) env w ≡ f a env (m env w).1 = ground arith in
      subst P (sym goes_on) (go_on a done)
]

-- A call of a service changes what the service changes.
pub call-world :
    {A : Type 0} (f : Error → ApiError) (m : Action A) (env : Env) (w : World)
    → (call f m env w).1 ≡ (m env w).1
call-world f m env w = elim (Result-cases (m env w).0) [
  | inr (e, failed) ↦ ground arith
  | inl (a, done) ↦ ground arith
]

-- What a service does in every context it does for an impersonator.
pub as_impersonator-holds {κ} :
    {A : Type 0} (P : Result A × World → Type κ) (id : String) (m : Action A) (env : Env)
    (w : World)
    → ((context : Env) → P (m context w))
    → P (as_impersonator id m env w)
as_impersonator-holds P id m env w h = elim (Bool-cases (is_empty (trim_space id))) [
  | inl blank ↦ rw blank (h env)
  | inr given ↦ rw given (h (record env { impersonator = id }))
]

pub authenticate-reads :
    (s : Service) (header : String) (env : Env) (w : World)
    → (authenticate s header env w).1.db ≡ w.db
unfolding authenticate
authenticate-reads s header env w = elim (Option-cases (parse_bearer_token header)) [
  | inl missing ↦ ground arith
  | inr (raw, given) ↦
      let reads = current_user-reads s raw env w in
      let called = call-world map_auth_error (current_user s raw) env w in ground arith
]

-- An authenticated user is the account that the header names, as it is stored.
pub authenticate-ok :
    (s : Service) (header : String) (env : Env) (w : World) (user : PublicUser)
    → (authenticate s header env w).0 ≡ reply user
    → (id : ℕ) × (u : User) × (header_owner s header env w.calls ≡ some id)
      × IsProfileOf env w id u user
      × (is_empty user.impersonator_id ≡ is_empty (trim_space (header_act s header w.calls)))
unfolding authenticate
authenticate-ok s header env w user e = elim (Option-cases (parse_bearer_token header)) [
  | inl missing ↦ absurd (ground arith)
  | inr (raw, given) ↦ elim (Result-cases (current_user s raw env w).0) [
    | inr (reason, failed) ↦ absurd (ground arith)
    | inl (found, done) ↦
        let same : found ≡ user = ground arith in
        let ends : current_user s raw env w ≡ (ok user, (current_user s raw env w).1) =
          ground arith in
        let (id, u, owner, is_profile, impersonated, kept) =
          current_user-ok s raw env w (current_user s raw env w).1 user ends in
        (
          id,
          u,
          ap (owner_of s env w.calls) given ∙ owner,
          is_profile,
          impersonated ∙ ap (λ o. is_empty (trim_space (act_among s w.calls o))) (sym given),
        )
  ]
]
