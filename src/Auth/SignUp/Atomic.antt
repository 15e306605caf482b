-- ===== src/Auth/SignUp/Atomic.antt =====
-- Registration with a unit of work: SignUp and signUpWithUnitOfWork of
-- internal/auth/service/service.go.
use wow_dashboard_api.Prelude.{
  ℕ, ◌+◌, ◌≡◌, arith, String, true, Bool-cases, Option-cases, inl, inr, ap, ◌∙◌, sym,
}
use wow_dashboard_api.Store.Effect.{Env, World, Error, Result, Result-cases, ok, err}
use wow_dashboard_api.Auth.Users.{CreateUserInput}
use wow_dashboard_api.Auth.Audit.{record_audit-eq}
use wow_dashboard_api.Auth.Service.{Service, Session}
use wow_dashboard_api.Auth.SignIn.{normalize_email}
use wow_dashboard_api.Auth.SignUp.{
  SignUpInput, sign_up, sign_up_hashed, sign_up_with_unit_of_work, settle_sign_up, refuse_sign_up,
  complete_sign_up, is_acceptable, user_input,
}

-- What a failed registration may change: nothing but the audit events.
abbrev pub IsUnregistered : World → World → Type 0
IsUnregistered w w' =
    (w'.db.users ≡ w.db.users)
    × (w'.db.user_roles ≡ w.db.user_roles)
    × (w'.db.refresh_tokens ≡ w.db.refresh_tokens)
    × (w'.db.auth_tokens ≡ w.db.auth_tokens)

refuse_sign_up-keeps :
    (s : Service) (email user_id reason : String) (e : Error) (env : Env) (w : World)
    → ((refuse_sign_up s email user_id reason e env w).0 ≡ err e)
      × IsUnregistered w (refuse_sign_up s email user_id reason e env w).1
unfolding refuse_sign_up
refuse_sign_up-keeps s email user_id reason e env w =
    let recorded = record_audit-eq s.audit_recorder in
    (
      grind (arith, recorded),
      (
        grind (arith, recorded),
        grind (arith, recorded),
        grind (arith, recorded),
        grind (arith, recorded),
      ),
    )

sign_up_with_unit_of_work-err :
    (s : Service) (input : CreateUserInput) (env : Env) (w : World) (e : Error)
    → (sign_up_with_unit_of_work s input env w).0 ≡ err e
    → (sign_up_with_unit_of_work s input env w).1.db ≡ w.db
unfolding sign_up_with_unit_of_work
sign_up_with_unit_of_work-err s input env w e h = grind arith

-- What follows a registration never fails, and leaves the accounts.
complete_sign_up-ok :
    (s : Service) (id : ℕ) (email : String) (session : Session) (env : Env) (w : World)
    → ((complete_sign_up s id email session env w).0 ≡ ok session)
      × ((complete_sign_up s id email session env w).1.db.users ≡ w.db.users)
unfolding complete_sign_up wow_dashboard_api.Auth.Emails.send_email_verification
complete_sign_up-ok s id email session env w =
    let recorded = record_audit-eq s.audit_recorder in
    (grind (arith, recorded), grind (arith, recorded))

settle_sign_up-err :
    (s : Service) (id : ℕ) (email failed_email user_id : String) (r : Result Session) (env : Env)
    (w : World) (e : Error)
    → (settle_sign_up s id email failed_email user_id r env w).0 ≡ err e
    → ((e' : Error) × (r ≡ err e'))
      × IsUnregistered w (settle_sign_up s id email failed_email user_id r env w).1
unfolding settle_sign_up
settle_sign_up-err s id email failed_email user_id r env w e h = elim (Result-cases r) [
  | inl (session, done) ↦
      let completed = complete_sign_up-ok s id email session env w in absurd (ground arith)
  | inr (e', failed) ↦
      let refused = refuse_sign_up-keeps s in
      (
        (e', failed),
        (
          grind (arith, refused),
          grind (arith, refused),
          grind (arith, refused),
          grind (arith, refused),
        ),
      )
]

abbrev pub created_input : SignUpInput → String → Env → World → CreateUserInput
created_input input hash env w =
    user_input (env.new_uuid w.calls) (normalize_email input.email) input hash
      (env.clock (w.calls + 1))

-- The registration proper.
abbrev pub registered : Service → SignUpInput → String → Env → World → Result Session × World
registered s input hash env w =
    sign_up_with_unit_of_work s (created_input input hash env w) env
      (record w { calls = w.calls + 2 })

sign_up_hashed-settles :
    (s : Service) (input : SignUpInput) (hash : String) (env : Env) (w : World)
    → s.refresh_token_store ≡ true
    → s.unit_of_work ≡ true
    → sign_up_hashed s (normalize_email input.email) input hash env w
      ≡ settle_sign_up s
          (env.new_uuid w.calls)
          (normalize_email input.email)
          (normalize_email input.email)
          (env.uuid_string (env.new_uuid w.calls))
          (registered s input hash env w).0
          env
          (registered s input hash env w).1
unfolding sign_up_hashed
sign_up_hashed-settles s input hash env w store atomic = grind arith

sign_up_hashed-err :
    (s : Service) (input : SignUpInput) (hash : String) (env : Env) (w : World) (e : Error)
    → s.refresh_token_store ≡ true
    → s.unit_of_work ≡ true
    → (sign_up_hashed s (normalize_email input.email) input hash env w).0 ≡ err e
    → IsUnregistered w (sign_up_hashed s (normalize_email input.email) input hash env w).1
sign_up_hashed-err s input hash env w e store atomic h =
    let email = normalize_email input.email in
    let settles = sign_up_hashed-settles s input hash env w store atomic in
    let ((e', failed), (users, roles, tokens, once)) =
      settle_sign_up-err s (env.new_uuid w.calls) email email
        (env.uuid_string (env.new_uuid w.calls)) (registered s input hash env w).0 env
        (registered s input hash env w).1 e (sym (ap (λ r. r.0) settles) ∙ h) in
    let undone =
      sign_up_with_unit_of_work-err s (created_input input hash env w) env
        (record w { calls = w.calls + 2 }) e' failed in
    (
      ap (λ r. r.1.db.users) settles ∙ users ∙ ap (λ d. d.users) undone,
      ap (λ r. r.1.db.user_roles) settles ∙ roles ∙ ap (λ d. d.user_roles) undone,
      ap (λ r. r.1.db.refresh_tokens) settles ∙ tokens ∙ ap (λ d. d.refresh_tokens) undone,
      ap (λ r. r.1.db.auth_tokens) settles ∙ once ∙ ap (λ d. d.auth_tokens) undone,
    )

-- With a unit of work and a store of refresh tokens, a registration that fails, at whatever step,
-- changes no account, no role and no token.
pub sign_up-err :
    (s : Service) (input : SignUpInput) (env : Env) (w : World) (e : Error)
    → s.refresh_token_store ≡ true
    → s.unit_of_work ≡ true
    → (sign_up s input env w).0 ≡ err e
    → IsUnregistered w (sign_up s input env w).1
unfolding sign_up
sign_up-err s input env w e store atomic h =
    let refused = refuse_sign_up-keeps s (normalize_email input.email) in
    elim (Bool-cases (is_acceptable env.parse_address input)) [
      | inr bad ↦ (
        grind (arith, refused),
        grind (arith, refused),
        grind (arith, refused),
        grind (arith, refused),
      )
      | inl good ↦ elim (Option-cases (s.password.hash input.password w.calls)) [
        | inl lost ↦ (
          grind (arith, refused),
          grind (arith, refused),
          grind (arith, refused),
          grind (arith, refused),
        )
        | inr (hash, hashed) ↦
            let kept =
              sign_up_hashed-err s input hash env (record w { calls = w.calls + 1 }) e store
                atomic in
            (grind (arith, kept), grind (arith, kept), grind (arith, kept), grind (arith, kept))
      ]
    ]
