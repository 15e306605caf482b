-- ===== src/Auth/SignIn/Safety.antt =====
-- What a sign-in that succeeds has checked: SignIn of internal/auth/service/service.go.
use Prim.Native.String.{len}
use wow_dashboard_api.Prelude.{
  ℕ, ◌+◌, ◌≤◌, ◌≡◌, ◌≢◌, String, Bool, ap, true, false, some, ◌∙◌, not, ◌&&◌, arith, ltb,
  Bool-cases, Option-cases, inl, inr, sym, is_none,
}
use mathlib.Core.Path.{subst}
use wow_dashboard_api.Store.Schema.{User}
use wow_dashboard_api.Store.Effect.{Error, Env, World, ok, invalid_credentials, internal}
use wow_dashboard_api.Auth.Users.{is_after}
use wow_dashboard_api.Auth.Service.{Service, Session, max_password_length, is_disabled}
use wow_dashboard_api.Auth.SignIn.Steps.{account, refuse-eq, sign_in-settles, sign_in-too_long}
use wow_dashboard_api.Auth.SignIn.{
  SignInInput, sign_in, sign_in_found, sign_in_verified, issue_mfa_ticket, normalize_email, refuse,
  mfa_pending_token_ttl,
}

pub refuse-ne-ok :
    (s : Service) (email user_id reason : String) (e : Error) (env : Env) (w w' : World)
    (session : Session)
    → refuse s email user_id reason e env w ≢ (ok session, w')
refuse-ne-ok s email user_id reason e env w w' session h =
    let same = refuse-eq s email user_id reason e env w in grind arith

-- Whether a second factor is asked of an account.
abbrev pub is_gated : Service → User → Bool
is_gated s u = not (is_none s.mfa_verifier) && u.mfa_enabled

issue_mfa_ticket-ok :
    (s : Service) (email : String) (u : User) (env : Env) (w w' : World) (session : Session)
    → issue_mfa_ticket s email u env w ≡ (ok session, w')
    → (session.mfa_required ≡ true)
      × (session.access_token ≡ "")
      × (session.refresh_token ≡ "")
      × (w'.db ≡ w.db)
unfolding issue_mfa_ticket
issue_mfa_ticket-ok s email u env w w' session e =
    let refused = refuse-ne-ok s email (env.uuid_string u.id) "internal_error" in
    grind (arith, refused)

-- What is known of the account and the session.
abbrev pub IsChecked : Service → User → World → World → Session → Type 0
IsChecked s u w w' session =
    (is_disabled u ≡ false)
    × (is_gated s u ≡ true
        → (session.mfa_required ≡ true)
          × (session.access_token ≡ "")
          × (session.refresh_token ≡ "")
          × (w'.db ≡ w.db))

sign_in_verified-ok :
    (s : Service) (email : String) (u : User) (at : ℕ) (env : Env) (w w' : World)
    (session : Session)
    → sign_in_verified s email u at env w ≡ (ok session, w')
    → IsChecked s u w w' session
unfolding sign_in_verified
sign_in_verified-ok s email u at env w w' session e =
    let refused =
      refuse-ne-ok s email (env.uuid_string u.id) "user_disabled" invalid_credentials env w w'
        session in
    let gated = issue_mfa_ticket-ok s email u env w w' session in
    elim (Bool-cases (is_disabled u)) [
      | inl disabled ↦ absurd (refused (grind arith))
      | inr enabled ↦ (enabled, λ g. gated (grind arith))
    ]

sign_in_found-ok :
    (s : Service) (email password : String) (u : User) (at : ℕ) (env : Env) (w w' : World)
    (session : Session)
    → sign_in_found s email password u at env w ≡ (ok session, w')
    → (is_after u.locked_until at ≡ false)
      × (s.password.verify password u.password_hash ≡ some true)
      × (sign_in_verified s email u at env w ≡ (ok session, w'))
unfolding sign_in_found
sign_in_found-ok s email password u at env w w' session e =
    let refused = refuse-ne-ok s email (env.uuid_string u.id) in
    (grind (arith, refused), grind (arith, refused), grind (arith, refused))

-- A sign-in that succeeds has passed every check before the second factor, and ends as the step
-- after them does.
pub sign_in-verifies :
    (s : Service) (input : SignInInput) (env : Env) (w w' : World) (session : Session)
    → sign_in s input env w ≡ (ok session, w')
    → (u : User) × (account w input ≡ some u)
      × (len input.password ≤ max_password_length)
      × (is_after u.locked_until (env.clock w.calls) ≡ false)
      × (s.password.verify input.password u.password_hash ≡ some true)
      × (sign_in_verified s
            (normalize_email input.email)
            u
            (env.clock w.calls)
            env
            (record w { calls = w.calls + 2 })
          ≡ (ok session, w'))
unfolding sign_in
sign_in-verifies s input env w w' session e =
    elim (Bool-cases (ltb max_password_length (len input.password))) [
      | inl long ↦ absurd (
          refuse-ne-ok s _ _ _ _ env _ w' session
            (sym (sign_in-too_long s input env w (ground arith)) ∙ e))
      | inr short ↦ elim (Bool-cases (env.fails (w.calls + 1))) [
        | inl lost ↦ absurd (
            refuse-ne-ok s (normalize_email input.email) "" "internal_error" internal env
              (record w { calls = w.calls + 2 }) w' session (grind arith))
        | inr answered ↦ elim (Option-cases (account w input)) [
          | inl missing ↦ absurd (
              refuse-ne-ok s (normalize_email input.email) "" "invalid_credentials"
                invalid_credentials env (record w { calls = w.calls + 2 }) w' session (grind arith))
          | inr (u, found) ↦
              let (free, right, verified) =
                sign_in_found-ok s _ _ u _ env _ w' session
                  (sym (sign_in-settles s input env w u found answered (ground arith)) ∙ e) in
              (u, found, ground arith, free, right, verified)
        ]
      ]
    ]

-- A sign-in succeeds only for a stored account that is neither locked nor disabled, whose password
-- is the given one and of a bounded length. If the account has a second factor and the service asks
-- for it, the answer holds no token and the database is as before: no session is opened.
pub sign_in-ok :
    (s : Service) (input : SignInInput) (env : Env) (w w' : World) (session : Session)
    → sign_in s input env w ≡ (ok session, w')
    → (u : User) × (account w input ≡ some u)
      × (len input.password ≤ max_password_length)
      × (is_after u.locked_until (env.clock w.calls) ≡ false)
      × (s.password.verify input.password u.password_hash ≡ some true)
      × IsChecked s u w w' session
sign_in-ok s input env w w' session e =
    let (u, found, short, free, right, verified) = sign_in-verifies s input env w w' session e in
    (u, found, short, free, right, sign_in_verified-ok s _ u _ env _ w' session verified)

-- The ticket of a session is one that the token manager has issued for the account.
abbrev pub IsTicketOf : Service → Env → User → String → Type 0
IsTicketOf s env u ticket =
    (n : ℕ) × (s.token_manager.issue_mfa_pending_token (env.uuid_string u.id) mfa_pending_token_ttl
        n
      ≡ some ticket)

issue_mfa_ticket-IsTicketOf :
    (s : Service) (email : String) (u : User) (env : Env) (w w' : World) (session : Session)
    → issue_mfa_ticket s email u env w ≡ (ok session, w')
    → IsTicketOf s env u session.mfa_pending_token
unfolding issue_mfa_ticket
issue_mfa_ticket-IsTicketOf s email u env w w' session e =
    let refused = refuse-ne-ok s email (env.uuid_string u.id) "internal_error" in
    (w.calls, grind (arith, refused))

-- Where the account has a second factor and the service asks for it, the session of a sign-in that
-- succeeds has the ticket.
pub sign_in-IsTicketOf :
    (s : Service) (input : SignInInput) (env : Env) (w w' : World) (session : Session) (u : User)
    → sign_in s input env w ≡ (ok session, w')
    → account w input ≡ some u
    → is_gated s u ≡ true
    → IsTicketOf s env u session.mfa_pending_token
unfolding sign_in_verified
sign_in-IsTicketOf s input env w w' session u e found gated =
    let (u', found', short, free, right, verified) = sign_in-verifies s input env w w' session e in
    let same : u' ≡ u = ground arith in
    let refused =
      refuse-ne-ok s (normalize_email input.email) (env.uuid_string u'.id) "user_disabled"
        invalid_credentials env (record w { calls = w.calls + 2 }) w' session in
    let asked : is_gated s u' ≡ true = ap (is_gated s) same ∙ gated in
    subst (λ x. IsTicketOf s env x session.mfa_pending_token) same
      (elim (Bool-cases (is_disabled u')) [
        | inl disabled ↦ absurd (refused (grind arith))
        | inr enabled ↦
            issue_mfa_ticket-IsTicketOf s (normalize_email input.email) u' env
              (record w { calls = w.calls + 2 }) w' session (grind arith)
      ])
