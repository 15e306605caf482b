-- ===== src/Auth/MfaSignIn/Safety.antt =====
-- What a sign-in with a second factor has checked: CompleteMfaSignIn of
-- internal/auth/service/service.go.
use wow_dashboard_api.Prelude.{
  ℕ, ◌+◌, ◌≡◌, refl, String, Bool, true, false, some, arith, find_where, find_where_sound,
  Option-cases, inl, inr,
}
use wow_dashboard_api.Store.Schema.{User}
use wow_dashboard_api.Store.Effect.{Action, Env, World, Result, ok, err, invalid_mfa_code}
use wow_dashboard_api.Auth.Users.{has_id, is_after}
use wow_dashboard_api.Auth.Service.{Service, Session, Claims, is_disabled}
use wow_dashboard_api.Auth.SignIn.Steps.{refuse-eq, with_failure, count_login_failure-eq}
use wow_dashboard_api.Auth.SignIn.Safety.{refuse-ne-ok}
use wow_dashboard_api.Auth.MfaSignIn.{complete_mfa_sign_in, check_code, settle_code}

settle_code-ok :
    (s : Service) (u : User) (at : ℕ) (verdict : Result Bool) (env : Env) (w w' : World)
    (session : Session)
    → settle_code s u at verdict env w ≡ (ok session, w')
    → verdict ≡ ok true
unfolding settle_code
settle_code-ok s u at (ok true) env w w' session e = refl
settle_code-ok s u at (ok false) env w w' session e =
    absurd (refuse-ne-ok s _ _ _ _ env _ w' session e)
settle_code-ok s u at (err reason) env w w' session e =
    absurd (refuse-ne-ok s _ _ _ _ env _ w' session e)

check_code-ok :
    (s : Service) (verify : ℕ → String → Action Bool) (u : User) (at : ℕ) (code : String)
    (env : Env) (w w' : World) (session : Session)
    → check_code s verify u at code env w ≡ (ok session, w')
    → (is_disabled u ≡ false)
      × (is_after u.locked_until at ≡ false)
      × (u.mfa_enabled ≡ true)
      × ((verify u.id code env w).0 ≡ ok true)
unfolding check_code
check_code-ok s verify u at code env w w' session e =
    let refused = refuse-ne-ok s "" (env.uuid_string u.id) in
    (
      grind (arith, refused),
      grind (arith, refused),
      grind (arith, refused),
      settle_code-ok s u at (verify u.id code env w).0 env (verify u.id code env w).1 w' session
          (grind (arith, refused)),
    )

-- A code that is wrong, for an account that may sign in with one.
check_code-wrong :
    (s : Service) (verify : ℕ → String → Action Bool) (u : User) (at : ℕ) (code : String)
    (env : Env) (w w' : World)
    → is_disabled u ≡ false
    → is_after u.locked_until at ≡ false
    → u.mfa_enabled ≡ true
    → verify u.id code env w ≡ (ok false, w')
    → env.fails w'.calls ≡ false
    → let (r, w'') = check_code s verify u at code env w in
      (r ≡ err invalid_mfa_code)
      × (w''.db.users ≡ with_failure s u.id at w'.db.users)
      × (w''.db.refresh_tokens ≡ w'.db.refresh_tokens)
unfolding check_code settle_code
check_code-wrong s verify u at code env w w' enabled free mfa wrong f =
    let counted = count_login_failure-eq s u.id at env w' f in
    let refused = refuse-eq s "" (env.uuid_string u.id) in
    (grind (arith, refused), grind (arith, refused), grind (arith, refused))

-- How a sign-in goes on that finds its ticket and its account.
complete_mfa_sign_in-checks :
    (s : Service) (raw code : String) (env : Env) (w w' : World) (session : Session)
    (verify : ℕ → String → Action Bool) (claims : Claims) (id : ℕ) (u : User)
    → s.mfa_verifier ≡ some verify
    → s.token_manager.verify_mfa_pending_token raw w.calls ≡ some claims
    → env.parse_uuid claims.subject ≡ some id
    → find_where (has_id id) w.db.users ≡ some u
    → complete_mfa_sign_in s raw code env w ≡ (ok session, w')
    → check_code s verify u (env.clock (w.calls + 1)) code env (record w { calls = w.calls + 3 })
      ≡ (ok session, w')
unfolding complete_mfa_sign_in
complete_mfa_sign_in-checks s raw code env w w' session verify claims id u configured ticket parsed
      found e =
    ground arith

-- A sign-in with a second factor succeeds only with a ticket that the token manager accepts, for the
-- account that it names, if that is neither locked nor disabled and has a second factor, and if the
-- verifier accepts the code for it.
pub complete_mfa_sign_in-ok :
    (s : Service) (raw code : String) (env : Env) (w w' : World) (session : Session)
    → complete_mfa_sign_in s raw code env w ≡ (ok session, w')
    → (verify : ℕ → String → Action Bool) × (claims : Claims) × (u : User) × (s.mfa_verifier
        ≡ some verify)
      × (s.token_manager.verify_mfa_pending_token raw w.calls ≡ some claims)
      × (env.parse_uuid claims.subject ≡ some u.id)
      × (find_where (has_id u.id) w.db.users ≡ some u)
      × (is_disabled u ≡ false)
      × (is_after u.locked_until (env.clock (w.calls + 1)) ≡ false)
      × (u.mfa_enabled ≡ true)
      × ((verify u.id code env (record w { calls = w.calls + 3 })).0 ≡ ok true)
unfolding complete_mfa_sign_in
complete_mfa_sign_in-ok s raw code env w w' session e = elim (Option-cases s.mfa_verifier) [
  | inl off ↦ absurd (ground arith)
  | inr (verify, configured) ↦
      elim (Option-cases (s.token_manager.verify_mfa_pending_token raw w.calls)) [
        | inl no_ticket ↦ absurd (ground arith)
        | inr (claims, ticket) ↦ elim (Option-cases (env.parse_uuid claims.subject)) [
          | inl no_id ↦ absurd (ground arith)
          | inr (id, parsed) ↦ elim (Option-cases (find_where (has_id id) w.db.users)) [
            | inl no_user ↦ absurd (ground arith)
            | inr (u, found) ↦
                let same : u.id ≡ id =
                  let sound = find_where_sound (has_id id) w.db.users u found in ground arith in
                let (enabled, free, mfa, verified) =
                  check_code-ok s verify u _ code env _ w' session (
                    complete_mfa_sign_in-checks s raw code env w w' session verify claims id u
                      configured ticket parsed found e) in
                (
                  verify,
                  claims,
                  u,
                  configured,
                  ticket,
                  cc,
                  ground arith,
                  enabled,
                  free,
                  mfa,
                  verified,
                )
          ]
        ]
      ]
]
