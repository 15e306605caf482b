-- ===== src/Http/Guards/Personal.antt =====
-- Requests that only the user in person may make: the handlers of second factors in
-- internal/http/handlers/mfa.go and of sessions in auth.go.
use mathlib.Core.Path.{subst}
use wow_dashboard_api.Prelude.{◌≡◌, refl, sym, ◌∙◌, inl, inr, arith, String, false}
use wow_dashboard_api.Prelude.Text.{is_empty, trim_space}
use wow_dashboard_api.Store.Effect.{Env, World}
use wow_dashboard_api.Auth.Service.{Service}
use wow_dashboard_api.Mfa.Service.{MfaService}
use wow_dashboard_api.Http.Errors.{ApiError, new_error, code_forbidden, for_context}
use wow_dashboard_api.Http.Endpoint.{Endpoint, refusal, Response-cases, pure, ◌>>=◌}
use wow_dashboard_api.Http.Authorize.{
  authenticate, authenticate_in_person, authenticate_for_mfa, current_user_id,
}
use wow_dashboard_api.Http.Mfa.{mfa_setup_handler, mfa_confirm_handler, mfa_disable_handler}
use wow_dashboard_api.Http.Auth.{AuthApi}
use wow_dashboard_api.Http.Auth.Account.{sessions_handler, revoke_session_handler}
use wow_dashboard_api.Http.Guards.{header_act, IsRefused, authenticate-reads, authenticate-ok}

pub data PersonalRequest : Type 0 where
  mfa_setup mfa_confirm : String → PersonalRequest
  mfa_disable : String → String → PersonalRequest
  sessions revoke_session : String → PersonalRequest

abbrev done : {A : Type 0} → Endpoint A → Endpoint (Unit {0})
done m = m >>= λ _. pure tt

unfoldable pub handle_personal :
    AuthApi → MfaService → String → PersonalRequest → Endpoint (Unit {0})
unfolding mfa_setup_handler mfa_confirm_handler mfa_disable_handler sessions_handler
    revoke_session_handler
handle_personal api mfa header (mfa_setup password) =
    done (mfa_setup_handler api.service mfa header password)
handle_personal api mfa header (mfa_confirm code) =
    done (mfa_confirm_handler api.service mfa header code)
handle_personal api mfa header (mfa_disable password code) =
    done (mfa_disable_handler api.service mfa header password code)
handle_personal api mfa header (sessions cookie) = done (sessions_handler api header cookie)
handle_personal api mfa header (revoke_session id) = done (revoke_session_handler api header id)

-- A token with an actor stands for nobody in person.
authenticate_in_person-refuses :
    (s : Service) (header message : String) (env : Env) (w : World)
    → is_empty (trim_space (header_act s header w.calls)) ≡ false
    → (e : ApiError) × (w' : World) × (authenticate_in_person s header message env w
        ≡ (refusal e, w'))
      × (w'.db ≡ w.db)
unfolding authenticate_in_person
authenticate_in_person-refuses s header message env w acting =
    let w' : World = (authenticate s header env w).1 in
    let reads : w'.db ≡ w.db = authenticate-reads s header env w in
    elim (Response-cases (authenticate s header env w).0) [
      | inr (e, failed) ↦ (e, w', ground arith, reads)
      | inl (user, given) ↦
          let (id, u, owner, profile, impersonated) = authenticate-ok s header env w user given in
          let acted : is_empty user.impersonator_id ≡ false = impersonated ∙ acting in
          (for_context env (new_error code_forbidden message), w', ground arith, reads)
    ]

abbrev message_of : PersonalRequest → String
message_of (mfa_setup password) = "MFA cannot be managed while impersonating a user."
message_of (mfa_confirm code) = "MFA cannot be managed while impersonating a user."
message_of (mfa_disable password code) = "MFA cannot be managed while impersonating a user."
message_of (sessions cookie) = "Sessions cannot be managed while impersonating a user."
message_of (revoke_session id) = "Sessions cannot be managed while impersonating a user."

handle_personal-stops :
    (api : AuthApi) (mfa : MfaService) (header : String) (r : PersonalRequest) (env : Env)
    (w w' : World) (e : ApiError)
    → authenticate_in_person api.service header (message_of r) env w ≡ (refusal e, w')
    → handle_personal api mfa header r env w ≡ (refusal e, w')
unfolding handle_personal mfa_setup_handler mfa_confirm_handler mfa_disable_handler sessions_handler
    revoke_session_handler authenticate_for_mfa current_user_id
handle_personal-stops api mfa header (mfa_setup password) env w w' e stops = ground arith
handle_personal-stops api mfa header (mfa_confirm code) env w w' e stops = ground arith
handle_personal-stops api mfa header (mfa_disable password code) env w w' e stops = ground arith
handle_personal-stops api mfa header (sessions cookie) env w w' e stops = ground arith
handle_personal-stops api mfa header (revoke_session id) env w w' e stops = ground arith

-- With the token of an impersonation nobody sets up, confirms or removes a second factor, and nobody
-- lists or revokes sessions: the request is refused, and the database stays as it was.
pub handle_personal-IsRefused :
    (api : AuthApi) (mfa : MfaService) (header : String) (r : PersonalRequest) (env : Env)
    (w : World)
    → is_empty (trim_space (header_act api.service header w.calls)) ≡ false
    → IsRefused w (handle_personal api mfa header r env w)
handle_personal-IsRefused api mfa header r env w acting =
    let (e, w', stops, kept) =
      authenticate_in_person-refuses api.service header (message_of r) env w acting in
    subst (IsRefused w) (sym (handle_personal-stops api mfa header r env w w' e stops))
      ((e, refl), kept)
