-- ===== src/Tests/Mfa.antt =====
-- The second factor on concrete inputs.
use wow_dashboard_api.Prelude.{
  ℕ, ◌≡◌, ◌≢◌, refl, String, Bool, true, false, some, none, List, [], ◌∷◌, str_eq,
}
use wow_dashboard_api.Store.Schema.{MfaSecret, RecoveryCode}
use wow_dashboard_api.Store.Effect.{World, ok}
use wow_dashboard_api.Mfa.Service.{MfaService, verify, confirm}
use wow_dashboard_api.Mfa.Codes.{verify_recovery_once, Later}
use wow_dashboard_api.Mfa.Enrollment.{IsEnrolled}
use wow_dashboard_api.Mfa.Enrollment.Confirm.{confirm-ok, IsConfirmed}
use wow_dashboard_api.Mfa.Enrollment.Invariant.{
  HasSecrets, start, after_confirm, after_verify, Requests-HasSecrets,
}
use wow_dashboard_api.Tests.{env, ada, world}

abbrev pub mfa_service : MfaService
mfa_service = record {
  issuer = "WOW Dashboard";
  audit = true;
  alerter = true;
  generate_totp = λ issuer account n. some (record { secret = "secret"; url = "otpauth:" });
  validate_totp = λ code plain at period. some (str_eq code "123456");
  encrypt = λ plain n. some plain;
  decrypt = λ text. some text;
  random_code = λ n. some "Code";
}

abbrev secret : MfaSecret
secret = record {
  id = 5;
  user_id = 1;
  secret_encrypted = "secret";
  algorithm = "SHA1";
  digits = 6;
  period = 30;
  created_at = 11;
  updated_at = 11;
}

abbrev recovery_code : RecoveryCode
recovery_code = record { id = 6; user_id = 1; code_hash = "abcd"; used_at = none; created_at = 11 }

abbrev pub enrolled_world : World
enrolled_world = record world {
  db = record world.db { mfa_secrets = secret ∷ []; recovery_codes = recovery_code ∷ [] };
}

abbrev redeemed : World
redeemed = (verify mfa_service 1 "ABCD" env enrolled_world).1

verify_recovery_once_example : (verify mfa_service 1 " abcd" env redeemed).0 ≢ ok true
unfolding wow_dashboard_api.Prelude.Text.trim_space wow_dashboard_api.Prelude.Text.to_lower verify
verify_recovery_once_example =
    verify_recovery_once mfa_service 1 "ABCD" " abcd" env env enrolled_world redeemed redeemed
      (λ plain at period. refl) (λ plain at period. refl) refl refl (Later.same redeemed)

Requests-HasSecrets_example :
    HasSecrets
      (confirm mfa_service 1 "123456" env (verify mfa_service 1 "abcd" env enrolled_world).1).1.db
Requests-HasSecrets_example =
    Requests-HasSecrets mfa_service enrolled_world
      (confirm mfa_service 1 "123456" env (verify mfa_service 1 "abcd" env enrolled_world).1).1
      (after_confirm enrolled_world (verify mfa_service 1 "abcd" env enrolled_world).1 1 "123456"
        env (after_verify enrolled_world enrolled_world 1 "abcd" env (start enrolled_world)))
      (λ on. refl, tt)

abbrev enrolling_world : World
enrolling_world = record enrolled_world {
  db = record enrolled_world.db { users = record ada { mfa_enabled = false } ∷ [] };
}

abbrev codes : List String
codes = "code" ∷ "code" ∷ "code" ∷ "code" ∷ "code" ∷ "code" ∷ "code" ∷ "code" ∷ "code" ∷ "code" ∷ []

confirm-ok_example :
    IsConfirmed mfa_service 1 " 123456" 101 enrolling_world.db
    × IsEnrolled 1 codes env enrolling_world (confirm mfa_service 1 " 123456" env enrolling_world).1
unfolding confirm wow_dashboard_api.Prelude.Text.to_lower
confirm-ok_example =
    confirm-ok mfa_service 1 " 123456" env enrolling_world
      (confirm mfa_service 1 " 123456" env enrolling_world).1 codes refl
