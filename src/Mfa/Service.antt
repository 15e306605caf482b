-- ===== src/Mfa/Service.antt =====
-- Enrolment, verification and disabling of the second factor: internal/mfa/service/service.go. The
-- generation and the check of TOTP codes (github.com/pquerna/otp), the cipher behind its interface
-- and the random bytes are fields.
use wow_dashboard_api.Prelude.{
  ℕ, zero, suc, String, Bool, true, false, not, Option, none, some, List, [], ◌∷◌, ◌++◌, map,
}
use wow_dashboard_api.Prelude.Text.{trim_space, to_lower, is_empty}
use wow_dashboard_api.Store.Schema.{MfaSecret}
use wow_dashboard_api.Store.Effect.{
  Action, Env, Error, Result, ok, err, mfa_secret_not_found, not_enrolling, invalid_code, internal,
  Alert, alert, mfa_enabled, mfa_disabled, asks, reading, external, statement, attempt, raise,
  raise_if, or_raise, or_else, pure, ◌>>=◌, ◌>>◌, when◌then◌else◌,
}
use wow_dashboard_api.Auth.Audit.{field}
use wow_dashboard_api.Auth.Service.{now}
use wow_dashboard_api.Mfa.Store.{
  get_mfa_secret, store_setup_secret, complete_enrollment, consume_recovery_code, disable_mfa,
}

pub record TotpKey : Type 0 where
  pub secret : String
  pub url : String

-- No value is a failure; the number is that of the call.
pub record MfaService : Type 0 where
  pub issuer : String
  pub audit : Bool
  pub alerter : Bool
  -- totp.Generate of an issuer and an account's name
  pub generate_totp : String → String → ℕ → Option TotpKey
  -- totp.ValidateCustom of a code, a secret, a time and a period
  pub validate_totp : String → String → ℕ → ℕ → Option Bool
  -- Cipher.Encrypt and Cipher.Decrypt
  pub encrypt : String → ℕ → Option String
  pub decrypt : String → Option String
  -- 8 bytes of crypto/rand in base32 without padding
  pub random_code : ℕ → Option String

abbrev pub recovery_code_count : ℕ
recovery_code_count = 10

abbrev totp_algorithm : String
totp_algorithm = "SHA1"

abbrev totp_digits : ℕ
totp_digits = 6

abbrev totp_period : ℕ
totp_period = 30

-- HashRecoveryCode
abbrev pub hash_recovery_code : Env → String → String
hash_recovery_code env code = env.sha256_hex (to_lower (trim_space code))

-- Setup after the secret is generated and encrypted.
unfoldable pub store_key : ℕ → TotpKey → String → Action TotpKey
unfolding store_setup_secret
store_key user_id key encrypted = do
  at ← now
  id ← reading (λ env n. env.new_uuid n)
  store_setup_secret record {
    id = id;
    user_id = user_id;
    secret_encrypted = encrypted;
    algorithm = totp_algorithm;
    digits = totp_digits;
    period = totp_period;
    created_at = at;
    updated_at = at;
  }
  pure key

unfoldable pub setup : MfaService → ℕ → String → Action TotpKey
unfolding store_key
setup s user_id account_name = do
  key ← external (λ env n. s.generate_totp s.issuer account_name n)
  encrypted ← external (λ env n. s.encrypt key.secret n)
  store_key user_id key encrypted

-- recordAudit of the MFA service: neither masked nor with the request's id, and best effort.
unfoldable pub record_mfa_event : String → ℕ → Action (Unit {0})
record_mfa_event event_type user_id = do
  user ← asks (λ env. env.uuid_string user_id)
  id ← reading (λ env n. env.new_uuid n)
  at ← now
  attempt (
      statement λ d. (
        ok tt,
        record d {
          system_events =
              d.system_events
              ++ record {
                id = id;
                event_type = event_type;
                message = "MFA state changed.";
                metadata = field "user_id" user;
                created_at = at;
              }
                ∷ [];
        },
      ))
  pure tt

unfoldable pub record_mfa_audit : MfaService → String → ℕ → Action (Unit {0})
unfolding record_mfa_event
record_mfa_audit s event_type user_id =
    when s.audit then record_mfa_event event_type user_id else pure tt

-- newRecoveryCode
unfoldable pub new_recovery_code : MfaService → Action String
new_recovery_code s = do raw ← external (λ env n. s.random_code n); pure (to_lower raw)

unfoldable pub new_recovery_codes : MfaService → ℕ → Action (List String)
unfolding new_recovery_code
new_recovery_codes s zero = pure []
new_recovery_codes s (suc n) = do
  raw ← new_recovery_code s
  rest ← new_recovery_codes s n
  pure (raw ∷ rest)

-- The best-effort end of Confirm and of Disable.
unfoldable pub announce : MfaService → String → Alert → ℕ → Action (Unit {0})
unfolding record_mfa_audit
announce s event_type notice user_id = do
  record_mfa_audit s event_type user_id
  when s.alerter then alert notice else pure tt

abbrev pub no_enrollment : Error → Error
no_enrollment mfa_secret_not_found = not_enrolling
no_enrollment e = e

-- A code that cannot be checked is not valid.
abbrev pub is_valid : Option Bool → Bool
is_valid none = false
is_valid (some valid) = valid

unfoldable pub report_codes : MfaService → ℕ → List String → Action (List String)
unfolding announce
report_codes s user_id raw_codes = do
  announce s "auth.mfa.enabled" (mfa_enabled user_id) user_id
  pure raw_codes

-- What follows a valid first code.
unfoldable pub enroll : MfaService → ℕ → Action (List String)
unfolding new_recovery_codes complete_enrollment report_codes
enroll s user_id = do
  raw_codes ← new_recovery_codes s recovery_code_count
  hash ← asks hash_recovery_code
  at ← now
  complete_enrollment user_id (map hash raw_codes) at at
  report_codes s user_id raw_codes

-- Confirm after the secret is read.
unfoldable pub confirm_with : MfaService → ℕ → String → MfaSecret → Action (List String)
unfolding enroll trim_space
confirm_with s user_id code secret = do
  plain ← or_raise (s.decrypt secret.secret_encrypted) internal
  at ← now
  raise_if (not (is_valid (s.validate_totp (trim_space code) plain at secret.period))) invalid_code
  enroll s user_id

unfoldable pub confirm : MfaService → ℕ → String → Action (List String)
unfolding get_mfa_secret confirm_with
confirm s user_id code = do
  secret ← or_else no_enrollment (get_mfa_secret user_id)
  confirm_with s user_id code secret

unfoldable pub redeem_code : ℕ → String → Action Bool
unfolding consume_recovery_code
redeem_code user_id code = do
  hash ← asks (λ env. hash_recovery_code env code)
  at ← now
  consume_recovery_code user_id hash at

-- After the secret is read.
unfoldable pub verify_with_secret : MfaService → ℕ → String → MfaSecret → Action Bool
unfolding redeem_code
verify_with_secret s user_id code secret = do
  plain ← or_raise (s.decrypt secret.secret_encrypted) internal
  at ← now
  when is_valid (s.validate_totp code plain at secret.period)
      then pure true
      else redeem_code user_id code

abbrev pub is_unenrolled : Error → Bool
is_unenrolled mfa_secret_not_found = true
is_unenrolled e = false

unfoldable pub settle_secret : MfaService → ℕ → String → Result MfaSecret → Action Bool
unfolding verify_with_secret
settle_secret s user_id code (ok secret) = verify_with_secret s user_id code secret
settle_secret s user_id code (err e) = when is_unenrolled e then pure false else raise e

unfoldable pub verify : MfaService → ℕ → String → Action Bool
unfolding get_mfa_secret settle_secret trim_space
verify s user_id code = when is_empty (trim_space code) then pure false else (do
  found ← attempt (get_mfa_secret user_id)
  settle_secret s user_id (trim_space code) found)

unfoldable pub disable : MfaService → ℕ → String → Action (Unit {0})
unfolding verify disable_mfa announce
disable s user_id code = do
  valid ← verify s user_id code
  raise_if (not valid) invalid_code
  at ← now
  disable_mfa user_id at
  announce s "auth.mfa.disabled" (mfa_disabled user_id) user_id
