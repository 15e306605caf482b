-- ===== src/Mfa/Store.antt =====
-- The store of TOTP secrets and recovery codes: internal/store/authrepo/mfa.go over the statements
-- of internal/store/sql/mfa.sql. The lock on the user's row orders concurrent transactions; in a
-- run of one request it only reads.
use wow_dashboard_api.Prelude.{
  ℕ, String, Bool, true, false, not, Option, none, some, List, [], ◌∷◌, ◌++◌, ◌==◌, ◌&&◌, str_eq,
  is_none, find_where, exists_where, update_where, delete_where, if◌then◌else◌,
}
use wow_dashboard_api.Store.Schema.{MfaSecret, RecoveryCode, User}
use wow_dashboard_api.Store.Effect.{
  Action, Result, ok, err, user_not_found, mfa_secret_not_found, mfa_already_enabled, internal,
  statement, transaction, reading, raise_if, pure, ◌>>=◌, ◌>>◌,
}
use wow_dashboard_api.Auth.Users.{has_id, set_user}

-- domain.UpsertMfaSecretInput
pub record UpsertMfaSecretInput : Type 0 where
  pub id : ℕ
  pub user_id : ℕ
  pub secret_encrypted : String
  pub algorithm : String
  pub digits : ℕ
  pub period : ℕ
  pub created_at : ℕ
  pub updated_at : ℕ

abbrev pub secret_row : UpsertMfaSecretInput → MfaSecret
secret_row input = record {
  id = input.id;
  user_id = input.user_id;
  secret_encrypted = input.secret_encrypted;
  algorithm = input.algorithm;
  digits = input.digits;
  period = input.period;
  created_at = input.created_at;
  updated_at = input.updated_at;
}

abbrev pub owns_secret : ℕ → MfaSecret → Bool
owns_secret user m = m.user_id == user

abbrev pub owns_code : ℕ → RecoveryCode → Bool
owns_code user c = c.user_id == user

abbrev found_secret : Option MfaSecret → Result MfaSecret
found_secret none = err mfa_secret_not_found
found_secret (some m) = ok m

unfoldable pub get_mfa_secret : ℕ → Action MfaSecret
get_mfa_secret user = statement λ d. (found_secret (find_where (owns_secret user) d.mfa_secrets), d)

abbrev pub is_unused_code : ℕ → String → RecoveryCode → Bool
is_unused_code user hash c = c.user_id == user && str_eq c.code_hash hash && is_none c.used_at

abbrev pub use_code : ℕ → RecoveryCode → RecoveryCode
use_code now c = record c { used_at = some now }

-- UPDATE … WHERE used_at IS NULL RETURNING id: one statement finds the code and uses it.
unfoldable pub consume_recovery_code : ℕ → String → ℕ → Action Bool
consume_recovery_code user hash now = statement λ d. (
  ok (exists_where (is_unused_code user hash) d.recovery_codes),
  record d {
    recovery_codes = update_where (is_unused_code user hash) (use_code now) d.recovery_codes;
  },
)

abbrev locked_flag : Option User → Result Bool
locked_flag none = err user_not_found
locked_flag (some u) = ok u.mfa_enabled

-- lockUser: SELECT mfa_enabled … FOR UPDATE
unfoldable pub lock_user : ℕ → Action Bool
lock_user user = statement λ d. (locked_flag (find_where (has_id user) d.users), d)

abbrev pub with_mfa : Bool → Option ℕ → ℕ → User → User
with_mfa enabled confirmed_at now u = record u {
  mfa_enabled = enabled;
  mfa_confirmed_at = confirmed_at;
  updated_at = now;
}

unfoldable pub set_user_mfa_enabled : ℕ → Bool → Option ℕ → ℕ → Action (Unit {0})
set_user_mfa_enabled user enabled confirmed_at now =
    set_user user (with_mfa enabled confirmed_at now)

unfoldable pub delete_user_mfa_secret : ℕ → Action (Unit {0})
delete_user_mfa_secret user =
    statement λ d. (ok tt, record d { mfa_secrets = delete_where (owns_secret user) d.mfa_secrets })

unfoldable pub delete_recovery_codes : ℕ → Action (Unit {0})
delete_recovery_codes user =
    statement
      λ d. (ok tt, record d { recovery_codes = delete_where (owns_code user) d.recovery_codes })

abbrev pub code_row : ℕ → ℕ → String → ℕ → RecoveryCode
code_row id user hash now = record {
  id = id;
  user_id = user;
  code_hash = hash;
  used_at = none;
  created_at = now;
}

-- INSERT is refused by the primary key and by the reference to users.
unfoldable pub create_recovery_code : ℕ → ℕ → String → ℕ → Action (Unit {0})
create_recovery_code id user hash now = statement λ d.
    if exists_where (has_id user) d.users && not (exists_where (λ c. c.id == id) d.recovery_codes)
    then (ok tt, record d { recovery_codes = d.recovery_codes ++ code_row id user hash now ∷ [] })
    else (err internal, d)

-- The loop of CompleteEnrollment.
unfoldable pub create_recovery_codes : ℕ → List String → ℕ → Action (Unit {0})
unfolding create_recovery_code
create_recovery_codes user [] now = pure tt
create_recovery_codes user (hash ∷ hashes) now = do
  id ← reading (λ env n. env.new_uuid n)
  create_recovery_code id user hash now
  create_recovery_codes user hashes now

-- The columns that ON CONFLICT (user_id) sets; the id and the time of creation stay.
abbrev pub replace_secret : UpsertMfaSecretInput → MfaSecret → MfaSecret
replace_secret input m = record m {
  secret_encrypted = input.secret_encrypted;
  algorithm = input.algorithm;
  digits = input.digits;
  period = input.period;
  updated_at = input.updated_at;
}

unfoldable pub upsert_user_mfa_secret : UpsertMfaSecretInput → Action (Unit {0})
upsert_user_mfa_secret input = statement λ d.
    if exists_where (owns_secret input.user_id) d.mfa_secrets
    then (
      ok tt,
      record d {
        mfa_secrets = update_where (owns_secret input.user_id) (replace_secret input) d.mfa_secrets;
      },
    )
    else (if exists_where (has_id input.user_id) d.users
          && not (exists_where (λ m. m.id == input.id) d.mfa_secrets)
        then (ok tt, record d { mfa_secrets = d.mfa_secrets ++ secret_row input ∷ [] })
        else (err internal, d))

unfoldable pub store_setup_secret : UpsertMfaSecretInput → Action (Unit {0})
unfolding lock_user upsert_user_mfa_secret
store_setup_secret input = transaction (do
  enabled ← lock_user input.user_id
  raise_if enabled mfa_already_enabled
  upsert_user_mfa_secret input)

-- What CompleteEnrollment does under the lock.
unfoldable pub write_enrollment : ℕ → List String → ℕ → ℕ → Action (Unit {0})
unfolding lock_user delete_recovery_codes create_recovery_codes set_user_mfa_enabled
write_enrollment user hashes confirmed_at now = do
  enabled ← lock_user user
  raise_if enabled mfa_already_enabled
  delete_recovery_codes user
  create_recovery_codes user hashes now
  set_user_mfa_enabled user true (some confirmed_at) now

unfoldable pub complete_enrollment : ℕ → List String → ℕ → ℕ → Action (Unit {0})
unfolding write_enrollment
complete_enrollment user hashes confirmed_at now =
    transaction (write_enrollment user hashes confirmed_at now)

-- What DisableMfa does under the lock.
unfoldable pub write_disabling : ℕ → ℕ → Action (Unit {0})
unfolding lock_user delete_user_mfa_secret delete_recovery_codes set_user_mfa_enabled
write_disabling user now = do
  lock_user user
  delete_user_mfa_secret user
  delete_recovery_codes user
  set_user_mfa_enabled user false none now

unfoldable pub disable_mfa : ℕ → ℕ → Action (Unit {0})
unfolding write_disabling
disable_mfa user now = transaction (write_disabling user now)
