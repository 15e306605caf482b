-- ===== src/Auth/AuthTokens.antt =====
-- The store of one-time tokens: internal/store/authrepo/auth_tokens.go over the statements of
-- internal/store/sql/auth_tokens.sql.
pub mod SingleUse
use wow_dashboard_api.Prelude.{
  ℕ, String, Bool, Option, none, some, List, [], ◌∷◌, ◌++◌, ◌==◌, ◌&&◌, ◌||◌, not, str_eq, ltb,
  is_none, is_some, true, false, if◌then◌else◌, find_where, exists_where, update_where, count_where,
  delete_where,
}
use wow_dashboard_api.Store.Schema.{
  AuthToken, Purpose, password_reset, email_verification, User, Db,
}
use wow_dashboard_api.Store.Effect.{
  Action, Result, ok, err, auth_token_not_found, internal, statement, dated_statement,
}

-- domain.CreateAuthTokenInput
pub record CreateAuthTokenInput : Type 0 where
  pub id : ℕ
  pub user_id : ℕ
  pub purpose : Purpose
  pub token_hash : String
  pub expires_at : ℕ
  pub created_at : ℕ

abbrev pub auth_token_row : CreateAuthTokenInput → AuthToken
auth_token_row input = record {
  id = input.id;
  user_id = input.user_id;
  purpose = input.purpose;
  token_hash = input.token_hash;
  expires_at = input.expires_at;
  used_at = none;
  created_at = input.created_at;
}

abbrev pub same_purpose : Purpose → Purpose → Bool
same_purpose password_reset password_reset = true
same_purpose password_reset email_verification = false
same_purpose email_verification password_reset = false
same_purpose email_verification email_verification = true

-- INSERT is refused by the primary key, by UNIQUE on token_hash and by the reference to users.
abbrev pub auth_token_insertable : CreateAuthTokenInput → Db → Bool
auth_token_insertable input d =
    exists_where (λ u. u.id == input.user_id) d.users
    && not
        (exists_where (λ t. t.id == input.id || str_eq t.token_hash input.token_hash) d.auth_tokens)

unfoldable pub create_auth_token : CreateAuthTokenInput → Action (Unit {0})
create_auth_token input = statement λ d.
    if auth_token_insertable input d
    then (ok tt, record d { auth_tokens = d.auth_tokens ++ auth_token_row input ∷ [] })
    else (err internal, d)

abbrev pub found_auth_token : Option AuthToken → Result AuthToken
found_auth_token none = err auth_token_not_found
found_auth_token (some t) = ok t

abbrev pub has_token : Purpose → String → AuthToken → Bool
has_token purpose hash t = str_eq t.token_hash hash && same_purpose t.purpose purpose

unfoldable pub get_auth_token_by_hash : Purpose → String → Action AuthToken
get_auth_token_by_hash purpose hash =
    statement λ d. (found_auth_token (find_where (has_token purpose hash) d.auth_tokens), d)

abbrev pub is_consumable : Purpose → String → ℕ → AuthToken → Bool
is_consumable purpose hash now t =
    has_token purpose hash t && is_none t.used_at && ltb now t.expires_at

abbrev pub use_at : ℕ → AuthToken → AuthToken
use_at now t = record t { used_at = some now }

abbrev used_token : ℕ → Option AuthToken → Result AuthToken
used_token now none = err auth_token_not_found
used_token now (some t) = ok (use_at now t)

-- UPDATE … RETURNING: one statement finds the token and uses it.
unfoldable pub consume_auth_token : Purpose → String → ℕ → Action AuthToken
consume_auth_token purpose hash now = statement λ d. (
  used_token now (find_where (is_consumable purpose hash now) d.auth_tokens),
  record d {
    auth_tokens = update_where (is_consumable purpose hash now) (use_at now) d.auth_tokens;
  },
)

unfoldable pub mark_auth_token_used : ℕ → ℕ → Action (Unit {0})
mark_auth_token_used id now = statement λ d.
    (ok tt, record d { auth_tokens = update_where (λ t. t.id == id) (use_at now) d.auth_tokens })

unfoldable pub delete_auth_tokens_for_user : ℕ → Purpose → Action (Unit {0})
delete_auth_tokens_for_user user purpose = statement λ d. (
  ok tt,
  record d {
    auth_tokens =
        delete_where (λ t. t.user_id == user && same_purpose t.purpose purpose) d.auth_tokens;
  },
)

abbrev is_spent : ℕ → AuthToken → Bool
is_spent now t = is_some t.used_at || ltb t.expires_at now

-- The retention purge: DeleteConsumedOrExpiredAuthTokens.
unfoldable pub delete_consumed_or_expired_auth_tokens : Action ℕ
delete_consumed_or_expired_auth_tokens = dated_statement λ now d. (
  ok (count_where (is_spent now) d.auth_tokens),
  record d { auth_tokens = delete_where (is_spent now) d.auth_tokens },
)
