-- ===== src/Auth/RefreshTokens.antt =====
-- The store of refresh tokens: internal/store/authrepo/refresh_tokens.go over the statements of
-- internal/store/sql/refresh_tokens.sql. Rows are updated in place and inserted at the end.
pub mod Families
use wow_dashboard_api.Prelude.{
  ℕ, String, Bool, Option, none, some, List, [], ◌∷◌, ◌++◌, ◌==◌, ◌&&◌, ◌||◌, not, str_eq, ltb,
  is_none, true, false, leb, if◌then◌else◌, find_where, select_where, exists_where, update_where,
  count_where, delete_where,
}
use wow_dashboard_api.Prelude.Sorting.{order_by}
use wow_dashboard_api.Store.Schema.{RefreshToken, User, Db}
use wow_dashboard_api.Store.Effect.{
  Action, Result, ok, err, refresh_token_not_found, internal, statement, dated_statement,
}

-- domain.CreateRefreshTokenInput
pub record CreateRefreshTokenInput : Type 0 where
  pub id : ℕ
  pub user_id : ℕ
  pub token_hash : String
  pub family_id : ℕ
  pub expires_at : ℕ
  pub user_agent : String
  pub ip_address : String
  pub last_used_at : ℕ
  pub created_at : ℕ
  pub updated_at : ℕ

abbrev pub is_user : ℕ → List User → Bool
is_user id users = exists_where (λ u. u.id == id) users

abbrev pub row_of : CreateRefreshTokenInput → RefreshToken
row_of input = record {
  id = input.id;
  user_id = input.user_id;
  token_hash = input.token_hash;
  family_id = input.family_id;
  expires_at = input.expires_at;
  revoked_at = none;
  replaced_by_token_id = none;
  user_agent = input.user_agent;
  ip_address = input.ip_address;
  last_used_at = some input.last_used_at;
  created_at = input.created_at;
  updated_at = input.updated_at;
}

-- INSERT is refused by the primary key, by UNIQUE on token_hash and by the reference to users.
abbrev pub insertable : CreateRefreshTokenInput → Db → Bool
insertable input d =
    is_user input.user_id d.users
    && not (
        exists_where (λ t. t.id == input.id || str_eq t.token_hash input.token_hash)
          d.refresh_tokens)

abbrev pub is_live : RefreshToken → Bool
is_live t = is_none t.revoked_at

abbrev pub revoke : ℕ → RefreshToken → RefreshToken
revoke now t = record t { revoked_at = some now; updated_at = now }

-- UPDATE … SET revoked_at, updated_at WHERE p AND revoked_at IS NULL
abbrev pub revoke_where : (RefreshToken → Bool) → ℕ → List RefreshToken → List RefreshToken
revoke_where p now = update_where (λ t. p t && is_live t) (revoke now)

unfoldable pub create_refresh_token : CreateRefreshTokenInput → Action RefreshToken
create_refresh_token input = statement λ d.
    if insertable input d
    then (ok (row_of input), record d { refresh_tokens = d.refresh_tokens ++ row_of input ∷ [] })
    else (err internal, d)

abbrev pub found_token : Option RefreshToken → Result RefreshToken
found_token none = err refresh_token_not_found
found_token (some t) = ok t

abbrev pub has_hash : String → RefreshToken → Bool
has_hash hash t = str_eq t.token_hash hash

unfoldable pub get_refresh_token_by_hash : String → Action RefreshToken
get_refresh_token_by_hash hash =
    statement λ d. (found_token (find_where (has_hash hash) d.refresh_tokens), d)

-- The row with this id, if it is not revoked: what the UPDATE of RotateRefreshToken matches.
abbrev pub is_rotatable : ℕ → RefreshToken → Bool
is_rotatable id t = t.id == id && is_live t

abbrev pub replace_by : ℕ → ℕ → RefreshToken → RefreshToken
replace_by new_id now t = record t {
  revoked_at = some now;
  replaced_by_token_id = some new_id;
  updated_at = now;
}

-- One statement: the old token is revoked and the new one inserted, or neither.
unfoldable pub rotate_refresh_token : ℕ → CreateRefreshTokenInput → ℕ → Action RefreshToken
rotate_refresh_token old_id input now = statement λ d.
    if exists_where (is_rotatable old_id) d.refresh_tokens
    then (if insertable input d
        then (
          ok (row_of input),
          record d {
            refresh_tokens =
                update_where (is_rotatable old_id) (replace_by input.id now) d.refresh_tokens
                ++ row_of input ∷ [];
          },
        )
        else (err internal, d))
    else (err refresh_token_not_found, d)

abbrev pub revoke_tokens : (RefreshToken → Bool) → ℕ → Action (Unit {0})
revoke_tokens p now =
    statement λ d. (ok tt, record d { refresh_tokens = revoke_where p now d.refresh_tokens })

unfoldable pub revoke_refresh_token_by_hash : String → ℕ → Action (Unit {0})
revoke_refresh_token_by_hash hash = revoke_tokens (has_hash hash)

unfoldable pub revoke_refresh_token_family : ℕ → ℕ → Action (Unit {0})
revoke_refresh_token_family family = revoke_tokens (λ t. t.family_id == family)

unfoldable pub revoke_all_for_user : ℕ → ℕ → Action (Unit {0})
revoke_all_for_user user = revoke_tokens (λ t. t.user_id == user)

unfoldable pub revoke_all_for_user_except_family : ℕ → ℕ → ℕ → Action (Unit {0})
revoke_all_for_user_except_family user family =
    revoke_tokens (λ t. t.user_id == user && not (t.family_id == family))

-- A session that the user can see: not revoked and not expired.
abbrev pub is_active_session : ℕ → ℕ → RefreshToken → Bool
is_active_session user now t = t.user_id == user && is_live t && ltb now t.expires_at

abbrev pub used_before : Option ℕ → Option ℕ → Bool → Bool
used_before (some m) (some n) tie = ltb n m || m == n && tie
used_before (some m) none tie = true
used_before none (some n) tie = false
used_before none none tie = tie

abbrev pub is_session_of : ℕ → ℕ → ℕ → RefreshToken → Bool
is_session_of user family now t = is_active_session user now t && t.family_id == family

-- ORDER BY last_used_at DESC NULLS LAST, created_at DESC: whether `a` may stand before `b`.
abbrev pub comes_first : RefreshToken → RefreshToken → Bool
comes_first a b = used_before a.last_used_at b.last_used_at (leb b.created_at a.created_at)

unfoldable pub list_active_sessions : ℕ → Action (List RefreshToken)
list_active_sessions user = dated_statement λ now d.
    (ok (order_by comes_first (select_where (is_active_session user now) d.refresh_tokens)), d)

-- The answer is the number of rows revoked.
unfoldable pub revoke_family_for_user : ℕ → ℕ → ℕ → Action ℕ
revoke_family_for_user user family revoked_at = dated_statement λ now d. (
  ok (count_where (is_session_of user family now) d.refresh_tokens),
  record d {
    refresh_tokens =
        update_where (is_session_of user family now) (revoke revoked_at) d.refresh_tokens;
  },
)

-- The retention purge: DeleteExpiredRefreshTokens.
unfoldable pub delete_expired_refresh_tokens : Action ℕ
delete_expired_refresh_tokens = dated_statement λ now d. (
  ok (count_where (λ t. ltb t.expires_at now) d.refresh_tokens),
  record d { refresh_tokens = delete_where (λ t. ltb t.expires_at now) d.refresh_tokens },
)
