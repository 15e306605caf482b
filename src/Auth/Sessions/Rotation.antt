-- ===== src/Auth/Sessions/Rotation.antt =====
-- Refresh and rotation: Refresh and rotateSession of internal/auth/service/service.go.
use wow_dashboard_api.Prelude.{
  ℕ, ◌+◌, ◌≤◌, ◌≡◌, ◌≢◌, refl, String, true, false, some, none, [], ◌∷◌, ◌++◌, arith, find_where,
  update_where, count_where-append, find_where-append, find_where-update_where, ◌∙◌, Option, ◌<◌,
  Option-cases, inl, inr,
}
use wow_dashboard_api.Prelude.Text.{trim_space, is_empty}
use wow_dashboard_api.Store.Schema.{RefreshToken, User, uuid_nil, active}
use wow_dashboard_api.Store.Effect.{Env, World, ok}
use wow_dashboard_api.Auth.RefreshTokens.{
  CreateRefreshTokenInput, row_of, insertable, is_live, is_rotatable, replace_by, has_hash,
}
use wow_dashboard_api.Auth.RefreshTokens.Families.{
  live_in, live_in-revoke_where-le, live_in-replace-le, live_in-replace_found, find-rotated,
}
use wow_dashboard_api.Auth.Users.{has_id}
use wow_dashboard_api.Auth.Service.{Service, Session}
use wow_dashboard_api.Auth.Sessions.{rotate_session, refresh}

rotate_session-le :
    (s : Service) (user : User) (t : RefreshToken) (at : ℕ) (h : String) (env : Env) (w : World)
    (family : ℕ)
    → find_where (has_hash h) w.db.refresh_tokens ≡ some t
    → is_live t ≡ true
    → t.family_id ≢ uuid_nil
    → live_in family (rotate_session s user t at env w).1.db.refresh_tokens
      ≤ live_in family w.db.refresh_tokens
unfolding rotate_session
rotate_session-le s user t at h env w family e l nz = grind (
  arith,
  count_where-append,
  live_in-revoke_where-le,
  live_in-replace_found h,
  live_in-replace-le,
)

-- A token that is presented, by the hash of its trimmed text.
abbrev pub presented : Env → World → String → Option RefreshToken
presented env w raw = find_where (has_hash (env.sha256_hex (trim_space raw))) w.db.refresh_tokens

pub refresh-le :
    (s : Service) (raw : String) (env : Env) (w : World) (family : ℕ)
    → ((t : RefreshToken) → presented env w raw ≡ some t → t.family_id ≢ uuid_nil)
    → live_in family (refresh s raw env w).1.db.refresh_tokens ≤ live_in family w.db.refresh_tokens
unfolding refresh
refresh-le s raw env w family nz = elim (Option-cases (presented env w raw)) [
  | inl e ↦ ground arith
  | inr (t, e) ↦
      let nzt = nz t e in
      grind (
        arith,
        live_in-revoke_where-le family,
        λ (w' : World) (user : User) (at : ℕ) (same : w'.db.refresh_tokens ≡ w.db.refresh_tokens).
            rotate_session-le s user t at (env.sha256_hex (trim_space raw)) env w' family,
      )
]

-- The token that a refresh hands out: it continues the session of `t`. The number is that of
-- the call that reads the clock; the next draws the identifier.
abbrev pub successor_at :
    Service → Env → ℕ → Session → RefreshToken → User → CreateRefreshTokenInput
successor_at s env n session t owner = record {
  id = env.new_uuid (n + 1);
  user_id = owner.id;
  token_hash = env.sha256_hex session.refresh_token;
  family_id = t.family_id;
  expires_at = env.clock n + s.refresh_token_ttl;
  user_agent = t.user_agent;
  ip_address = t.ip_address;
  last_used_at = env.clock n;
  created_at = t.created_at;
  updated_at = env.clock n;
}

abbrev pub successor :
    Service → Env → World → Session → RefreshToken → User → CreateRefreshTokenInput
successor s env w = successor_at s env (w.calls + 5)

-- What a granted refresh has found, and what it leaves: `t` is the token that was presented,
-- `owner` its account.
pub record IsGranted (s : Service) (env : Env) (raw : String) (w w' : World) (session : Session)
    (t : RefreshToken) (owner : User) : Type 0 where
  pub configured : s.refresh_token_store ≡ true
  pub given : is_empty (trim_space raw) ≡ false
  pub found : presented env w raw ≡ some t
  pub live : t.revoked_at ≡ none
  pub unexpired : env.clock (w.calls + 1) < t.expires_at
  pub owned : find_where (has_id t.user_id) w.db.users ≡ some owner
  pub enabled : owner.status ≡ active
  pub new_hash : insertable (successor s env w session t owner) w.db ≡ true
  pub left : w'.db ≡ record w.db {
    refresh_tokens =
        update_where
          (is_rotatable t.id)
          (replace_by (successor s env w session t owner).id (env.clock (w.calls + 1)))
          w.db.refresh_tokens
        ++ row_of (successor s env w session t owner) ∷ [];
  }

-- What a rotation that grants a session leaves, from the fields of the successor.
rotate_session-ok :
    (s : Service) (owner : User) (t : RefreshToken) (at : ℕ) (env : Env) (w w' : World)
    (session : Session)
    → t.family_id ≢ uuid_nil
    → rotate_session s owner t at env w ≡ (ok session, w')
    → (insertable (successor_at s env (w.calls + 2) session t owner) w.db ≡ true)
      × (w'.db ≡ record w.db {
        refresh_tokens =
            update_where
              (is_rotatable t.id)
              (replace_by (env.new_uuid (w.calls + 3)) at)
              w.db.refresh_tokens
            ++ row_of (successor_at s env (w.calls + 2) session t owner) ∷ [];
      })
unfolding rotate_session
rotate_session-ok s owner t at env w w' session nz e = (ground arith, ground arith)

refresh-rotates :
    (s : Service) (raw : String) (env : Env) (w w' : World) (session : Session) (t : RefreshToken)
    (owner : User)
    → presented env w raw ≡ some t
    → find_where (has_id t.user_id) w.db.users ≡ some owner
    → refresh s raw env w ≡ (ok session, w')
    → (s.refresh_token_store ≡ true)
      × (is_empty (trim_space raw) ≡ false)
      × (t.revoked_at ≡ none)
      × (env.clock (w.calls + 1) < t.expires_at)
      × (owner.status ≡ active)
      × (rotate_session s owner t (env.clock (w.calls + 1)) env (record w { calls = w.calls + 3 })
          ≡ (ok session, w'))
unfolding refresh
refresh-rotates s raw env w w' session t owner found owned e =
    (ground arith, ground arith, ground arith, ground arith, ground arith, ground arith)

-- Where the token that is presented has a family: a refresh grants a session only for a token that
-- is stored, live and unexpired, of an active account. The token is then replaced by one row that
-- continues its family, and nothing else is changed.
pub refresh-IsGranted :
    (s : Service) (raw : String) (env : Env) (w w' : World) (session : Session)
    → ((t : RefreshToken) → presented env w raw ≡ some t → t.family_id ≢ uuid_nil)
    → refresh s raw env w ≡ (ok session, w')
    → (t : RefreshToken) × (owner : User) × IsGranted s env raw w w' session t owner
unfolding refresh
refresh-IsGranted s raw env w w' session nz e = elim (Option-cases (presented env w raw)) [
  | inl none_found ↦ absurd (ground arith)
  | inr (t, found) ↦ elim (Option-cases (find_where (has_id t.user_id) w.db.users)) [
    | inl no_owner ↦ absurd (ground arith)
    | inr (owner, owned) ↦
        let (configured, given, live, unexpired, enabled, rotated) =
          refresh-rotates s raw env w w' session t owner found owned e in
        let (new_hash, left) =
          rotate_session-ok s owner t _ env _ w' session (nz t found) rotated in
        (
          t,
          owner,
          record {
            configured = configured;
            given = given;
            found = found;
            live = live;
            unexpired = unexpired;
            owned = owned;
            enabled = enabled;
            new_hash = ground arith;
            left = ground arith;
          },
        )
  ]
]

-- The token that was used stays revoked under its hash, and the new token is found under its own.
pub IsGranted-tokens :
    (s : Service) (env : Env) (raw : String) (w w' : World) (session : Session) (t : RefreshToken)
    (owner : User)
    → IsGranted s env raw w w' session t owner
    → (presented env w' raw
        ≡ some (replace_by (successor s env w session t owner).id (env.clock (w.calls + 1)) t))
      × (find_where (has_hash (env.sha256_hex session.refresh_token)) w'.db.refresh_tokens
          ≡ some (row_of (successor s env w session t owner)))
IsGranted-tokens s env raw w w' session t owner g = (
  rw g.left (
      find_where-append (has_hash (env.sha256_hex (trim_space raw))) _ _ _ (
        find_where-update_where (has_hash (env.sha256_hex (trim_space raw))) (is_rotatable t.id)
          (replace_by (successor s env w session t owner).id (env.clock (w.calls + 1))) (λ x. refl)
          w.db.refresh_tokens t g.found
        ∙ ground arith)),
  rw g.left (
      find-rotated t.id (env.clock (w.calls + 1)) (successor s env w session t owner)
        w.db.refresh_tokens (ground arith)),
)
