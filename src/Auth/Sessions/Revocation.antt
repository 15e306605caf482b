-- ===== src/Auth/Sessions/Revocation.antt =====
-- Signing out and revoking: SignOut, SignOutOtherSessions, RevokeSession and ListSessions of
-- internal/auth/service/service.go.
use mathlib.Core.List.{Perm}
use wow_dashboard_api.Prelude.{
  ℕ, ◌+◌, ◌<◌, ◌≡◌, ◌≢◌, refl, String, Bool, true, false, not, ◌&&◌, ◌||◌, ◌==◌, some, none, List,
  map, arith, count_where, select_where, update_where, count_where-update_where_zero, if◌then◌else◌,
  select_where-update_where_ne, Option-cases, Bool-cases, is_some, inl, inr, ◌⊎◌,
}
use wow_dashboard_api.Prelude.Sorting.{order_by, order_by-perm}
use wow_dashboard_api.Prelude.Text.{trim_space, is_empty}
use wow_dashboard_api.Store.Schema.{RefreshToken, uuid_nil}
use wow_dashboard_api.Store.Effect.{Env, World, called, ok, err, session_not_found}
use wow_dashboard_api.Auth.RefreshTokens.{
  is_live, revoke, revoke_where, is_active_session, is_session_of, comes_first,
}
use wow_dashboard_api.Auth.Service.{Service}
use wow_dashboard_api.Auth.Sessions.{
  SessionInfo, session_info, list_sessions, current_family_id, sign_out_other_sessions,
  revoke_session,
}
use wow_dashboard_api.Auth.Sessions.Rotation.{presented}

abbrev pub is_elsewhere : ℕ → ℕ → RefreshToken → Bool
is_elsewhere user family t = t.user_id == user && not (t.family_id == family)

-- Signing out the other sessions succeeds only with a stored token that is live and unexpired. Then
-- its user has no live token outside its family, and the tokens of that family and of all other
-- users are as before.
pub sign_out_other_sessions-ok :
    (s : Service) (raw : String) (env : Env) (w w' : World)
    → sign_out_other_sessions s raw env w ≡ (ok tt, w')
    → (t : RefreshToken) × (presented env w raw ≡ some t)
      × (t.revoked_at ≡ none)
      × (env.clock (w.calls + 1) < t.expires_at)
      × (count_where (λ x. is_elsewhere t.user_id t.family_id x && is_live x) w'.db.refresh_tokens
          ≡ 0)
      × (select_where (λ x. not (is_elsewhere t.user_id t.family_id x)) w'.db.refresh_tokens
          ≡ select_where (λ x. not (is_elsewhere t.user_id t.family_id x)) w.db.refresh_tokens)
unfolding sign_out_other_sessions
sign_out_other_sessions-ok s raw env w w' e = elim (Option-cases (presented env w raw)) [
  | inl none_found ↦ absurd (ground arith)
  | inr (t, found) ↦
      let left : w'.db.refresh_tokens
          ≡ revoke_where (is_elsewhere t.user_id t.family_id) (env.clock (w.calls + 1))
              w.db.refresh_tokens =
        ground arith in
      (
        t,
        found,
        ground arith,
        ground arith,
        rw left (
            count_where-update_where_zero _ (λ x. is_elsewhere t.user_id t.family_id x && is_live x)
              (revoke (env.clock (w.calls + 1))) (λ x. ground arith) w.db.refresh_tokens),
        rw left (
            select_where-update_where_ne _ (λ x. is_elsewhere t.user_id t.family_id x && is_live x)
              (revoke (env.clock (w.calls + 1))) (λ x h. ground arith) (λ x. refl)
              w.db.refresh_tokens),
      )
]

-- Where the statement does not fail, revoking a session answers ErrSessionNotFound exactly when the
-- user has no active session of that family, and succeeds otherwise. Afterwards the user has none,
-- and the tokens of all other users and families are as before.
pub revoke_session_answer :
    (s : Service) (user family : ℕ) (env : Env) (w : World)
    → s.refresh_token_store ≡ true
    → env.fails (w.calls + 1) ≡ false
    → let is_target = is_session_of user family (env.clock (w.calls + 1)) in
      let (r, w') = revoke_session s user family env w in
      (r
        ≡ (if count_where is_target w.db.refresh_tokens == 0 then err session_not_found else ok tt))
      × (count_where is_target w'.db.refresh_tokens ≡ 0)
      × (select_where (λ t. not (t.user_id == user && t.family_id == family)) w'.db.refresh_tokens
          ≡ select_where
              (λ t. not (t.user_id == user && t.family_id == family))
              w.db.refresh_tokens)
unfolding revoke_session
revoke_session_answer s user family env w store f =
    let left : (revoke_session s user family env w).1.db.refresh_tokens
        ≡ update_where (is_session_of user family (env.clock (w.calls + 1)))
            (revoke (env.clock w.calls)) w.db.refresh_tokens =
      ground arith in
    (
      ground arith,
      rw left (
          count_where-update_where_zero _ (is_session_of user family (env.clock (w.calls + 1)))
            (revoke (env.clock w.calls)) (λ t. ground arith) w.db.refresh_tokens),
      rw left (
          select_where-update_where_ne _ (is_session_of user family (env.clock (w.calls + 1)))
            (revoke (env.clock w.calls)) (λ t h. ground arith) (λ t. refl) w.db.refresh_tokens),
    )

-- Whatever fails, revoking a session never touches another user's tokens.
pub revoke_session_isolated :
    (s : Service) (user family other : ℕ) (env : Env) (w : World)
    → other ≢ user
    → select_where
        (λ t. t.user_id == other)
        (revoke_session s user family env w).1.db.refresh_tokens
      ≡ select_where (λ t. t.user_id == other) w.db.refresh_tokens
unfolding revoke_session
revoke_session_isolated s user family other env w ne = ground (
  arith,
  select_where-update_where_ne (λ t. t.user_id == other)
      (is_session_of user family (env.clock (w.calls + 1))) (revoke (env.clock w.calls))
      (λ t h. ground arith) (λ t. refl) w.db.refresh_tokens,
)

-- The family of the caller's own session, or the nil identifier.
abbrev pub IsCurrentFamily : Env → World → ℕ → String → ℕ → Type 0
IsCurrentFamily env w user raw family =
    (family ≡ uuid_nil)
    ⊎ ((t : RefreshToken) × (presented env w raw ≡ some t)
        × (t.user_id ≡ user)
        × (t.revoked_at ≡ none)
        × (t.family_id ≡ family))

current_family_id-IsCurrentFamily :
    (user : ℕ) (raw : String) (env : Env) (w : World)
    → (family : ℕ) × (w' : World) × (current_family_id user raw env w ≡ (ok family, w'))
      × IsCurrentFamily env w user raw family
unfolding current_family_id
current_family_id-IsCurrentFamily user raw env w = elim (Bool-cases (is_empty (trim_space raw))) [
  | inl no_token ↦ (uuid_nil, w, ground arith, inl refl)
  | inr given ↦ elim (Bool-cases (env.fails w.calls)) [
    | inl lost ↦ (uuid_nil, called w, ground arith, inl refl)
    | inr answered ↦ elim (Option-cases (presented env w raw)) [
      | inl missing ↦ (uuid_nil, called w, ground arith, inl refl)
      | inr (t, found) ↦ elim (Bool-cases (not (t.user_id == user) || is_some t.revoked_at)) [
        | inl foreign ↦ (uuid_nil, called w, ground arith, inl refl)
        | inr own ↦
            (t.family_id, called w, ground arith, inr (t, found, ground arith, ground arith, refl))
      ]
    ]
  ]
]

-- The list holds the user's active sessions, each once, and the session that the presented token
-- belongs to is marked, if that token is the user's and not revoked.
pub list_sessions-ok :
    (s : Service) (user : ℕ) (raw : String) (env : Env) (w w' : World) (infos : List SessionInfo)
    → list_sessions s user raw env w ≡ (ok infos, w')
    → (tokens : List RefreshToken) × (family : ℕ) × (infos
        ≡ map (session_info env.uuid_string family) tokens)
      × Perm tokens (select_where (is_active_session user (env.clock w.calls)) w.db.refresh_tokens)
      × IsCurrentFamily env w user raw family
unfolding list_sessions
list_sessions-ok s user raw env w w' infos e =
    let (family, w'', answered, marked) =
      current_family_id-IsCurrentFamily user raw env (called w) in
    (
      order_by comes_first
          (select_where (is_active_session user (env.clock w.calls)) w.db.refresh_tokens),
      family,
      ground arith,
      order_by-perm comes_first _,
      marked,
    )
