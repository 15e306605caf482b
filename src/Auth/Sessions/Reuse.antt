-- ===== src/Auth/Sessions/Reuse.antt =====
-- Reuse of a refresh token, and the invariant of the families under Refresh.
use wow_dashboard_api.Prelude.{ℕ, ◌+◌, ◌≡◌, ◌≢◌, refl, String, true, false, some, arith}
use wow_dashboard_api.Prelude.Text.{trim_space, is_empty}
use wow_dashboard_api.Store.Schema.{RefreshToken, uuid_nil}
use wow_dashboard_api.Store.Effect.{Env, World, ok, err, invalid_token}
use wow_dashboard_api.Auth.RefreshTokens.Families.{
  HasOneLivePerFamily, live_in, live_in-revoke_family,
}
use wow_dashboard_api.Auth.Service.{Service, Session}
use wow_dashboard_api.Auth.Sessions.{refresh}
use wow_dashboard_api.Auth.Sessions.Rotation.{
  presented, refresh-le, IsGranted-tokens, refresh-IsGranted,
}

-- Whatever fails on the way, a refresh keeps at most one live token in each family, if the token
-- that is presented has a family.
pub refresh-HasOneLivePerFamily :
    (s : Service) (raw : String) (env : Env) (w : World)
    → ((t : RefreshToken) → presented env w raw ≡ some t → t.family_id ≢ uuid_nil)
    → HasOneLivePerFamily w.db.refresh_tokens
    → HasOneLivePerFamily (refresh s raw env w).1.db.refresh_tokens
refresh-HasOneLivePerFamily s raw env w named valid family =
    omega (arith, valid family, refresh-le s raw env w family named)

-- A refresh with a revoked token is refused with some error, and where the two statements do not
-- fail, the error is ErrInvalidToken and no token of its family is live afterwards.
pub refresh_reused :
    (s : Service) (raw : String) (env : Env) (w : World) (t : RefreshToken) (revoked : ℕ)
    → s.refresh_token_store ≡ true
    → is_empty (trim_space raw) ≡ false
    → presented env w raw ≡ some t
    → t.revoked_at ≡ some revoked
    → env.fails w.calls ≡ false
    → env.fails (w.calls + 2) ≡ false
    → ((refresh s raw env w).0 ≡ err invalid_token)
      × (live_in t.family_id (refresh s raw env w).1.db.refresh_tokens ≡ 0)
unfolding refresh
refresh_reused s raw env w t revoked store given found e f1 f2 = (
  ground arith,
  grind (arith, live_in-revoke_family t.family_id (env.clock (w.calls + 1)) w.db.refresh_tokens),
)

-- A revoked token is never exchanged for a session, whatever fails.
refresh_reused-ne-ok :
    (s : Service) (raw : String) (env : Env) (w : World) (t : RefreshToken) (revoked : ℕ)
    (session : Session)
    → presented env w raw ≡ some t
    → t.revoked_at ≡ some revoked
    → (refresh s raw env w).0 ≢ ok session
unfolding refresh
refresh_reused-ne-ok s raw env w t revoked session found e = ground arith

-- A refresh token is exchanged for a session once: after it was, presenting it again is refused,
-- and the session that it was exchanged for ends with it, where the two statements do not fail.
pub refresh_twice :
    (s : Service) (raw : String) (env : Env) (w w' : World) (session : Session)
    → ((t : RefreshToken) → presented env w raw ≡ some t → t.family_id ≢ uuid_nil)
    → refresh s raw env w ≡ (ok session, w')
    → env.fails w'.calls ≡ false
    → env.fails (w'.calls + 2) ≡ false
    → (t : RefreshToken) × (presented env w raw ≡ some t)
      × ((refresh s raw env w').0 ≡ err invalid_token)
      × (live_in t.family_id (refresh s raw env w').1.db.refresh_tokens ≡ 0)
refresh_twice s raw env w w' session named e f1 f2 =
    let (t, owner, g) = refresh-IsGranted s raw env w w' session named e in
    let (kept, _) = IsGranted-tokens s env raw w w' session t owner g in
    let (refused, ended) =
      refresh_reused s raw env w' _ (env.clock (w.calls + 1)) g.configured g.given kept refl f1
        f2 in
    (t, g.found, refused, ended)
