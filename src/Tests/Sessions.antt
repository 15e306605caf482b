-- ===== src/Tests/Sessions.antt =====
-- Refreshing, listing and revoking sessions on concrete inputs.
use wow_dashboard_api.Prelude.{
  ℕ, ◌+◌, ◌≤◌, ◌<◌, ◌≡◌, ◌≢◌, refl, arith, String, Bool, true, false, some, none, List, [], ◌∷◌,
  map, ◌==◌, ◌&&◌, not, count_where, select_where, if◌then◌else◌,
}
use wow_dashboard_api.Store.Schema.{RefreshToken, User}
use wow_dashboard_api.Store.Effect.{World, ok, err, invalid_token}
use wow_dashboard_api.Auth.RefreshTokens.{is_live, revoke}
use wow_dashboard_api.Auth.RefreshTokens.Families.{live_in, HasOneLivePerFamily}
use wow_dashboard_api.Auth.Service.{Session, public_user_from_domain}
use wow_dashboard_api.Auth.Sessions.{
  refresh, session_of, SessionInfo, session_info, sign_out_other_sessions, revoke_session,
  list_sessions,
}
use wow_dashboard_api.Auth.Sessions.Revocation.{
  is_elsewhere, sign_out_other_sessions-ok, revoke_session_isolated,
}
use wow_dashboard_api.Auth.Sessions.Rotation.{presented, IsGranted, refresh-IsGranted}
use wow_dashboard_api.Auth.Sessions.Reuse.{refresh_twice, refresh-HasOneLivePerFamily}
use wow_dashboard_api.Tests.{service, env, ada, token, world}

abbrev granted : Session
granted = session_of (public_user_from_domain env ada) "access" "fresh"

abbrev refreshed : World
refreshed = (refresh service "old" env world).1

refresh-refreshed : refresh service "old" env world ≡ (ok granted, refreshed)
unfolding refresh wow_dashboard_api.Prelude.Text.trim_space
    wow_dashboard_api.Auth.Sessions.rotate_session
refresh-refreshed = refl

token_named : (t : RefreshToken) → presented env world "old" ≡ some t → t.family_id ≢ 0
token_named t found nil = ground arith

refresh_twice_example :
    (t : RefreshToken) × (presented env world "old" ≡ some t)
    × ((refresh service "old" env refreshed).0 ≡ err invalid_token)
    × (live_in t.family_id (refresh service "old" env refreshed).1.db.refresh_tokens ≡ 0)
refresh_twice_example =
    refresh_twice service "old" env world refreshed granted token_named refresh-refreshed refl refl

refresh-IsGranted_example :
    (t : RefreshToken) × (owner : User) × IsGranted service env "old" world refreshed granted t
      owner
refresh-IsGranted_example =
    refresh-IsGranted service "old" env world refreshed granted token_named refresh-refreshed

world-HasOneLivePerFamily : HasOneLivePerFamily world.db.refresh_tokens
world-HasOneLivePerFamily family = ground arith

refresh-HasOneLivePerFamily_example :
    HasOneLivePerFamily (refresh service "old" env world).1.db.refresh_tokens
refresh-HasOneLivePerFamily_example =
    refresh-HasOneLivePerFamily service "old" env world token_named world-HasOneLivePerFamily

-- The database with a token that was revoked before.
abbrev revoked_world : World
revoked_world = record world { db = record world.db { refresh_tokens = revoke 30 token ∷ [] } }

abbrev other_token : RefreshToken
other_token = record token { id = 8; token_hash = "other"; family_id = 4 }

abbrev two_sessions : World
two_sessions = record world { db = record world.db { refresh_tokens = token ∷ other_token ∷ [] } }

abbrev alone : World
alone = (sign_out_other_sessions service "old" env two_sessions).1

sign_out_other_sessions-alone :
    sign_out_other_sessions service "old" env two_sessions ≡ (ok tt, alone)
unfolding sign_out_other_sessions wow_dashboard_api.Prelude.Text.trim_space
    wow_dashboard_api.Auth.Audit.record_audit
sign_out_other_sessions-alone = refl

sign_out_other_sessions-ok_example :
    (t : RefreshToken) × (presented env two_sessions "old" ≡ some t)
    × (t.revoked_at ≡ none)
    × (env.clock 1 < t.expires_at)
    × (count_where (λ x. is_elsewhere t.user_id t.family_id x && is_live x) alone.db.refresh_tokens
        ≡ 0)
    × (select_where (λ x. not (is_elsewhere t.user_id t.family_id x)) alone.db.refresh_tokens
        ≡ select_where
            (λ x. not (is_elsewhere t.user_id t.family_id x))
            two_sessions.db.refresh_tokens)
sign_out_other_sessions-ok_example =
    sign_out_other_sessions-ok service "old" env two_sessions alone sign_out_other_sessions-alone

revoke_session_isolated_example :
    select_where
      (λ t. t.user_id == 2)
      (revoke_session service 1 4 env two_sessions).1.db.refresh_tokens
    ≡ select_where (λ t. t.user_id == 2) two_sessions.db.refresh_tokens
revoke_session_isolated_example =
    revoke_session_isolated service 1 4 2 env two_sessions (λ e. omega arith)

abbrev info : ℕ → Bool → SessionInfo
info family current = record {
  id = "ada";
  user_agent = "browser";
  ip_address = "192.0.2.1";
  last_used_at = some 20;
  created_at = 20;
  current = current;
}

abbrev infos : List SessionInfo
infos = info 3 true ∷ info 4 false ∷ []

abbrev listed : World
listed = (list_sessions service 1 "old" env two_sessions).1

list_sessions-listed : list_sessions service 1 "old" env two_sessions ≡ (ok infos, listed)
unfolding list_sessions wow_dashboard_api.Prelude.Text.trim_space
    wow_dashboard_api.Auth.Sessions.current_family_id wow_dashboard_api.Prelude.Sorting.order_by
list_sessions-listed = refl
