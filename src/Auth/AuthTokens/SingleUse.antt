-- ===== src/Auth/AuthTokens/SingleUse.antt =====
-- One-time tokens are used once: ConsumeAuthToken of internal/store/authrepo/auth_tokens.go.
use wow_dashboard_api.Prelude.{
  ℕ, ◌≤◌, ◌≡◌, refl, String, none, List, [], ◌∷◌, arith, find_where, update_where,
}
use wow_dashboard_api.Store.Schema.{AuthToken, Purpose}
use wow_dashboard_api.Auth.AuthTokens.{is_consumable, use_at}

-- A token that was consumed is found by no later consumption.
pub find-consumed :
    (purpose : Purpose) (hash : String) (at later : ℕ) (ts : List AuthToken)
    → at ≤ later
    → find_where
        (is_consumable purpose hash later)
        (update_where (is_consumable purpose hash at) (use_at at) ts)
      ≡ none
find-consumed purpose hash at later [] le = refl
find-consumed purpose hash at later (t ∷ ts) le =
    ground (arith, find-consumed purpose hash at later ts le)
