-- ===== src/Rbac.antt =====
-- The catalog of permissions: internal/auth/rbac/rbac.go. A permission is its text, and a set of
-- them is the list that NewSet reads.
pub mod Listing
use wow_dashboard_api.Prelude.{
  String, Bool, true, false, List, [], ◌∷◌, ◌++◌, ◌||◌, str_eq, select_where, exists_where,
}

abbrev pub permission_all : String
permission_all = "*"

abbrev pub catalog : List String
catalog =
    "users:read" ∷ "users:manage" ∷ "roles:read" ∷ "roles:manage" ∷ "system_events:read"
    ∷ "projects:create" ∷ []

-- Whether a set was built from a list with this text.
abbrev pub is_member : String → List String → Bool
is_member p raw = exists_where (λ r. str_eq r p) raw

unfoldable pub is_assignable : String → Bool
is_assignable p = is_member p catalog

-- Set.Has
unfoldable pub has_permission : List String → String → Bool
has_permission raw p = is_member permission_all raw || is_member p raw

-- Set.List
unfoldable pub list_permissions : List String → List String
list_permissions raw = select_where (λ c. is_member c raw) (permission_all ∷ catalog)
