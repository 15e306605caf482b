-- ===== src/Tests/Lists.antt =====
-- The lists by pages on concrete inputs.
use wow_dashboard_api.Prelude.{◌-◌, ◌*◌, ◌≤◌, ◌<◌, ◌⊎◌, ◌≡◌, refl, false, [], ◌∷◌}
use wow_dashboard_api.Store.Effect.{ok, err, invalid_input}
use wow_dashboard_api.Lists.Search.{
  escape_like_pattern, ilike_contains, holds_text, ilike_contains-escape_like_pattern,
}
use wow_dashboard_api.Lists.Pagination.{
  pos, negsuc, to_int32, max_page_size, Params, Normalized, normalize,
}
use wow_dashboard_api.Lists.Pagination.Bounds.{max_exact_page, normalize-bounds}
use wow_dashboard_api.Lists.Queries.{list_users, list_projects}
use wow_dashboard_api.Tests.{env}
use wow_dashboard_api.Tests.Users.{bob, user_world}

ilike_contains-escape_like_pattern_example :
    ilike_contains (escape_like_pattern "50%_") "save 50%_now" ≡ holds_text "50%_" "save 50%_now"
ilike_contains-escape_like_pattern_example =
    ilike_contains-escape_like_pattern "50%_" "save 50%_now"

wildcards_quoted : ilike_contains (escape_like_pattern "5%") "5 of 7" ≡ false
unfolding ilike_contains escape_like_pattern
wildcards_quoted = refl

abbrev second_page : Params
second_page = record { page = pos 2; page_size = pos 0; search = " bo " }

abbrev second_normalized : Normalized
second_normalized = record { page = 2; page_size = 20; offset = pos 20; search = "bo" }

normalize-bounds_example :
    (1 ≤ 2)
    × (1 ≤ 20)
    × (20 ≤ max_page_size)
    × ((max_exact_page < 2)
        ⊎ ((pos 20 ≡ pos ((2 - 1) * 20)) × (to_int32 (pos 20) ≡ pos ((2 - 1) * 20))))
unfolding normalize
normalize-bounds_example = normalize-bounds second_page second_normalized refl

-- Far pages come round: page 4,294,967,297 of one row each has the offset of page 1.
far_page :
    normalize (record { page = pos 4_294_967_297; page_size = pos 1; search = "" })
    ≡ ok record { page = 4_294_967_297; page_size = 1; offset = pos 4_294_967_296; search = "" }
unfolding normalize
far_page = refl

far_page_offset : to_int32 (pos 4_294_967_296) ≡ pos 0
far_page_offset = refl

bob_listed :
    (list_users
      (record { page = pos 0; page_size = pos 1; search = "bOB" })
      ""
      "active"
      env
      user_world).0
    ≡ ok
        record { rows = record { user = bob; roles = [] } ∷ []; page = 1; page_size = 1; total = 1 }
unfolding list_users
bob_listed = refl

negative_refused :
    (list_projects "ada"
      (record { page = negsuc 0; page_size = pos 1; search = "" })
      ""
      env
      user_world).0
    ≡ err invalid_input
unfolding list_projects
negative_refused = refl
