-- ===== src/Tests/SystemEvents.antt =====
-- Lists of audit events on concrete inputs.
use wow_dashboard_api.Prelude.{ℕ, ◌≡◌, refl, String, true, none, some, [], ◌∷◌, All}
use wow_dashboard_api.Store.Schema.{SystemEvent, text}
use wow_dashboard_api.Store.Effect.{World}
use wow_dashboard_api.Lists.Pagination.{pos}
use wow_dashboard_api.SystemEvents.{ListUserActivityInput, ListEventsResult, list_user_activity}
use wow_dashboard_api.SystemEvents.Activity.{IsOwn, list_user_activity-IsOwn}
use wow_dashboard_api.Tests.{env, world}

abbrev event : ℕ → String → String → ℕ → SystemEvent
event id event_type user at = record {
  id = id;
  event_type = event_type;
  message = "";
  metadata = ("user_id", text user) ∷ [];
  created_at = at;
}

abbrev audited_world : World
audited_world = record world {
  db = record world.db {
    system_events =
        event 71 "auth.sign_in.succeeded" "ada" 40
        ∷ event 72 "auth.sign_in.succeeded" "bob" 41
        ∷ event 73 "projects.project.created" "ada" 42
        ∷ event 74 "auth.sign_out.succeeded" "ada" 43
        ∷ [];
  };
}

abbrev activity_input : ListUserActivityInput
activity_input = record { user_id = 1; limit = some (pos 1); cursor = none }

abbrev activity : ListEventsResult
activity = record {
  events = event 74 "auth.sign_out.succeeded" "ada" 43 ∷ [];
  limit = 1;
  has_more = true;
}

list_user_activity-IsOwn_example :
    All
      (IsOwn "ada" audited_world.db.system_events)
      (event 74 "auth.sign_out.succeeded" "ada" 43 ∷ [])
    × ((list_user_activity activity_input env audited_world).1.db ≡ audited_world.db)
unfolding list_user_activity
list_user_activity-IsOwn_example =
    list_user_activity-IsOwn activity_input env audited_world activity refl
