-- ===== src/SystemEvents.antt =====
-- The lists of audit events: internal/systemevents/service/service.go and
-- internal/store/systemeventsrepo/events.go.
pub mod Activity
use Prim.Native.Char.{code}
use wow_dashboard_api.Prelude.{
  ℕ, ◌+◌, String, Bool, true, false, not, Option, none, some, List, [], ◌∷◌, ◌&&◌, ◌||◌, ◌==◌, ltb,
  leb, length, select_where, str_eq, if◌then◌else◌,
}
use wow_dashboard_api.Prelude.Text.{trim_space, is_empty}
use wow_dashboard_api.Prelude.Sorting.{order_by}
use wow_dashboard_api.Store.Schema.{Json, text, texts, SystemEvent}
use wow_dashboard_api.Store.Effect.{
  Action, ok, invalid_input, statement, raise_if, checked, asks, pure, ◌>>=◌, ◌>>◌,
}
use wow_dashboard_api.Lists.Pagination.{ℤ}
use wow_dashboard_api.Lists.Keyset.{take, last}
use wow_dashboard_api.Notifications.{Cursor, key_before, normalize_limit}

abbrev pub event_key : SystemEvent → Cursor
event_key e = (e.created_at, e.id)

abbrev pub newest_event_first : SystemEvent → SystemEvent → Bool
newest_event_first x y = key_before (event_key x) (event_key y)

abbrev pub is_event_past : Option Cursor → SystemEvent → Bool
is_event_past none e = true
is_event_past (some c) e = key_before c (event_key e)

abbrev is_within : Option String → Option ℕ → Option ℕ → SystemEvent → Bool
is_within event_type after before e =
    elim event_type [ none ↦ true | some t ↦ str_eq e.event_type t ]
    && elim after [ none ↦ true | some t ↦ leb t e.created_at ]
    && elim before [ none ↦ true | some t ↦ ltb e.created_at t ]

-- LIKE 'prefix%', of a prefix without wildcards.
abbrev pub starts_with : String → String → Bool
starts_with String.[] s = true
starts_with (String.◌∷◌ c prefix) String.[] = false
starts_with (String.◌∷◌ c prefix) (String.◌∷◌ d s) = code c == code d && starts_with prefix s

-- metadata ->> key = value, where the value is no JSON array.
abbrev pub metadata_has : String → String → List (String × Json) → Bool
metadata_has key value [] = false
metadata_has key value ((k, text t) ∷ rest) =
    if str_eq k key then str_eq t value else metadata_has key value rest
metadata_has key value ((k, texts ts) ∷ rest) =
    if str_eq k key then false else metadata_has key value rest

abbrev pub is_activity_of : String → SystemEvent → Bool
is_activity_of user e = starts_with "auth." e.event_type && metadata_has "user_id" user e.metadata

abbrev page_of_events : (SystemEvent → Bool) → ℕ → Action (List SystemEvent)
unfolding order_by
page_of_events p limit =
    statement
      λ d. (ok (take limit (order_by newest_event_first (select_where p d.system_events))), d)

unfoldable pub list_event_rows :
    Option String → Option ℕ → Option ℕ → Option Cursor → ℕ → Action (List SystemEvent)
unfolding page_of_events
list_event_rows event_type after before cursor =
    page_of_events (λ e. is_within event_type after before e && is_event_past cursor e)

unfoldable pub list_user_activity_rows : String → Option Cursor → ℕ → Action (List SystemEvent)
unfolding page_of_events
list_user_activity_rows user cursor =
    page_of_events (λ e. is_activity_of user e && is_event_past cursor e)

pub record ListEventsInput : Type 0 where
  pub limit : Option ℤ
  pub event_type : String
  pub created_after : Option ℕ
  pub created_before : Option ℕ
  pub cursor : Option Cursor

pub record ListUserActivityInput : Type 0 where
  pub user_id : ℕ
  pub limit : Option ℤ
  pub cursor : Option Cursor

pub record ListEventsResult : Type 0 where
  pub events : List SystemEvent
  pub limit : ℕ
  pub has_more : Bool

unfoldable pub normalize_event_type : String → Option String
unfolding trim_space
normalize_event_type value = if is_empty (trim_space value) then none else some (trim_space value)

abbrev is_empty_range : Option ℕ → Option ℕ → Bool
is_empty_range none before = false
is_empty_range (some after) none = false
is_empty_range (some after) (some before) = not (ltb after before)

abbrev page_result : ℕ → List SystemEvent → ListEventsResult
page_result limit rows = record {
  events = take limit rows;
  limit = limit;
  has_more = ltb limit (length rows);
}

unfoldable pub list_events : ListEventsInput → Action ListEventsResult
unfolding normalize_limit normalize_event_type list_event_rows
list_events input = do
  limit ← checked (normalize_limit input.limit)
  raise_if (is_empty_range input.created_after input.created_before) invalid_input
  rows ←
      list_event_rows (normalize_event_type input.event_type) input.created_after
        input.created_before input.cursor (limit + 1)
  pure (page_result limit rows)

unfoldable pub list_user_activity : ListUserActivityInput → Action ListEventsResult
unfolding normalize_limit list_user_activity_rows
list_user_activity input = do
  limit ← checked (normalize_limit input.limit)
  user ← asks (λ env. env.uuid_string input.user_id)
  rows ← list_user_activity_rows user input.cursor (limit + 1)
  pure (page_result limit rows)

abbrev event_cursor : Option SystemEvent → Option Cursor
event_cursor none = none
event_cursor (some e) = some (event_key e)

unfoldable pub next_event_cursor : ListEventsResult → Option Cursor
next_event_cursor result = if result.has_more then event_cursor (last result.events) else none
