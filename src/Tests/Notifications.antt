-- ===== src/Tests/Notifications.antt =====
-- Notifications and their pages on concrete inputs.
use wow_dashboard_api.Prelude.{
  ℕ, zero, suc, ◌≡◌, refl, ap, arith, String, true, false, none, some, [], ◌∷◌,
}
use wow_dashboard_api.Store.Schema.{Notification}
use wow_dashboard_api.Store.Effect.{Env, World, ok}
use wow_dashboard_api.Lists.Pagination.{pos}
use wow_dashboard_api.Notifications.{mark_read, mark_all_read}
use wow_dashboard_api.Notifications.Pages.{remaining, all_listed}
use wow_dashboard_api.Notifications.Pages.Complete.{read_pages, read_pages-all}
use wow_dashboard_api.Http.Endpoint.{reply}
use wow_dashboard_api.Http.Notifications.{
  NotificationsListBody, notification_item, list_notifications_handler,
}
use wow_dashboard_api.Http.Cursors.{Formats, encode_keyset_cursor, decode_keyset_cursor}
use wow_dashboard_api.Http.Cursors.Roundtrip.{has_no_bar, decode_keyset_cursor-encode_keyset_cursor}
use wow_dashboard_api.Tests.{service, env, world}

abbrev invitation : ℕ → ℕ → ℕ → Notification
invitation id user at = record {
  id = id;
  user_id = user;
  notification_type = "projects.member.added";
  title = "You were added to a project";
  project_id = 4;
  project_name = "Atlas";
  read_at = none;
  created_at = at;
}

-- Two of Ada's notifications are as old as each other.
abbrev notified_world : World
notified_world = record world {
  db = record world.db {
    notifications =
        invitation 61 1 40 ∷ invitation 62 1 50 ∷ invitation 63 2 45 ∷ invitation 64 1 40 ∷ [];
  };
}

read_pages-all_example :
    (read_pages 4 1 2 false none env notified_world).0
    ≡ ok (invitation 62 1 50 ∷ invitation 64 1 40 ∷ invitation 61 1 40 ∷ [])
unfolding remaining all_listed
read_pages-all_example =
    read_pages-all 4 1 2 false none env notified_world (λ n. refl)
      ((refl, (refl, (refl, tt))), ((refl, (refl, tt)), ((refl, tt), (tt, tt))))
      (λ e. absurd (omega arith)) (omega arith) (omega arith) (omega arith)

one_read : (mark_read 1 62 env notified_world).0 ≡ ok 2
unfolding mark_read
one_read = refl

-- Another user's notification stays unread.
other_unread : (mark_read 1 63 env notified_world).1.db ≡ notified_world.db
unfolding mark_read
other_unread = refl

all_read : (mark_all_read 1 env notified_world).0 ≡ ok 0
unfolding mark_all_read
all_read = refl

-- Numbers as texts, a stroke for each unit.
unfoldable strokes : ℕ → String
strokes zero = ""
strokes (suc n) = String.◌∷◌ "i" (strokes n)

unfoldable count_strokes : String → ℕ
count_strokes String.[] = 0
count_strokes (String.◌∷◌ c s) = suc (count_strokes s)

count_strokes-strokes : (n : ℕ) → count_strokes (strokes n) ≡ n
unfolding count_strokes strokes
count_strokes-strokes zero = refl
count_strokes-strokes (suc n) = ap suc (count_strokes-strokes n)

has_no_bar-strokes : (n : ℕ) → has_no_bar (strokes n) ≡ true
unfolding strokes
has_no_bar-strokes zero = refl
has_no_bar-strokes (suc n) = has_no_bar-strokes n

abbrev stroke_formats : Formats
unfolding count_strokes strokes
stroke_formats = record {
  encode_base64 = λ raw. raw;
  decode_base64 = λ coded. some coded;
  format_time = strokes;
  parse_time = λ written. some (count_strokes written);
}

abbrev stroke_env : Env
unfolding count_strokes strokes
stroke_env = record env {
  uuid_string = strokes;
  parse_uuid = λ written. some (count_strokes written);
}

decode_keyset_cursor-encode_keyset_cursor_example :
    decode_keyset_cursor stroke_formats stroke_env
      (encode_keyset_cursor stroke_formats stroke_env (3, 2))
    ≡ some (3, 2)
unfolding stroke_formats stroke_env
decode_keyset_cursor-encode_keyset_cursor_example =
    decode_keyset_cursor-encode_keyset_cursor stroke_formats stroke_env 3 2 (λ raw. refl)
      (λ t. ap some (count_strokes-strokes t)) (λ u. ap some (count_strokes-strokes u))
      has_no_bar-strokes

abbrev first_page : NotificationsListBody
first_page = record {
  notifications =
      notification_item env (invitation 62 1 50) ∷ notification_item env (invitation 64 1 40) ∷ [];
  limit = 2;
  unread_count = 3;
  next_cursor = encode_keyset_cursor stroke_formats env (40, 64);
}

first_page_read :
    (list_notifications_handler service stroke_formats "Bearer access"
      (pos 2)
      false
      ""
      env
      notified_world).0
    ≡ reply first_page
unfolding list_notifications_handler encode_keyset_cursor
first_page_read = refl
