-- ===== src/Http/Cursors.antt =====
-- The cursors of lists in answers: encodeKeysetCursor and decodeKeysetCursor of
-- internal/http/handlers/system_events.go.
pub mod Roundtrip
use Prim.Native.Char.{code}
use wow_dashboard_api.Prelude.{ℕ, String, Option, none, some, ◌==◌, if◌then◌else◌}
use wow_dashboard_api.Prelude.Text.{concat}
use wow_dashboard_api.Store.Effect.{Env}
use wow_dashboard_api.Notifications.{Cursor}

-- base64.RawURLEncoding, and time.Time.Format and time.Parse with time.RFC3339Nano in UTC.
pub record Formats : Type 0 where
  pub encode_base64 : String → String
  pub decode_base64 : String → Option String
  pub format_time : ℕ → String
  pub parse_time : String → Option ℕ

unfoldable pub encode_keyset_cursor : Formats → Env → Cursor → String
encode_keyset_cursor f env (at, id) =
    f.encode_base64 (concat (f.format_time at) (concat "|" (env.uuid_string id)))

-- strings.SplitN(_, "|", 2), where it has two parts.
unfoldable pub split_at_bar : String → Option (String × String)
split_at_bar String.[] = none
split_at_bar (String.◌∷◌ c s) =
    let rest = split_at_bar s in
    if code c == 124
    then some (String.[], s)
    else elim rest [ none ↦ none | some (a, b) ↦ some (String.◌∷◌ c a, b) ]

abbrev pub decode_parts : Formats → Env → Option (String × String) → Option Cursor
decode_parts f env none = none
decode_parts f env (some (at, id)) = elim (f.parse_time at) [
  | none ↦ none
  | some t ↦ elim (env.parse_uuid id) [ none ↦ none | some u ↦ some (t, u) ]
]

abbrev pub decode_data : Formats → Env → Option String → Option Cursor
unfolding split_at_bar
decode_data f env none = none
decode_data f env (some raw) = decode_parts f env (split_at_bar raw)

unfoldable pub decode_keyset_cursor : Formats → Env → String → Option Cursor
unfolding split_at_bar
decode_keyset_cursor f env cursor = decode_data f env (f.decode_base64 cursor)
