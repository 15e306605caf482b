-- ===== src/Http/Cursors/Roundtrip.antt =====
-- What a cursor says after its way through a client: encodeKeysetCursor and decodeKeysetCursor of
-- internal/http/handlers/system_events.go.
use Prim.Native.Char.{code}
use wow_dashboard_api.Prelude.{
  ℕ, ◌≡◌, refl, ap, ◌∙◌, arith, String, Bool, true, false, not, some, ◌==◌, ◌&&◌,
}
use wow_dashboard_api.Prelude.Text.{concat}
use wow_dashboard_api.Store.Effect.{Env}
use wow_dashboard_api.Http.Cursors.{
  Formats, encode_keyset_cursor, decode_keyset_cursor, split_at_bar, decode_parts, decode_data,
}

abbrev pub has_no_bar : String → Bool
has_no_bar String.[] = true
has_no_bar (String.◌∷◌ c s) = not (code c == 124) && has_no_bar s

split_at_bar-concat :
    (a b : String) → has_no_bar a ≡ true → split_at_bar (concat a (concat "|" b)) ≡ some (a, b)
unfolding split_at_bar
split_at_bar-concat String.[] b e = refl
split_at_bar-concat (String.◌∷◌ c a) b e =
    let rest = split_at_bar-concat a b (ground arith) in
    let other : (code c == 124) ≡ false = ground arith in rw (other, rest) refl

decode_parts_ok :
    (f : Formats) (env : Env) (a b : String) (at id : ℕ)
    → f.parse_time a ≡ some at
    → env.parse_uuid b ≡ some id
    → decode_parts f env (some (a, b)) ≡ some (at, id)
decode_parts_ok f env a b at id e e' = ground arith

-- A client that sends back the cursor of an answer asks for what follows the row it was made from,
-- where base64, the format of times and the format of identifiers read back what they write, and a
-- time is written without a bar.
pub decode_keyset_cursor-encode_keyset_cursor :
    (f : Formats) (env : Env) (at id : ℕ)
    → ((raw : String) → f.decode_base64 (f.encode_base64 raw) ≡ some raw)
    → ((t : ℕ) → f.parse_time (f.format_time t) ≡ some t)
    → ((u : ℕ) → env.parse_uuid (env.uuid_string u) ≡ some u)
    → ((t : ℕ) → has_no_bar (f.format_time t) ≡ true)
    → decode_keyset_cursor f env (encode_keyset_cursor f env (at, id)) ≡ some (at, id)
unfolding decode_keyset_cursor encode_keyset_cursor
decode_keyset_cursor-encode_keyset_cursor f env at id base64 times uuids plain =
    let raw = concat (f.format_time at) (concat "|" (env.uuid_string id)) in
    ap (decode_data f env) (base64 raw)
    ∙ ap (decode_parts f env)
        (split_at_bar-concat (f.format_time at) (env.uuid_string id) (plain at))
    ∙ decode_parts_ok f env (f.format_time at) (env.uuid_string id) at id (times at) (uuids id)
