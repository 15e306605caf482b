-- ===== src/SystemEvents/Activity.antt =====
-- Whose events a user sees: ListUserActivity of internal/systemevents/service/service.go.
use wow_dashboard_api.Prelude.{
  ℕ, zero, suc, ◌+◌, ◌≡◌, refl, sym, arith, inl, inr, Bool, true, ◌&&◌, List, [], ◌∷◌, Option, All,
  All-implies, str_eq, select_where, Bool-cases, String,
}
use package.text.Mathlib.TextEquality.{eq_iff, Char-path}
use Prim.Native.Char.{code}
use mathlib.Core.Path.{subst}
use mathlib.Core.List.{Memᴰ}
use wow_dashboard_api.Prelude.Text.{concat}
use wow_dashboard_api.Prelude.Sorting.{order_by, insert_by}
use wow_dashboard_api.Store.Schema.{SystemEvent, Json, text, texts}
use wow_dashboard_api.Store.Effect.{Env, World, ok, Result-cases}
use wow_dashboard_api.Lists.Keyset.{take}
use wow_dashboard_api.Notifications.{Cursor, normalize_limit}
use wow_dashboard_api.SystemEvents.{
  ListUserActivityInput, ListEventsResult, list_user_activity, list_user_activity_rows,
  is_activity_of, metadata_has, starts_with, is_event_past, newest_event_first, page_result,
  page_of_events,
}

module _ {A : Type 0} (P : A → Type 0) where
  All-take : (n : ℕ) (xs : List A) → All P xs → All P (take n xs)
  All-take zero xs h = tt
  All-take (suc n) [] h = tt
  All-take (suc n) (x ∷ xs) h = (h.0, All-take n xs h.1)

  All-insert_by :
      (first : A → A → Bool) (x : A) (xs : List A) → P x → All P xs → All P (insert_by first x xs)
  unfolding insert_by
  All-insert_by first x [] p h = (p, tt)
  All-insert_by first x (y ∷ ys) p h = elim (Bool-cases (first x y)) [
    | inl e ↦ rw e (p, h)
    | inr e ↦ rw e (h.0, All-insert_by first x ys p h.1)
  ]

  All-order_by : (first : A → A → Bool) (xs : List A) → All P xs → All P (order_by first xs)
  unfolding order_by
  All-order_by first [] h = tt
  All-order_by first (x ∷ xs) h =
      All-insert_by first x (order_by first xs) h.0 (All-order_by first xs h.1)

-- An event of authentication, by its type, that is stored, and whose metadata names the user.
abbrev pub IsOwn : String → List SystemEvent → SystemEvent → Type 0
IsOwn user stored e =
    ((kind : String) × (e.event_type ≡ concat "auth." kind))
    × Memᴰ ("user_id", text user) e.metadata
    × Memᴰ e stored

starts_with-concat :
    (prefix s : String) → starts_with prefix s ≡ true → (rest : String) × (s ≡ concat prefix rest)
starts_with-concat String.[] s e = (s, refl)
starts_with-concat (String.◌∷◌ c prefix) String.[] e = absurd (ground arith)
starts_with-concat (String.◌∷◌ c prefix) (String.◌∷◌ d s) e =
    let (rest, same) = starts_with-concat prefix s (ground arith) in
    let same_code : code c ≡ code d = ground arith in
    (rest, λ i. String.◌∷◌ (sym (Char-path c d same_code) i) (same i))

metadata_has-Mem :
    (key value : String) (metadata : List (String × Json))
    → metadata_has key value metadata ≡ true
    → Memᴰ (key, text value) metadata
metadata_has-Mem key value [] e = absurd (ground arith)
metadata_has-Mem key value ((k, text t) ∷ rest) e = elim (Bool-cases (str_eq k key)) [
  | inr other ↦ Memᴰ.tail (metadata_has-Mem key value rest (ground arith))
  | inl named ↦
      let same_key = (eq_iff k key).0 named in
      let same_value = (eq_iff t value).0 (ground arith) in
      Memᴰ.head (λ i. (sym same_key i, text (sym same_value i)))
]
metadata_has-Mem key value ((k, texts ts) ∷ rest) e = elim (Bool-cases (str_eq k key)) [
  | inr other ↦ Memᴰ.tail (metadata_has-Mem key value rest (ground arith))
  | inl named ↦ absurd (ground arith)
]

All-selected :
    (user : String) (cursor : Option Cursor) (es : List SystemEvent)
    → All (IsOwn user es) (select_where (λ e. is_activity_of user e && is_event_past cursor e) es)
All-selected user cursor [] = tt
All-selected user cursor (e ∷ es) =
    let rest =
      All-implies (IsOwn user es) (IsOwn user (e ∷ es))
        (λ x (kind, named, stored). (kind, named, Memᴰ.tail stored))
        (select_where (λ e. is_activity_of user e && is_event_past cursor e) es)
        (All-selected user cursor es) in
    elim (Bool-cases (is_activity_of user e && is_event_past cursor e)) [
      | inr other ↦ rw other rest
      | inl found ↦
          let kind = starts_with-concat "auth." e.event_type (ground arith) in
          let named = metadata_has-Mem "user_id" user e.metadata (ground arith) in
          rw found ((kind, named, Memᴰ.head refl), rest)
    ]

abbrev read_rows : String → Option Cursor → ℕ → List SystemEvent → List SystemEvent
read_rows user cursor limit es = take limit (
    order_by newest_event_first
      (select_where (λ e. is_activity_of user e && is_event_past cursor e) es))

read_rows-IsOwn :
    (user : String) (cursor : Option Cursor) (limit : ℕ) (es : List SystemEvent)
    → All (IsOwn user es) (read_rows user cursor limit es)
read_rows-IsOwn user cursor limit es =
    All-take (IsOwn user es) limit (order_by newest_event_first _)
      (All-order_by (IsOwn user es) newest_event_first _ (All-selected user cursor es))

-- The security activity of a user holds stored events only, whose type is one of authentication and
-- whose metadata names this user, and reading it changes nothing.
pub list_user_activity-IsOwn :
    (input : ListUserActivityInput) (env : Env) (w : World) (r : ListEventsResult)
    → (list_user_activity input env w).0 ≡ ok r
    → All (IsOwn (env.uuid_string input.user_id) w.db.system_events) r.events
      × ((list_user_activity input env w).1.db ≡ w.db)
unfolding list_user_activity list_user_activity_rows page_of_events
list_user_activity-IsOwn input env w r e =
    let user : String = env.uuid_string input.user_id in
    elim (Result-cases (normalize_limit input.limit)) [
      | inr (wrong, refused) ↦ absurd (ground arith)
      | inl (limit, accepted) ↦ elim (Bool-cases (env.fails w.calls)) [
        | inl lost ↦ absurd (ground arith)
        | inr answered ↦
            let rows : List SystemEvent =
              read_rows user input.cursor (limit + 1) w.db.system_events in
            let same : page_result limit rows ≡ r = ground arith in
            (
              subst (λ x. All (IsOwn user w.db.system_events) x.events) same
                  (All-take (IsOwn user w.db.system_events) limit rows
                    (read_rows-IsOwn user input.cursor (limit + 1) w.db.system_events)),
              ground arith,
            )
      ]
    ]
