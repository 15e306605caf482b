-- ===== src/Notifications/Pages/Complete.antt =====
-- The pages of a list of notifications make up the list: List of
-- internal/notifications/service/service.go, with the cursors of its answers.
use mathlib.Core.Path.{subst}
use mathlib.Core.List.{append-nil}
use wow_dashboard_api.Prelude.{
  ℕ, zero, suc, ◌+◌, ◌≤◌, ◌<◌, ◌≡◌, ◌≢◌, refl, ap, sym, ◌∙◌, inl, inr, arith, Bool, true, false,
  Option, none, some, List, [], ◌∷◌, ◌++◌, ◌||◌, ◌==◌, ltb, length, select_where, All, count_where,
  Bool-cases,
}
use wow_dashboard_api.Store.Schema.{Notification, Db, uuid_nil}
use wow_dashboard_api.Store.Effect.{Action, Env, World, ok, pure, ◌>>=◌, bind-eq}
use wow_dashboard_api.Lists.Pagination.{pos}
use wow_dashboard_api.Lists.Keyset.{
  take, drop, last, take-take, has_more-take, take_all, take-drop, length-drop-lt, last-take,
}
use wow_dashboard_api.Lists.Keyset.Order.{All-last, select_where-last}
use wow_dashboard_api.Notifications.{
  Cursor, cursor_of, newest_first, is_past, is_unread_of, list_notification_rows, count_unread,
  ListInput, ListResult, normalize_limit, list_notifications, next_cursor, max_list_limit,
}
use wow_dashboard_api.Notifications.Pages.{
  HasDistinctIds, newest_first_trans, newest_first_irrefl, all_listed, remaining, rows_remaining,
  remaining-Sorted,
}

abbrev pub page_request : ℕ → ℕ → Bool → Option Cursor → ListInput
page_request user limit unread_only cursor = record {
  user_id = user;
  limit = some (pos limit);
  unread_only = unread_only;
  cursor = cursor;
}

-- The next request, if the answer has a cursor.
unfoldable pub follow :
    (Option Cursor → Action (List Notification)) → Option Cursor → Action (List Notification)
follow request none = pure []
follow request (some next) = request (some next)

-- A client that asks for page after page, as long as an answer has a cursor, and at most so often.
unfoldable pub read_pages : ℕ → ℕ → ℕ → Bool → Option Cursor → Action (List Notification)
read_pages zero user limit unread_only cursor = pure []
read_pages (suc fuel) user limit unread_only cursor = do
  result ← list_notifications (page_request user limit unread_only cursor)
  rest ← follow (read_pages fuel user limit unread_only) (next_cursor result)
  pure (result.notifications ++ rest)

abbrev page_of : ℕ → List Notification → ℕ → ListResult
page_of limit rows unread = record {
  notifications = take limit rows;
  limit = limit;
  has_more = ltb limit (length rows);
  unread_count = unread;
}

abbrev after_page : World → World
after_page w = record w { calls = w.calls + 1 + 1 }

list_notification_rows-ok :
    (user limit : ℕ) (unread_only : Bool) (cursor : Option Cursor) (env : Env) (w : World)
    → ((n : ℕ) → env.fails n ≡ false)
    → HasDistinctIds w.db.notifications
    → list_notification_rows user unread_only cursor limit env w
      ≡ (ok (take limit (remaining user unread_only cursor w.db)), record w { calls = w.calls + 1 })
unfolding list_notification_rows
list_notification_rows-ok user limit unread_only cursor env w works distinct =
    rw (works w.calls) (rw (rows_remaining user unread_only cursor w.db distinct) refl)

count_unread-ok :
    (user : ℕ) (env : Env) (w : World)
    → ((n : ℕ) → env.fails n ≡ false)
    → count_unread user env w
      ≡ (ok (count_where (is_unread_of user) w.db.notifications), record w { calls = w.calls + 1 })
unfolding count_unread
count_unread-ok user env w works = rw (works w.calls) refl

-- The answer to a page, where no statement fails.
list_notifications-ok :
    (user limit : ℕ) (unread_only : Bool) (cursor : Option Cursor) (env : Env) (w : World)
    → ((n : ℕ) → env.fails n ≡ false)
    → HasDistinctIds w.db.notifications
    → user ≢ uuid_nil
    → 1 ≤ limit
    → limit ≤ max_list_limit
    → list_notifications (page_request user limit unread_only cursor) env w ≡ (
      ok (
          page_of limit
            (remaining user unread_only cursor w.db)
            (count_where (is_unread_of user) w.db.notifications)),
      after_page w,
    )
unfolding list_notifications normalize_limit
list_notifications-ok user limit unread_only cursor env w works distinct named low high =
    let accepted : (limit == 0 || ltb max_list_limit limit) ≡ false = ground arith in
    let nonnil : (user == uuid_nil) ≡ false = ground arith in
    let rows = list_notification_rows-ok user (limit + 1) unread_only cursor env w works distinct in
    let unread = count_unread-ok user env (record w { calls = w.calls + 1 }) works in
    let next : limit + 1 ≡ suc limit = omega arith in
    let shorter = take-take limit (remaining user unread_only cursor w.db) in
    let more = has_more-take limit (remaining user unread_only cursor w.db) in
    let answer : List Notification → ℕ → ListResult = λ found n. record {
      notifications = take limit found;
      limit = limit;
      has_more = ltb limit (length found);
      unread_count = n;
    } in
    rw (nonnil, accepted)
      (bind-eq (list_notification_rows user unread_only cursor (limit + 1))
          (λ found. count_unread user >>= λ n. pure (answer found n)) env w
          (record w { calls = w.calls + 1 })
          (take (limit + 1) (remaining user unread_only cursor w.db)) rows
        ∙ bind-eq (count_unread user)
            (λ n. pure (answer (take (limit + 1) (remaining user unread_only cursor w.db)) n)) env
            (record w { calls = w.calls + 1 }) (after_page w)
            (count_where (is_unread_of user) w.db.notifications) unread
        ∙ rw next (rw (shorter, more) refl))

select_where-narrow :
    (p q : Notification → Bool) (ns : List Notification)
    → ((n : Notification) → p n ≡ true → q n ≡ true)
    → select_where p (select_where q ns) ≡ select_where p ns
select_where-narrow p q [] h = refl
select_where-narrow p q (n ∷ ns) h =
    let rest = select_where-narrow p q ns h in
    elim (Bool-cases (p n)) [
      | inl e ↦ (let kept = h n e in ground arith)
      | inr e ↦ elim (Bool-cases (q n)) [ inl k ↦ ground arith | inr k ↦ ground arith ]
    ]

All-selected :
    (p : Notification → Bool) (ns : List Notification) → All (λ n. p n ≡ true) (select_where p ns)
All-selected p [] = tt
All-selected p (n ∷ ns) = elim (Bool-cases (p n)) [
  | inl e ↦ rw e (e, All-selected p ns)
  | inr e ↦ rw e (All-selected p ns)
]

is_past_trans :
    (cursor : Option Cursor) (l n : Notification)
    → is_past cursor l ≡ true
    → newest_first l n ≡ true
    → is_past cursor n ≡ true
is_past_trans none l n e e' = refl
is_past_trans (some c) l n e e' = ground arith

-- Past the cursor of a page stands what follows the page.
remaining_next :
    (user limit : ℕ) (unread_only : Bool) (cursor : Option Cursor) (d : Db) (l : Notification)
    → HasDistinctIds d.notifications
    → last (take limit (remaining user unread_only cursor d)) ≡ some l
    → remaining user unread_only (some (cursor_of l)) d
      ≡ drop limit (remaining user unread_only cursor d)
unfolding remaining all_listed
remaining_next user limit unread_only cursor d l distinct e =
    let found =
      All-last newest_first newest_first_trans newest_first_irrefl (λ n. is_past cursor n ≡ true)
        limit (remaining user unread_only cursor d) l
        (All-selected (is_past cursor) (all_listed user unread_only d)) e in
    sym (
      select_where-narrow (newest_first l) (is_past cursor) (all_listed user unread_only d)
        (λ n later. is_past_trans cursor l n found later))
    ∙ select_where-last newest_first newest_first_trans newest_first_irrefl limit
        (remaining user unread_only cursor d) l
        (remaining-Sorted user unread_only cursor d distinct) e

bind-value :
    {A B : Type 0} (m : Action A) (g : A → B) (env : Env) (w : World) (a : A)
    → (m env w).0 ≡ ok a
    → ((m >>= λ x. pure (g x)) env w).0 ≡ ok (g a)
bind-value m g env w a e = ground arith

-- The last request of a client.
read_pages_whole :
    (fuel user limit : ℕ) (unread_only : Bool) (cursor : Option Cursor) (env : Env) (w : World)
    (rows : List Notification) (unread : ℕ)
    → list_notifications (page_request user limit unread_only cursor) env w
      ≡ (ok (page_of limit rows unread), after_page w)
    → ltb limit (length rows) ≡ false
    → (read_pages (suc fuel) user limit unread_only cursor env w).0 ≡ ok (take limit rows ++ [])
unfolding read_pages next_cursor follow
read_pages_whole fuel user limit unread_only cursor env w rows unread first whole =
    ap (λ o. o.0)
      (bind-eq (list_notifications (page_request user limit unread_only cursor))
        (λ result.
          follow (read_pages fuel user limit unread_only) (next_cursor result) >>= λ others.
          pure (result.notifications ++ others))
        env w (after_page w) (page_of limit rows unread) first)
    ∙ rw whole refl

-- A request that is followed by others.
read_pages_more :
    (fuel user limit : ℕ) (unread_only : Bool) (cursor : Option Cursor) (env : Env) (w : World)
    (rows rest : List Notification) (unread : ℕ) (l : Notification)
    → list_notifications (page_request user limit unread_only cursor) env w
      ≡ (ok (page_of limit rows unread), after_page w)
    → ltb limit (length rows) ≡ true
    → last (take limit rows) ≡ some l
    → (read_pages fuel user limit unread_only (some (cursor_of l)) env (after_page w)).0 ≡ ok rest
    → (read_pages (suc fuel) user limit unread_only cursor env w).0 ≡ ok (take limit rows ++ rest)
unfolding read_pages next_cursor follow
read_pages_more fuel user limit unread_only cursor env w rows rest unread l first more found later =
    ap (λ o. o.0)
      (bind-eq (list_notifications (page_request user limit unread_only cursor))
        (λ result.
          follow (read_pages fuel user limit unread_only) (next_cursor result) >>= λ others.
          pure (result.notifications ++ others))
        env w (after_page w) (page_of limit rows unread) first)
    ∙ rw (more, found)
        (bind-value (read_pages fuel user limit unread_only (some (cursor_of l)))
          (λ others. take limit rows ++ others) env (after_page w) rest later)

-- A client that starts at the newest row, or past a cursor, and follows the cursors of the answers,
-- with any page size that is accepted, reads every row of the user's list from there once, newest
-- first, and comes to the end: as many requests as rows, and one more, are enough, where no
-- statement fails, no two rows have one identifier and the table is not changed meanwhile.
pub read_pages-all :
    (fuel user limit : ℕ) (unread_only : Bool) (cursor : Option Cursor) (env : Env) (w : World)
    → ((n : ℕ) → env.fails n ≡ false)
    → HasDistinctIds w.db.notifications
    → user ≢ uuid_nil
    → 1 ≤ limit
    → limit ≤ max_list_limit
    → length (remaining user unread_only cursor w.db) < fuel
    → (read_pages fuel user limit unread_only cursor env w).0
      ≡ ok (remaining user unread_only cursor w.db)
unfolding read_pages
read_pages-all zero user limit unread_only cursor env w works distinct named low high enough =
    absurd (omega arith)
read_pages-all (suc fuel) user limit unread_only cursor env w works distinct named low high enough =
    let rows : List Notification = remaining user unread_only cursor w.db in
    let unread : ℕ = count_where (is_unread_of user) w.db.notifications in
    let first =
      list_notifications-ok user limit unread_only cursor env w works distinct named low high in
    elim (Bool-cases (ltb limit (length rows))) [
      | inr whole ↦
          read_pages_whole fuel user limit unread_only cursor env w rows unread first whole
          ∙ ap (λ r. ok r) (append-nil (take limit rows) ∙ take_all limit rows (ground arith))
      | inl more ↦
          let (l, found) = last-take limit rows low (ground arith) in
          let later : World = after_page w in
          let next = remaining_next user limit unread_only cursor w.db l distinct found in
          let shorter : length (drop limit rows) < length rows =
            length-drop-lt limit rows low (ground arith) in
          let rest =
            read_pages-all fuel user limit unread_only (some (cursor_of l)) env later works distinct
              named low high (subst (λ r. length r < fuel) (sym next) (omega arith)) in
          read_pages_more fuel user limit unread_only cursor env w rows (drop limit rows) unread l
            first more found (rest ∙ ap (λ r. ok r) next)
          ∙ ap (λ r. ok r) (take-drop limit rows)
    ]
