-- ===== src/Notifications/Pages.antt =====
-- Reading page by page: a client that follows the cursors of List, in
-- internal/notifications/service/service.go and internal/http/handlers/notifications.go.
pub mod Complete
use mathlib.Core.Path.{subst}
use wow_dashboard_api.Prelude.{
  ℕ, zero, suc, ◌+◌, ◌≤◌, ◌<◌, ◌≡◌, ◌≢◌, refl, ap, sym, ◌∙◌, inl, inr, arith, Bool, true, false,
  not, Option, none, some, List, [], ◌∷◌, ◌++◌, ◌&&◌, ◌||◌, ◌==◌, ltb, leb, length, select_where,
  All, All-implies, All-select_where, if◌then◌else◌, Bool-cases, Option-cases,
}
use wow_dashboard_api.Prelude.Sorting.{order_by}
use wow_dashboard_api.Store.Schema.{Notification, Db, uuid_nil}
use wow_dashboard_api.Store.Effect.{
  Action, Env, World, Result, ok, err, statement, raise_if, checked, pure, ◌>>=◌, ◌>>◌,
}
use wow_dashboard_api.Lists.Pagination.{ℤ, pos, negsuc}
use wow_dashboard_api.Lists.Keyset.{take, drop, last}
use wow_dashboard_api.Lists.Keyset.Order.{
  Comparable, order_by-select_where, order_by-Sorted, Sorted, Sorted-select_where,
  select_where-last,
}
use wow_dashboard_api.Notifications.{
  Cursor, cursor_of, key_before, newest_first, is_past, is_listed, list_notification_rows,
  count_unread, ListInput, ListResult, normalize_limit, list_notifications, next_cursor,
  max_list_limit,
}

-- No two rows have one identifier.
abbrev pub HasDistinctIds : List Notification → Type 0
HasDistinctIds [] = Unit {0}
HasDistinctIds (n ∷ ns) = All (λ m. (n.id == m.id) ≡ false) ns × HasDistinctIds ns

pub newest_first_trans :
    (x y z : Notification)
    → newest_first x y ≡ true
    → newest_first y z ≡ true
    → newest_first x z ≡ true
newest_first_trans x y z e e' = ground arith

pub newest_first_irrefl : (x : Notification) → newest_first x x ≡ false
newest_first_irrefl x = ground arith

HasDistinctIds-Comparable :
    (ns : List Notification)
    → HasDistinctIds ns
    → Comparable newest_first newest_first_trans newest_first_irrefl ns
HasDistinctIds-Comparable [] h = tt
HasDistinctIds-Comparable (n ∷ ns) h = (
  All-implies (λ m. (n.id == m.id) ≡ false) (λ m. (newest_first n m || newest_first m n) ≡ true)
      (λ m apart. ground arith) ns h.0,
  HasDistinctIds-Comparable ns h.1,
)

HasDistinctIds-select_where :
    (p : Notification → Bool) (ns : List Notification)
    → HasDistinctIds ns
    → HasDistinctIds (select_where p ns)
HasDistinctIds-select_where p [] h = tt
HasDistinctIds-select_where p (n ∷ ns) h = elim (Bool-cases (p n)) [
  | inl e ↦ rw e (
    All-select_where (λ m. (n.id == m.id) ≡ false) p ns h.0,
    HasDistinctIds-select_where p ns h.1,
  )
  | inr e ↦ rw e (HasDistinctIds-select_where p ns h.1)
]

select_where-and :
    (p q : Notification → Bool) (ns : List Notification)
    → select_where (λ n. p n && q n) ns ≡ select_where q (select_where p ns)
select_where-and p q [] = refl
select_where-and p q (n ∷ ns) =
    let rest = select_where-and p q ns in
    elim (Bool-cases (p n)) [
      | inl e ↦ elim (Bool-cases (q n)) [ inl k ↦ ground arith | inr k ↦ ground arith ]
      | inr e ↦ ground arith
    ]

-- What a user's list holds: the rows that it is about, newest first.
unfoldable pub all_listed : ℕ → Bool → Db → List Notification
unfolding order_by
all_listed user unread_only d =
    order_by newest_first (select_where (is_listed user unread_only) d.notifications)

-- What is past a cursor.
unfoldable pub remaining : ℕ → Bool → Option Cursor → Db → List Notification
unfolding all_listed
remaining user unread_only cursor d = select_where (is_past cursor) (all_listed user unread_only d)

pub rows_remaining :
    (user : ℕ) (unread_only : Bool) (cursor : Option Cursor) (d : Db)
    → HasDistinctIds d.notifications
    → order_by newest_first
        (select_where (λ n. is_listed user unread_only n && is_past cursor n) d.notifications)
      ≡ remaining user unread_only cursor d
unfolding all_listed remaining
rows_remaining user unread_only cursor d distinct =
    ap (order_by newest_first)
      (select_where-and (is_listed user unread_only) (is_past cursor) d.notifications)
    ∙ order_by-select_where newest_first newest_first_trans newest_first_irrefl (is_past cursor)
        (select_where (is_listed user unread_only) d.notifications)
        (HasDistinctIds-Comparable (select_where (is_listed user unread_only) d.notifications)
          (HasDistinctIds-select_where (is_listed user unread_only) d.notifications distinct))

pub remaining-Sorted :
    (user : ℕ) (unread_only : Bool) (cursor : Option Cursor) (d : Db)
    → HasDistinctIds d.notifications
    → Sorted newest_first newest_first_trans newest_first_irrefl
        (remaining user unread_only cursor d)
unfolding all_listed remaining
remaining-Sorted user unread_only cursor d distinct =
    Sorted-select_where newest_first newest_first_trans newest_first_irrefl (is_past cursor)
      (all_listed user unread_only d)
      (order_by-Sorted newest_first newest_first_trans newest_first_irrefl
        (select_where (is_listed user unread_only) d.notifications)
        (HasDistinctIds-Comparable (select_where (is_listed user unread_only) d.notifications)
          (HasDistinctIds-select_where (is_listed user unread_only) d.notifications distinct)))
