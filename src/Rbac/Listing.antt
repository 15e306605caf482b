-- ===== src/Rbac/Listing.antt =====
-- What Set.List of internal/auth/rbac/rbac.go shows of a set.
use wow_dashboard_api.Prelude.{
  String, Bool, true, List, [], ◌∷◌, ◌≡◌, refl, arith, ◌||◌, ◌&&◌, str_eq, select_where, eq_iff, ap,
  Bool-cases, inl, inr,
}
use wow_dashboard_api.Rbac.{
  permission_all, catalog, is_member, is_assignable, has_permission, list_permissions,
}

-- Selecting rows keeps the membership of the rows that are selected.
is_member-select_where :
    (p : String) (raw cs : List String)
    → is_member p (select_where (λ c. is_member c raw) cs) ≡ (is_member p cs && is_member p raw)
is_member-select_where p raw [] = refl
is_member-select_where p raw (c ∷ cs) = elim (Bool-cases (str_eq c p)) [
  | inl e ↦
      let same : c ≡ p = (eq_iff c p).0 e in
      let rest = is_member-select_where p raw cs in
      let through : is_member c raw ≡ is_member p raw = ap (λ x. is_member x raw) same in
      ground arith
  | inr e ↦ let rest = is_member-select_where p raw cs in ground arith
]

or_true : (a b : Bool) → b ≡ true → (a || b) ≡ true
or_true a b e = ground arith

has-select_where :
    (p : String) (raw cs : List String)
    → is_member permission_all cs ≡ true
    → is_member p cs ≡ true
    → has_permission (select_where (λ c. is_member c raw) cs) p ≡ has_permission raw p
unfolding has_permission
has-select_where p raw cs wild known =
    let wildcard = is_member-select_where permission_all raw cs in
    let direct = is_member-select_where p raw cs in ground arith

select_where_same :
    (a b cs : List String)
    → ((p : String) → is_member p a ≡ is_member p b)
    → select_where (λ c. is_member c a) cs ≡ select_where (λ c. is_member c b) cs
select_where_same a b [] same = refl
select_where_same a b (c ∷ cs) same = ground (arith, same c, select_where_same a b cs same)

-- The list that a client is shown grants it exactly what the set grants, for every permission that
-- can be assigned to a role.
pub list_permissions-has :
    (raw : List String) (p : String)
    → is_assignable p ≡ true
    → has_permission (list_permissions raw) p ≡ has_permission raw p
unfolding list_permissions is_assignable
list_permissions-has raw p assignable =
    has-select_where p raw (permission_all ∷ catalog) refl
      (or_true (str_eq permission_all p) _ assignable)

-- The list depends on the members of the set alone: not on the order or the repetition of the rows
-- that it was built from.
pub list_permissions_same :
    (a b : List String)
    → ((p : String) → is_member p a ≡ is_member p b)
    → list_permissions a ≡ list_permissions b
unfolding list_permissions
list_permissions_same a b same = select_where_same a b (permission_all ∷ catalog) same
