-- ===== src/Roles/Permissions.antt =====
-- Which permissions a role can be given: normalizePermissions of internal/roles/service/service.go.
use mathlib.Core.Path.{subst}
use wow_dashboard_api.Prelude.{
  ◌≡◌, ◌≢◌, refl, ap, sym, ◌∙◌, inl, inr, String, Bool, true, false, ◌||◌, List, [], ◌∷◌, ◌++◌, map,
  str_eq, eq_iff, arith, All, All-append, Bool-cases,
}
use wow_dashboard_api.Prelude.Text.{trim_space}
use wow_dashboard_api.Store.Effect.{ok}
use wow_dashboard_api.Rbac.{is_assignable, is_member, permission_all}
use wow_dashboard_api.Roles.Service.{normalize_onto, normalize_permissions}

-- Every text of the list can be given to a role.
abbrev pub IsAssignable : List String → Type 0
IsAssignable = All (λ p. is_assignable p ≡ true)

-- No text comes twice.
abbrev pub IsDistinct : List String → Type 0
IsDistinct [] = Unit
IsDistinct (p ∷ ps) = (is_member p ps ≡ false) × IsDistinct ps

is_member-append :
    (p : String) (xs ys : List String) → is_member p (xs ++ ys) ≡ (is_member p xs || is_member p ys)
is_member-append p [] ys = refl
is_member-append p (x ∷ xs) ys = ground (arith, is_member-append p xs ys)

str_eq_comm : (x y : String) → str_eq x y ≡ str_eq y x
str_eq_comm x y = elim (Bool-cases (str_eq x y)) [
  | inl e ↦ (let same = (eq_iff x y).0 e in e ∙ sym ((eq_iff y x).1 (sym same)))
  | inr e ↦ elim (Bool-cases (str_eq y x)) [
    | inl e' ↦ (let back = (eq_iff x y).1 (sym ((eq_iff y x).0 e')) in absurd (ground arith))
    | inr e' ↦ e ∙ sym e'
  ]
]

IsDistinct-snoc :
    (p : String) (xs : List String)
    → is_member p xs ≡ false
    → IsDistinct xs
    → IsDistinct (xs ++ p ∷ [])
IsDistinct-snoc p [] e h = (refl, tt)
IsDistinct-snoc p (x ∷ xs) e (fresh, rest) = (
  (let split = is_member-append x xs (p ∷ []) in let turned = str_eq_comm x p in ground arith),
  IsDistinct-snoc p xs (ground arith) rest,
)

-- The wildcard is no assignable permission.
pub is_assignable_not_all : (p : String) → is_assignable p ≡ true → p ≢ permission_all
unfolding is_assignable
is_assignable_not_all p e same =
    let wildcard : is_assignable permission_all ≡ true =
      subst (λ q. is_assignable q ≡ true) same e in
    ground arith

-- A text that is there already adds nothing.
is_member-absorb :
    (p q : String) (out : List String) (b : Bool)
    → is_member p out ≡ true
    → (is_member q out || b) ≡ (is_member q out || (str_eq p q || b))
is_member-absorb p q out b e = elim (Bool-cases (str_eq p q)) [
  | inl same ↦
      let there : is_member q out ≡ true =
        subst (λ r. is_member r out ≡ true) ((eq_iff p q).0 same) e in
      ground arith
  | inr apart ↦ ground arith
]

normalize_onto-ok :
    (out raw result : List String)
    → IsAssignable out
    → IsDistinct out
    → normalize_onto out raw ≡ ok result
    → IsAssignable result
      × IsDistinct result
      × ((p : String) → is_member p result ≡ (is_member p out || is_member p (map trim_space raw)))
unfolding normalize_onto
normalize_onto-ok out [] result fits apart e =
    let same : out ≡ result = ground arith in
    (
      subst IsAssignable same fits,
      subst IsDistinct same apart,
      λ p. let member = ap (λ l. is_member p l) same in ground arith,
    )
normalize_onto-ok out (raw ∷ rest) result fits apart e =
    elim (Bool-cases (is_assignable (trim_space raw))) [
      | inr foreign ↦ absurd (ground arith)
      | inl assignable ↦ elim (Bool-cases (is_member (trim_space raw) out)) [
        | inl there ↦
            let (fits', apart', members) =
              normalize_onto-ok out rest result fits apart (ground arith) in
            (
              fits',
              apart',
              λ q.
                  members q
                  ∙ is_member-absorb (trim_space raw) q out (is_member q (map trim_space rest))
                      there,
            )
        | inr fresh ↦
            let (fits', apart', members) =
              normalize_onto-ok (out ++ trim_space raw ∷ []) rest result
                (All-append (λ p. is_assignable p ≡ true) out (trim_space raw ∷ []) fits
                  (assignable, tt))
                (IsDistinct-snoc (trim_space raw) out fresh apart) (ground arith) in
            (
              fits',
              apart',
              λ q.
                  let split = is_member-append q out (trim_space raw ∷ []) in
                  let after = members q in ground arith,
            )
      ]
    ]

-- Permissions that are accepted are those of the request, trimmed: each is of the catalog, so none
-- is the wildcard, none comes twice, and none is lost or added.
pub normalize_permissions-ok :
    (raw result : List String)
    → normalize_permissions raw ≡ ok result
    → IsAssignable result
      × IsDistinct result
      × ((p : String) → is_member p result ≡ is_member p (map trim_space raw))
unfolding normalize_permissions
normalize_permissions-ok raw result e = normalize_onto-ok [] raw result tt tt e
