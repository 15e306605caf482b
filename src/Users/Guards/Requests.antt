-- ===== src/Users/Guards/Requests.antt =====
-- The checks of UpdateUser of internal/users/service/service.go, one after another.
use mathlib.Core.Path.{subst}
use wow_dashboard_api.Prelude.{
  ℕ, ◌≡◌, refl, ap, sym, ◌∙◌, inl, inr, String, false, not, ◌&&◌, ◌==◌, Option, none, some, List,
  arith, Option-cases,
}
use wow_dashboard_api.Prelude.Text.{trim_space}
use wow_dashboard_api.Store.Schema.{UserStatus, Db}
use wow_dashboard_api.Store.Effect.{
  Action, Env, World, Result, ok, Result-cases, pure, raise_if, called, ◌>>=◌, ◌>>◌,
  insufficient_privilege, self_modification, invalid_input, bind-ok, bind-keeps, bind-cases,
  raise_if-ok, or_else-ok,
}
use wow_dashboard_api.Auth.Users.{role_names}
use wow_dashboard_api.Projects.Operations.{parse_uuid_field}
use wow_dashboard_api.Roles.Service.{checked_field}
use wow_dashboard_api.Roles.Guards.Requests.{parse_uuid_field-reads, checked_field-holds}
use wow_dashboard_api.Users.Store.{UserDetail, UpdateUserRow, get_user_detail}
use wow_dashboard_api.Users.Service.{
  UserService, UpdateUserInput, apply_update, update_normalized, fetch_user, user_missing,
  normalize_fields, update_other, update_user, can_grant, grants_admin, has_role_named,
  changes_nothing, normalize_status, parse_role_ids, normalize_profile_field,
}
use wow_dashboard_api.Users.Guards.{
  UserLaws, apply_update-holds, get_user_detail-reads, get_user_detail-roles,
}

checked_field-reads :
    {A B : Type 0} (check : A → Result B) (o : Option A) (env : Env) (w : World)
    → (checked_field check o env w).1 ≡ w
checked_field-reads check none env w = refl
checked_field-reads check (some a) env w = elim (Result-cases (check a)) [
  | inl (b, e) ↦ ground arith
  | inr (reason, e) ↦ ground arith
]

-- The row of a request is for its target, with the roles that were parsed.
normalize_fields-row :
    (input : UpdateUserInput) (target at : ℕ) (status : Option UserStatus)
    (role_ids : Option (List ℕ)) (env : Env) (w w' : World) (row : UpdateUserRow)
    → normalize_fields input target at status role_ids env w ≡ (ok row, w')
    → (row.id ≡ target) × (row.role_ids ≡ role_ids)
unfolding normalize_fields
normalize_fields-row input target at status role_ids env w w' row e =
    let build : Option String → Option String → Option String → Option String → UpdateUserRow =
      λ avatar_url phone job_title company. record {
        id = target;
        status = status;
        role_ids = role_ids;
        avatar_url = avatar_url;
        phone = phone;
        job_title = job_title;
        company = company;
        updated_at = at;
      } in
    let text : Option String → Action (Option String) =
      λ o. checked_field (normalize_profile_field 256) o in
    let (a, w₁, e₁, r₁) =
      bind-ok (checked_field (normalize_profile_field 262_144) input.avatar_url)
        (λ a. text input.phone >>= λ b.
          text input.job_title >>= λ c. text input.company >>= λ d. pure (build a b c d))
        env w w' row e in
    let (b, w₂, e₂, r₂) =
      bind-ok (text input.phone)
        (λ b. text input.job_title >>= λ c. text input.company >>= λ d. pure (build a b c d)) env w₁
        w' row r₁ in
    let (c, w₃, e₃, r₃) =
      bind-ok (text input.job_title) (λ c. text input.company >>= λ d. pure (build a b c d)) env w₂
        w' row r₂ in
    let (d, w₄, e₄, r₄) =
      bind-ok (text input.company) (λ d. pure (build a b c d)) env w₃ w' row r₃ in
    (ground arith, ground arith)

normalize_fields-reads :
    (input : UpdateUserInput) (target at : ℕ) (status : Option UserStatus)
    (role_ids : Option (List ℕ)) (env : Env) (w : World)
    → (normalize_fields input target at status role_ids env w).1 ≡ w
unfolding normalize_fields
normalize_fields-reads input target at status role_ids env w =
    let build : Option String → Option String → Option String → Option String → UpdateUserRow =
      λ avatar_url phone job_title company. record {
        id = target;
        status = status;
        role_ids = role_ids;
        avatar_url = avatar_url;
        phone = phone;
        job_title = job_title;
        company = company;
        updated_at = at;
      } in
    let text : Option String → Action (Option String) =
      λ o. checked_field (normalize_profile_field 256) o in
    let reads : (o : Option String) (v : World) → (text o env v).1 ≡ v =
      λ o v. checked_field-reads (normalize_profile_field 256) o env v in
    bind-keeps (λ v. v) (checked_field (normalize_profile_field 262_144) input.avatar_url)
      (λ a. text input.phone >>= λ b.
        text input.job_title >>= λ c. text input.company >>= λ d. pure (build a b c d))
      env w (checked_field-reads (normalize_profile_field 262_144) input.avatar_url env w)
      (λ a v₁.
        bind-keeps (λ v. v) (text input.phone)
          (λ b. text input.job_title >>= λ c. text input.company >>= λ d. pure (build a b c d)) env
          v₁ (reads input.phone v₁)
          (λ b v₂.
            bind-keeps (λ v. v) (text input.job_title)
              (λ c. text input.company >>= λ d. pure (build a b c d)) env v₂
              (reads input.job_title v₂)
              (λ c v₃.
                bind-keeps (λ v. v) (text input.company) (λ d. pure (build a b c d)) env v₃
                  (reads input.company v₃) (λ d v₄. refl))))

parse_uuid_field-ok :
    (value : String) (env : Env) (w : World) (id : ℕ)
    → (parse_uuid_field value env w).0 ≡ ok id
    → env.parse_uuid (trim_space value) ≡ some id
unfolding parse_uuid_field
parse_uuid_field-ok value env w id e = elim (Option-cases (env.parse_uuid (trim_space value))) [
  | inl foreign ↦ absurd (ground arith)
  | inr (found, e') ↦ ground arith
]

-- What a request has checked of the row that it writes.
abbrev pub IsAdmitted : Env → UpdateUserInput → Db → UpdateUserRow → Type 0
IsAdmitted env input d row =
    (actor : ℕ) × (env.parse_uuid (trim_space input.actor_user_id) ≡ some actor)
    × (env.parse_uuid (trim_space input.target_user_id) ≡ some row.id)
    × ((actor == row.id) ≡ false)
    × ((grants_admin row.role_ids && not (can_grant input)) ≡ false)
    × ((has_role_named "admin" (role_names row.id d) && not (can_grant input)) ≡ false)

update_normalized-holds :
    (P : Db → Type 0) (s : UserService) (input : UpdateUserInput) (actor : ℕ) (row : UpdateUserRow)
    (env : Env) (w : World)
    → ((has_role_named "admin" (role_names row.id w.db) && not (can_grant input)) ≡ false
        → UserLaws P row)
    → P w.db
    → P (update_normalized s input actor row env w).1.db
unfolding update_normalized fetch_user
update_normalized-holds P s input actor row env w laws h =
    let read : P (get_user_detail row.id env w).1.db =
      subst P (sym (get_user_detail-reads row.id env w)) h in
    bind-cases (λ v. P v.db) (fetch_user row.id)
      (λ target.
        raise_if (has_role_named "admin" target.roles && not (can_grant input))
          insufficient_privilege
        >> apply_update s actor row)
      env w (λ e failed. read)
      (λ target found.
        bind-cases (λ v. P v.db)
          (raise_if (has_role_named "admin" target.roles && not (can_grant input))
            insufficient_privilege)
          (λ _. apply_update s actor row) env (fetch_user row.id env w).1 (λ e refused. read)
          (λ a passed.
            let roles : target.roles ≡ role_names row.id w.db =
              get_user_detail-roles row.id env w target
                (or_else-ok user_missing (get_user_detail row.id) env w target found) in
            apply_update-holds P row
              (laws (
                subst (λ names. (has_role_named "admin" names && not (can_grant input)) ≡ false)
                  roles
                  (raise_if-ok (has_role_named "admin" target.roles && not (can_grant input))
                    insufficient_privilege env (fetch_user row.id env w).1 a passed)))
              s actor env (fetch_user row.id env w).1 read))

-- The checks of a request for another account.
update_other-holds :
    (P : Db → Type 0) (s : UserService) (input : UpdateUserInput) (actor target : ℕ) (env : Env)
    (w : World)
    → ((row : UpdateUserRow)
        → row.id ≡ target
        → (grants_admin row.role_ids && not (can_grant input)) ≡ false
        → (has_role_named "admin" (role_names row.id w.db) && not (can_grant input)) ≡ false
        → UserLaws P row)
    → P w.db
    → P (update_other s input actor target env w).1.db
unfolding update_other
update_other-holds P s input actor target env w laws h =
    let at = env.clock w.calls in
    checked_field-holds (λ v. P v.db) normalize_status input.status
      (λ status. checked_field (parse_role_ids env.parse_uuid) input.role_ids >>= λ role_ids.
        raise_if (grants_admin role_ids && not (can_grant input)) insufficient_privilege
        >> (normalize_fields input target at status role_ids >>= update_normalized s input actor))
      env (called w) h
      (λ status e₁.
        checked_field-holds (λ v. P v.db) (parse_role_ids env.parse_uuid) input.role_ids
          (λ role_ids.
            raise_if (grants_admin role_ids && not (can_grant input)) insufficient_privilege
            >> (normalize_fields input target at status role_ids
                >>= update_normalized s input actor))
          env (called w) h
          (λ role_ids e₂.
            bind-cases (λ v. P v.db)
              (raise_if (grants_admin role_ids && not (can_grant input)) insufficient_privilege)
              (λ _.
                normalize_fields input target at status role_ids
                >>= update_normalized s input actor)
              env (called w) (λ e refused. h)
              (λ a passed.
                let permitted =
                  raise_if-ok (grants_admin role_ids && not (can_grant input))
                    insufficient_privilege env (called w) a passed in
                let same = normalize_fields-reads input target at status role_ids env (called w) in
                bind-cases (λ v. P v.db) (normalize_fields input target at status role_ids)
                  (update_normalized s input actor) env (called w)
                  (λ e malformed. subst (λ v. P v.db) (sym same) h)
                  (λ row done.
                    let (own, given) =
                      normalize_fields-row input target at status role_ids env (called w)
                        (normalize_fields input target at status role_ids env (called w)).1 row
                        (ap
                          (λ r. (
                            r,
                            (normalize_fields input target at status role_ids env (called w)).1,
                          ))
                          done) in
                    update_normalized-holds P s input actor row env
                      (normalize_fields input target at status role_ids env (called w)).1
                      (λ unguarded.
                        laws row own
                          (subst (λ ids. (grants_admin ids && not (can_grant input)) ≡ false)
                            (sym given) permitted)
                          (subst
                            (λ v.
                              (has_role_named "admin" (role_names row.id v.db)
                                && not (can_grant input))
                              ≡ false)
                            same unguarded))
                      (subst (λ v. P v.db) (sym same) h)))))

-- An update keeps what its two writes keep for every row that the checks admit.
pub update_user-holds :
    (P : Db → Type 0) (s : UserService) (input : UpdateUserInput) (env : Env) (w : World)
    → ((row : UpdateUserRow) → IsAdmitted env input w.db row → UserLaws P row)
    → P w.db
    → P (update_user s input env w).1.db
unfolding update_user
update_user-holds P s input env w laws h =
    let readA = parse_uuid_field-reads input.actor_user_id env w in
    let readT = parse_uuid_field-reads input.target_user_id env w in
    let check : ℕ → ℕ → Action UserDetail = λ actor target.
      raise_if (actor == target) self_modification
      >> (raise_if (changes_nothing input) invalid_input >> update_other s input actor target) in
    bind-cases (λ v. P v.db) (parse_uuid_field input.actor_user_id)
      (λ actor. parse_uuid_field input.target_user_id >>= check actor) env w
      (λ e failed. subst (λ v. P v.db) (sym readA) h)
      (λ actor parsedA.
        subst (λ v. P ((parse_uuid_field input.target_user_id >>= check actor) env v).1.db)
          (sym readA)
          (bind-cases (λ v. P v.db) (parse_uuid_field input.target_user_id) (check actor) env w
            (λ e failed. subst (λ v. P v.db) (sym readT) h)
            (λ target parsedT.
              subst (λ v. P (check actor target env v).1.db) (sym readT)
                (bind-cases (λ v. P v.db) (raise_if (actor == target) self_modification)
                  (λ _.
                    raise_if (changes_nothing input) invalid_input
                    >> update_other s input actor target)
                  env w (λ e refused. h)
                  (λ a passed.
                    bind-cases (λ v. P v.db) (raise_if (changes_nothing input) invalid_input)
                      (λ _. update_other s input actor target) env w (λ e refused. h)
                      (λ a' passed'.
                        update_other-holds P s input actor target env w
                          (λ row own permitted unguarded. laws row (
                            actor,
                            parse_uuid_field-ok input.actor_user_id env w actor parsedA,
                            parse_uuid_field-ok input.target_user_id env w target parsedT
                                ∙ ap some (sym own),
                            ap (λ n. actor == n) own
                                ∙ raise_if-ok (actor == target) self_modification env w a passed,
                            permitted,
                            unguarded,
                          ))
                          h))))))
