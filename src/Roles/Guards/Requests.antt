-- ===== src/Roles/Guards/Requests.antt =====
-- The requests keep what their statements keep: CreateRole, UpdateRole and DeleteRole of
-- internal/roles/service/service.go.
use mathlib.Core.Path.{subst}
use wow_dashboard_api.Prelude.{
  ℕ, ◌+◌, ◌≡◌, refl, ap, sym, ◌∙◌, inl, inr, String, false, ◌&&◌, Option, none, some, List, arith,
  ltb, is_none,
}
use wow_dashboard_api.Store.Schema.{Db}
use wow_dashboard_api.Store.Effect.{
  checked, checked-holds, Action, Env, World, Result, ok, Result-cases, pure, raise_if, or_else,
  called, ◌>>=◌, ◌>>◌, system_role, role_in_use, invalid_input, bind-holds, bind-cases,
  transaction-holds, raise_if-ok, or_else-ok,
}
use wow_dashboard_api.Store.Mutation.{commit, commit-holds}
use wow_dashboard_api.Projects.Operations.{parse_uuid_field}
use wow_dashboard_api.Roles.Store.{
  RoleDetail, CreateRoleRow, UpdateRoleRow, get_role_by_id, create_role_on_tx, create_role_row,
  update_role_on_tx, update_role_row, delete_role_row,
}
use wow_dashboard_api.Roles.Service.{
  RoleService, CreateRoleInput, UpdateRoleInput, deletion, store_role, rewrite_role, create_role,
  create_checked, update_role, update_custom, delete_role, delete_checked, build_role_event,
  same_error, role_missing, checked_field, normalize_name, normalize_description,
  normalize_permissions,
}
use wow_dashboard_api.Roles.Permissions.{IsAssignable, normalize_permissions-ok}
use wow_dashboard_api.Roles.Guards.{
  RoleInvariant, Updating, IsGiven, is_system_id, create_role_on_tx-holds, update_role_on_tx-holds,
  delete_role_row-holds, get_role_by_id-reads, get_role_by_id-tells,
}

pub parse_uuid_field-reads :
    (value : String) (env : Env) (w : World) → (parse_uuid_field value env w).1 ≡ w
unfolding parse_uuid_field
parse_uuid_field-reads value env w = ground arith

pub checked_field-holds :
    {A B C : Type 0} (P : World → Type 0) (check : A → Result B) (o : Option A)
    (f : Option B → Action C) (env : Env) (w : World)
    → P w
    → ((b : Option B) → (checked_field check o env w).0 ≡ ok b → P (f b env w).1)
    → P ((checked_field check o >>= f) env w).1
checked_field-holds P check none f env w h rest = rest none refl
checked_field-holds P check (some a) f env w h rest = elim (Result-cases (check a)) [
  | inr (e, failed) ↦
      let stops : ((checked_field check (some a) >>= f) env w).1 ≡ w = ground arith in
      subst P (sym stops) h
  | inl (b, done) ↦
      let goes_on : (checked_field check (some a) >>= f) env w ≡ f (some b) env w = ground arith in
      subst (λ r. P r.1) (sym goes_on) (rest (some b) (ground arith))
]

checked_field-IsGiven :
    (o given : Option (List String)) (env : Env) (w : World)
    → (checked_field normalize_permissions o env w).0 ≡ ok given
    → IsGiven given
checked_field-IsGiven none given env w e =
    let same : none ≡ given = ground arith in subst IsGiven same tt
checked_field-IsGiven (some raw) given env w e = elim (Result-cases (normalize_permissions raw)) [
  | inr (e', failed) ↦ absurd (ground arith)
  | inl (permissions, done) ↦
      let same : some permissions ≡ given = ground arith in
      subst IsGiven same (normalize_permissions-ok raw permissions done).0
]

module _ (P : Db → Type 0) (keeps : RoleInvariant P) where
  store_role-holds :
      (s : RoleService) (actor : String) (row : CreateRoleRow) (env : Env) (w : World)
      → IsAssignable row.permissions
      → P w.db
      → P (store_role s actor row env w).1.db
  unfolding store_role create_role_row
  store_role-holds s actor row env w fits h =
      commit-holds P s.unit_of_work s.audit_recorder same_error (create_role_on_tx row)
        (create_role_row row) (build_role_event "roles.role.created" "Role created." actor) env w
        keeps.blind
        (λ v same. create_role_on_tx-holds P keeps row env v fits (subst P (sym same) h))
        (λ v same.
          transaction-holds P (create_role_on_tx row) env v (subst P (sym same) h)
            (create_role_on_tx-holds P keeps row env (called v) fits (subst P (sym same) h)))
        h

  rewrite_role-holds :
      (s : RoleService) (actor : String) (row : UpdateRoleRow) (env : Env) (w : World)
      → IsGiven row.permissions
      → is_system_id w.db.roles row.id ≡ false
      → P w.db
      → P (rewrite_role s actor row env w).1.db
  unfolding rewrite_role update_role_row
  rewrite_role-holds s actor row env w fits custom h =
      let ready : (v : World) → v.db ≡ w.db → Updating P keeps row.id v.db =
        λ v same. subst (Updating P keeps row.id) (sym same) (h, custom) in
      commit-holds P s.unit_of_work s.audit_recorder role_missing (update_role_on_tx row)
        (update_role_row row) (build_role_event "roles.role.updated" "Role updated." actor) env w
        keeps.blind (λ v same. (update_role_on_tx-holds P keeps row env v fits (ready v same)).0)
        (λ v same.
          (transaction-holds (Updating P keeps row.id) (update_role_on_tx row) env v (ready v same)
            (update_role_on_tx-holds P keeps row env (called v) fits (ready v same))).0)
        h

  create_checked-holds :
      (s : RoleService) (actor name description : String) (permissions : List String) (env : Env)
      (w : World)
      → IsAssignable permissions
      → P w.db
      → P (create_checked s actor name description permissions env w).1.db
  unfolding create_checked
  create_checked-holds s actor name description permissions env w fits h =
      store_role-holds s actor
        record {
          id = env.new_uuid (w.calls + 1);
          name = name;
          description = description;
          permissions = permissions;
          created_at = env.clock w.calls;
          updated_at = env.clock w.calls;
        }
        env (called (called w)) fits h

  pub create_role-holds :
      (s : RoleService) (input : CreateRoleInput) (env : Env) (w : World)
      → P w.db
      → P (create_role s input env w).1.db
  unfolding create_role
  create_role-holds s input env w h =
      checked-holds (λ v. P v.db) (normalize_name input.name)
        (λ name. checked (normalize_description input.description) >>= λ description.
          checked (normalize_permissions input.permissions)
          >>= create_checked s input.actor_user_id name description)
        env w h
        (λ name named.
          checked-holds (λ v. P v.db) (normalize_description input.description)
            (λ description.
              checked (normalize_permissions input.permissions)
              >>= create_checked s input.actor_user_id name description)
            env w h
            (λ description described.
              checked-holds (λ v. P v.db) (normalize_permissions input.permissions)
                (create_checked s input.actor_user_id name description) env w h
                (λ permissions normalized.
                  create_checked-holds s input.actor_user_id name description permissions env w
                    (normalize_permissions-ok input.permissions permissions normalized).0 h)))

  update_custom-holds :
      (s : RoleService) (input : UpdateRoleInput) (id : ℕ) (env : Env) (w : World)
      → is_system_id w.db.roles id ≡ false
      → P w.db
      → P (update_custom s input id env w).1.db
  unfolding update_custom
  update_custom-holds s input id env w custom h =
      let write : Option String → Option String → Option (List String) → Action RoleDetail =
        λ name description permissions. rewrite_role s input.actor_user_id record {
          id = id;
          name = name;
          description = description;
          permissions = permissions;
          updated_at = env.clock w.calls;
        } in
      checked_field-holds (λ v. P v.db) normalize_name input.name
        (λ name. checked_field normalize_description input.description >>= λ description.
          checked_field normalize_permissions input.permissions >>= write name description)
        env (called w) h
        (λ name named.
          checked_field-holds (λ v. P v.db) normalize_description input.description
            (λ description.
              checked_field normalize_permissions input.permissions >>= write name description)
            env (called w) h
            (λ description described.
              checked_field-holds (λ v. P v.db) normalize_permissions input.permissions
                (write name description) env (called w) h
                (λ permissions normalized.
                  rewrite_role-holds s input.actor_user_id
                    record {
                      id = id;
                      name = name;
                      description = description;
                      permissions = permissions;
                      updated_at = env.clock w.calls;
                    }
                    env (called w)
                    (checked_field-IsGiven input.permissions permissions env (called w) normalized)
                    custom h)))

  -- A request that reads a role and refuses the system roles: what follows is for another role.
  guarded-holds :
      {A : Type 0} (id : ℕ) (f : RoleDetail → Action A) (env : Env) (w : World)
      → ((r : RoleDetail) (v : World)
          → is_system_id v.db.roles id ≡ false
          → P v.db
          → P (f r env v).1.db)
      → P w.db
      → P
          ((or_else role_missing (get_role_by_id id) >>= λ r.
              raise_if r.role.is_system system_role >> f r)
            env w).1.db
  guarded-holds id f env w rest h =
      let read = get_role_by_id-reads id env w in
      let same : (or_else role_missing (get_role_by_id id) env w).1 ≡ called w = read in
      bind-cases (λ v. P v.db) (or_else role_missing (get_role_by_id id))
        (λ r. raise_if r.role.is_system system_role >> f r) env w
        (λ e failed. subst (λ v. P v.db) (sym same) h)
        (λ r found.
          bind-cases (λ v. P v.db) (raise_if r.role.is_system system_role) (λ _. f r) env
            (or_else role_missing (get_role_by_id id) env w).1
            (λ e refused. subst (λ v. P v.db) (sym same) h)
            (λ a passed.
              rest r (or_else role_missing (get_role_by_id id) env w).1
                (ap (λ v. is_system_id v.db.roles id) same
                  ∙ get_role_by_id-tells id env w r
                      (or_else-ok role_missing (get_role_by_id id) env w r found)
                  ∙ raise_if-ok r.role.is_system system_role env
                      (or_else role_missing (get_role_by_id id) env w).1 a passed)
                (subst (λ v. P v.db) (sym same) h)))

  pub update_role-holds :
      (s : RoleService) (input : UpdateRoleInput) (env : Env) (w : World)
      → P w.db
      → P (update_role s input env w).1.db
  unfolding update_role
  update_role-holds s input env w h =
      bind-holds (λ v. P v.db) (parse_uuid_field input.role_id)
        (λ id.
          raise_if (is_none input.name && is_none input.description && is_none input.permissions)
            invalid_input
          >> (or_else role_missing (get_role_by_id id) >>= λ r.
              raise_if r.role.is_system system_role >> update_custom s input id))
        env w (subst (λ v. P v.db) (sym (parse_uuid_field-reads input.role_id env w)) h)
        (λ id v h'.
          bind-holds (λ v'. P v'.db)
            (raise_if (is_none input.name && is_none input.description && is_none input.permissions)
              invalid_input)
            (λ _. or_else role_missing (get_role_by_id id) >>= λ r.
              raise_if r.role.is_system system_role >> update_custom s input id)
            env v h'
            (λ _ v' h''.
              guarded-holds id (λ r. update_custom s input id) env v'
                (λ r v'' custom kept. update_custom-holds s input id env v'' custom kept) h''))

  deletion-holds :
      (id : ℕ) (existing : RoleDetail) (env : Env) (w : World)
      → is_system_id w.db.roles id ≡ false
      → P w.db
      → P (deletion id existing env w).1.db
  deletion-holds id existing env w custom h =
      bind-holds (λ v. P v.db) (delete_role_row id) (λ _. pure existing) env w
        (delete_role_row-holds P keeps id env w custom h) (λ _ v kept. kept)

  delete_checked-holds :
      (s : RoleService) (actor : String) (id : ℕ) (r : RoleDetail) (env : Env) (w : World)
      → is_system_id w.db.roles id ≡ false
      → P w.db
      → P (delete_checked s actor id r env w).1.db
  unfolding delete_checked
  delete_checked-holds s actor id r env w custom h =
      let gone : (v : World) → v.db ≡ w.db → P (deletion id r env v).1.db = λ v same.
        deletion-holds id r env v (ap (λ d. is_system_id d.roles id) same ∙ custom)
          (subst P (sym same) h) in
      let event = build_role_event "roles.role.deleted" "Role deleted." actor in
      bind-cases (λ v. P v.db) (raise_if (ltb 0 r.user_count) role_in_use)
        (λ _.
          commit s.unit_of_work s.audit_recorder same_error (deletion id r) (deletion id r) event
          >> pure tt)
        env w (λ e refused. h)
        (λ a passed.
          bind-holds (λ v. P v.db)
            (commit s.unit_of_work s.audit_recorder same_error (deletion id r) (deletion id r)
              event)
            (λ _. pure tt) env w
            (commit-holds P s.unit_of_work s.audit_recorder same_error (deletion id r)
              (deletion id r) event env w keeps.blind gone gone h)
            (λ _ v kept. kept))

  pub delete_role-holds :
      (s : RoleService) (actor id : String) (env : Env) (w : World)
      → P w.db
      → P (delete_role s actor id env w).1.db
  unfolding delete_role
  delete_role-holds s actor id env w h =
      bind-holds (λ v. P v.db) (parse_uuid_field id)
        (λ role_id. or_else role_missing (get_role_by_id role_id) >>= λ r.
          raise_if r.role.is_system system_role >> delete_checked s actor role_id r)
        env w (subst (λ v. P v.db) (sym (parse_uuid_field-reads id env w)) h)
        (λ role_id v h'.
          guarded-holds role_id (delete_checked s actor role_id) env v
            (λ r v' custom kept. delete_checked-holds s actor role_id r env v' custom kept) h')
