-- ===== src/Mfa/Enrollment/Invariant.antt =====
-- An account with a second factor has a secret to check it: the requests of
-- internal/mfa/service/service.go, one after another.
use wow_dashboard_api.Prelude.{
  ℕ, ◌+◌, ◌≡◌, refl, ap, sym, ◌∙◌, String, Bool, true, false, some, none, List, [], ◌∷◌, arith,
  exists_where, delete_where, All, All-update_where, All-implies, exists_where_of_find,
  exists_where-append, exists_where-update_where, exists_where-delete_where_ne, inl, inr,
}
use mathlib.Core.Path.{subst}
use wow_dashboard_api.Store.Schema.{MfaSecret, User, Db}
use wow_dashboard_api.Store.Effect.{
  World, Env, Result-cases, external, pure, raise_if, mfa_already_enabled, called, ◌>>=◌, ◌>>◌,
  bind-holds, transaction-holds,
}
use wow_dashboard_api.Auth.Users.{has_id}
use wow_dashboard_api.Mfa.Store.{
  owns_secret, with_mfa, replace_secret, secret_row, UpsertMfaSecretInput, store_setup_secret,
  upsert_user_mfa_secret, lock_user,
}
use wow_dashboard_api.Mfa.Service.{MfaService, TotpKey, setup, store_key, confirm, verify, disable}
use wow_dashboard_api.Mfa.Enrollment.Confirm.{confirm-ok, confirm-err}
use wow_dashboard_api.Mfa.Enrollment.Disabling.{disable-ok, disable-err, verify-view}

abbrev pub has_secret : List MfaSecret → ℕ → Bool
has_secret secrets user = exists_where (owns_secret user) secrets

abbrev HasSecret : List MfaSecret → User → Type 0
HasSecret secrets u = u.mfa_enabled ≡ true → has_secret secrets u.id ≡ true

-- Every account with a second factor has a stored secret.
abbrev pub HasSecrets : Db → Type 0
HasSecrets d = All (HasSecret d.mfa_secrets) d.users

-- The secrets only gain owners.
abbrev Grows : List MfaSecret → List MfaSecret → Type 0
Grows old new = (user : ℕ) → has_secret old user ≡ true → has_secret new user ≡ true

HasSecrets-grow :
    (d d' : Db)
    → d'.users ≡ d.users
    → Grows d.mfa_secrets d'.mfa_secrets
    → HasSecrets d
    → HasSecrets d'
HasSecrets-grow d d' same grows h = rw same (
    All-implies (HasSecret d.mfa_secrets) (HasSecret d'.mfa_secrets)
      (λ u owned on. grows u.id (owned on)) d.users h)

upsert_user_mfa_secret-grows :
    (input : UpsertMfaSecretInput) (env : Env) (w : World) (user : ℕ)
    → has_secret w.db.mfa_secrets user ≡ true
    → has_secret (upsert_user_mfa_secret input env w).1.db.mfa_secrets user ≡ true
unfolding upsert_user_mfa_secret
upsert_user_mfa_secret-grows input env w user h =
    let added = exists_where-append (owns_secret user) w.db.mfa_secrets (secret_row input ∷ []) h in
    let replaced =
      exists_where-update_where (owns_secret user) (owns_secret input.user_id)
        (replace_secret input) (λ m. refl) w.db.mfa_secrets in
    ground arith

upsert_user_mfa_secret-users :
    (input : UpsertMfaSecretInput) (env : Env) (w : World)
    → (upsert_user_mfa_secret input env w).1.db.users ≡ w.db.users
unfolding upsert_user_mfa_secret
upsert_user_mfa_secret-users input env w = ground arith

-- The accounts are the same, and the secrets have at least the owners they had.
abbrev KeepsOwners : Db → Db → Type 0
KeepsOwners d d' = (d'.users ≡ d.users) × Grows d.mfa_secrets d'.mfa_secrets

lock_user-reads : (user : ℕ) (env : Env) (w : World) → (lock_user user env w).1 ≡ called w
unfolding lock_user
lock_user-reads user env w = ground arith

store_setup_secret-KeepsOwners :
    (input : UpsertMfaSecretInput) (env : Env) (d : Db) (w : World)
    → KeepsOwners d w.db
    → KeepsOwners d (store_setup_secret input env w).1.db
unfolding store_setup_secret
store_setup_secret-KeepsOwners input env d w keeps =
    transaction-holds (KeepsOwners d)
      (do
        enabled ← lock_user input.user_id
        raise_if enabled mfa_already_enabled
        upsert_user_mfa_secret input)
      env w keeps
      (bind-holds (λ v. KeepsOwners d v.db) (lock_user input.user_id)
        (λ enabled. raise_if enabled mfa_already_enabled >> upsert_user_mfa_secret input) env
        (called w)
        (subst (λ v. KeepsOwners d v.db) (sym (lock_user-reads input.user_id env (called w))) keeps)
        (λ enabled v keeps'.
          bind-holds (λ v'. KeepsOwners d v'.db) (raise_if enabled mfa_already_enabled)
            (λ _. upsert_user_mfa_secret input) env v keeps'
            (λ _ v' (users, grows). (
              upsert_user_mfa_secret-users input env v' ∙ users,
              λ user h. upsert_user_mfa_secret-grows input env v' user (grows user h),
            ))))

store_key-KeepsOwners :
    (user : ℕ) (key : TotpKey) (encrypted : String) (env : Env) (d : Db) (w : World)
    → KeepsOwners d w.db
    → KeepsOwners d (store_key user key encrypted env w).1.db
unfolding store_key
store_key-KeepsOwners user key encrypted env d w keeps =
    bind-holds (λ v. KeepsOwners d v.db)
      (store_setup_secret record {
        id = env.new_uuid (w.calls + 1);
        user_id = user;
        secret_encrypted = encrypted;
        algorithm = "SHA1";
        digits = 6;
        period = 30;
        created_at = env.clock w.calls;
        updated_at = env.clock w.calls;
      })
      (λ _. pure key) env (called (called w))
      (store_setup_secret-KeepsOwners _ env d (called (called w)) keeps) (λ _ v kept. kept)

setup-KeepsOwners :
    (s : MfaService) (user : ℕ) (name : String) (env : Env) (w : World)
    → KeepsOwners w.db (setup s user name env w).1.db
unfolding setup
setup-KeepsOwners s user name env w =
    bind-holds (λ v. KeepsOwners w.db v.db) (external (λ env n. s.generate_totp s.issuer name n))
      (λ key. external (λ env n. s.encrypt key.secret n) >>= store_key user key) env w
      (refl, λ _ h. h)
      (λ key v keeps.
        bind-holds (λ v'. KeepsOwners w.db v'.db) (external (λ env n. s.encrypt key.secret n))
          (store_key user key) env v keeps
          (λ encrypted v' keeps'. store_key-KeepsOwners user key encrypted env w.db v' keeps'))

confirm-HasSecrets :
    (s : MfaService) (user : ℕ) (code : String) (env : Env) (w : World)
    → HasSecrets w.db
    → HasSecrets (confirm s user code env w).1.db
confirm-HasSecrets s user code env w h = elim (Result-cases (confirm s user code env w).0) [
  | inr (e, failed) ↦ rw (confirm-err s user code env w e failed) h
  | inl (codes, done) ↦
      let (valid, enrolled) =
        confirm-ok s user code env w (confirm s user code env w).1 codes
          (ap (λ r. (r, (confirm s user code env w).1)) done) in
      let (m, plain, stored, opened, current) = valid in
      let (u, at, n, found, free, ten, left) = enrolled in
      let owned = exists_where_of_find (owns_secret user) w.db.mfa_secrets m stored in
      rw left (
        All-update_where (HasSecret w.db.mfa_secrets) (HasSecret w.db.mfa_secrets) (has_id user)
          (with_mfa true (some at) at)
          (λ x before here on. let same : x.id ≡ user = ground arith in rw same owned)
          (λ x before elsewhere. before) w.db.users h)
]

disable-HasSecrets :
    (s : MfaService) (user : ℕ) (code : String) (env : Env) (w : World)
    → HasSecrets w.db
    → HasSecrets (disable s user code env w).1.db
disable-HasSecrets s user code env w h = elim (Result-cases (disable s user code env w).0) [
  | inr (e, failed) ↦ subst HasSecrets (sym (disable-err s user code env w e failed)) h
  | inl (tt', done) ↦
      let (v, at, verified, left) =
        disable-ok s user code env w (disable s user code env w).1
          (ap (λ r. (r, (disable s user code env w).1)) done) in
      rw left (
        All-update_where (HasSecret w.db.mfa_secrets)
          (HasSecret (delete_where (owns_secret user) w.db.mfa_secrets)) (has_id user)
          (with_mfa false none at) (λ x before here on. absurd (ground arith))
          (λ x before elsewhere on.
            exists_where-delete_where_ne (owns_secret x.id) (owns_secret user)
              (λ m mine. ground arith) w.db.mfa_secrets
            ∙ before on)
          w.db.users h)
]

-- The requests of one account after another, each with its own environment and whatever answer.
pub data Requests (s : MfaService) : World → World → Type 0 where
  start : (w : World) → Requests s w w
  after_setup :
      (w w' : World) (user : ℕ) (name : String) (env : Env)
      → Requests s w w'
      → Requests s w (setup s user name env w').1
  after_confirm :
      (w w' : World) (user : ℕ) (code : String) (env : Env)
      → Requests s w w'
      → Requests s w (confirm s user code env w').1
  after_verify :
      (w w' : World) (user : ℕ) (code : String) (env : Env)
      → Requests s w w'
      → Requests s w (verify s user code env w').1
  after_disable :
      (w w' : World) (user : ℕ) (code : String) (env : Env)
      → Requests s w w'
      → Requests s w (disable s user code env w').1

-- However the requests about second factors follow one another and whatever fails on the way, if
-- every account with a second factor had a stored secret, then every such account has one.
pub Requests-HasSecrets :
    (s : MfaService) (w w' : World) → Requests s w w' → HasSecrets w.db → HasSecrets w'.db
Requests-HasSecrets s w w' (start v) h = h
Requests-HasSecrets s w w' (after_setup v v' user name env before) h =
    let (users, grows) = setup-KeepsOwners s user name env v' in
    HasSecrets-grow v'.db (setup s user name env v').1.db users grows
      (Requests-HasSecrets s v v' before h)
Requests-HasSecrets s w w' (after_confirm v v' user code env before) h =
    confirm-HasSecrets s user code env v' (Requests-HasSecrets s v v' before h)
Requests-HasSecrets s w w' (after_verify v v' user code env before) h =
    rw (verify-view s user code env v') (Requests-HasSecrets s v v' before h)
Requests-HasSecrets s w w' (after_disable v v' user code env before) h =
    disable-HasSecrets s user code env v' (Requests-HasSecrets s v v' before h)
