-- ===== src/Store/Effect.antt =====
-- A request as an action on the world: it may fail at each call of the database or of another
-- service, as the environment decides, and it ends with a value or an error.
use wow_dashboard_api.Prelude.{
  ◌≡◌, ◌≢◌, refl, sym, arith, Bool-cases, true, false, ◌⊎◌, inl, inr, ℕ, ◌+◌, String, Bool, Option,
  none, some, List, ◌∷◌, if◌then◌else◌,
}
use wow_dashboard_api.Store.Schema.{Db}
use mathlib.Core.Path.{subst}

-- The sentinel errors of the domain packages, those of the services, and `internal` for every
-- other error. Wrapping by fmt.Errorf with %w keeps the sentinel.
pub data Error : Type 0 where
  user_not_found email_already_exists invalid_user_status role_not_found : Error
  refresh_token_not_found auth_token_not_found mfa_secret_not_found mfa_already_enabled : Error
  project_not_found project_name_already_exists project_member_not_found : Error
  member_already_exists member_user_not_found name_conflict role_in_use : Error
  invalid_input invalid_credentials user_disabled invalid_token : Error
  cannot_impersonate impersonation_active invalid_mfa_code session_not_found : Error
  invalid_code not_enrolling not_found forbidden member_conflict system_role : Error
  insufficient_privilege self_modification invalid_pagination invalid_uuid : Error
  internal : Error

pub data Result (A : Type 0) : Type 0 where
  ok : A → Result A
  err : Error → Result A

-- authctx.ClientInfo
pub record ClientInfo : Type 0 where
  pub user_agent : String
  pub ip_address : String

-- What a request reads from outside. The numbered answers belong to the numbered calls of one
-- run: the n-th call reads the n-th answer.
pub record Env : Type 0 where
  -- whether the call fails (a lost connection, a refused signature)
  pub fails : ℕ → Bool
  -- time.Now, truncated to microseconds
  pub clock : ℕ → ℕ
  -- uuid.New
  pub new_uuid : ℕ → ℕ
  -- 32 bytes of crypto/rand in base64, or none if they cannot be read
  pub random_token : ℕ → Option String
  -- uuid.Parse and uuid.UUID.String
  pub parse_uuid : String → Option ℕ
  pub uuid_string : ℕ → String
  -- the address that mail.ParseAddress reads
  pub parse_address : String → Option String
  -- SHA-256 in hexadecimal
  pub sha256_hex : String → String
  -- the request's context
  pub request_id : String
  pub impersonator : String
  pub client : ClientInfo

-- A message handed to the mail queue.
pub record Mail : Type 0 where
  pub recipient : String
  pub subject : String
  pub token : String

pub data Alert : Type 0 where
  password_changed mfa_enabled mfa_disabled : ℕ → Alert
  new_sign_in : ℕ → String → String → Alert

pub record World : Type 0 where
  -- the number of calls made so far
  pub calls : ℕ
  pub db : Db
  pub mails : List Mail
  pub alerts : List Alert

abbrev pub Action : Type 0 → Type 0
Action A = Env → World → Result A × World

abbrev pub called : World → World
called w = record w { calls = w.calls + 1 }

module _ {A : Type 0} where
  abbrev pub pure : A → Action A
  pure a env w = (ok a, w)

  abbrev pub raise : Error → Action A
  raise e env w = (err e, w)

  abbrev pub or_raise : Option A → Error → Action A
  or_raise none e = raise e
  or_raise (some a) e = pure a

  -- Reads the environment.
  abbrev pub asks : (Env → A) → Action A
  asks f env w = (ok (f env), w)

  -- One statement: it fails and does nothing, or it maps the database.
  abbrev pub statement : (Db → Result A × Db) → Action A
  statement f env w =
      if env.fails w.calls
      then (err Error.internal, called w)
      else (let (r, d) = f w.db in (r, record w { calls = w.calls + 1; db = d }))

  -- The same for a statement that reads the database's clock, `now()`.
  abbrev pub dated_statement : (ℕ → Db → Result A × Db) → Action A
  dated_statement f env w = statement (f (env.clock w.calls)) env w

  abbrev pub answer : Option A → Result A
  answer none = err Error.internal
  answer (some a) = ok a

  -- A call of another service that answers by its number, or fails.
  abbrev pub external : (Env → ℕ → Option A) → Action A
  external f env w = (answer (f env w.calls), called w)

  -- A reading that cannot fail.
  abbrev pub reading : (Env → ℕ → A) → Action A
  reading f env w = (ok (f env w.calls), called w)

  -- Whatever happens, the outcome is a value: for errors that are logged or told apart.
  abbrev pub attempt : Action A → Action (Result A)
  attempt m env w = let (r, w') = m env w in (ok r, w')

infixl 5 ◌>>=◌ ◌>>◌
abbrev pub ◌>>=◌ : {A B : Type 0} → Action A → (A → Action B) → Action B
◌>>=◌ m f env w = let (r, w') = m env w in elim r [ ok a ↦ f a env w' | err e ↦ (err e, w') ]

abbrev pub ◌>>◌ : {A B : Type 0} → Action A → Action B → Action B
m >> k = m >>= λ _. k

abbrev pub raise_if : Bool → Error → Action (Unit {0})
raise_if c e env w = (if c then err e else ok tt, w)

-- An outcome that was computed.
abbrev pub checked : {A : Type 0} → Result A → Action A
checked (ok a) = pure a
checked (err e) = raise e

-- The conditional between actions.
infix 1 when◌then◌else◌
abbrev pub when◌then◌else◌ : {A : Type 0} → Bool → Action A → Action A → Action A
(when c then m else k) env w = if c then m env w else k env w

-- A body inside BEGIN and COMMIT: if either fails, or the body ends with an error, the database
-- is as before.
abbrev pub finish_transaction : {A : Type 0} → Db → Env → Result A × World → Result A × World
finish_transaction d env (err e, w) = (err e, record w { calls = w.calls + 1; db = d })
finish_transaction d env (ok a, w) =
    if env.fails w.calls
    then (err Error.internal, record w { calls = w.calls + 1; db = d })
    else (ok a, called w)

abbrev pub transaction : {A : Type 0} → Action A → Action A
transaction body env w =
    if env.fails w.calls
    then (err Error.internal, called w)
    else finish_transaction w.db env (body env (called w))

-- errors.Is(err, from): `f` maps the sentinels that are told apart, and leaves every other error.
abbrev pub or_else : {A : Type 0} → (Error → Error) → Action A → Action A
or_else f m env w = let (r, w') = m env w in (elim r [ ok a ↦ ok a | err e ↦ err (f e) ], w')

-- Best-effort notices.
abbrev pub alert : Alert → Action (Unit {0})
alert a env w = (ok tt, record w { alerts = a ∷ w.alerts })

-- A message handed over for delivery.
abbrev pub deliver : Mail → Action (Unit {0})
deliver m env w =
    if env.fails w.calls
    then (err Error.internal, called w)
    else (ok tt, record w { calls = w.calls + 1; mails = m ∷ w.mails })

-- To split on an outcome and keep the equation.
pub Result-cases :
    {A : Type 0} (r : Result A) → ((a : A) × (r ≡ ok a)) ⊎ ((e : Error) × (r ≡ err e))
Result-cases (ok a) = inl (a, refl)
Result-cases (err e) = inr (e, refl)

-- A sequence that ends well: its parts end well.
pub bind-ok :
    {A B : Type 0} (m : Action A) (f : A → Action B) (env : Env) (w w' : World) (b : B)
    → (m >>= f) env w ≡ (ok b, w')
    → (a : A) × (w₁ : World) × (m env w ≡ (ok a, w₁)) × (f a env w₁ ≡ (ok b, w'))
bind-ok m f env w w' b e = elim (Result-cases (m env w).0) [
  | inr (e', failed) ↦ absurd (ground arith)
  | inl (a, done) ↦ (a, (m env w).1, ground arith, ground arith)
]

-- What a sequence keeps, if its parts keep it.
pub bind-keeps :
    {A B C : Type 0} (view : World → C) (m : Action A) (f : A → Action B) (env : Env) (w : World)
    → view (m env w).1 ≡ view w
    → ((a : A) (v : World) → view (f a env v).1 ≡ view v)
    → view ((m >>= f) env w).1 ≡ view w
bind-keeps view m f env w first rest = elim (Result-cases (m env w).0) [
  | inr (e', failed) ↦ ground arith
  | inl (a, done) ↦ let second = rest a (m env w).1 in ground arith
]

-- A transaction that fails leaves the database as it was.
pub transaction-err :
    {A : Type 0} (body : Action A) (env : Env) (w : World) (e : Error)
    → (transaction body env w).0 ≡ err e
    → (transaction body env w).1.db ≡ w.db
transaction-err body env w e h = ground arith

-- One that commits has run its body.
pub transaction-ok :
    {A : Type 0} (body : Action A) (env : Env) (w w' : World) (a : A)
    → transaction body env w ≡ (ok a, w')
    → (w₁ : World) × (body env (called w) ≡ (ok a, w₁)) × (w' ≡ called w₁)
transaction-ok body env w w' a e = elim (Result-cases (body env (called w)).0) [
  | inr (e', failed) ↦ absurd (ground arith)
  | inl (b, done) ↦ ((body env (called w)).1, ground arith, ground arith)
]

-- A sequence that fails keeps what its first part keeps and the rest keeps when it fails.
pub bind-err :
    {A B C : Type 0} (view : World → C) (m : Action A) (f : A → Action B) (env : Env) (w : World)
    (e : Error)
    → view (m env w).1 ≡ view w
    → ((a : A) (v : World) → (f a env v).0 ≡ err e → view (f a env v).1 ≡ view v)
    → ((m >>= f) env w).0 ≡ err e
    → view ((m >>= f) env w).1 ≡ view w
bind-err view m f env w e first rest h = elim (Result-cases (m env w).0) [
  | inr (e', failed) ↦ ground arith
  | inl (a, done) ↦ let second = rest a (m env w).1 in ground arith
]

-- The same where only the first part can fail.
pub bind-err_total :
    {A B C : Type 0} (view : World → C) (m : Action A) (f : A → Action B) (env : Env) (w : World)
    (e : Error)
    → ((m env w).0 ≡ err e → view (m env w).1 ≡ view w)
    → ((a : A) (v : World) → (f a env v).0 ≢ err e)
    → ((m >>= f) env w).0 ≡ err e
    → view ((m >>= f) env w).1 ≡ view w
bind-err_total view m f env w e first total h = elim (Result-cases (m env w).0) [
  | inr (e', failed) ↦ ground arith
  | inl (a, done) ↦ let never = total a (m env w).1 in absurd (ground arith)
]

-- What holds after a sequence, if its parts establish and keep it.
pub bind-holds {κ} :
    {A B : Type 0} (P : World → Type κ) (m : Action A) (f : A → Action B) (env : Env) (w : World)
    → P (m env w).1
    → ((a : A) (v : World) → P v → P (f a env v).1)
    → P ((m >>= f) env w).1
bind-holds P m f env w first rest = elim (Result-cases (m env w).0) [
  | inr (e', failed) ↦
      let stops : (m >>= f) env w ≡ (err e', (m env w).1) = ground arith in
      subst (λ r. P r.1) (sym stops) first
  | inl (a, done) ↦
      let goes_on : (m >>= f) env w ≡ f a env (m env w).1 = ground arith in
      subst (λ r. P r.1) (sym goes_on) (rest a (m env w).1 first)
]

-- What holds of the database after a transaction, whether it commits or not.
pub transaction-holds {κ} :
    {A : Type 0} (P : Db → Type κ) (body : Action A) (env : Env) (w : World)
    → P w.db
    → P (body env (called w)).1.db
    → P (transaction body env w).1.db
transaction-holds P body env w before after = elim (Result-cases (transaction body env w).0) [
  | inr (e, failed) ↦ subst P (sym (transaction-err body env w e failed)) before
  | inl (a, done) ↦
      let same : (transaction body env w).1.db ≡ (body env (called w)).1.db = ground arith in
      subst P (sym same) after
]

-- What holds after a sequence, by how its first part ends.
pub bind-cases {κ} :
    {A B : Type 0} (P : World → Type κ) (m : Action A) (f : A → Action B) (env : Env) (w : World)
    → ((e : Error) → (m env w).0 ≡ err e → P (m env w).1)
    → ((a : A) → (m env w).0 ≡ ok a → P (f a env (m env w).1).1)
    → P ((m >>= f) env w).1
bind-cases P m f env w stop go_on = elim (Result-cases (m env w).0) [
  | inr (e, failed) ↦
      let stops : (m >>= f) env w ≡ (err e, (m env w).1) = ground arith in
      subst (λ r. P r.1) (sym stops) (stop e failed)
  | inl (a, done) ↦
      let goes_on : (m >>= f) env w ≡ f a env (m env w).1 = ground arith in
      subst (λ r. P r.1) (sym goes_on) (go_on a done)
]

-- What holds after a statement, whether it fails or not.
pub statement-holds {κ} :
    {A : Type 0} (P : Db → Type κ) (f : Db → Result A × Db) (env : Env) (w : World)
    → P w.db
    → P (f w.db).1
    → P (statement f env w).1.db
statement-holds P f env w before after = elim (Bool-cases (env.fails w.calls)) [
  | inl lost ↦
      let same : (statement f env w).1.db ≡ w.db = ground arith in subst P (sym same) before
  | inr answered ↦
      let done : (statement f env w).1.db ≡ (f w.db).1 = ground arith in subst P (sym done) after
]

-- A guard that lets the request go on.
pub raise_if-ok :
    (c : Bool) (e : Error) (env : Env) (w : World) (a : Unit {0})
    → (raise_if c e env w).0 ≡ ok a
    → c ≡ false
raise_if-ok true e env w a h = absurd (ground arith)
raise_if-ok false e env w a h = refl

pub or_else-ok :
    {A : Type 0} (f : Error → Error) (m : Action A) (env : Env) (w : World) (a : A)
    → (or_else f m env w).0 ≡ ok a
    → (m env w).0 ≡ ok a
or_else-ok f m env w a h = elim (Result-cases (m env w).0) [
  | inr (e, failed) ↦ absurd (ground arith)
  | inl (b, done) ↦ ground arith
]

pub checked-holds :
    {A B : Type 0} (P : World → Type 0) (r : Result A) (f : A → Action B) (env : Env) (w : World)
    → P w
    → ((a : A) → r ≡ ok a → P (f a env w).1)
    → P ((checked r >>= f) env w).1
checked-holds P (ok a) f env w h rest = rest a refl
checked-holds P (err e) f env w h rest = h

-- How a sequence goes on.
pub bind-eq :
    {A B : Type 0} (m : Action A) (f : A → Action B) (env : Env) (w w' : World) (a : A)
    → m env w ≡ (ok a, w')
    → (m >>= f) env w ≡ f a env w'
bind-eq m f env w w' a e = ground arith
