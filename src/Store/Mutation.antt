-- ===== src/Store/Mutation.antt =====
-- How the mutations of roles and accounts end: internal/roles/service/service.go,
-- internal/users/service/service.go and the units of work of internal/store/rolesrepo and
-- internal/store/usersrepo.
use mathlib.Core.Path.{subst}
use wow_dashboard_api.Prelude.{
  ◌≡◌, refl, sym, arith, String, Bool, true, false, List, [], ◌∷◌, ◌++◌,
}
use wow_dashboard_api.Store.Schema.{Json, Db, SystemEvent}
use wow_dashboard_api.Store.Effect.{
  Action, Env, World, Error, ok, asks, reading, statement, attempt, transaction, or_else, pure,
  called, when◌then◌else◌, ◌>>=◌, ◌>>◌, bind-holds, transaction-holds,
}

-- An event before it is stored: its metadata is what json.Marshal makes of it.
pub record Event : Type 0 where
  pub event_type : String
  pub message : String
  pub metadata : List (String × Json)

-- RecordRoleEvent and RecordUserEvent: one row of system_events.
unfoldable pub record_event : Event → Action (Unit {0})
record_event event = do
  id ← reading (λ env n. env.new_uuid n)
  now ← reading (λ env n. env.clock n)
  statement λ d. (
    ok tt,
    record d {
      system_events =
          d.system_events
          ++ record {
            id = id;
            event_type = event.event_type;
            message = event.message;
            metadata = event.metadata;
            created_at = now;
          }
            ∷ [];
    },
  )

-- The write and its event in one transaction.
unfoldable pub in_unit_of_work : {A : Type 0} → Action A → (Env → A → Event) → Action A
unfolding record_event
in_unit_of_work write event =
    transaction (do a ← write; build ← asks event; record_event (build a); pure a)

-- A failure to record the event is logged, and does not fail the request.
unfoldable pub record_best_effort : Bool → Event → Action (Unit {0})
unfolding record_event
record_best_effort false event = pure tt
record_best_effort true event = do attempt (record_event event); pure tt

-- The write commits by itself, and the event follows as best effort.
unfoldable pub step_by_step : {A : Type 0} → Bool → Action A → (Env → A → Event) → Action A
unfolding record_best_effort
step_by_step audit write event = do
  a ← write
  build ← asks event
  record_best_effort audit (build a)
  pure a

record_event-view :
    (event : Event) (env : Env) (w : World)
    → (record_event event env w).1.db
      ≡ record w.db { system_events = (record_event event env w).1.db.system_events }
unfolding record_event
record_event-view event env w = ground arith

-- The end of a mutation, with a unit of work or without.
unfoldable pub commit :
    {A : Type 0}
    → Bool
    → Bool
    → (Error → Error)
    → Action A
    → Action A
    → (Env → A → Event)
    → Action A
unfolding in_unit_of_work step_by_step
commit unit_of_work audit map_error on_tx alone event =
    when unit_of_work
    then or_else map_error (in_unit_of_work on_tx event)
    else step_by_step audit (or_else map_error alone) event

-- What a record of events does not change holds after it.
pub record_event-holds :
    (P : Db → Type 0) (event : Event) (env : Env) (w : World)
    → ((d : Db) (events : List SystemEvent) → P d → P (record d { system_events = events }))
    → P w.db
    → P (record_event event env w).1.db
record_event-holds P event env w blind h =
    subst P (sym (record_event-view event env w))
      (blind w.db (record_event event env w).1.db.system_events h)

record_best_effort-holds :
    (P : Db → Type 0) (audit : Bool) (event : Event) (env : Env) (w : World)
    → ((d : Db) (events : List SystemEvent) → P d → P (record d { system_events = events }))
    → P w.db
    → P (record_best_effort audit event env w).1.db
unfolding record_best_effort
record_best_effort-holds P false event env w blind h = h
record_best_effort-holds P true event env w blind h = record_event-holds P event env w blind h

-- What the write keeps or establishes, the transaction keeps, whether it commits or not.
pub in_unit_of_work-holds :
    {A : Type 0} (P : Db → Type 0) (write : Action A) (event : Env → A → Event) (env : Env)
    (w : World)
    → ((d : Db) (events : List SystemEvent) → P d → P (record d { system_events = events }))
    → ((v : World) → v.db ≡ w.db → P (write env v).1.db)
    → P w.db
    → P (in_unit_of_work write event env w).1.db
unfolding in_unit_of_work
in_unit_of_work-holds P write event env w blind keeps h =
    transaction-holds P (write >>= λ a. asks event >>= λ build. record_event (build a) >> pure a)
      env w h
      (bind-holds (λ v. P v.db) write
        (λ a. asks event >>= λ build. record_event (build a) >> pure a) env (called w)
        (keeps (called w) refl)
        (λ a v kept.
          bind-holds (λ v'. P v'.db) (record_event (event env a)) (λ _. pure a) env v
            (record_event-holds P (event env a) env v blind kept) (λ _ v' kept'. kept')))

pub step_by_step-holds :
    {A : Type 0} (P : Db → Type 0) (audit : Bool) (write : Action A) (event : Env → A → Event)
    (env : Env) (w : World)
    → ((d : Db) (events : List SystemEvent) → P d → P (record d { system_events = events }))
    → ((v : World) → v.db ≡ w.db → P (write env v).1.db)
    → P (step_by_step audit write event env w).1.db
unfolding step_by_step
step_by_step-holds P audit write event env w blind keeps =
    bind-holds (λ v. P v.db) write
      (λ a. asks event >>= λ build. record_best_effort audit (build a) >> pure a) env w
      (keeps w refl)
      (λ a v kept.
        bind-holds (λ v'. P v'.db) (record_best_effort audit (event env a)) (λ _. pure a) env v
          (record_best_effort-holds P audit (event env a) env v blind kept) (λ _ v' kept'. kept'))

-- What both writes keep or establish, a mutation keeps.
pub commit-holds :
    {A : Type 0} (P : Db → Type 0) (unit_of_work audit : Bool) (f : Error → Error)
    (on_tx alone : Action A) (event : Env → A → Event) (env : Env) (w : World)
    → ((d : Db) (events : List SystemEvent) → P d → P (record d { system_events = events }))
    → ((v : World) → v.db ≡ w.db → P (on_tx env v).1.db)
    → ((v : World) → v.db ≡ w.db → P (alone env v).1.db)
    → P w.db
    → P (commit unit_of_work audit f on_tx alone event env w).1.db
unfolding commit
commit-holds P true audit f on_tx alone event env w blind inside outside h =
    in_unit_of_work-holds P on_tx event env w blind inside h
commit-holds P false audit f on_tx alone event env w blind inside outside h =
    step_by_step-holds P audit (or_else f alone) event env w blind outside
