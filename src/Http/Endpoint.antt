-- ===== src/Http/Endpoint.antt =====
-- A handler of internal/http/handlers: it runs on the world of the services and ends with a reply
-- or with an error for the client.
use wow_dashboard_api.Prelude.{
  ◌≡◌, refl, ◌⊎◌, inl, inr, String, Bool, Option, none, some, if◌then◌else◌,
}
use wow_dashboard_api.Prelude.Text.{trim_space, is_empty}
use wow_dashboard_api.Store.Effect.{Action, Env, Error, World, Result, ok, err}
use wow_dashboard_api.Http.Errors.{ApiError, for_context}

pub data Response (A : Type 0) : Type 0 where
  reply : A → Response A
  refusal : ApiError → Response A

abbrev pub Endpoint : Type 0 → Type 0
Endpoint A = Env → World → Response A × World

module _ {A : Type 0} where
  abbrev pub pure : A → Endpoint A
  pure a env w = (reply a, w)

  -- A reply that writes identifiers as texts.
  abbrev pub answer : (Env → A) → Endpoint A
  answer f env w = (reply (f env), w)

  -- An error that the handler answers itself.
  abbrev pub refuse_with : ApiError → Endpoint A
  refuse_with e env w = (refusal (for_context env e), w)

  abbrev pub or_refuse : Option A → ApiError → Endpoint A
  or_refuse none e = refuse_with e
  or_refuse (some a) e = pure a

  abbrev answered : (Error → ApiError) → Env → Result A → Response A
  answered f env (ok a) = reply a
  answered f env (err e) = refusal (for_context env (f e))

  -- A call of a service, with the function that maps its errors.
  abbrev pub call : (Error → ApiError) → Action A → Endpoint A
  call f m env w = let (r, w') = m env w in (answered f env r, w')

  -- auditctx.WithImpersonator, for the calls of `m`.
  abbrev pub as_impersonator : String → Action A → Action A
  as_impersonator id m env w =
      if is_empty (trim_space id) then m env w else m (record env { impersonator = id }) w

infixl 5 ◌>>=◌ ◌>>◌
abbrev pub ◌>>=◌ : {A B : Type 0} → Endpoint A → (A → Endpoint B) → Endpoint B
◌>>=◌ m f env w =
    let (r, w') = m env w in elim r [ reply a ↦ f a env w' | refusal e ↦ (refusal e, w') ]

abbrev pub ◌>>◌ : {A B : Type 0} → Endpoint A → Endpoint B → Endpoint B
m >> k = m >>= λ _. k

abbrev pub refuse_if : Bool → ApiError → Endpoint (Unit {0})
refuse_if c e env w = (if c then refusal (for_context env e) else reply tt, w)

pub Response-cases :
    {A : Type 0} (r : Response A) → ((a : A) × (r ≡ reply a)) ⊎ ((e : ApiError) × (r ≡ refusal e))
Response-cases (reply a) = inl (a, refl)
Response-cases (refusal e) = inr (e, refl)
