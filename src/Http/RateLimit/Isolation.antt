-- ===== src/Http/RateLimit/Isolation.antt =====
-- Whose requests count against whom: Allow of internal/http/middleware/ratelimit.go.
use text.Mathlib.TextEquality.{eq_iff}
use wow_dashboard_api.Prelude.{
  ℕ, ◌-◌, ◌≡◌, refl, sym, ap, ◌∙◌, inl, inr, String, Bool, true, false, Option, some, none, List,
  [], ◌∷◌, ltb, str_eq, if◌then◌else◌, Bool-cases,
}
use mathlib.Core.Path.{subst}
use wow_dashboard_api.Http.RateLimit.{
  Buckets, Addresses, RateLimitClient, IpRateLimiter, client_ip_key, prune_if_due, prune_locked,
  is_prune_due, kept, bucket_of, allow_key, allow,
}

-- A request: its address, when the limiter looks for the bucket, and when it asks the bucket.
pub record Visit : Type 0 where
  pub remote_addr : String
  pub now : ℕ
  pub at : ℕ

abbrev pub is_from : Addresses → String → Visit → Bool
is_from net key v = str_eq key (client_ip_key net v.remote_addr)

-- Whether the limiter keeps what was used at a time.
abbrev pub IsRecent : ℕ → ℕ → Option ℕ → Type 0
IsRecent ttl now none = Unit {0}
IsRecent ttl now (some seen) = ltb ttl (now - seen) ≡ false

abbrev pub seen_of : {B : Type 0} → Option (RateLimitClient B) → Option ℕ
seen_of none = none
seen_of (some c) = some c.last_seen

module _ {B : Type 0} (lib : Buckets B) (net : Addresses) (key : String) where
  -- The answers to the requests from one address, among all requests.
  unfoldable pub answers : List Visit → IpRateLimiter B → List Bool
  answers [] l = []
  answers (v ∷ vs) l =
      let (allowed, l') = allow lib net v.remote_addr v.now v.at l in
      let rest = answers vs l' in if is_from net key v then allowed ∷ rest else rest

  -- What one bucket answers to these requests.
  unfoldable pub bucket_answers : List Visit → B → List Bool
  bucket_answers [] b = []
  bucket_answers (v ∷ vs) b =
      let (allowed, b') = lib.allow v.at b in
      let served = bucket_answers vs b' in
      let skipped = bucket_answers vs b in if is_from net key v then allowed ∷ served else skipped

  -- Every request from the address finds the bucket, if it has one, no longer unused than the limiter
  -- keeps it, and so does every other request meanwhile.
  abbrev pub IsSteady : ℕ → Option ℕ → List Visit → Type 0
  IsSteady ttl seen [] = Unit {0}
  IsSteady ttl seen (v ∷ vs) =
      IsRecent ttl v.now seen × IsSteady ttl (if is_from net key v then some v.now else seen) vs

  kept_recent :
      (ttl now : ℕ) (held : Option (RateLimitClient B))
      → IsRecent ttl now (seen_of held)
      → kept ttl now held ≡ held
  kept_recent ttl now none recent = refl
  kept_recent ttl now (some c) recent = rw recent refl

  prune_if_due-kept :
      (now : ℕ) (l : IpRateLimiter B)
      → IsRecent l.ttl now (seen_of (l.clients key))
      → (prune_if_due now l).clients key ≡ l.clients key
  unfolding prune_if_due prune_locked
  prune_if_due-kept now l recent = elim (Bool-cases (is_prune_due now l)) [
    | inl due ↦ rw due (kept_recent l.ttl now (l.clients key) recent)
    | inr later ↦ rw later refl
  ]

  prune_if_due-fresh : (now : ℕ) (l : IpRateLimiter B) → (prune_if_due now l).fresh ≡ l.fresh
  unfolding prune_if_due prune_locked
  prune_if_due-fresh now l = elim (Bool-cases (is_prune_due now l)) [
    | inl due ↦ rw due refl
    | inr later ↦ rw later refl
  ]

  allow_enabled :
      (addr : String) (now at : ℕ) (l : IpRateLimiter B)
      → l.enabled ≡ true
      → allow lib net addr now at l ≡ allow_key lib (client_ip_key net addr) now at l
  unfolding allow
  allow_enabled addr now at l on =
      ap (λ b. if b then allow_key lib (client_ip_key net addr) now at l else (true, l)) on

  allow_key-enabled :
      (own : String) (now at : ℕ) (l : IpRateLimiter B)
      → (allow_key lib own now at l).1.enabled ≡ l.enabled
  unfolding allow_key prune_if_due prune_locked
  allow_key-enabled own now at l = elim (Bool-cases (is_prune_due now l)) [
    | inl due ↦ rw due refl
    | inr later ↦ rw later refl
  ]

  allow_key-ttl :
      (own : String) (now at : ℕ) (l : IpRateLimiter B) → (allow_key lib own now at l).1.ttl ≡ l.ttl
  unfolding allow_key prune_if_due prune_locked
  allow_key-ttl own now at l = elim (Bool-cases (is_prune_due now l)) [
    | inl due ↦ rw due refl
    | inr later ↦ rw later refl
  ]

  allow_key-fresh :
      (own : String) (now at : ℕ) (l : IpRateLimiter B)
      → (allow_key lib own now at l).1.fresh ≡ l.fresh
  unfolding allow_key
  allow_key-fresh own now at l = prune_if_due-fresh now l

  -- A request from another address leaves the bucket as it is.
  allow_key-other :
      (own : String) (now at : ℕ) (l : IpRateLimiter B)
      → IsRecent l.ttl now (seen_of (l.clients key))
      → str_eq key own ≡ false
      → (allow_key lib own now at l).1.clients key ≡ l.clients key
  unfolding allow_key
  allow_key-other own now at l recent other = rw other (prune_if_due-kept now l recent)

  bucket_found :
      (own : String) (now : ℕ) (l : IpRateLimiter B)
      → IsRecent l.ttl now (seen_of (l.clients key))
      → key ≡ own
      → bucket_of (prune_if_due now l) ((prune_if_due now l).clients own)
        ≡ bucket_of l (l.clients key)
  bucket_found own now l recent same =
      ap (λ k. bucket_of (prune_if_due now l) ((prune_if_due now l).clients k)) (sym same)
      ∙ ap (bucket_of (prune_if_due now l)) (prune_if_due-kept now l recent)
      ∙ same_fresh (l.clients key)
    where
      same_fresh :
          (held : Option (RateLimitClient B))
          → bucket_of (prune_if_due now l) held ≡ bucket_of l held
      same_fresh none = prune_if_due-fresh now l
      same_fresh (some c) = refl

  -- A request from the address asks the bucket.
  allow_key-own :
      (own : String) (now at : ℕ) (l : IpRateLimiter B)
      → IsRecent l.ttl now (seen_of (l.clients key))
      → str_eq key own ≡ true
      → ((allow_key lib own now at l).0 ≡ (lib.allow at (bucket_of l (l.clients key))).0)
        × ((allow_key lib own now at l).1.clients key
            ≡ some record {
              limiter = (lib.allow at (bucket_of l (l.clients key))).1;
              last_seen = now;
            })
  unfolding allow_key
  allow_key-own own now at l recent mine =
      let found = bucket_found own now l recent ((eq_iff key own).0 mine) in
      rw mine (
        ap (λ b. (lib.allow at b).0) found,
        ap (λ b. some record { limiter = (lib.allow at b).1; last_seen = now }) found,
      )

  -- Where the limiter is enabled, and while an address asks often enough for its bucket to be kept:
  -- the answers to its requests are those of one bucket that only its requests reach, the one that
  -- the limiter holds for it or a new one, whatever other addresses send meanwhile, and however
  -- many they are.
  pub answers-bucket_answers :
      (vs : List Visit) (l : IpRateLimiter B)
      → l.enabled ≡ true
      → IsSteady l.ttl (seen_of (l.clients key)) vs
      → answers vs l ≡ bucket_answers vs (bucket_of l (l.clients key))
  unfolding answers bucket_answers
  answers-bucket_answers [] l on steady = refl
  answers-bucket_answers (v ∷ vs) l on steady =
      let own : String = client_ip_key net v.remote_addr in
      let b : B = bucket_of l (l.clients key) in
      let l' : IpRateLimiter B = (allow_key lib own v.now v.at l).1 in
      let called = allow_enabled v.remote_addr v.now v.at l on in
      let on' : l'.enabled ≡ true = allow_key-enabled own v.now v.at l ∙ on in
      let same_ttl = sym (allow_key-ttl own v.now v.at l) in
      elim (Bool-cases (str_eq key own)) [
        | inl mine ↦
            let (answered, held) = allow_key-own own v.now v.at l steady.0 mine in
            let next : IsSteady l.ttl (some v.now) vs =
              subst (λ t. IsSteady l.ttl (if t then some v.now else seen_of (l.clients key)) vs)
                mine steady.1 in
            let rest = answers-bucket_answers vs l' on' (
              subst (λ t. IsSteady t (seen_of (l'.clients key)) vs) same_ttl
                (subst (λ h. IsSteady l.ttl (seen_of h) vs) (sym held) next)) in
            rw called (
              rw mine (
                ap (λ a. a ∷ answers vs l') answered
                ∙ ap (λ bs. (lib.allow v.at b).0 ∷ bs)
                    (rest ∙ ap (λ h. bucket_answers vs (bucket_of l' h)) held)))
        | inr other ↦
            let held = allow_key-other own v.now v.at l steady.0 other in
            let next : IsSteady l.ttl (seen_of (l.clients key)) vs =
              subst (λ t. IsSteady l.ttl (if t then some v.now else seen_of (l.clients key)) vs)
                other steady.1 in
            let rest = answers-bucket_answers vs l' on' (
              subst (λ t. IsSteady t (seen_of (l'.clients key)) vs) same_ttl
                (subst (λ h. IsSteady l.ttl (seen_of h) vs) (sym held) next)) in
            rw called (
              rw other (
                rest
                ∙ ap (λ h. bucket_answers vs (bucket_of l' h)) held
                ∙ ap (bucket_answers vs) (same_bucket own v.now v.at l (l.clients key))))
      ]
    where
      same_bucket :
          (own : String) (now at : ℕ) (l : IpRateLimiter B) (held : Option (RateLimitClient B))
          → bucket_of (allow_key lib own now at l).1 held ≡ bucket_of l held
      same_bucket own now at l none = allow_key-fresh own now at l
      same_bucket own now at l (some c) = refl
