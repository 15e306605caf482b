-- ===== src/Http/RateLimit.antt =====
-- The limit of requests by address: internal/http/middleware/ratelimit.go. A bucket of
-- golang.org/x/time/rate is a parameter. Times and durations are in nanoseconds.
pub mod Isolation
use wow_dashboard_api.Prelude.{
  ℕ, ◌-◌, String, Bool, true, not, ◌==◌, Option, none, some, ltb, leb, str_eq, is_some,
  if◌then◌else◌,
}
use wow_dashboard_api.Prelude.Text.{trim_space, is_empty}
use wow_dashboard_api.Lists.Pagination.{ℤ, pos, negsuc, int_product}
use wow_dashboard_api.Http.Errors.{new_error, code_rate_limited}
use wow_dashboard_api.Http.Endpoint.{Endpoint, refuse_with}

pub record RateLimitConfig : Type 0 where
  pub enabled : Bool
  pub requests : ℤ
  pub window : ℤ
  pub burst : ℤ

-- A bucket: rate.NewLimiter, from the requests of a window and the burst, and Allow at a time.
pub record Buckets (B : Type 0) : Type 0 where
  pub new_limiter : ℕ → ℕ → ℕ → B
  pub allow : ℕ → B → Bool × B

-- net.SplitHostPort, the host, and net.ParseIP, as the text of the address.
pub record Addresses : Type 0 where
  pub host_of : String → Option String
  pub ip_of : String → Option String

pub record RateLimitClient (B : Type 0) : Type 0 where
  pub limiter : B
  pub last_seen : ℕ

-- `last_prune` is empty at the zero time, which is further away than any duration.
pub record IpRateLimiter (B : Type 0) : Type 0 where
  pub enabled : Bool
  pub fresh : B
  pub ttl : ℕ
  pub clients : String → Option (RateLimitClient B)
  pub last_prune : Option ℕ

abbrev pub minute : ℕ
minute = 60_000_000_000

abbrev pub positive_or : ℕ → ℤ → ℕ
positive_or fallback (pos n) = if n == 0 then fallback else n
positive_or fallback (negsuc n) = fallback

abbrev pub max_duration : ℤ → ℕ → ℕ
max_duration (pos a) b = if ltb b a then a else b
max_duration (negsuc a) b = b

unfoldable pub client_ip_key : Addresses → String → String
unfolding trim_space
client_ip_key net remote_addr =
    let addr = trim_space remote_addr in
    if is_empty addr
    then "unknown"
    else parse_ip (elim (net.host_of addr) [ none ↦ addr | some host ↦ host ])
  where
    parse_ip : String → String
    parse_ip host = elim (net.ip_of host) [ none ↦ host | some ip ↦ ip ]

module _ {B : Type 0} where
  unfoldable pub new_ip_rate_limiter : Buckets B → RateLimitConfig → IpRateLimiter B
  new_ip_rate_limiter lib cfg =
      let requests = positive_or 1 cfg.requests in
      let window = positive_or minute cfg.window in
      record {
        enabled = cfg.enabled;
        fresh = lib.new_limiter requests window (positive_or requests cfg.burst);
        ttl = max_duration (int_product 2 window) minute;
        clients = λ key. none;
        last_prune = none;
      }

  abbrev pub is_stale : ℕ → ℕ → RateLimitClient B → Bool
  is_stale ttl now client = ltb ttl (now - client.last_seen)

  abbrev pub kept : ℕ → ℕ → Option (RateLimitClient B) → Option (RateLimitClient B)
  kept ttl now none = none
  kept ttl now (some client) = if is_stale ttl now client then none else some client

  unfoldable pub prune_locked : ℕ → IpRateLimiter B → IpRateLimiter B
  prune_locked now l = record l { clients = λ key. kept l.ttl now (l.clients key) }

  abbrev pub is_prune_due : ℕ → IpRateLimiter B → Bool
  is_prune_due now l = elim l.last_prune [ none ↦ true | some last ↦ leb l.ttl (now - last) ]

  unfoldable pub prune_if_due : ℕ → IpRateLimiter B → IpRateLimiter B
  unfolding prune_locked
  prune_if_due now l =
      if is_prune_due now l then (record (prune_locked now l) { last_prune = some now }) else l

  abbrev pub bucket_of : IpRateLimiter B → Option (RateLimitClient B) → B
  bucket_of l none = l.fresh
  bucket_of l (some client) = client.limiter

  abbrev pub put_client :
      String
      → RateLimitClient B
      → (String → Option (RateLimitClient B))
      → String
      → Option (RateLimitClient B)
  put_client key client clients other = if str_eq other key then some client else clients other

  -- What Allow does with an address's key: at `now` it finds the bucket, and at `at` it asks it.
  unfoldable pub allow_key : Buckets B → String → ℕ → ℕ → IpRateLimiter B → Bool × IpRateLimiter B
  unfolding prune_if_due
  allow_key lib key now at l =
      let pruned = prune_if_due now l in
      let (allowed, bucket) = lib.allow at (bucket_of pruned (pruned.clients key)) in
      (
        allowed,
        record pruned {
          clients = put_client key (record { limiter = bucket; last_seen = now }) pruned.clients;
        },
      )

  unfoldable pub allow :
      Buckets B → Addresses → String → ℕ → ℕ → IpRateLimiter B → Bool × IpRateLimiter B
  unfolding allow_key client_ip_key
  allow lib net remote_addr now at l =
      if l.enabled then allow_key lib (client_ip_key net remote_addr) now at l else (true, l)

  -- AuthRateLimit, with the handler that it guards.
  unfoldable pub auth_rate_limit :
      {A : Type 0}
      → Buckets B
      → Addresses
      → String
      → ℕ
      → ℕ
      → IpRateLimiter B
      → Endpoint A
      → Endpoint A × IpRateLimiter B
  unfolding allow
  auth_rate_limit lib net remote_addr now at l next =
      let (allowed, l') = allow lib net remote_addr now at l in
      (
        if allowed
            then next
            else refuse_with (
                new_error code_rate_limited
                  "Too many authentication attempts. Please try again later."),
        l',
      )
