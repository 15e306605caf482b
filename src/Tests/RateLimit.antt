-- ===== src/Tests/RateLimit.antt =====
-- The limit of requests by address on concrete inputs.
use wow_dashboard_api.Prelude.{
  ℕ, ◌-◌, ◌≡◌, refl, true, false, none, List, [], ◌∷◌, ◌==◌, if◌then◌else◌,
}
use wow_dashboard_api.Lists.Pagination.{pos}
use wow_dashboard_api.Http.RateLimit.{
  RateLimitConfig, Buckets, Addresses, IpRateLimiter, new_ip_rate_limiter, minute, client_ip_key,
}
use wow_dashboard_api.Http.RateLimit.Isolation.{
  Visit, answers, bucket_answers, answers-bucket_answers,
}

-- A bucket that is never filled again.
abbrev counters : Buckets ℕ
counters = record {
  new_limiter = λ requests window burst. burst;
  allow = λ at left. if left == 0 then (false, 0) else (true, left - 1);
}

abbrev plain : Addresses
plain = record { host_of = λ addr. none; ip_of = λ host. none }

abbrev config : RateLimitConfig
config = record { enabled = true; requests = pos 10; window = pos minute; burst = pos 2 }

abbrev limiter : IpRateLimiter ℕ
unfolding new_ip_rate_limiter
limiter = new_ip_rate_limiter counters config

abbrev visits : List Visit
visits =
    record { remote_addr = "192.0.2.1"; now = 1; at = 1 }
    ∷ record { remote_addr = "192.0.2.7"; now = 2; at = 2 }
    ∷ record { remote_addr = "192.0.2.1"; now = 3; at = 3 }
    ∷ record { remote_addr = "192.0.2.8"; now = 4; at = 4 }
    ∷ record { remote_addr = " 192.0.2.1"; now = 5; at = 5 }
    ∷ []

answers-bucket_answers_example :
    answers counters plain "192.0.2.1" visits limiter
    ≡ bucket_answers counters plain "192.0.2.1" visits 2
unfolding limiter client_ip_key
answers-bucket_answers_example =
    answers-bucket_answers counters plain "192.0.2.1" visits limiter refl
      (tt, (refl, (refl, (refl, (refl, tt)))))

third_refused : answers counters plain "192.0.2.1" visits limiter ≡ true ∷ true ∷ false ∷ []
unfolding answers client_ip_key wow_dashboard_api.Http.RateLimit.allow limiter
third_refused = refl
