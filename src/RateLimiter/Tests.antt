-- ===== src/RateLimiter/Tests.antt =====
-- Two dispatches with a rate-limit signal between them.
use squad_team.Prelude.{◌+◌, refl, List, [], ◌∷◌, arith}
use squad_team.RateLimiter.{ProviderRateLimitConfig, ProviderRateLimiter}
use squad_team.RateLimiter.Pacing.{Request, attempt, output, Paced, dispatches-Paced}

abbrev slow : ProviderRateLimitConfig
slow = record {
  min_interval = 30;
  cooldown_429 = 60;
  cooldown_529 = 30;
  max_rate_limit_retries = 1;
}

abbrev limiter : ProviderRateLimiter
limiter = record { configs = ("claude_cli", slow) ∷ []; last_dispatch_at = []; cooldown_until = [] }

abbrev requests : List Request
requests = attempt 5 ∷ output 1 "error 429" ∷ attempt 0 ∷ []

dispatches-Paced_example :
    Paced (λ wait from. from + wait) (λ s. s) slow "claude_cli" 0 0 limiter requests
dispatches-Paced_example =
    dispatches-Paced (λ wait from. from + wait) (λ s. s) slow "claude_cli" requests 0 0 limiter
      (λ wait from. omega arith) refl (omega arith)
