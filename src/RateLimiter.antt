-- ===== src/RateLimiter.antt =====
-- squad_runtime/providers/rate_limiter.py. Times are natural numbers of one unit, which is as fine as
-- one likes; the clock's readings and what happens while it sleeps come from outside.
pub mod Pacing
mod Tests
use Prim.Native.Nat.{max}
use squad_team.Prelude.{
  ℕ, ◌+◌, ◌-◌, ◌≤◌, String, Bool, true, false, ◌||◌, Option, none, some, List, [], ◌∷◌, ◌==◌, any,
  find?, leb, ltb, or_else, if◌then◌else◌,
}

pub record ProviderRateLimitConfig : Type 0 where
  pub min_interval : ℕ
  pub cooldown_429 : ℕ
  pub cooldown_529 : ℕ
  pub max_rate_limit_retries : ℕ

pub record ProviderRateLimitWait : Type 0 where
  pub provider : String
  pub waited : ℕ
  pub reason : Option String

pub record ProviderRateLimitSignal : Type 0 where
  pub provider : String
  pub is_rate_limited : Bool
  pub status_code : Option ℕ
  pub cooldown : ℕ
  pub reason : Option String

-- A dictionary of times by provider.
abbrev pub Times : Type 0
Times = List (String × ℕ)

abbrev pub time_of {ℓ} : {A : Type ℓ} → String → List (String × A) → Option A
time_of provider [] = none
time_of provider ((name, t) ∷ times) = if name == provider then some t else time_of provider times

abbrev pub set_time : String → ℕ → Times → Times
set_time provider t [] = (provider, t) ∷ []
set_time provider t ((name, u) ∷ times) =
    if name == provider then (name, t) ∷ times else (name, u) ∷ set_time provider t times

-- The limiter with the clock it reads; `now` is the time at which the next call is made.
pub record ProviderRateLimiter : Type 0 where
  pub configs : List (String × ProviderRateLimitConfig)
  pub last_dispatch_at : Times
  pub cooldown_until : Times

abbrev pub mentions : String → List String → Bool
mentions output = any (λ term. elim (find? output term) [ none ↦ false | some i ↦ true ])

-- What the output of a provider says: the status code, the cooldown and the reason.
unfoldable pub classify : ProviderRateLimitConfig → String → Option (ℕ × ℕ × String)
classify config normalized =
    if mentions normalized
      ("429" ∷ "rate limit" ∷ "rate_limit" ∷ "temporarily limiting requests" ∷ [])
    then some (429, config.cooldown_429, "rate_limit")
    else if mentions normalized ("529" ∷ "overloaded" ∷ [])
    then some (529, config.cooldown_529, "overloaded")
    else none

module _ (sleep : ℕ → ℕ → ℕ) (lower : String → String) where
  -- Until when a dispatch at `now` has to wait for the interval, and for the cooldown.
  abbrev pub min_interval_until : ProviderRateLimitConfig → String → ℕ → ProviderRateLimiter → ℕ
  min_interval_until config provider now l = elim (time_of provider l.last_dispatch_at) [
    | none ↦ now
    | some t ↦ t + config.min_interval
  ]

  abbrev pub cooldown_end : String → ℕ → ProviderRateLimiter → ℕ
  cooldown_end provider now l = or_else (time_of provider l.cooldown_until) now

  -- The wait of a provider with a configuration. `sleep wait now` is the time when the sleeper
  -- returns. The last part of the result is the time of the dispatch.
  unfoldable pub wait_configured :
      ProviderRateLimitConfig
      → String
      → ℕ
      → ProviderRateLimiter
      → ProviderRateLimitWait × ProviderRateLimiter × ℕ
  wait_configured config provider now l =
      let interval = min_interval_until config provider now l in
      let cooldown = cooldown_end provider now l in
      let wait = max interval cooldown - now in
      let at = if ltb 0 wait then sleep wait now else now in
      (
        record {
          provider = provider;
          waited = wait;
          reason =
              if ltb 0 wait
              then some (if leb interval cooldown then "cooldown" else "min_interval")
              else none;
        },
        record l { last_dispatch_at = set_time provider at l.last_dispatch_at },
        at,
      )

  unfoldable pub wait_before_dispatch :
      String → ℕ → ProviderRateLimiter → ProviderRateLimitWait × ProviderRateLimiter × ℕ
  unfolding wait_configured
  wait_before_dispatch provider now l = elim (time_of provider l.configs) [
    | none ↦ (record { provider = provider; waited = 0; reason = none }, l, now)
    | some config ↦ wait_configured config provider now l
  ]

  abbrev unlimited : String → ProviderRateLimitSignal
  unlimited provider = record {
    provider = provider;
    is_rate_limited = false;
    status_code = none;
    cooldown = 0;
    reason = none;
  }

  unfoldable pub record_provider_error :
      String → String → ℕ → ProviderRateLimiter → ProviderRateLimitSignal × ProviderRateLimiter
  unfolding classify
  record_provider_error provider output now l = elim (time_of provider l.configs) [
    | none ↦ (unlimited provider, l)
    | some config ↦ elim (classify config (lower output)) [
      | none ↦ (unlimited provider, l)
      | some (code, cooldown, reason) ↦ (
        record {
          provider = provider;
          is_rate_limited = true;
          status_code = some code;
          cooldown = cooldown;
          reason = some reason;
        },
        record l {
          cooldown_until =
              set_time provider
                (max (or_else (time_of provider l.cooldown_until) 0) (now + cooldown))
                l.cooldown_until;
        },
      )
    ]
  ]

unfoldable pub retry_limit : String → ProviderRateLimiter → ℕ
retry_limit provider l = elim (time_of provider l.configs) [
  | none ↦ 0
  | some c ↦ c.max_rate_limit_retries
]
