-- ===== src/RateLimiter/Pacing.antt =====
-- squad_runtime/providers/rate_limiter.py: dispatches keep their distance.
use Prim.Native.Nat.{max}
use squad_team.Prelude.{
  ℕ, ◌+◌, ◌-◌, ◌≤◌, String, ◌≡◌, refl, inl, inr, Bool-cases, Option, none, some, Option-cases, List,
  [], ◌∷◌, ◌==◌, eq_refl, ltb, or_else, if◌then◌else◌, arith,
}
use squad_team.RateLimiter.{
  ProviderRateLimitConfig, ProviderRateLimiter, Times, time_of, set_time, min_interval_until,
  cooldown_end, wait_configured, wait_before_dispatch, classify, record_provider_error,
}

time_of-set_time :
    (provider : String) (t : ℕ) (times : Times)
    → time_of provider (set_time provider t times) ≡ some t
time_of-set_time provider t [] = rw (eq_refl provider) refl
time_of-set_time provider t ((name, u) ∷ times) = elim (Bool-cases (name == provider)) [
  | inl e ↦ rw (e, e) refl
  | inr e ↦ rw (e, e) (time_of-set_time provider t times)
]

-- What happens to one provider, each so long after what came before: a dispatch is attempted, or its
-- output is reported.
pub data Request : Type 0 where
  attempt : (later : ℕ) → Request
  output : (later : ℕ) (text : String) → Request

module _ (sleep : ℕ → ℕ → ℕ) (lower : String → String) (config : ProviderRateLimitConfig)
    (provider : String) where
  -- Every dispatch comes after the attempt, and not before the earliest time that the dispatch before
  -- it and the signals since allow.
  pub Paced : (earliest now : ℕ) → ProviderRateLimiter → List Request → Type 0
  Paced earliest now l [] = Unit
  Paced earliest now l (attempt later ∷ requests) =
      let (wait, l', at) = wait_before_dispatch sleep lower provider (now + later) l in
      (earliest ≤ at) × (now + later ≤ at) × Paced (at + config.min_interval) at l' requests
  Paced earliest now l (output later text ∷ requests) =
      let (signal, l') = record_provider_error sleep lower provider text (now + later) l in
      Paced
        (if signal.is_rate_limited then max earliest (now + later + signal.cooldown) else earliest)
        (now + later) l' requests

  -- What the limiter remembers covers the earliest time.
  abbrev Covers : ℕ → ProviderRateLimiter → Type 0
  Covers earliest l =
      earliest
      ≤ max
          (elim (time_of provider l.last_dispatch_at) [
            | none ↦ 0
            | some t ↦ t + config.min_interval
          ])
          (or_else (time_of provider l.cooldown_until) 0)

  -- The time at which a dispatch is let through.
  released :
      (earliest interval cooldown now woken : ℕ)
      → earliest ≤ max interval cooldown
      → now + (max interval cooldown - now) ≤ woken
      → (earliest ≤ (if ltb 0 (max interval cooldown - now) then woken else now))
        × (now ≤ (if ltb 0 (max interval cooldown - now) then woken else now))
  released earliest interval cooldown now woken covers slept = (ground arith, ground arith)

  waits :
      (earliest now : ℕ) (l : ProviderRateLimiter)
      → ((wait from : ℕ) → from + wait ≤ sleep wait from)
      → Covers earliest l
      → (earliest ≤ (wait_configured sleep lower config provider now l).2)
        × (now ≤ (wait_configured sleep lower config provider now l).2)
  unfolding wait_configured
  waits earliest now l sleeps covers =
      released earliest (min_interval_until sleep lower config provider now l)
        (cooldown_end sleep lower provider now l) now _
        (reach (time_of provider l.last_dispatch_at) (time_of provider l.cooldown_until) covers)
        (sleeps _ now)
    where
      reach :
          (last cool : Option ℕ)
          → earliest
            ≤ max (elim last [ none ↦ 0 | some t ↦ t + config.min_interval ]) (or_else cool 0)
          → earliest
            ≤ max (elim last [ none ↦ now | some t ↦ t + config.min_interval ]) (or_else cool now)
      reach none none h = ground arith
      reach none (some c) h = ground arith
      reach (some t) none h = ground arith
      reach (some t) (some c) h = h

  -- With a sleeper that does not return early, every dispatch of a provider that has a configuration
  -- comes after its attempt, at least the interval of the configuration after the dispatch before it,
  -- and after the cooldown of every rate-limit signal that was reported before it. The time from
  -- which dispatches are allowed at first is one that the limiter remembers.
  pub dispatches-Paced :
      (requests : List Request) (earliest now : ℕ) (l : ProviderRateLimiter)
      → ((wait from : ℕ) → from + wait ≤ sleep wait from)
      → time_of provider l.configs ≡ some config
      → Covers earliest l
      → Paced earliest now l requests
  unfolding Paced wait_before_dispatch wait_configured record_provider_error
  dispatches-Paced [] earliest now l sleeps known covers = tt
  dispatches-Paced (attempt later ∷ requests) earliest now l sleeps known covers =
      let (late, after) = waits earliest (now + later) l sleeps covers in
      rw (known, wait_before_dispatch)
        (
          late,
          after,
          dispatches-Paced requests _ _ _ sleeps known
              (rw (time_of-set_time provider) (ground arith)),
        )
  dispatches-Paced (output later text ∷ requests) earliest now l sleeps known covers =
      rw (known, record_provider_error)
        (elim (Option-cases (classify config (lower text))) [
          | inl e ↦ rw e (dispatches-Paced requests earliest (now + later) l sleeps known covers)
          | inr ((code, cooldown, reason), e) ↦ rw e (
              dispatches-Paced requests _ _ _ sleeps known
                (rw (time_of-set_time provider) (ground (arith, covers))))
        ])
