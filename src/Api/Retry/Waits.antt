-- ===== src/Api/Retry/Waits.antt =====
-- How long doWithRetry of internal/api/client.go waits, and how often it asks.
use routestack_agent.Base.{
  ℕ, zero, suc, ◌+◌, ◌*◌, ◌%◌, ◌^◌, ◌≤◌, ◌<◌, Text, [], ◌∷◌, ◌≡◌, ap, arith, inl, inr,
}
use native.Mathlib.Nat.{two-pow-succ, pow-le-pow_right, mul-le-mul_left}
use routestack_agent.World.{Result, ok}
use routestack_agent.Api.Retry.{RetryConfig, wait, request, Events, Server, delay, do_with_retry}
use routestack_agent.Api.Retry.Attempts.{before, IsCancelled, do_with_retry-Attempts}

-- The sum of the delays, in nanoseconds.
abbrev pub waited : Events → ℕ
waited [] = 0
waited (wait n ∷ h) = n + waited h
waited (request ∷ h) = waited h

abbrev pub sent : Events → ℕ
sent [] = 0
sent (wait n ∷ h) = sent h
sent (request ∷ h) = suc (sent h)

wrap-small : (b p : ℕ) → b * p < 2 ^ 64 → b * (p % 2 ^ 64) % 2 ^ 64 ≡ b * p
wrap-small zero p small = omega arith
wrap-small (suc b) p small =
    let less : p < 2 ^ 64 = omega arith in
    let same : p % 2 ^ 64 ≡ p = omega arith in rw same (omega arith)

doubled : (b k : ℕ) → b * 2 ^ suc k ≡ b * 2 ^ k + b * 2 ^ k
doubled b k = rw (two-pow-succ k) (omega arith)

growing : (b k n : ℕ) → k ≤ n → b * 2 ^ k ≤ b * 2 ^ n
growing b k n less = mul-le-mul_left b (pow-le-pow_right (omega arith) less)

module _ {A : Type 0} (method path : Text) (decode : Text → Result A) (S : Server) (url : Text)
    (cfg : RetryConfig) (start : Events) where
  waited-before :
      (k : ℕ)
      → cfg.base_delay * 2 ^ k < 2 ^ 64
      → waited (before method path decode S url cfg start k) + cfg.base_delay
        ≡ waited start + cfg.base_delay * 2 ^ k
  unfolding delay
  waited-before zero small = omega arith
  waited-before (suc k) small =
      let twice = doubled cfg.base_delay k in
      let earlier = waited-before k (omega arith) in
      let now = wrap-small cfg.base_delay (2 ^ k) (omega arith) in omega arith

  sent-before : (k : ℕ) → sent (before method path decode S url cfg start k) ≡ k + sent start
  sent-before zero = omega arith
  sent-before (suc k) = omega (arith, sent-before k)

  -- A bounded number of requests, and a bounded time between them.
  pub record IsBounded (outcome : Result A × Events) : Type 0 where
    pub requests : sent outcome.1 ≤ suc cfg.max_retries + sent start
    pub time :
        waited outcome.1 + cfg.base_delay ≤ waited start + cfg.base_delay * 2 ^ cfg.max_retries

  attempt-IsBounded :
      (k : ℕ) (outcome : Result A × Events)
      → k ≤ cfg.max_retries
      → cfg.base_delay * 2 ^ cfg.max_retries < 2 ^ 64
      → outcome.1 ≡ request ∷ before method path decode S url cfg start k
      → IsBounded outcome
  attempt-IsBounded k outcome last small e =
      let grows = growing cfg.base_delay k cfg.max_retries last in
      let requests = sent-before k in
      let time = waited-before k (omega arith) in
      record { requests = rw e (omega arith); time = rw e (omega arith) }

  cancelled-IsBounded :
      (k : ℕ) (outcome : Result A × Events)
      → k ≤ cfg.max_retries
      → cfg.base_delay * 2 ^ cfg.max_retries < 2 ^ 64
      → IsCancelled method path decode S url cfg start k outcome
      → IsBounded outcome
  cancelled-IsBounded zero outcome last small cancelled = absurd cancelled
  cancelled-IsBounded (suc j) outcome last small (e, _, ends) =
      attempt-IsBounded j outcome (omega arith) small (ap (λ o. o.1) ends)

  -- If twice the last delay, base_delay * 2^max_retries, is below 2^64 and the request can be built: a call sends at most max_retries + 1 requests, and its delays add up to at most
  -- base_delay * (2^max_retries - 1).
  pub do_with_retry-IsBounded :
      (body : Text)
      → S.new_request method url ≡ ok tt
      → cfg.base_delay * 2 ^ cfg.max_retries < 2 ^ 64
      → IsBounded (do_with_retry method path decode S url cfg (ok body) start)
  do_with_retry-IsBounded body new small =
      let a = do_with_retry-Attempts method path decode S url cfg start body new in
      elim a.ended [
        | inl decided ↦ attempt-IsBounded a.last _ a.bounded small (ap (λ o. o.1) decided.0)
        | inr cancelled ↦ cancelled-IsBounded a.last _ a.bounded small cancelled
      ]
