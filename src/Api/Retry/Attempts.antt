-- ===== src/Api/Retry/Attempts.antt =====
-- Which attempts doWithRetry of internal/api/client.go makes.
use routestack_agent.Base.{
  ℕ, zero, suc, ◌+◌, ◌≤◌, ◌<◌, Text, true, false, ◌∷◌, none, some, ◌≡◌, ◌≢◌, ◌⊎◌, inl, inr, refl,
  ap, ◌∙◌, arith, Bool-cases, Option-cases,
}
use routestack_agent.World.{Result, Result-cases, ok, err}
use routestack_agent.Api.Retry.{
  RetryConfig, Reply, failed, replied, wait, request, Events, Server, is_retryable_status,
  is_retryable_error, delay, finish, goes_on, pause, loop, do_with_retry,
}

-- A failure that the next attempt may not meet: no answer, unless the context is done or the
-- network's error is no timeout; an answer cut off; and the answers 408, 429 and 5xx.
abbrev pub IsTransient : Reply → Type 0
IsTransient (failed f) = (f.canceled ≡ false) × (f.net_timeout ≢ some false)
IsTransient (replied status body (some e)) = Unit
IsTransient (replied status body none) = (status ≡ 408) ⊎ (status ≡ 429) ⊎ (500 ≤ status)

suc_not_zero : (n : ℕ) → ¬ (suc n ≡ 0)
suc_not_zero n h = absurd (ground arith)

module _ {A : Type 0} (method path : Text) (decode : Text → Result A) where
  goes_on-IsTransient :
      (left : ℕ) (r : Reply) → goes_on method path decode left r ≡ true → IsTransient r × (0 < left)
  unfolding goes_on is_retryable_status is_retryable_error
  goes_on-IsTransient left (failed f) h = elim (Option-cases f.net_timeout) [
    | inl e ↦ ground arith
    | inr (b, e) ↦ ground arith
  ]
  goes_on-IsTransient left (replied status body (some e)) h = ground arith
  goes_on-IsTransient left (replied status body none) h = ground arith

  IsTransient-goes_on :
      (left : ℕ) (r : Reply) → goes_on method path decode left r ≡ false → IsTransient r → left ≡ 0
  unfolding goes_on is_retryable_status is_retryable_error
  IsTransient-goes_on left (failed f) h t = elim (Option-cases f.net_timeout) [
    | inl e ↦ ground arith
    | inr (b, e) ↦ ground arith
  ]
  IsTransient-goes_on left (replied status body (some e)) h t = ground arith
  IsTransient-goes_on left (replied status body none) h t = ground arith

  module _ (S : Server) (url : Text) (cfg : RetryConfig) (start : Events) where
    -- The log when attempt `k` sends its request, all earlier ones having been answered.
    abbrev pub before : ℕ → Events
    before zero = start
    before (suc k) = wait (delay cfg.base_delay k) ∷ request ∷ before k

    -- The context was done during the delay before attempt `k`.
    abbrev pub IsCancelled : ℕ → Result A × Events → Type 0
    IsCancelled zero outcome = ⊥
    IsCancelled (suc j) outcome =
        (e : Text) × (S.done (request ∷ before j) (delay cfg.base_delay j) ≡ some e)
        × (outcome ≡ (err e, request ∷ before j))

    -- Attempt `k` decided: its answer is final, or no attempt was left.
    abbrev pub IsDecided : ℕ → Result A × Events → Type 0
    IsDecided k outcome =
        (outcome ≡ (finish method path decode (S.reply (before k)), request ∷ before k))
        × ((k ≡ cfg.max_retries) ⊎ (¬ IsTransient (S.reply (before k))))

    -- The attempts before attempt `k` met transient failures.
    abbrev pub AllTransient : ℕ → Type 0
    AllTransient zero = Unit
    AllTransient (suc k) = IsTransient (S.reply (before k)) × AllTransient k

    -- The attempts of a call: `last` is the number of the last one.
    pub record Attempts (outcome : Result A × Events) : Type 0 where
      pub last : ℕ
      pub bounded : last ≤ cfg.max_retries
      pub repeated : AllTransient last
      pub ended : IsDecided last outcome ⊎ IsCancelled last outcome

    unanswered : ℕ → Events
    unanswered zero = start
    unanswered (suc j) = request ∷ before j

    pause-before :
        (k : ℕ) (paused : Events)
        → pause method path decode S url cfg k (unanswered k) ≡ ok paused
        → paused ≡ before k
    unfolding pause unanswered
    pause-before zero paused h = ground arith
    pause-before (suc j) paused h =
        elim (Option-cases (S.done (request ∷ before j) (delay cfg.base_delay j))) [
          | inl e ↦ ground arith
          | inr (m, e) ↦ absurd (ground arith)
        ]

    pause-IsCancelled :
        (k : ℕ) (e : Text)
        → pause method path decode S url cfg k (unanswered k) ≡ err e
        → IsCancelled k (err e, unanswered k)
    unfolding pause unanswered
    pause-IsCancelled zero e h = absurd (ground arith)
    pause-IsCancelled (suc j) e h =
        elim (Option-cases (S.done (request ∷ before j) (delay cfg.base_delay j))) [
          | inl n ↦ absurd (ground arith)
          | inr (m, n) ↦ (e, ground arith, refl)
        ]

    at_loop : ℕ → ℕ → Result A × Events
    at_loop left k = loop method path decode S url cfg left k (unanswered k)

    loop-decided :
        (left k : ℕ)
        → S.new_request method url ≡ ok tt
        → pause method path decode S url cfg k (unanswered k) ≡ ok (before k)
        → goes_on method path decode left (S.reply (before k)) ≡ false
        → at_loop (suc left) k
          ≡ (finish method path decode (S.reply (before k)), request ∷ before k)
    unfolding loop at_loop
    loop-decided left k new paused stops = rw (loop, paused, new, stops) refl

    loop-repeated :
        (left k : ℕ)
        → S.new_request method url ≡ ok tt
        → pause method path decode S url cfg k (unanswered k) ≡ ok (before k)
        → goes_on method path decode left (S.reply (before k)) ≡ true
        → at_loop (suc left) k ≡ at_loop left (suc k)
    unfolding loop at_loop unanswered
    loop-repeated left k new paused goes = rw (loop, paused, new, goes) refl

    loop-cancelled :
        (left k : ℕ) (e : Text)
        → pause method path decode S url cfg k (unanswered k) ≡ err e
        → at_loop (suc left) k ≡ (err e, unanswered k)
    unfolding loop at_loop
    loop-cancelled left k e h = rw (loop, h) refl

    final :
        (left k : ℕ)
        → k + left ≡ cfg.max_retries
        → goes_on method path decode left (S.reply (before k)) ≡ false
        → (k ≡ cfg.max_retries) ⊎ (¬ IsTransient (S.reply (before k)))
    final zero k sum stops = inl (omega (arith, sum))
    final (suc left) k sum stops =
        inr λ now. suc_not_zero left (IsTransient-goes_on (suc left) (S.reply (before k)) stops now)

    -- One attempt ends the call, or the next one is made.
    abbrev IsRepeated : ℕ → ℕ → Type 0
    IsRepeated left k =
        (0 < left)
        × IsTransient (S.reply (before k))
        × (at_loop (suc left) k ≡ at_loop left (suc k))

    attempt_cases :
        (left k : ℕ)
        → S.new_request method url ≡ ok tt
        → k + left ≡ cfg.max_retries
        → AllTransient k
        → Attempts (at_loop (suc left) k) ⊎ IsRepeated left k
    attempt_cases left k new sum earlier =
        elim (Result-cases (pause method path decode S url cfg k (unanswered k))) [
          | inr (e, p) ↦ inl record {
            last = k;
            bounded = ground arith;
            repeated = earlier;
            ended = inr (rw (loop-cancelled left k e p) (pause-IsCancelled k e p));
          }
          | inl (paused, p) ↦
              let reached = p ∙ ap ok (pause-before k paused p) in
              elim (Bool-cases (goes_on method path decode left (S.reply (before k)))) [
                | inl goes ↦
                    let (now, more) = goes_on-IsTransient left (S.reply (before k)) goes in
                    inr (more, now, loop-repeated left k new reached goes)
                | inr stops ↦ inl record {
                  last = k;
                  bounded = ground arith;
                  repeated = earlier;
                  ended = inl (loop-decided left k new reached stops, final left k sum stops);
                }
              ]
        ]

    loop-Attempts :
        (left k : ℕ)
        → S.new_request method url ≡ ok tt
        → k + left ≡ cfg.max_retries
        → AllTransient k
        → Attempts (at_loop (suc left) k)
    loop-Attempts zero k new sum earlier = elim (attempt_cases zero k new sum earlier) [
      | inl done ↦ done
      | inr (more, _, _) ↦ absurd (ground arith)
    ]
    loop-Attempts (suc left) k new sum earlier = elim (attempt_cases (suc left) k new sum earlier) [
      | inl done ↦ done
      | inr (_, now, same) ↦ rw same (loop-Attempts left (suc k) new (ground arith) (now, earlier))
    ]

    -- A call whose request can be built makes attempts 0 to `last`, at most max_retries + 1 of them,
    -- with the delay base_delay * 2^j (of 64 bits) before attempt j + 1 and nothing else in between. Every answer
    -- but the last one is transient: no other answer is ever followed by a second request. The
    -- call returns what the last answer says, which is transient only when no attempt is left, or
    -- the context's error if the context is done during a delay. The call always returns.
    pub do_with_retry-Attempts :
        (body : Text)
        → S.new_request method url ≡ ok tt
        → Attempts (do_with_retry method path decode S url cfg (ok body) start)
    unfolding do_with_retry at_loop unanswered
    do_with_retry-Attempts body new = loop-Attempts cfg.max_retries 0 new (omega arith) tt
