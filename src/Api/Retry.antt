-- ===== src/Api/Retry.antt =====
-- doWithRetry of internal/api/client.go. The control plane, the network and the context of the call
-- are the fields of `Server`.
pub mod Attempts
pub mod Waits
use routestack_agent.Base.{
  ℕ, zero, suc, ◌+◌, ◌*◌, ◌%◌, ◌^◌, Text, Bool, true, false, List, ◌∷◌, ◌++◌, Option, none, some,
  codes, ltb, leb, ◌==◌, ◌||◌, ◌&&◌, not, decimal, if◌then◌else◌,
}
use routestack_agent.World.{Result, ok, err}

-- RetryConfig; BaseDelay counts nanoseconds.
pub record RetryConfig : Type 0 where
  pub max_retries : ℕ
  pub base_delay : ℕ

-- DefaultRetryConfig
abbrev pub default_retry_config : RetryConfig
default_retry_config = record { max_retries = 5; base_delay = 1000000000 }

-- An error of http.Client.Do: whether it is context.Canceled or context.DeadlineExceeded, and
-- what Timeout() says if it is a net.Error.
pub record Failure : Type 0 where
  pub canceled : Bool
  pub net_timeout : Option Bool
  pub message : Text

pub data Reply : Type 0 where
  failed : Failure → Reply
  -- status, what was read of the body, the error of reading it
  replied : ℕ → Text → Option Text → Reply

-- What a call does, as its environment sees it.
pub data Event : Type 0 where
  wait : ℕ → Event
  request : Event

-- The events so far, the last one first.
abbrev pub Events : Type 0
Events = List Event

pub record Server : Type 0 where
  -- http.NewRequestWithContext
  pub new_request : Text → Text → Result (Unit {0})
  -- the answer to a request
  pub reply : Events → Reply
  -- ctx.Err() when the context is done before the delay is over
  pub done : Events → ℕ → Option Text

-- isRetryableStatus
unfoldable pub is_retryable_status : ℕ → Bool
is_retryable_status code = if leb 500 code then true else code == 408 || code == 429

-- isRetryableError
unfoldable pub is_retryable_error : Failure → Bool
is_retryable_error f =
    if f.canceled then false else elim f.net_timeout [ some timeout ↦ timeout | none ↦ true ]

-- HTTPError.Error
unfoldable pub http_error : ℕ → Text → Text
http_error status body = codes "http " ++ decimal status ++ codes ": " ++ body

-- cfg.BaseDelay * time.Duration(1<<(attempt-1)), of 64 bits, before attempt k + 1
unfoldable pub delay : ℕ → ℕ → ℕ
delay base k = base * (2 ^ k % 2 ^ 64) % 2 ^ 64

module _ {A : Type 0} (method path : Text) (decode : Text → Result A) where
  -- The end of an attempt that is not repeated.
  unfoldable pub finish : Reply → Result A
  finish (failed f) =
      err (codes "request " ++ method ++ codes " " ++ path ++ codes ": " ++ f.message)
  finish (replied status body (some e)) = err (codes "read response body: " ++ e)
  finish (replied status body none) =
      if leb 400 status
      then err (http_error status body)
      else elim (decode body) [ ok a ↦ ok a | err e ↦ err (codes "unmarshal response: " ++ e) ]

  -- The tests that lead to `continue`, when there are `left` more attempts.
  unfoldable pub goes_on : ℕ → Reply → Bool
  goes_on left (failed f) = is_retryable_error f && ltb 0 left
  goes_on left (replied status body (some e)) = ltb 0 left
  goes_on left (replied status body none) = is_retryable_status status && ltb 0 left

  module _ (S : Server) (url : Text) (cfg : RetryConfig) where
    -- The select before attempt `k`: the delay, unless the context is done first.
    unfoldable pub pause : ℕ → Events → Result Events
    pause zero h = ok h
    pause (suc k) h = elim (S.done h (delay cfg.base_delay k)) [
      | some e ↦ err e
      | none ↦ ok (wait (delay cfg.base_delay k) ∷ h)
    ]

    -- The loop from attempt `k` on, with at most the given number of attempts.
    unfoldable pub loop : ℕ → ℕ → Events → Result A × Events
    loop zero k h = (
      err (
          codes "request "
          ++ method
          ++ codes " "
          ++ path
          ++ codes ": exhausted "
          ++ decimal cfg.max_retries
          ++ codes " retries"),
      h,
    )
    loop (suc left) k h = elim (pause k h) [
      | err e ↦ (err e, h)
      | ok paused ↦
          let more = loop left (suc k) (request ∷ paused) in
          elim (S.new_request method url) [
            | err e ↦ (err (codes "create request: " ++ e), paused)
            | ok _ ↦
                if goes_on left (S.reply paused)
                then more
                else (finish (S.reply paused), request ∷ paused)
          ]
    ]

    -- doWithRetry, given what json.Marshal makes of the body.
    unfoldable pub do_with_retry : Result Text → Events → Result A × Events
    do_with_retry (err e) h = (err (codes "marshal request body: " ++ e), h)
    do_with_retry (ok body) h = loop (suc cfg.max_retries) 0 h
